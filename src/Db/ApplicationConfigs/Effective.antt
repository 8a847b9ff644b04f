-- ===== src/Db/ApplicationConfigs/Effective.antt =====
-- Which configs a device gets (`list_application_configs_for_device`).
use Prim.Native.Nat.{compare}
use amos2026ss01_zero_downti.Prelude.{
  ℕ, ◌≡◌, refl, subst, ltb, sym, true, Option, some, none, List, [], filter, Memᴰ, Result, ok,
  is_num,
}
use amos2026ss01_zero_downti.Db.Table.{DbErr, read}
use amos2026ss01_zero_downti.Db.Table.Laws.{>>=-ok, read-ok}
use amos2026ss01_zero_downti.Db.Assignments.{applies_to}
use amos2026ss01_zero_downti.Db.ApplicationConfigs.{
  ApplicationConfig, ApplicationConfigs, of_device, has_group, insert_all, values, effective,
  list_application_configs_for_device,
}
use amos2026ss01_zero_downti.Db.ApplicationConfigs.ByApplication.{get-mem, insert_all-get}
use amos2026ss01_zero_downti.Db.ApplicationConfigs.Members.{mem-sort_by, filter-mem}

-- A device with a config of its own for an application is given one of its own for it, whatever the
-- configs of its group.
effective-own :
    (d : ℕ) (configs : List ApplicationConfig) (x : ApplicationConfig)
    → Memᴰ x configs
    → of_device d x ≡ true
    → (w : ApplicationConfig) × Memᴰ w (effective d configs)
      × (w.application_id ≡ x.application_id)
      × (of_device d w ≡ true)
unfolding effective
effective-own d configs x m own =
    let groups = insert_all (filter has_group configs) [] in
    let (w, g, i, same) =
      insert_all-get (filter (of_device d) configs) groups x
        ((filter-mem (of_device d) configs x).0 m own) in
    (
      w,
      mem-sort_by (λ (a b : ApplicationConfig). compare a.id b.id)
          (values (insert_all (filter (of_device d) configs) groups)) w
          (get-mem x.application_id w (insert_all (filter (of_device d) configs) groups) g),
      same,
      (filter-mem (of_device d) configs w).1 i,
    )

applies_own :
    (d : ℕ) (group device own_group : Option ℕ)
    → is_num device d ≡ true
    → applies_to d group device own_group ≡ true
applies_own d none device own_group h = h
applies_own d (some g) device own_group h = rw h refl

module _ (t : ApplicationConfigs) where
  open t use {Conn, rows, select_by, select_by_mem}

  -- A device that has a config of its own for an application is given one of its own for that
  -- application, whatever its group has. The row need not be active: a deleted or superseded config
  -- counts as well.
  pub list_application_configs_for_device-own :
      (group_of : ℕ → Conn → Result DbErr (Option ℕ)) (d : ℕ) (c c' : Conn)
      (result : List ApplicationConfig) (x : ApplicationConfig)
      → list_application_configs_for_device t group_of d c ≡ (ok result, c')
      → Memᴰ x (rows c)
      → of_device d x ≡ true
      → (w : ApplicationConfig) × Memᴰ w result
        × (w.application_id ≡ x.application_id)
        × (of_device d w ≡ true)
  unfolding list_application_configs_for_device
  list_application_configs_for_device-own group_of d c c' result x h m own =
      let (group, c1, grouped, h1) = >>=-ok (read (group_of d)) _ h in
      let (g, same) = read-ok (group_of d) grouped in
      let query =
        select_by (λ (a b : ApplicationConfig). ltb a.id b.id)
          (λ (y : ApplicationConfig). applies_to d group y.device_id y.group_id) in
      let (configs, c2, selected, h2) = >>=-ok (read query) _ h1 in
      let (sel, same2) = read-ok query selected in
      let listed =
        (select_by_mem sel x).1 (subst (λ e. Memᴰ x (rows e)) (sym same) m)
          (applies_own d group x.device_id x.group_id own) in
      let is_result : effective d configs ≡ result = cc in
      let (w, n, app, w_own) = effective-own d configs x listed own in
      (w, subst (Memᴰ w) is_result n, app, w_own)
