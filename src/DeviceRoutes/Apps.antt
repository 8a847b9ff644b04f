-- ===== src/DeviceRoutes/Apps.antt =====
-- What GET /device/apps answers (api-server/src/api_v1/routes/device/apps.rs).
use amos2026ss01_zero_downti.Prelude.{
  both, ◌⊎◌, ℕ, zero, suc, ◌-◌, ◌^◌, ◌≡◌, refl, sym, ap, subst, Bool, true, Option, some, none,
  List, [], ◌∷◌, any, Memᴰ, Result, ok, err, ◌==◌, ==_iff, take, drop, Bool-cases, Option-cases,
  inl, inr, ◌%◌, ◌*◌,
}
use amos2026ss01_zero_downti.Db.Table.{DbErr, Table, read}
use amos2026ss01_zero_downti.Db.Table.Laws.{>>=-ok, read-ok, find_one-some}
use amos2026ss01_zero_downti.Db.ApplicationAssignments.{
  ApplicationAssignment, ApplicationAssignments, ConfigRow, for_device, ordered, application_of,
  is_wanted, deduplicate, paginate, list_application_assignments_for_device,
}
use amos2026ss01_zero_downti.Db.ApplicationConfigs.{
  ApplicationConfig, ApplicationConfigs, is_active, is_current, get_application_config,
}
use amos2026ss01_zero_downti.DeviceRoutes.{
  or_500, with_config, configs_of, all_configs, apps_get_assigned, get_apps,
}

abbrev fst_of : Result DbErr (List ApplicationAssignment × ℕ) → List ApplicationAssignment
fst_of (ok (found_rows, n)) = found_rows
fst_of (err e) = []

module _ {A : Type 0} where
  mem-take : (n : ℕ) (xs : List A) (x : A) → Memᴰ x (take n xs) → Memᴰ x xs
  mem-take zero xs x m = elim m [ ]
  mem-take (suc n) [] x m = elim m [ ]
  mem-take (suc n) (y ∷ xs) x (Memᴰ.head e) = Memᴰ.head e
  mem-take (suc n) (y ∷ xs) x (Memᴰ.tail m) = Memᴰ.tail (mem-take n xs x m)

  mem-drop : (n : ℕ) (xs : List A) (x : A) → Memᴰ x (drop n xs) → Memᴰ x xs
  mem-drop zero xs x m = m
  mem-drop (suc n) [] x m = elim m [ ]
  mem-drop (suc n) (y ∷ xs) x m = Memᴰ.tail (mem-drop n xs x m)

mem-deduplicate :
    (app : ℕ → Option ℕ) (seen : List ℕ) (ms : List ApplicationAssignment)
    (x : ApplicationAssignment)
    → Memᴰ x (deduplicate app seen ms)
    → Memᴰ x ms
unfolding deduplicate
mem-deduplicate app seen [] x m = elim m [ ]
mem-deduplicate app seen (y ∷ ms) x m = elim (Option-cases (app y.application_config_id)) [
  | inl e ↦ Memᴰ.tail (mem-deduplicate app seen ms x (rw e at m))
  | inr (a, e) ↦ elim (Bool-cases (any (λ b. b == a) seen)) [
    | inl f ↦ Memᴰ.tail (mem-deduplicate app seen ms x (rw (e, f) at m))
    | inr f ↦ kept a (rw (e, f) at m) (mem-deduplicate app (a ∷ seen) ms x)
  ]
]
  where
    kept :
        (a : ℕ)
        → Memᴰ x (y ∷ deduplicate app (a ∷ seen) ms)
        → (Memᴰ x (deduplicate app (a ∷ seen) ms) → Memᴰ x ms)
        → Memᴰ x (y ∷ ms)
    kept a (Memᴰ.head e) later = Memᴰ.head e
    kept a (Memᴰ.tail n) later = Memᴰ.tail (later n)

module _ (configs : ApplicationConfigs) where
  -- The config is active, and an assignment names it.
  abbrev pub IsNamed : List ApplicationAssignment → Table.Conn configs → ApplicationConfig → Type 0
  IsNamed found_rows c r =
      Memᴰ r (configs.rows c)
      × (is_active r ≡ true)
      × ((a : ApplicationAssignment) × Memᴰ a found_rows × (a.application_config_id ≡ r.id))

  with_config-ok :
      (o : Result DbErr (Option ApplicationConfig)) (rest : Result DbErr (List ApplicationConfig))
      (rs : List ApplicationConfig) (r : ApplicationConfig)
      → with_config configs o rest ≡ ok rs
      → Memᴰ r rs
      → (o ≡ ok (some r)) ⊎ ((rs' : List ApplicationConfig) × (rest ≡ ok rs') × Memᴰ r rs')
  with_config-ok (err e) rest rs r h m = cc
  with_config-ok (ok none) rest rs r h m = inr (rs, h, m)
  with_config-ok (ok (some x)) (err e) rs r h m = cc
  with_config-ok (ok (some x)) (ok rs') rs r h m =
      let same : rs ≡ x ∷ rs' = cc in here (subst (λ l. Memᴰ r l) same m)
    where
      here :
          Memᴰ r (x ∷ rs')
          → (◌≡◌ {A = Result DbErr (Option ApplicationConfig)} (ok (some x)) (ok (some r)))
            ⊎ ((l : List ApplicationConfig) × (◌≡◌ {A = Result DbErr (List ApplicationConfig)}
                  (ok rs')
                  (ok l))
                × Memᴰ r l)
      here (Memᴰ.head e) = inl (ap (λ y. ok (some y)) (sym e))
      here (Memᴰ.tail n) = inr (rs', refl, n)

  configs_of-IsNamed :
      (found_rows : List ApplicationAssignment) (c : Table.Conn configs)
      (rs : List ApplicationConfig) (r : ApplicationConfig)
      → configs_of configs found_rows c ≡ ok rs
      → Memᴰ r rs
      → IsNamed found_rows c r
  unfolding configs_of get_application_config
  configs_of-IsNamed [] c rs r h m =
      let same : rs ≡ [] = cc in let no : Memᴰ r [] = subst (λ l. Memᴰ r l) same m in elim no [ ]
  configs_of-IsNamed (a ∷ found_rows) c rs r h m =
      elim (with_config-ok (get_application_config configs a.application_config_id c).0
        (configs_of configs found_rows c) rs r h m) [
          | inl got ↦
              let (mem, current) =
                find_one-some configs (is_current a.application_config_id) c r got in
              let (active, named) = both _ _ current in
              (
                mem,
                active,
                (a, Memᴰ.head refl, sym ((==_iff r.id a.application_config_id).0 named)),
              )
          | inr (rs', later, n) ↦
              let (mem, active, (b, mb, named)) = configs_of-IsNamed found_rows c rs' r later n in
              (mem, active, (b, Memᴰ.tail mb, named))
        ]

module _ (configs : ApplicationConfigs) (assignments : ApplicationAssignments)
    (config_rows : (ConfigRow → Bool) → Table.Conn assignments → Result DbErr (List ConfigRow))
    (nulls_first : Bool) where
  open assignments use {Conn, rows, select_by, select_by_mem}

  listed-mem :
      (device : ℕ) (group : Option ℕ) (page page_size : ℕ) (c : Conn)
      (found_rows : List ApplicationAssignment) (n : ℕ) (a : ApplicationAssignment)
      → (list_application_assignments_for_device assignments config_rows nulls_first device group
          none page page_size c).0
        ≡ ok (found_rows, n)
      → Memᴰ a found_rows
      → Memᴰ a (rows c) × (for_device device group none a ≡ true)
  unfolding list_application_assignments_for_device paginate
  listed-mem device group page page_size c found_rows n a h m =
      let query = select_by (ordered nulls_first) (for_device device group none) in
      let run =
        list_application_assignments_for_device assignments config_rows nulls_first device group
          none page page_size c in
      let whole : run ≡ (ok (found_rows, n), run.1) = λ i. (h i, run.1) in
      let (all, c1, selected, h1) = >>=-ok (read query) _ whole in
      let (selected', c1_is) = read-ok query selected in
      let (app_configs, c2, mapped, h2) = >>=-ok (read (config_rows (is_wanted all))) _ h1 in
      let kept = deduplicate (application_of app_configs) [] all in
      let as_is : take page_size (drop ((page * page_size) % 2 ^ 64) kept) ≡ found_rows =
        ap (λ (r : Result DbErr (List ApplicationAssignment × ℕ) × Conn). fst_of r.0) h2 in
      let m1 : Memᴰ a (take page_size (drop ((page * page_size) % 2 ^ 64) kept)) =
        subst (λ l. Memᴰ a l) (sym as_is) m in
      (select_by_mem selected' a).0 (
        mem-deduplicate (application_of app_configs) [] all a
          (mem-drop _ kept a (mem-take page_size _ a m1)))

  or_500-ok :
      (r : Result DbErr (List ApplicationConfig)) (rs : List ApplicationConfig)
      → or_500 r ≡ ok rs
      → r ≡ ok rs
  or_500-ok (ok x) rs h = let same : x ≡ rs = cc in ap ok same
  or_500-ok (err e) rs h = cc

  all_configs-ok :
      (cg : Table.Conn configs) (r : Result DbErr (List ApplicationAssignment × ℕ))
      (rs : List ApplicationConfig)
      → all_configs configs assignments config_rows nulls_first cg r ≡ ok rs
      → (found_rows : List ApplicationAssignment) × (n : ℕ) × (r ≡ ok (found_rows, n))
        × (configs_of configs found_rows cg ≡ ok rs)
  all_configs-ok cg (err e) rs h = cc
  all_configs-ok cg (ok (found_rows, n)) rs h = (found_rows, n, refl, h)

  -- Every config that a device is told to run is an active row, and an active assignment of the
  -- device or its group names it.
  pub get_apps-assigned :
      (device : ℕ) (group : Option ℕ) (ca : Conn) (cg : Table.Conn configs)
      (rs : List ApplicationConfig)
      → get_apps configs assignments config_rows nulls_first device group ca cg ≡ ok rs
      → (r : ApplicationConfig) → Memᴰ r rs
      → Memᴰ r (configs.rows cg)
        × (is_active r ≡ true)
        × ((a : ApplicationAssignment) × Memᴰ a (rows ca)
            × (for_device device group none a ≡ true)
            × (a.application_config_id ≡ r.id))
  unfolding get_apps apps_get_assigned
  get_apps-assigned device group ca cg rs h r m =
      let (found_rows, n, listed, found) = all_configs-ok cg _ rs (or_500-ok _ rs h) in
      let (mem, active, (a, ma, named)) = configs_of-IsNamed configs found_rows cg rs r found m in
      let (stored, applies) = listed-mem device group 0 (2 ^ 64 - 1) ca found_rows n a listed ma in
      (mem, active, (a, stored, applies, named))
