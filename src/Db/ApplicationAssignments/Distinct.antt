-- ===== src/Db/ApplicationAssignments/Distinct.antt =====
-- How often the listing for a device has an application.
use amos2026ss01_zero_downti.Prelude.{
  ℕ, ◌*◌, ◌%◌, ◌^◌, ◌≡◌, refl, sym, ap, ◌∙◌, Bool, true, false, Option, some, List, [], ◌∷◌, any,
  Memᴰ, Result, ok, ◌==◌, ==_iff, length, take, drop, Bool-cases, Option-cases, inl, inr,
}
use amos2026ss01_zero_downti.Db.Table.{DbErr, read}
use amos2026ss01_zero_downti.Db.Table.Laws.{>>=-ok, read-ok}
use amos2026ss01_zero_downti.Db.ApplicationAssignments.{
  ApplicationAssignment, ConfigRow, ApplicationAssignments, for_device, ordered, application_of,
  is_wanted, deduplicate, paginate, list_application_assignments_for_device,
}

-- Each row has an application, none of those in `seen` and none of another row's.
abbrev pub IsDistinct : (ℕ → Option ℕ) → List ℕ → List ApplicationAssignment → Type 0
IsDistinct app seen [] = Unit
IsDistinct app seen (m ∷ ms) =
    (a : ℕ) × (app m.application_config_id ≡ some a)
    × (any (λ b. b == a) seen ≡ false)
    × IsDistinct app (a ∷ seen) ms

-- A row whose application was seen before, or is one of a listed row.
abbrev pub IsCovered :
    (ℕ → Option ℕ) → List ℕ → List ApplicationAssignment → ApplicationAssignment → Type 0
IsCovered app seen ms x =
    (a : ℕ)
    → app x.application_config_id ≡ some a
    → any (λ b. b == a) seen ≡ false
    → (w : ApplicationAssignment) × Memᴰ w ms × (app w.application_config_id ≡ some a)

deduplicate-IsDistinct :
    (app : ℕ → Option ℕ) (seen : List ℕ) (ms : List ApplicationAssignment)
    → IsDistinct app seen (deduplicate app seen ms)
unfolding deduplicate
deduplicate-IsDistinct app seen [] = tt
deduplicate-IsDistinct app seen (m ∷ ms) = elim (Option-cases (app m.application_config_id)) [
  | inl e ↦ rw e (deduplicate-IsDistinct app seen ms)
  | inr (a, e) ↦ elim (Bool-cases (any (λ b. b == a) seen)) [
    | inl f ↦ rw (e, f) (deduplicate-IsDistinct app seen ms)
    | inr f ↦ rw (e, f) (a, e, f, deduplicate-IsDistinct app (a ∷ seen) ms)
  ]
]

deduplicate-mem :
    (app : ℕ → Option ℕ) (seen : List ℕ) (ms : List ApplicationAssignment)
    (x : ApplicationAssignment)
    → Memᴰ x (deduplicate app seen ms)
    → Memᴰ x ms
unfolding deduplicate
deduplicate-mem app seen [] x h = h
deduplicate-mem app seen (m ∷ ms) x h = elim (Option-cases (app m.application_config_id)) [
  | inl e ↦ Memᴰ.tail (deduplicate-mem app seen ms x (rw e at h))
  | inr (a, e) ↦ elim (Bool-cases (any (λ b. b == a) seen)) [
    | inl f ↦ Memᴰ.tail (deduplicate-mem app seen ms x (rw (e, f) at h))
    | inr f ↦ later a (rw (e, f) at h) (deduplicate-mem app (a ∷ seen) ms x)
  ]
]
  where
    later :
        (a : ℕ)
        → Memᴰ x (m ∷ deduplicate app (a ∷ seen) ms)
        → (Memᴰ x (deduplicate app (a ∷ seen) ms) → Memᴰ x ms)
        → Memᴰ x (m ∷ ms)
    later a (Memᴰ.head q) rest = Memᴰ.head q
    later a (Memᴰ.tail n) rest = Memᴰ.tail (rest n)

deduplicate-IsCovered :
    (app : ℕ → Option ℕ) (seen : List ℕ) (ms : List ApplicationAssignment)
    (x : ApplicationAssignment)
    → Memᴰ x ms
    → IsCovered app seen (deduplicate app seen ms) x
unfolding deduplicate
deduplicate-IsCovered app seen [] x m a e f = elim m [ ]
deduplicate-IsCovered app seen (y ∷ ms) x (Memᴰ.head q) a e f =
    let y_has : app y.application_config_id ≡ some a =
      ap (λ (z : ApplicationAssignment). app z.application_config_id) (sym q) ∙ e in
    rw (y_has, f) (y, Memᴰ.head refl, y_has)
deduplicate-IsCovered app seen (y ∷ ms) x (Memᴰ.tail m) a e f =
    elim (Option-cases (app y.application_config_id)) [
      | inl g ↦ rw g (deduplicate-IsCovered app seen ms x m a e f)
      | inr (b, g) ↦ elim (Bool-cases (any (λ c. c == b) seen)) [
        | inl h ↦ rw (g, h) (deduplicate-IsCovered app seen ms x m a e f)
        | inr h ↦ elim (Bool-cases (b == a)) [
          | inl k ↦ rw (g, h) (y, Memᴰ.head refl, g ∙ ap some ((==_iff b a).0 k))
          | inr k ↦
              let (w, n, z) = deduplicate-IsCovered app (b ∷ seen) ms x m a e (rw k f) in
              rw (g, h) (w, Memᴰ.tail n, z)
        ]
      ]
    ]

module _ (t : ApplicationAssignments) where
  open t use {Conn, rows, select_by, select_by_mem}

  -- The listing of a device's application assignments is a page of a list that has no application
  -- twice, in which every row is an active one of the device or its group, and every such row whose
  -- config is among the selected ones has its application; the total is the length of that list.
  pub list_application_assignments_for_device-IsDistinct :
      (configs : (ConfigRow → Bool) → Conn → Result DbErr (List ConfigRow)) (nulls_first : Bool)
      (d : ℕ) (g v : Option ℕ) (page page_size : ℕ) (c c' : Conn)
      (paged : List ApplicationAssignment) (n : ℕ)
      → list_application_assignments_for_device t configs nulls_first d g v page page_size c
        ≡ (ok (paged, n), c')
      → (all : List ApplicationAssignment) × (app_configs : List ConfigRow) × (full : List
          ApplicationAssignment)
        × (configs (is_wanted all) c ≡ ok app_configs)
        × (paged ≡ take page_size (drop ((page * page_size) % 2 ^ 64) full))
        × (n ≡ length full)
        × (IsDistinct (application_of app_configs) [] full)
        × ((x : ApplicationAssignment)
            → Memᴰ x full
            → Memᴰ x (rows c) × (for_device d g v x ≡ true))
        × ((x : ApplicationAssignment)
            → Memᴰ x (rows c)
            → for_device d g v x ≡ true
            → Memᴰ x all × IsCovered (application_of app_configs) [] full x)
  unfolding list_application_assignments_for_device paginate
  list_application_assignments_for_device-IsDistinct configs nulls_first d g v page page_size c c'
        paged n h =
      let (all, c1, selected, h1) =
        >>=-ok (read (select_by (ordered nulls_first) (for_device d g v))) _ h in
      let (sel, same) = read-ok (select_by (ordered nulls_first) (for_device d g v)) selected in
      let (app_configs, c2, resolved, h2) = >>=-ok (read (configs (is_wanted all))) _ h1 in
      let (got, same2) = read-ok (configs (is_wanted all)) resolved in
      let app = application_of app_configs in
      (
        all,
        app_configs,
        deduplicate app [] all,
        ap (configs (is_wanted all)) (sym same) ∙ got,
        (cc),
        (cc),
        deduplicate-IsDistinct app [] all,
        (λ x m. (select_by_mem sel x).0 (deduplicate-mem app [] all x m)),
        (λ x m applies.
            let listed = (select_by_mem sel x).1 m applies in
            (listed, deduplicate-IsCovered app [] all x listed)),
      )
