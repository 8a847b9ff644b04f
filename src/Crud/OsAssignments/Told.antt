-- ===== src/Crud/OsAssignments/Told.antt =====
-- From POST /os-assignments to what the device is told by GET /device/os.
use amos2026ss01_zero_downti.Prelude.{
  inr, inl, ℕ, ◌≡◌, refl, sym, ap, ◌∙◌, subst, Bool, true, false, ◌&&◌, Option, some, none, List,
  [], ◌∷◌, ◌++◌, map, Memᴰ, mem-filter, mem-last, ok, ==_iff, is_num,
}
use amos2026ss01_zero_downti.Routes.{answer, created}
use amos2026ss01_zero_downti.Db.Table.{Table}
use amos2026ss01_zero_downti.Db.Assignments.{applies_to, needs_one_target}
use amos2026ss01_zero_downti.Db.OsAssignments.{
  OsAssignment, OsAssignments, Stores, or_false, before_save, replaced, for_device,
  add_os_assignment, list_os_assignments_for_device,
}
use amos2026ss01_zero_downti.Db.OsAssignments.Supersede.{IsKeyed, after, requested}
use amos2026ss01_zero_downti.Db.OsAssignments.WellFormed.{
  added-IsTargeted, only_mem, mem-end, was_active,
}
use amos2026ss01_zero_downti.Db.OsAssignments.Add.{add_os_assignment-replaces}
use amos2026ss01_zero_downti.Db.OsAssignments.Precedence.{
  same_num, IsUncontested, IsTargeted, list_os_assignments_for_device-own,
}
use amos2026ss01_zero_downti.Db.OsVersions.{OsVersions, get_os_version}
use amos2026ss01_zero_downti.DeviceRoutes.{
  versioned, first_version, os_response, or_500, os_get_assigned, get_os,
}
use amos2026ss01_zero_downti.Crud.Laws.{unless-created}
use amos2026ss01_zero_downti.Crud.OsAssignments.{
  is_active, OsAssignmentCreate, create_os_assignment,
}

abbrev pub for_the_device : ℕ → ℕ → Option Bool → OsAssignmentCreate
for_the_device version d immediate = record {
  os_version_id = version;
  device_id = some d;
  group_id = none;
  immediate = immediate;
}

applies_own : (d : ℕ) (g : Option ℕ) → applies_to d g (some d) none ≡ true
applies_own d none = (==_iff d d).1 refl
applies_own d (some g) = rw (==_iff d d).1 refl

-- An assignment for a device adds none for the group.
added-IsUncontested :
    (nulls_first : Bool) (g : Option ℕ) (i d : ℕ) (xs : List OsAssignment) (r : OsAssignment)
    → none ≡ r.group_id
    → IsUncontested nulls_first g xs
    → IsUncontested nulls_first g (map (after i (some d) none) xs ++ r ∷ [])
added-IsUncontested nulls_first g i d xs r is_none (inl last) = inl last
added-IsUncontested nulls_first g i d xs r is_none (inr free) = inr (λ x m active.
    elim (mem-end (map (after i (some d) none) xs) r x m) [
      | inl old ↦
          let (b, in_b, x_is) = was_active i (some d) none xs x old active in
          ap (λ z. same_num g z.group_id) x_is ∙ free b in_b (ap is_active (sym x_is) ∙ active)
      | inr new ↦ ap (λ z. same_num g z.group_id) new ∙ ap (same_num g) (sym is_none) ∙ no_group g
    ])
  where
    no_group : (g : Option ℕ) → same_num g none ≡ false
    no_group none = refl
    no_group (some n) = refl

module _ (t : OsAssignments) where
  open t use {Conn, rows}

  -- Which assignment the device then gets.
  created-listed :
      (nulls_first : Bool) (version d : ℕ) (g : Option ℕ) (immediate : Option Bool) (c c' : Conn)
      (a : OsAssignment) (page : List OsAssignment) (n : ℕ)
      → IsKeyed (rows c)
      → IsTargeted (rows c)
      → IsUncontested nulls_first g (rows c)
      → add_os_assignment t version (some d) none immediate c ≡ (ok a, c')
      → (list_os_assignments_for_device t nulls_first d g none c').0 ≡ ok (page, n)
      → (page ≡ a ∷ []) × Stores (requested version (some d) none immediate) a
  unfolding needs_one_target
  created-listed nulls_first version d g immediate c c' a page n keyed targeted free h listed =
      let (all, stores, only) =
        add_os_assignment-replaces t version (some d) none immediate c c' a keyed h in
      let (is_version, is_device, is_group, imm, alive, current) = stores in
      let passes : before_save a ≡ ok tt = rw (sym is_device, sym is_group) refl in
      let applies : for_device d g none a ≡ true =
        rw (alive, current, sym is_device, sym is_group) (ap (λ b. b && true) (applies_own d g)) in
      let own : is_num a.device_id d ≡ true = rw (sym is_device) ((==_iff d d).1 refl) in
      let in_rows : Memᴰ a (rows c') =
        subst (Memᴰ a) (sym all) (mem-last (map (after a.id (some d) none) (rows c)) a) in
      let hooked : IsTargeted (rows c') =
        subst IsTargeted (sym all)
          (added-IsTargeted a.id (some d) none (rows c) a passes targeted) in
      let uncontested : IsUncontested nulls_first g (rows c') =
        subst (IsUncontested nulls_first g) (sym all)
          (added-IsUncontested nulls_first g a.id d (rows c) a is_group free) in
      let run = list_os_assignments_for_device t nulls_first d g none c' in
      let whole : run ≡ (ok (page, n), run.1) = λ i. (listed i, run.1) in
      let (w, is_page, is_one, w_in, active, w_own) =
        list_os_assignments_for_device-own t nulls_first d g none c' run.1 page n a hooked
          uncontested whole in_rows applies own in
      let w_replaced : replaced (some d) none w ≡ true = rw (active, w_own) refl in
      let w_left =
        subst (Memᴰ w) only (mem-filter (replaced (some d) none) (rows c') w w_in w_replaced) in
      (is_page ∙ ap (λ x. x ∷ []) (only_mem w a w_left), stores)

  module _ (versions : OsVersions) where
    -- Where the keys are unique and every row has one target, and NULL sorts last or the group of the
    -- device has no active assignment: once POST /os-assignments has answered 201 to an assignment
    -- for a device, each reading of the device's assignments that succeeds gives the new row alone,
    -- and GET /device/os looks for the version that was posted and answers with it and the posted
    -- `immediate`, which is false if there was none, or with 500 if no such active version could be read.
    pub create_os_assignment-told :
        (nulls_first : Bool) (version d : ℕ) (g : Option ℕ) (immediate : Option Bool) (c c' : Conn)
        (a : OsAssignment) (page : List OsAssignment) (n : ℕ) (cv : Table.Conn versions)
        → IsKeyed (rows c)
        → IsTargeted (rows c)
        → IsUncontested nulls_first g (rows c)
        → create_os_assignment t (for_the_device version d immediate) c ≡ (answer created a, c')
        → (list_os_assignments_for_device t nulls_first d g none c').0 ≡ ok (page, n)
        → (page ≡ a ∷ [])
          × (a.os_version_id ≡ version)
          × (a.immediate ≡ or_false immediate)
          × (get_os versions t nulls_first d g c' cv
              ≡ or_500 (
                  os_response versions t nulls_first
                    (versioned versions a (get_os_version versions version cv).0)))
    unfolding create_os_assignment get_os os_get_assigned
    create_os_assignment-told nulls_first version d g immediate c c' a page n cv keyed targeted free
          h listed =
        let body = for_the_device version d immediate in
        let (passes, ran) =
          unless-created none (add_os_assignment t version (some d) none immediate) c c' a h in
        let (is_page, (is_version, is_device, is_group, imm, alive, current)) =
          created-listed nulls_first version d g immediate c c' a page n keyed targeted free ran
            listed in
        (
          is_page,
          sym is_version,
          imm,
          ap (λ r. or_500 (os_response versions t nulls_first (first_version versions cv r)))
                (listed ∙ ap (λ p. ok (p, n)) is_page)
              ∙ ap
                  (λ v. or_500 (
                    os_response versions t nulls_first
                      (versioned versions a (get_os_version versions v cv).0)))
                  (sym is_version),
        )
