-- ===== src/Db/OsAssignments/WellFormed.antt =====
-- What an add keeps of the table of OS assignments (api-server/src/api_v1/db/os_assignments.rs).
use amos2026ss01_zero_downti.Prelude.{
  mem-filter, filter, if◌then◌else◌, ℕ, ◌≡◌, ◌&&◌, refl, sym, ap, ◌∙◌, subst, Bool, true, false,
  Option, List, [], ◌∷◌, ◌++◌, map, Memᴰ, ok, ◌==◌, ◌⊎◌, All, Bool-cases, inl, inr, arith,
}
use amos2026ss01_zero_downti.Db.OsAssignments.Precedence.{IsTargeted}
use amos2026ss01_zero_downti.Db.OsAssignments.Add.{add_os_assignment-replaces, targets_itself}
use amos2026ss01_zero_downti.Db.Table.Laws.{transaction-ok}
use amos2026ss01_zero_downti.Db.OsAssignments.{
  is_null, needs_one_target, some, OsAssignment, OsAssignments, id_of, replaced, supersede_with,
  add_os_assignment, is_active, before_save,
}
use amos2026ss01_zero_downti.Db.OsAssignments.Supersede.{
  IsKeyed, after, supersede_with-rows, All-mem,
}

pub mem-end :
    (xs : List OsAssignment) (r y : OsAssignment) → Memᴰ y (xs ++ r ∷ []) → Memᴰ y xs ⊎ (y ≡ r)
mem-end [] r y (Memᴰ.head q) = inr q
mem-end [] r y (Memᴰ.tail m) = elim m [ ]
mem-end (x ∷ xs) r y (Memᴰ.head q) = inl (Memᴰ.head q)
mem-end (x ∷ xs) r y (Memᴰ.tail m) = elim (mem-end xs r y m) [
  | inl n ↦ inl (Memᴰ.tail n)
  | inr q ↦ inr q
]

mem-map :
    (f : OsAssignment → OsAssignment) (xs : List OsAssignment) (y : OsAssignment)
    → Memᴰ y (map f xs)
    → (x : OsAssignment) × Memᴰ x xs × (y ≡ f x)
mem-map f [] y m = elim m [ ]
mem-map f (x ∷ xs) y (Memᴰ.head q) = (x, Memᴰ.head refl, q)
mem-map f (x ∷ xs) y (Memᴰ.tail m) = let (z, n, q) = mem-map f xs y m in (z, Memᴰ.tail n, q)

after_id :
    (by : ℕ) (device group : Option ℕ) (x : OsAssignment) → id_of (after by device group x) ≡ x.id
after_id by device group x = elim (Bool-cases (replaced device group x)) [
  | inl e ↦ rw e refl
  | inr e ↦ rw e refl
]

-- The rows after an add have keys of their own if those before it had.
IsKeyed-after :
    (device group : Option ℕ) (xs : List OsAssignment) (r : OsAssignment)
    → IsKeyed xs
    → All (λ x. (x.id == r.id) ≡ false) xs
    → IsKeyed (map (after r.id device group) xs ++ r ∷ [])
IsKeyed-after device group xs r keyed fresh x y m n same =
    elim (mem-end (map (after r.id device group) xs) r x m) [
      | inl m' ↦ elim (mem-end (map (after r.id device group) xs) r y n) [
        | inl n' ↦
            let (a, in_a, x_is) = mem-map (after r.id device group) xs x m' in
            let (b, in_b, y_is) = mem-map (after r.id device group) xs y n' in
            let a_id : id_of x ≡ a.id = ap id_of x_is ∙ after_id r.id device group a in
            let b_id : id_of y ≡ b.id = ap id_of y_is ∙ after_id r.id device group b in
            let eq : (a.id == b.id) ≡ true =
              ap (λ i. i == b.id) (sym a_id) ∙ ap (λ i. id_of x == i) (sym b_id) ∙ same in
            x_is ∙ ap (after r.id device group) (keyed a b in_a in_b eq) ∙ sym y_is
        | inr y_is ↦
            let (a, in_a, x_is) = mem-map (after r.id device group) xs x m' in
            let a_id : id_of x ≡ a.id = ap id_of x_is ∙ after_id r.id device group a in
            let no : (a.id == r.id) ≡ false =
              All-mem (λ x. (x.id == r.id) ≡ false) xs a fresh in_a in
            let yes : (a.id == r.id) ≡ true =
              ap (λ i. i == r.id) (sym a_id)
              ∙ ap (λ i. id_of x == i) (sym (ap id_of y_is))
              ∙ same in
            cc
      ]
      | inr x_is ↦ elim (mem-end (map (after r.id device group) xs) r y n) [
        | inl n' ↦
            let (b, in_b, y_is) = mem-map (after r.id device group) xs y n' in
            let b_id : id_of y ≡ b.id = ap id_of y_is ∙ after_id r.id device group b in
            let no : (b.id == r.id) ≡ false =
              All-mem (λ x. (x.id == r.id) ≡ false) xs b fresh in_b in
            let yes : (r.id == b.id) ≡ true =
              ap (λ i. i == b.id) (sym (ap id_of x_is))
              ∙ ap (λ i. id_of x == i) (sym b_id)
              ∙ same in
            let apart : (r.id == b.id) ≡ false = other b.id r.id no in cc
        | inr y_is ↦ x_is ∙ sym y_is
      ]
    ]
  where
    other : (i j : ℕ) → (i == j) ≡ false → (j == i) ≡ false
    other i j h = ground arith

after-targeted :
    (i : ℕ) (device group : Option ℕ) (x : OsAssignment)
    → before_save x ≡ ok tt
    → before_save (after i device group x) ≡ ok tt
after-targeted i device group x h = same (replaced device group x)
  where
    same : (b : Bool) → before_save (if b then record x { superseded_by = some i } else x) ≡ ok tt
    same true = h
    same false = h

-- The new rows have passed the hook as well.
pub added-IsTargeted :
    (i : ℕ) (device group : Option ℕ) (xs : List OsAssignment) (r : OsAssignment)
    → before_save r ≡ ok tt
    → IsTargeted xs
    → IsTargeted (map (after i device group) xs ++ r ∷ [])
added-IsTargeted i device group [] r h all x (Memᴰ.head q) = ap before_save q ∙ h
added-IsTargeted i device group [] r h all x (Memᴰ.tail m) = elim m [ ]
added-IsTargeted i device group (y ∷ xs) r h all x (Memᴰ.head q) =
    ap before_save q ∙ after-targeted i device group y (all y (Memᴰ.head refl))
added-IsTargeted i device group (y ∷ xs) r h all x (Memᴰ.tail m) =
    added-IsTargeted i device group xs r h (λ z n. all z (Memᴰ.tail n)) x m

pub only_mem : (x r : OsAssignment) → Memᴰ x (r ∷ []) → x ≡ r
only_mem x r (Memᴰ.head q) = q
only_mem x r (Memᴰ.tail m) = elim m [ ]

-- At most one active row has the columns of a target.
abbrev pub IsSingle : List OsAssignment → Type 0
IsSingle xs =
    (x y : OsAssignment)
    → Memᴰ x xs
    → Memᴰ y xs
    → is_active x ≡ true
    → is_active y ≡ true
    → x.device_id ≡ y.device_id
    → x.group_id ≡ y.group_id
    → x ≡ y

-- The keys are unique, each row has one target, and each target at most one active row.
abbrev pub IsWellFormed : List OsAssignment → Type 0
IsWellFormed xs = IsKeyed xs × IsTargeted xs × IsSingle xs

and_never : (b : Bool) → (b && false) ≡ false
and_never true = refl
and_never false = refl

-- An active row of the new table that was there before stands as it was.
stays :
    (by : ℕ) (device group : Option ℕ) (x : OsAssignment)
    → is_active (after by device group x) ≡ true
    → after by device group x ≡ x
stays by device group x h = elim (Bool-cases (replaced device group x)) [
  | inl e ↦
      let gone : is_active (after by device group x) ≡ false =
        rw e (and_never (is_null x.deleted_at)) in
      absurd cc
  | inr e ↦ rw e refl
]

pub was_active :
    (by : ℕ) (device group : Option ℕ) (xs : List OsAssignment) (z : OsAssignment)
    → Memᴰ z (map (after by device group) xs)
    → is_active z ≡ true
    → (a : OsAssignment) × Memᴰ a xs × (z ≡ a)
was_active by device group xs z m active =
    let (a, in_a, z_is) = mem-map (after by device group) xs z m in
    (a, in_a, z_is ∙ stays by device group a (ap is_active (sym z_is) ∙ active))

-- The new row is the only active one with its columns, and the others are some of those before.
IsSingle-added :
    (device group : Option ℕ) (xs : List OsAssignment) (r : OsAssignment)
    → needs_one_target device group ≡ ok tt
    → device ≡ r.device_id
    → group ≡ r.group_id
    → filter (replaced device group) (map (after r.id device group) xs ++ r ∷ []) ≡ r ∷ []
    → IsSingle xs
    → IsSingle (map (after r.id device group) xs ++ r ∷ [])
IsSingle-added device group xs r passes dev grp only single x y m n active_x active_y same_d
      same_g =
    elim (mem-end old r x m) [
      | inr x_is ↦
          x_is
          ∙ sym (
              is_new y n active_y (sym same_d ∙ ap (λ z. z.device_id) x_is)
                (sym same_g ∙ ap (λ z. z.group_id) x_is))
      | inl m' ↦ elim (mem-end old r y n) [
        | inr y_is ↦
            is_new x m active_x (same_d ∙ ap (λ z. z.device_id) y_is)
              (same_g ∙ ap (λ z. z.group_id) y_is)
            ∙ sym y_is
        | inl n' ↦
            let (a, in_a, x_a) = was_active r.id device group xs x m' active_x in
            let (b, in_b, y_b) = was_active r.id device group xs y n' active_y in
            x_a
            ∙ single a b in_a in_b (ap is_active (sym x_a) ∙ active_x)
                (ap is_active (sym y_b) ∙ active_y)
                (ap (λ z. z.device_id) (sym x_a) ∙ same_d ∙ ap (λ z. z.device_id) y_b)
                (ap (λ z. z.group_id) (sym x_a) ∙ same_g ∙ ap (λ z. z.group_id) y_b)
            ∙ sym y_b
      ]
    ]
  where
    old : List OsAssignment
    old = map (after r.id device group) xs

    is_new :
        (z : OsAssignment)
        → Memᴰ z (map (after r.id device group) xs ++ r ∷ [])
        → is_active z ≡ true
        → z.device_id ≡ r.device_id
        → z.group_id ≡ r.group_id
        → z ≡ r
    is_new z m active d g =
        let fits : replaced device group z ≡ true =
          rw (active, d, g, sym dev, sym grp) (targets_itself device group passes) in
        only_mem z r (subst (Memᴰ z) only (mem-filter (replaced device group) _ z m fits))

module _ (t : OsAssignments) where
  open t use {Conn, rows}

  -- A successful add keeps the table well-formed: the keys are unique, each row has one target, and
  -- no two active rows have the same target.
  pub add_os_assignment-IsWellFormed :
      (version : ℕ) (device group : Option ℕ) (immediate : Option Bool) (c c' : Conn)
      (r : OsAssignment)
      → IsWellFormed (rows c)
      → add_os_assignment t version device group immediate c ≡ (ok r, c')
      → IsWellFormed (rows c')
  unfolding add_os_assignment
  add_os_assignment-IsWellFormed version device group immediate c c' r (keyed, targeted, single) h =
      let (d, d', started, ran, ended) =
        transaction-ok t (supersede_with t version device group immediate) h in
      let (written, stores, passes, fresh) =
        supersede_with-rows t version device group immediate d d' r
          (subst IsKeyed (sym started) keyed) ran in
      let (all, (v, dev, grp, imm, alive, current), only) =
        add_os_assignment-replaces t version device group immediate c c' r keyed h in
      let fresh' = subst (All (λ x. (x.id == r.id) ≡ false)) started fresh in
      let hook : before_save r ≡ ok tt = rw (sym dev, sym grp) passes in
      subst IsWellFormed (sym all) (
        IsKeyed-after device group (rows c) r keyed fresh',
        added-IsTargeted r.id device group (rows c) r hook targeted,
        IsSingle-added device group (rows c) r passes dev grp
            (ap (filter (replaced device group)) (sym all) ∙ only) single,
      )
