-- ===== src/Db/OsAssignments/Add.antt =====
-- What `add_os_assignment` promises, and what the unique index of PostgreSQL makes of it
-- (api-server/src/db_migration/m20260713_000001_add_unique_active_assignment.rs).
use amos2026ss01_zero_downti.Prelude.{
  ℕ, ◌≡◌, refl, sym, ap, ◌∙◌, subst, Bool, true, false, ◌&&◌, ◌||◌, Option, some, none, List, [],
  ◌∷◌, ◌++◌, map, Memᴰ, filter, Result, ok, err, Bool-cases, inl, inr, arith, is_num,
}
use amos2026ss01_zero_downti.Db.Table.{DbErr}
use amos2026ss01_zero_downti.Db.Table.Laws.{transaction-ok, transaction-err}
use amos2026ss01_zero_downti.Db.Assignments.{is_null, targets, needs_one_target}
use amos2026ss01_zero_downti.Db.OsAssignments.{
  OsAssignment, ActiveModel, OsAssignments, Stores, is_active, replaced, supersede_with,
  add_os_assignment,
}
use amos2026ss01_zero_downti.Db.OsAssignments.Precedence.{same_num}
use amos2026ss01_zero_downti.Db.OsAssignments.Supersede.{
  IsKeyed, after, supersede_with-rows, supersede_with-ok, requested,
}

and-false : (a b : Bool) → (a && false && b) ≡ false
and-false true b = refl
and-false false b = refl

pub gone :
    (by : ℕ) (device group : Option ℕ) (x : OsAssignment)
    → replaced device group (after by device group x) ≡ false
gone by device group x = elim (Bool-cases (replaced device group x)) [
  | inl e ↦ rw e (and-false (is_null x.deleted_at) (targets device group x.device_id x.group_id))
  | inr e ↦ rw e e
]

none_left :
    (by : ℕ) (device group : Option ℕ) (xs : List OsAssignment)
    → filter (replaced device group) (map (after by device group) xs) ≡ []
none_left by device group [] = refl
none_left by device group (x ∷ xs) = rw (gone by device group x) (none_left by device group xs)

filter-end :
    (p : OsAssignment → Bool) (xs : List OsAssignment) (r : OsAssignment)
    → p r ≡ true
    → filter p (xs ++ r ∷ []) ≡ filter p xs ++ r ∷ []
filter-end p [] r h = rw h
filter-end p (x ∷ xs) r h = elim (Bool-cases (p x)) [
  | inl e ↦ rw e (ap (◌∷◌ x) (filter-end p xs r h))
  | inr e ↦ rw e (filter-end p xs r h)
]

pub targets_itself :
    (device group : Option ℕ)
    → needs_one_target device group ≡ ok tt
    → targets device group device group ≡ true
unfolding needs_one_target
targets_itself (some d) group h = ground arith
targets_itself none (some g) h = ground arith
targets_itself none none h = refl

pub new_matches :
    (device group : Option ℕ) (r : OsAssignment)
    → needs_one_target device group ≡ ok tt
    → device ≡ r.device_id
    → group ≡ r.group_id
    → r.deleted_at ≡ none
    → r.superseded_by ≡ none
    → replaced device group r ≡ true
new_matches device group r passes d g alive current =
    rw (alive, current, sym d, sym g) (targets_itself device group passes)

-- Whether a row has the device of a request, or its group.
abbrev pub shares : Option ℕ → Option ℕ → OsAssignment → Bool
shares device group x = same_num device x.device_id || same_num group x.group_id

or-false : (b : Bool) → (b || false) ≡ b
or-false true = refl
or-false false = refl

replaced-shares :
    (device group : Option ℕ) (x : OsAssignment)
    → needs_one_target device group ≡ ok tt
    → replaced device group x ≡ true
    → (is_active x && shares device group x) ≡ true
unfolding needs_one_target
replaced-shares (some d) (some g) x h r = cc
replaced-shares (some d) none x h r = rw (or-false (is_num x.device_id d)) r
replaced-shares none (some g) x h r = r
replaced-shares none none x h r = cc

module _ (t : OsAssignments) where
  open t use {Conn, rows, insert}

  -- Adding an assignment, when it succeeds on a table with unique keys, appends the new row with
  -- the columns of the request, supersedes with it the active rows of the target and leaves all
  -- others as they were; the new row is then the only active one of the target.
  pub add_os_assignment-replaces :
      (version : ℕ) (device group : Option ℕ) (immediate : Option Bool) (c c' : Conn)
      (r : OsAssignment)
      → IsKeyed (rows c)
      → add_os_assignment t version device group immediate c ≡ (ok r, c')
      → (rows c' ≡ map (after r.id device group) (rows c) ++ r ∷ [])
        × (Stores (requested version device group immediate) r)
        × (filter (replaced device group) (rows c') ≡ r ∷ [])
  unfolding add_os_assignment
  add_os_assignment-replaces version device group immediate c c' r keyed h =
      let (d, d', started, ran, ended) =
        transaction-ok t (supersede_with t version device group immediate) h in
      let (written, stores, passes, fresh) =
        supersede_with-rows t version device group immediate d d' r
          (subst IsKeyed (sym started) keyed) ran in
      let all = ended ∙ written ∙ ap (λ xs. map (after r.id device group) xs ++ r ∷ []) started in
      let (v, dev, grp, imm, alive, current) = stores in
      (
        all,
        stores,
        ap (filter (replaced device group)) all
            ∙ filter-end (replaced device group) (map (after r.id device group) (rows c)) r
                (new_matches device group r passes dev grp alive current)
            ∙ ap (◌++ r ∷ []) (none_left r.id device group (rows c)),
      )

  -- Adding an assignment, when it fails, leaves the connection as it was.
  pub add_os_assignment-err :
      (version : ℕ) (device group : Option ℕ) (immediate : Option Bool) (c : Conn) (e : DbErr)
      → (add_os_assignment t version device group immediate c).0 ≡ err e
      → (add_os_assignment t version device group immediate c).1 ≡ c
  unfolding add_os_assignment
  add_os_assignment-err version device group immediate c e h =
      transaction-err t (supersede_with t version device group immediate) c h

  -- The partial unique indexes: no insert succeeds beside an active row of the same target.
  abbrev pub IsIndexed : Type 0
  IsIndexed =
      (a : ActiveModel) (c c' : Conn) (r : OsAssignment)
      → insert a c ≡ ok (r, c')
      → (x : OsAssignment) → Memᴰ x (rows c)
      → (is_active x && shares a.device_id a.group_id x) ≡ false

  -- Under the unique indexes, adding an assignment for a target that has an active row always
  -- fails, and changes nothing.
  pub add_os_assignment-conflict :
      (version : ℕ) (device group : Option ℕ) (immediate : Option Bool) (c : Conn)
      (x : OsAssignment)
      → IsIndexed
      → Memᴰ x (rows c)
      → replaced device group x ≡ true
      → (e : DbErr) × (add_os_assignment t version device group immediate c ≡ (err e, c))
  unfolding add_os_assignment
  add_os_assignment-conflict version device group immediate c x indexed m active =
      failed (add_os_assignment t version device group immediate c) refl
    where
      failed :
          (o : Result DbErr OsAssignment × Conn)
          → o ≡ add_os_assignment t version device group immediate c
          → (e : DbErr) × (o ≡ (err e, c))
      failed (err e, c') h = (
        e,
        ap (λ d. (err e, d))
            (ap (λ (o : Result DbErr OsAssignment × Conn). o.1) h
              ∙ add_os_assignment-err version device group immediate c e
                  (ap (λ (o : Result DbErr OsAssignment × Conn). o.0) (sym h))),
      )
      failed (ok r, c') h =
          let (d, d', started, ran, ended) =
            transaction-ok t (supersede_with t version device group immediate) (sym h) in
          let (existing, d2, selected, passes, stored, updated) =
            supersede_with-ok t version device group immediate d d' r ran in
          let free =
            indexed (requested version device group immediate) d d2 r stored x
              (subst (Memᴰ x) (sym started) m) in
          let clash = replaced-shares device group x passes active in cc
