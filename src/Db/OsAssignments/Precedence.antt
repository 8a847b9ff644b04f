-- ===== src/Db/OsAssignments/Precedence.antt =====
-- Which assignment a device gets (`list_os_assignments_for_device`).
use amos2026ss01_zero_downti.Prelude.{
  inr, inl, ◌⊎◌, ℕ, ◌≡◌, refl, sym, ap, ◌∙◌, Bool, true, false, ◌&&◌, ◌||◌, Option, some, none,
  List, [], ◌∷◌, Memᴰ, Result, ok, ◌==◌, is_num, if◌then◌else◌,
}
use amos2026ss01_zero_downti.Db.Table.{DbErr, read}
use amos2026ss01_zero_downti.Db.Table.Laws.{>>=-ok, read-ok}
use amos2026ss01_zero_downti.Db.Assignments.{
  is_null, is_set, applies_to, matches, stands_before, needs_one_target,
}
use amos2026ss01_zero_downti.Db.OsAssignments.{
  OsAssignment, OsAssignments, is_active, before_save, for_device, ordered, winner,
  list_os_assignments_for_device,
}
use amos2026ss01_zero_downti.Db.OsAssignments.Supersede.{All-mem}

-- Whether a column has the number, if there is one.
abbrev pub same_num : Option ℕ → Option ℕ → Bool
same_num none column = false
same_num (some n) column = is_num column n

-- Every row has passed the hook.
abbrev pub IsTargeted : List OsAssignment → Type 0
IsTargeted xs = (x : OsAssignment) → Memᴰ x xs → before_save x ≡ ok tt

-- The kind of row that the engine's order puts first: those of the device where NULL comes last.
abbrev pub is_preferred : Bool → OsAssignment → Bool
is_preferred nulls_first x = if nulls_first then is_null x.device_id else is_set x.device_id

not_beaten :
    (nulls_first : Bool) (d d' : Option ℕ) (i i' : ℕ)
    → stands_before nulls_first d i d' i' ≡ false
    → (if nulls_first then is_null d else is_set d) ≡ true
    → (if nulls_first then is_null d' else is_set d') ≡ true
unfolding stands_before
not_beaten true none none i i' h p = refl
not_beaten true none (some e) i i' h p = cc
not_beaten true (some d) d' i i' h p = cc
not_beaten false none d' i i' h p = cc
not_beaten false (some d) none i i' h p = cc
not_beaten false (some d) (some e) i i' h p = refl

and-left : (a b : Bool) → (a && b) ≡ true → a ≡ true
and-left true b h = refl
and-left false b h = h

or-right_false : (a : Bool) → (a || false) ≡ true → a ≡ true
or-right_false true h = refl
or-right_false false h = h

own-set : (device : Option ℕ) (d : ℕ) → is_num device d ≡ true → is_set device ≡ true
own-set none d h = h
own-set (some e) d h = refl

own_device :
    (d : ℕ) (g v device group : Option ℕ) (version : ℕ) (active : Bool)
    → needs_one_target device group ≡ ok tt
    → (active && (applies_to d g device group && matches v (some version))) ≡ true
    → is_set device ≡ true
    → (active ≡ true) × (is_num device d ≡ true)
unfolding needs_one_target
own_device d g v none group version active h a k = cc
own_device d g v (some e) (some i) version active h a k = cc
own_device d none v (some e) none version true h a k =
    (refl, and-left (e == d) (matches v (some version)) a)
own_device d (some g) v (some e) none version true h a k =
    (refl, or-right_false (e == d) (and-left ((e == d) || false) (matches v (some version)) a))
own_device d g v (some e) none version false h a k = cc

-- A row that applies, but not by the group of the device, is one of the device itself.
not_of_group :
    (d : ℕ) (g v device group : Option ℕ) (version : ℕ) (active : Bool)
    → (active && (applies_to d g device group && matches v (some version))) ≡ true
    → same_num g group ≡ false
    → is_num device d ≡ true
not_of_group d none v device group version true a f =
    and-left (is_num device d) (matches v (some version)) a
not_of_group d (some g) v device group version true a f =
    let applies = and-left (is_num device d || is_num group g) (matches v (some version)) a in
    or-right_false (is_num device d) (ap (λ b. is_num device d || b) (sym f) ∙ applies)
not_of_group d g v device group version false a f = absurd cc

-- The device's own assignment wins: NULL sorts last, or no active row is one of the group.
abbrev pub IsUncontested : Bool → Option ℕ → List OsAssignment → Type 0
IsUncontested nulls_first g xs =
    (nulls_first ≡ false)
    ⊎ ((x : OsAssignment) → Memᴰ x xs → is_active x ≡ true → same_num g x.group_id ≡ false)

module _ (t : OsAssignments) where
  open t use {Conn, rows, select_by, select_by_mem, select_by_first}

  list-ok :
      (nulls_first : Bool) (d : ℕ) (g v : Option ℕ) (c c' : Conn) (page : List OsAssignment) (n : ℕ)
      → list_os_assignments_for_device t nulls_first d g v c ≡ (ok (page, n), c')
      → (rs : List OsAssignment) × (select_by (ordered nulls_first) (for_device d g v) c ≡ ok rs)
        × (winner rs ≡ (page, n))
        × (c ≡ c')
  unfolding list_os_assignments_for_device
  list-ok nulls_first d g v c c' page n h =
      let (rs, c1, selected, h1) =
        >>=-ok (read (select_by (ordered nulls_first) (for_device d g v))) _ h in
      let (sel, same) = read-ok (select_by (ordered nulls_first) (for_device d g v)) selected in
      (rs, sel, cc, sym same ∙ ap (λ (o : Result DbErr (List OsAssignment × ℕ) × Conn). o.1) h1)

  wins :
      (nulls_first : Bool) (d : ℕ) (g v : Option ℕ) (c : Conn) (rs : List OsAssignment)
      (x : OsAssignment)
      → select_by (ordered nulls_first) (for_device d g v) c ≡ ok rs
      → Memᴰ x rs
      → is_preferred nulls_first x ≡ true
      → (w : OsAssignment) × (winner rs ≡ (w ∷ [], 1))
        × (Memᴰ w rs)
        × (is_preferred nulls_first w ≡ true)
  wins nulls_first d g v c [] x h m p = elim m [ ]
  wins nulls_first d g v c (w ∷ rs) x h (Memᴰ.head e) p =
      (w, refl, Memᴰ.head refl, ap (is_preferred nulls_first) (sym e) ∙ p)
  wins nulls_first d g v c (w ∷ rs) x h (Memᴰ.tail m) p = (
    w,
    refl,
    Memᴰ.head refl,
    not_beaten nulls_first x.device_id w.device_id x.id w.id
        (All-mem (λ y. ordered nulls_first y w ≡ false) rs x (select_by_first h) m) p,
  )

  -- A device that has an applicable row of the kind that the engine's order puts first gets
  -- exactly one assignment, an applicable row of that kind: where NULL sorts last a row of the
  -- device itself, and where NULL sorts first, as in PostgreSQL, a row of the group.
  pub list_os_assignments_for_device-kind :
      (nulls_first : Bool) (d : ℕ) (g v : Option ℕ) (c c' : Conn) (page : List OsAssignment) (n : ℕ)
      (x : OsAssignment)
      → list_os_assignments_for_device t nulls_first d g v c ≡ (ok (page, n), c')
      → Memᴰ x (rows c)
      → for_device d g v x ≡ true
      → is_preferred nulls_first x ≡ true
      → (w : OsAssignment) × (page ≡ w ∷ [])
        × (n ≡ 1)
        × (Memᴰ w (rows c))
        × (for_device d g v w ≡ true)
        × (is_preferred nulls_first w ≡ true)
  list_os_assignments_for_device-kind nulls_first d g v c c' page n x h m applies preferred =
      let (rs, selected, is_page, same) = list-ok nulls_first d g v c c' page n h in
      let listed = (select_by_mem selected x).1 m applies in
      let (w, won, in_rs, kind) = wins nulls_first d g v c rs x selected listed preferred in
      let (in_rows, w_applies) = (select_by_mem selected w).0 in_rs in
      let whole = sym is_page ∙ won in
      (
        w,
        ap (λ (o : List OsAssignment × ℕ). o.0) whole,
        ap (λ (o : List OsAssignment × ℕ). o.1) whole,
        in_rows,
        w_applies,
        kind,
      )

  -- A device that has an applicable row gets exactly one assignment, which applies to it.
  list-applies :
      (nulls_first : Bool) (d : ℕ) (g v : Option ℕ) (c c' : Conn) (page : List OsAssignment) (n : ℕ)
      (x : OsAssignment)
      → list_os_assignments_for_device t nulls_first d g v c ≡ (ok (page, n), c')
      → Memᴰ x (rows c)
      → for_device d g v x ≡ true
      → (w : OsAssignment) × (page ≡ w ∷ [])
        × (n ≡ 1)
        × (Memᴰ w (rows c))
        × (for_device d g v w ≡ true)
  list-applies nulls_first d g v c c' page n x h m applies =
      let (rs, selected, is_page, same) = list-ok nulls_first d g v c c' page n h in
      let (w, won, in_rs) = first rs ((select_by_mem selected x).1 m applies) in
      let (in_rows, w_applies) = (select_by_mem selected w).0 in_rs in
      let whole = sym is_page ∙ won in
      (
        w,
        ap (λ (o : List OsAssignment × ℕ). o.0) whole,
        ap (λ (o : List OsAssignment × ℕ). o.1) whole,
        in_rows,
        w_applies,
      )
    where
      first :
          (rs : List OsAssignment)
          → Memᴰ x rs
          → (w : OsAssignment) × (winner rs ≡ (w ∷ [], 1)) × Memᴰ w rs
      first [] q = elim q [ ]
      first (w ∷ rs) q = (w, refl, Memᴰ.head refl)

  -- Where every row has one target, and NULL sorts last or the group of the device has no active
  -- assignment, a device that has an active assignment of its own gets exactly one assignment, which
  -- is one of its own.
  pub list_os_assignments_for_device-own :
      (nulls_first : Bool) (d : ℕ) (g v : Option ℕ) (c c' : Conn) (page : List OsAssignment) (n : ℕ)
      (x : OsAssignment)
      → IsTargeted (rows c)
      → IsUncontested nulls_first g (rows c)
      → list_os_assignments_for_device t nulls_first d g v c ≡ (ok (page, n), c')
      → Memᴰ x (rows c)
      → for_device d g v x ≡ true
      → is_num x.device_id d ≡ true
      → (w : OsAssignment) × (page ≡ w ∷ [])
        × (n ≡ 1)
        × (Memᴰ w (rows c))
        × (is_active w ≡ true)
        × (is_num w.device_id d ≡ true)
  list_os_assignments_for_device-own nulls_first d g v c c' page n x targeted (inl last) h m applies
        own =
      let h' : list_os_assignments_for_device t false d g v c ≡ (ok (page, n), c') = rw last at h in
      let (w, is_page, is_one, in_rows, w_applies, kind) =
        list_os_assignments_for_device-kind false d g v c c' page n x h' m applies
          (own-set x.device_id d own) in
      let (active, w_own) =
        own_device d g v w.device_id w.group_id w.os_version_id (is_active w) (targeted w in_rows)
          w_applies kind in
      (w, is_page, is_one, in_rows, active, w_own)
  list_os_assignments_for_device-own nulls_first d g v c c' page n x targeted (inr free) h m applies
        own =
      let (w, is_page, is_one, in_rows, w_applies) =
        list-applies nulls_first d g v c c' page n x h m applies in
      let active : is_active w ≡ true = and-left (is_active w) _ w_applies in
      (
        w,
        is_page,
        is_one,
        in_rows,
        active,
        not_of_group d g v w.device_id w.group_id w.os_version_id (is_active w) w_applies
            (free w in_rows active),
      )
