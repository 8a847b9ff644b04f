-- ===== src/Db/OsAssignments/Supersede.antt =====
-- What adding an OS assignment does to the table.
use amos2026ss01_zero_downti.Prelude.{
  ℕ, ◌≡◌, refl, sym, ap, ◌∙◌, subst, Bool, true, false, Option, some, List, [], ◌∷◌, ◌++◌, map,
  Memᴰ, any, ok, ◌==◌, All, if◌then◌else◌, Bool-cases, inl, inr, arith,
}
use amos2026ss01_zero_downti.Db.Table.{pure, read, update_each}
use amos2026ss01_zero_downti.Db.Table.Laws.{>>=-ok, read-ok, write-ok, update_each-rows}
use amos2026ss01_zero_downti.Db.Assignments.{needs_one_target}
use amos2026ss01_zero_downti.Db.OsAssignments.{
  OsAssignment, ActiveModel, OsAssignments, Stores, id_of, or_false, replaced, supersede,
  before_save, supersede_with, insert_checked,
}

-- The key of a row is its own.
abbrev pub IsKeyed : List OsAssignment → Type 0
IsKeyed xs = (x y : OsAssignment) → Memᴰ x xs → Memᴰ y xs → (x.id == y.id) ≡ true → x ≡ y

any-mem :
    (olds : List OsAssignment) (i : ℕ)
    → any (λ l. l.id == i) olds ≡ true
    → (y : OsAssignment) × Memᴰ y olds × ((y.id == i) ≡ true)
any-mem [] i h = cc
any-mem (y ∷ olds) i h = elim (Bool-cases (y.id == i)) [
  | inl e ↦ (y, Memᴰ.head refl, e)
  | inr e ↦
      let (z, m, same) =
        any-mem olds i (rw (sym (ap (λ b. if b then true else any (λ l. l.id == i) olds) e)) h) in
      (z, Memᴰ.tail m, same)
]

mem-any :
    (olds : List OsAssignment) (y : OsAssignment)
    → Memᴰ y olds
    → any (λ l. l.id == y.id) olds ≡ true
mem-any [] y m = elim m [ ]
mem-any (x ∷ olds) y (Memᴰ.head e) = ground (arith, ap id_of e)
mem-any (x ∷ olds) y (Memᴰ.tail m) = ground (arith, mem-any olds y m)

-- A row as it is once `by` has superseded those of the target.
abbrev pub after : ℕ → Option ℕ → Option ℕ → OsAssignment → OsAssignment
after by device group x = if replaced device group x then supersede by x else x

abbrev IsSelection : (OsAssignment → Bool) → List OsAssignment → List OsAssignment → Type 0
IsSelection p xs rs =
    (x : OsAssignment)
    → (Memᴰ x rs → Memᴰ x xs × (p x ≡ true)) × (Memᴰ x xs → p x ≡ true → Memᴰ x rs)

any-selected :
    (p : OsAssignment → Bool) (xs rs : List OsAssignment)
    → IsKeyed xs
    → IsSelection p xs rs
    → (x : OsAssignment) → Memᴰ x xs
    → any (λ l. l.id == x.id) rs ≡ p x
any-selected p xs rs keyed sel x m = elim (Bool-cases (p x)) [
  | inl e ↦ rw e (mem-any rs x ((sel x).1 m e))
  | inr e ↦ elim (Bool-cases (any (λ l. l.id == x.id) rs)) [
    | inl f ↦
        let (y, in_rs, same) = any-mem rs x.id f in
        let (in_xs, holds) = (sel y).0 in_rs in
        let is_x : y ≡ x = keyed y x in_xs m same in f ∙ sym holds ∙ ap p is_x
    | inr f ↦ f ∙ sym e
  ]
]

map_on :
    (f g : OsAssignment → OsAssignment) (xs : List OsAssignment)
    → ((x : OsAssignment) → Memᴰ x xs → f x ≡ g x)
    → map f xs ≡ map g xs
map_on f g [] h = refl
map_on f g (x ∷ xs) h = λ k. h x (Memᴰ.head refl) k ∷ map_on f g xs (λ y m. h y (Memᴰ.tail m)) k

map_end :
    (f : OsAssignment → OsAssignment) (xs : List OsAssignment) (r : OsAssignment)
    → map f (xs ++ r ∷ []) ≡ map f xs ++ f r ∷ []
map_end f [] r = refl
map_end f (x ∷ xs) r = ap (◌∷◌ (f x)) (map_end f xs r)

pub All-mem :
    (P : OsAssignment → Type 0) (xs : List OsAssignment) (x : OsAssignment)
    → All P xs
    → Memᴰ x xs
    → P x
All-mem P [] x ps m = elim m [ ]
All-mem P (y ∷ xs) x (p, ps) (Memᴰ.head e) = subst P (sym e) p
All-mem P (y ∷ xs) x (p, ps) (Memᴰ.tail m) = All-mem P xs x ps m

fresh-absent :
    (p : OsAssignment → Bool) (xs rs : List OsAssignment) (new : OsAssignment)
    → IsSelection p xs rs
    → All (λ x. (x.id == new.id) ≡ false) xs
    → any (λ l. l.id == new.id) rs ≡ false
fresh-absent p xs rs new sel fresh = elim (Bool-cases (any (λ l. l.id == new.id) rs)) [
  | inl f ↦
      let (y, in_rs, same) = any-mem rs new.id f in
      let apart : (y.id == new.id) ≡ false =
        All-mem (λ x. (x.id == new.id) ≡ false) xs y fresh ((sel y).0 in_rs).0 in
      cc
  | inr f ↦ f
]

joined :
    (device group : Option ℕ) (xs existing : List OsAssignment) (new : OsAssignment)
    → IsKeyed xs
    → IsSelection (replaced device group) xs existing
    → All (λ x. (x.id == new.id) ≡ false) xs
    → map (λ x. if any (λ l. l.id == x.id) existing then supersede new.id x else x) (xs ++ new ∷ [])
      ≡ map (after new.id device group) xs ++ new ∷ []
joined device group xs existing new keyed sel fresh =
    map_end (λ x. if any (λ l. l.id == x.id) existing then supersede new.id x else x) xs new
    ∙ ap
        (λ b.
          map (λ x. if any (λ l. l.id == x.id) existing then supersede new.id x else x) xs
          ++ (if b then supersede new.id new else new) ∷ [])
        (fresh-absent (replaced device group) xs existing new sel fresh)
    ∙ ap (◌++ new ∷ []) (
        map_on _ (after new.id device group) xs (λ x m.
          ap (λ b. if b then supersede new.id x else x)
            (any-selected (replaced device group) xs existing keyed sel x m)))

abbrev pub requested : ℕ → Option ℕ → Option ℕ → Option Bool → ActiveModel
requested version device group immediate = record {
  os_version_id = version;
  device_id = device;
  group_id = group;
  immediate = some (or_false immediate);
}

module _ (t : OsAssignments) where
  open t use {Conn, rows, select, insert, select_mem, insert_rows}

  insert_checked-ok :
      (a : ActiveModel) (c c' : Conn) (r : OsAssignment)
      → insert_checked t a c ≡ (ok r, c')
      → (needs_one_target a.device_id a.group_id ≡ ok tt) × (insert a c ≡ ok (r, c'))
  unfolding insert_checked
  insert_checked-ok a c c' r h =
      let (u, d, checked, wrote_new) =
        >>=-ok (read (λ _. needs_one_target a.device_id a.group_id)) _ h in
      let (passes, same) = read-ok (λ _. needs_one_target a.device_id a.group_id) checked in
      (passes, ap (insert a) (sym same) ∙ write-ok (insert a) wrote_new)

  pure-ok :
      (x r : OsAssignment) (c c' : Conn) → pure {C = Conn} x c ≡ (ok r, c') → (x ≡ r) × (c ≡ c')
  pure-ok x r c c' h = (cc, cc)

  pub supersede_with-ok :
      (version : ℕ) (device group : Option ℕ) (immediate : Option Bool) (c c' : Conn)
      (r : OsAssignment)
      → supersede_with t version device group immediate c ≡ (ok r, c')
      → (existing : List OsAssignment) × (d : Conn) × (select (replaced device group) c
          ≡ ok existing)
        × (needs_one_target device group ≡ ok tt)
        × (insert (requested version device group immediate) c ≡ ok (r, d))
        × (update_each t before_save (supersede r.id) existing d ≡ (ok tt, c'))
  unfolding supersede_with
  supersede_with-ok version device group immediate c c' r h =
      let (existing, c1, selected, h1) = >>=-ok (read (select (replaced device group))) _ h in
      let (sel, same) = read-ok (select (replaced device group)) selected in
      let (new, c2, inserted, h2) = >>=-ok (insert_checked t _) _ h1 in
      let (passes, stored) =
        insert_checked-ok (requested version device group immediate) c1 c2 new inserted in
      let (u, c3, updated, h3) =
        >>=-ok (update_each t before_save (supersede new.id) existing) _ h2 in
      let (new_is, conn_is) = pure-ok new r c3 c' h3 in
      (
        existing,
        c2,
        sel,
        passes,
        ap (insert (requested version device group immediate)) (sym same)
            ∙ stored
            ∙ ap (λ x. ok (x, c2)) new_is,
        ap (λ x. update_each t before_save (supersede (id_of x)) existing c2) (sym new_is)
            ∙ updated
            ∙ ap (λ d. (ok tt, d)) conn_is,
      )

  -- The rows after the run are the old ones, superseded where they had the target, and the new one.
  pub supersede_with-rows :
      (version : ℕ) (device group : Option ℕ) (immediate : Option Bool) (c c' : Conn)
      (r : OsAssignment)
      → IsKeyed (rows c)
      → supersede_with t version device group immediate c ≡ (ok r, c')
      → (rows c' ≡ map (after r.id device group) (rows c) ++ r ∷ [])
        × (Stores (requested version device group immediate) r)
        × (needs_one_target device group ≡ ok tt)
        × All (λ x. (x.id == r.id) ≡ false) (rows c)
  supersede_with-rows version device group immediate c c' r keyed h =
      let (existing, d, selected, passes, stored, updated) =
        supersede_with-ok version device group immediate c c' r h in
      let (stores, ended, fresh) = insert_rows stored in
      (
        update_each-rows t (supersede r.id) (λ x. refl) (λ x. refl) before_save existing d c'
              updated
            ∙ ap (map (λ x. if any (λ l. l.id == x.id) existing then supersede r.id x else x)) ended
            ∙ joined device group (rows c) existing r keyed (select_mem selected) fresh,
        stores,
        passes,
        fresh,
      )
