-- ===== src/Db/Keyed/Laws.antt =====
-- Rows found again after they were added, and no longer found after they were deleted.
use amos2026ss01_zero_downti.Prelude.{
  mem-last, ℕ, ◌≡◌, refl, sym, ap, ◌∙◌, subst, Bool, true, false, Option, some, none, List, [], ◌∷◌,
  ◌++◌, filter, not, Memᴰ, ok, ◌==◌, ==_iff, All, Bool-cases, inl, inr,
}
use amos2026ss01_zero_downti.Db.Table.{Table, find_one, first_row, read}
use amos2026ss01_zero_downti.Db.Table.Laws.{>>=-conn, >>=-ok, read-ok, write-ok, find_one-some}
use amos2026ss01_zero_downti.Db.Keyed.{paginated, by_id, has_key, find_by_id, add, delete_by_id}

module _ {Row : Type 0} (id_of : Row → ℕ) where
  -- The one row with the fresh key is the last one.
  fresh_last :
      (xs : List Row) (r x : Row)
      → Memᴰ x (xs ++ r ∷ [])
      → (id_of x == id_of r) ≡ true
      → All (λ y. (id_of y == id_of r) ≡ false) xs
      → x ≡ r
  fresh_last [] r x (Memᴰ.head q) e fresh = q
  fresh_last [] r x (Memᴰ.tail m) e fresh = elim m [ ]
  fresh_last (y ∷ xs) r x (Memᴰ.head q) e (other, fresh) =
      let same : (id_of x == id_of r) ≡ (id_of y == id_of r) = ap (λ z. id_of z == id_of r) q in cc
  fresh_last (y ∷ xs) r x (Memᴰ.tail m) e (other, fresh) = fresh_last xs r x m e fresh

  filtered_out :
      (i : ℕ) (xs : List Row) (x : Row)
      → Memᴰ x (filter (λ y. not (id_of y == i)) xs)
      → (id_of x == i) ≡ false
  filtered_out i [] x m = elim m [ ]
  filtered_out i (y ∷ xs) x m = elim (Bool-cases (id_of y == i)) [
    | inl e ↦
        let rest : Memᴰ x (filter (λ y. not (id_of y == i)) xs) = rw e at m in
        filtered_out i xs x rest
    | inr e ↦
        let all : Memᴰ x (y ∷ filter (λ y. not (id_of y == i)) xs) = rw e at m in
        elim all [
          | Memᴰ.head q ↦ ap (λ z. id_of z == i) q ∙ e
          | Memᴰ.tail later ↦ filtered_out i xs x later
        ]
  ]

module _ {Row Active : Type 0} {id_of : Row → ℕ} {Stores : Active → Row → Type 0}
    (t : Table Row Active id_of Stores) where
  open t use {Conn, rows, select, select_mem, insert, insert_rows, delete, delete_rows}

  no_first : (rs : List Row) (x : Row) → first_row rs ≡ none → ¬ (Memᴰ x rs)
  no_first [] x h m = elim m [ ]
  no_first (r ∷ rs) x h m = cc

  -- A selection that finds nothing leaves out every row.
  pub find_one-none :
      (p : Row → Bool) (c : Conn) (x : Row)
      → (find_one t p c).0 ≡ ok none
      → Memᴰ x (rows c)
      → ¬ (p x ≡ true)
  unfolding find_one
  find_one-none p c x h m passes =
      let run = find_one t p c in
      let whole : run ≡ (ok none, run.1) = λ i. (h i, run.1) in
      let (rs, c1, selected, h1) = >>=-ok (read (select p)) _ whole in
      let (selected', c1_is) = read-ok (select p) selected in
      let empty : first_row rs ≡ none = cc in
      no_first rs x empty ((select_mem selected' x).1 m passes)

  pub add-stores : (a : Active) (c c' : Conn) (r : Row) → add t a c ≡ (ok r, c') → Stores a r
  unfolding add
  add-stores a c c' r h = (insert_rows (write-ok (insert a) h)).0

  -- What is found under the key of a row that was added is that row.
  pub find_by_id-added :
      (a : Active) (c c' : Conn) (r : Row) (o : Option Row)
      → add t a c ≡ (ok r, c')
      → (find_by_id t (id_of r) c').0 ≡ ok o
      → o ≡ some r
  unfolding add find_by_id
  find_by_id-added a c c' r none h found =
      let (stores, all, fresh) = insert_rows (write-ok (insert a) h) in
      let here : Memᴰ r (rows c') = subst (Memᴰ r) (sym all) (mem-last (rows c) r) in
      absurd (find_one-none (has_key t (id_of r)) c' r found here ((==_iff _ _).1 refl))
  find_by_id-added a c c' r (some x) h found =
      let (stores, all, fresh) = insert_rows (write-ok (insert a) h) in
      let (m, same) = find_one-some t (has_key t (id_of r)) c' x found in
      ap some (fresh_last id_of (rows c) r x (subst (Memᴰ x) all m) same fresh)

  -- Nothing is found under a key that was deleted.
  pub find_by_id-deleted :
      (i n : ℕ) (c c' : Conn) (o : Option Row)
      → delete_by_id t i c ≡ (ok n, c')
      → (find_by_id t i c').0 ≡ ok o
      → o ≡ none
  unfolding delete_by_id find_by_id
  find_by_id-deleted i n c c' none h found = refl
  find_by_id-deleted i n c c' (some x) h found =
      let (left, count) = delete_rows (write-ok (delete i) h) in
      let (m, same) = find_one-some t (has_key t i) c' x found in
      let gone = filtered_out id_of i (rows c) x (subst (Memᴰ x) left m) in cc

  -- The paginator only reads.
  pub paginated-conn :
      (p : Row → Bool) (page page_size : ℕ) (c : Conn) → (paginated t p page page_size c).1 ≡ c
  unfolding paginated
  paginated-conn p page page_size c =
      >>=-conn (read (select p)) _ c refl
        (λ counted d. >>=-conn (read (t.select_by (by_id t) p)) _ d refl (λ rows e. refl))
