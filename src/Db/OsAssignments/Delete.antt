-- ===== src/Db/OsAssignments/Delete.antt =====
-- What deleting an OS assignment does to later reads.
use amos2026ss01_zero_downti.Prelude.{
  mem-map, ℕ, ◌≡◌, refl, sym, ap, ◌∙◌, subst, Bool, true, false, ◌&&◌, Option, some, none, List, [],
  ◌∷◌, map, Memᴰ, Result, ok, ◌==◌, ==_iff, if◌then◌else◌, Bool-cases, inl, inr,
}
use amos2026ss01_zero_downti.Db.Table.{DbErr, read, find_one, first_row}
use amos2026ss01_zero_downti.Db.Table.Laws.{>>=-ok, read-ok, write-ok}
use amos2026ss01_zero_downti.Db.OsAssignments.{
  OsAssignment, OsAssignments, is_active, is_current, mark_deleted, before_save, update_checked,
  delete_found, delete_os_assignment, get_os_assignment,
}

and-false_right : (b : Bool) → (b && false) ≡ false
and-false_right true = refl
and-false_right false = refl

and-right : (a b : Bool) → (a && b) ≡ true → b ≡ true
and-right true b h = h
and-right false b h = cc

first-mem_of : (rs : List OsAssignment) (r : OsAssignment) → first_row rs ≡ some r → Memᴰ r rs
first-mem_of [] r h = cc
first-mem_of (x ∷ rs) r h = Memᴰ.head cc

abbrev deleted_at_id : ℕ → ℕ → OsAssignment → OsAssignment
deleted_at_id now i x = if x.id == i then mark_deleted now x else x

not_current : (now i : ℕ) (x : OsAssignment) → is_current i (deleted_at_id now i x) ≡ false
not_current now i x = elim (Bool-cases (x.id == i)) [
  | inl e ↦ rw e refl
  | inr e ↦ rw (e, e) (and-false_right (is_active x))
]

first-mem :
    (p : OsAssignment → Bool) (rs : List OsAssignment)
    → ((x : OsAssignment) → Memᴰ x rs → p x ≡ false)
    → ((x : OsAssignment) → Memᴰ x rs → p x ≡ true)
    → first_row rs ≡ none
first-mem p [] h k = refl
first-mem p (x ∷ rs) h k =
    let no : p x ≡ false = h x (Memᴰ.head refl) in let yes : p x ≡ true = k x (Memᴰ.head refl) in cc

module _ (t : OsAssignments) where
  open t use {Conn, rows, select, update, select_mem, update_rows}

  find_one-ok :
      (p : OsAssignment → Bool) (c c' : Conn) (o : Option OsAssignment)
      → find_one t p c ≡ (ok o, c')
      → (rs : List OsAssignment) × (select p c ≡ ok rs) × (first_row rs ≡ o) × (c ≡ c')
  unfolding find_one
  find_one-ok p c c' o h =
      let (rs, d, selected, h1) = >>=-ok (read (select p)) _ h in
      let (sel, same) = read-ok (select p) selected in
      (rs, sel, cc, sym same ∙ ap (λ (o : Result DbErr (Option OsAssignment) × Conn). o.1) h1)

  -- No row is current where every row that passes the test fails it.
  find_one-none :
      (p : OsAssignment → Bool) (c c' : Conn) (o : Option OsAssignment)
      → ((x : OsAssignment) → Memᴰ x (rows c) → p x ≡ false)
      → find_one t p c ≡ (ok o, c')
      → o ≡ none
  find_one-none p c c' o absent h =
      let (rs, selected, first, same) = find_one-ok p c c' o h in
      sym first
      ∙ first-mem p rs (λ x m. absent x ((select_mem selected x).0 m).0)
          (λ x m. ((select_mem selected x).0 m).1)

  found_none :
      (p : OsAssignment → Bool) (c : Conn) (rs : List OsAssignment)
      → select p c ≡ ok rs
      → first_row rs ≡ none
      → (x : OsAssignment) → Memᴰ x (rows c)
      → p x ≡ false
  found_none p c [] h f x m = elim (Bool-cases (p x)) [
    | inl e ↦ elim ((select_mem h x).1 m e) [ ]
    | inr e ↦ e
  ]
  found_none p c (r ∷ rs) h f x m = cc

  update_checked-rows :
      (r r' : OsAssignment) (f : OsAssignment → OsAssignment) (c c' : Conn)
      → update_checked t r f c ≡ (ok r', c')
      → rows c' ≡ map (λ x. if x.id == r.id then f x else x) (rows c)
  unfolding update_checked
  update_checked-rows r r' f c c' h =
      let (u, d, checked, wrote_row) = >>=-ok (read (λ _. before_save r)) _ h in
      let (passes, same) = read-ok (λ _. before_save r) checked in
      update_rows (write-ok (update r.id f) wrote_row)
      ∙ ap (λ d. map (λ x. if x.id == r.id then f x else x) (rows d)) same

  delete_found-absent :
      (now i : ℕ) (o : Option OsAssignment) (c d c' : Conn) (n : ℕ)
      → find_one t (is_current i) c ≡ (ok o, d)
      → delete_found t now o d ≡ (ok n, c')
      → (x : OsAssignment) → Memᴰ x (rows c')
      → is_current i x ≡ false
  delete_found-absent now i none c d c' n found h x m =
      let (rs, selected, first, same) = find_one-ok (is_current i) c d none found in
      let d_is : d ≡ c' = ap (λ (o : Result DbErr ℕ × Conn). o.1) h in
      found_none (is_current i) c rs selected first x
        (subst (λ d. Memᴰ x (rows d)) (sym (same ∙ d_is)) m)
  delete_found-absent now i (some r) c d c' n found h x m =
      let (rs, selected, first, same) = find_one-ok (is_current i) c d (some r) found in
      let current = ((select_mem selected r).0 (first-mem_of rs r first)).1 in
      let r_is : r.id ≡ i = (==_iff r.id i).0 (and-right (is_active r) (r.id == i) current) in
      let (r', d', updated, ended) = >>=-ok (update_checked t r (mark_deleted now)) _ h in
      let d_is : d' ≡ c' = ap (λ (o : Result DbErr ℕ × Conn). o.1) ended in
      let written = update_checked-rows r r' (mark_deleted now) d d' updated in
      let (y, is_y) =
        mem-map (deleted_at_id now r.id) (rows d) x
          (subst (λ xs. Memᴰ x xs) (ap rows (sym d_is) ∙ written) m) in
      ap (is_current i) (is_y ∙ ap (λ j. deleted_at_id now j y) r_is) ∙ not_current now i y

  -- After a delete that succeeded, whether or not it found a row, getting the assignment finds none.
  pub delete_os_assignment-get :
      (now i : ℕ) (c c' c'' : Conn) (n : ℕ) (o : Option OsAssignment)
      → delete_os_assignment t now i c ≡ (ok n, c')
      → get_os_assignment t i c' ≡ (ok o, c'')
      → o ≡ none
  unfolding delete_os_assignment get_os_assignment
  delete_os_assignment-get now i c c' c'' n o h k =
      let (row, d, found, h1) = >>=-ok (find_one t (is_current i)) _ h in
      find_one-none (is_current i) c' c'' o (delete_found-absent now i row c d c' n found h1) k
