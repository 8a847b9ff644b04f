-- ===== src/Examples/Memory.antt =====
-- A table held in memory.
use amos2026ss01_zero_downti.Prelude.{
  ℕ, suc, ◌+◌, ◌≤◌, ◌≡◌, refl, sym, subst, ap, ◌∙◌, Bool, true, false, List, [], ◌∷◌, ◌++◌, map,
  Memᴰ, any, length, not, filter, Result, ok, err, ◌==◌, if◌then◌else◌, All, Bool-cases, inl, inr,
  arith,
}
use amos2026ss01_zero_downti.Db.Table.{DbErr, Table, database}

module _ {Row : Type 0} where
  abbrev pub Filtered : (Row → Bool) → List Row → Row → Type 0
  Filtered p xs x =
      (Memᴰ x (filter p xs) → Memᴰ x xs × (p x ≡ true))
      × (Memᴰ x xs → p x ≡ true → Memᴰ x (filter p xs))

  filter-keep :
      (p : Row → Bool) (y : Row) (xs : List Row) (x : Row)
      → Filtered p xs x
      → p y ≡ true
      → (Memᴰ x (y ∷ filter p xs) → Memᴰ x (y ∷ xs) × (p x ≡ true))
        × (Memᴰ x (y ∷ xs) → p x ≡ true → Memᴰ x (y ∷ filter p xs))
  filter-keep p y xs x (into, out) e = (into_all, out_all)
    where
      into_all : Memᴰ x (y ∷ filter p xs) → Memᴰ x (y ∷ xs) × (p x ≡ true)
      into_all (Memᴰ.head q) = (Memᴰ.head q, ap p q ∙ e)
      into_all (Memᴰ.tail m) = let (n, h) = into m in (Memᴰ.tail n, h)

      out_all : Memᴰ x (y ∷ xs) → p x ≡ true → Memᴰ x (y ∷ filter p xs)
      out_all (Memᴰ.head q) h = Memᴰ.head q
      out_all (Memᴰ.tail m) h = Memᴰ.tail (out m h)

  filter-skip :
      (p : Row → Bool) (y : Row) (xs : List Row) (x : Row)
      → Filtered p xs x
      → p y ≡ false
      → (Memᴰ x (filter p xs) → Memᴰ x (y ∷ xs) × (p x ≡ true))
        × (Memᴰ x (y ∷ xs) → p x ≡ true → Memᴰ x (filter p xs))
  filter-skip p y xs x (into, out) e = (λ m. let (n, h) = into m in (Memᴰ.tail n, h), out_all)
    where
      out_all : Memᴰ x (y ∷ xs) → p x ≡ true → Memᴰ x (filter p xs)
      out_all (Memᴰ.head q) h = let same : p x ≡ p y = ap p q in cc
      out_all (Memᴰ.tail m) h = out m h

  pub filter-mem : (p : Row → Bool) (xs : List Row) (x : Row) → Filtered p xs x
  filter-mem p [] x = (λ m. elim m [ ], λ m h. m)
  filter-mem p (y ∷ xs) x = elim (Bool-cases (p y)) [
    | inl e ↦ rw e (filter-keep p y xs x (filter-mem p xs x) e)
    | inr e ↦ rw e (filter-skip p y xs x (filter-mem p xs x) e)
  ]

  -- The rows if the first of them is beaten by none, as an order that is one demands.
  abbrev ranked : (Row → Row → Bool) → List Row → Result DbErr (List Row)
  ranked before [] = ok []
  ranked before (x ∷ xs) = if any (λ y. before y x) xs then err (database 1) else ok (x ∷ xs)

  pub ranked-is :
      (before : Row → Row → Bool) (xs rs : List Row) → ranked before xs ≡ ok rs → xs ≡ rs
  ranked-is before [] rs h = cc
  ranked-is before (x ∷ xs) rs h = ground (arith)

  pub unbeaten : (p : Row → Bool) (xs : List Row) → any p xs ≡ false → All (λ y. p y ≡ false) xs
  unbeaten p [] h = tt
  unbeaten p (x ∷ xs) h = (ground arith, unbeaten p xs (ground arith))

  abbrev Leads : (Row → Row → Bool) → List Row → Type 0
  Leads before [] = Unit
  Leads before (x ∷ xs) = All (λ y. before y x ≡ false) xs

  pub ranked-Leads :
      (before : Row → Row → Bool) (xs rs : List Row) → ranked before xs ≡ ok rs → Leads before rs
  ranked-Leads before [] rs h = let same : [] ≡ rs = cc in subst (Leads before) same tt
  ranked-Leads before (y ∷ xs) rs h = elim (Bool-cases (any (λ z. before z y) xs)) [
    | inl e ↦ let no : ranked before (y ∷ xs) ≡ err (database 1) = rw e refl in cc
    | inr e ↦
        let yes : ranked before (y ∷ xs) ≡ ok (y ∷ xs) = rw e refl in
        let same : y ∷ xs ≡ rs = cc in subst (Leads before) same (unbeaten (λ z. before z y) xs e)
  ]

  -- An update of no row is an error.
  abbrev touched : List Row → List Row → Result DbErr (Row × List Row)
  touched [] c = err (database 2)
  touched (r ∷ rs) c = ok (r, c)

  pub touched-is : (rs c c' : List Row) (r : Row) → touched rs c ≡ ok (r, c') → c' ≡ c
  touched-is [] c c' r h = cc
  touched-is (x ∷ rs) c c' r h = cc

  pub deleted-is :
      (n n' : ℕ) (c c' : List Row)
      → ◌≡◌ {A = Result DbErr (ℕ × List Row)} (ok (n, c)) (ok (n', c'))
      → (c' ≡ c) × (n' ≡ n)
  deleted-is n n' c c' h = (cc, cc)

  pub ok_is : (xs ys : List Row) → ◌≡◌ {A = Result DbErr (List Row)} (ok xs) (ok ys) → xs ≡ ys
  ok_is xs ys h = cc

  pub selects :
      (p : Row → Bool) (c rs : List Row)
      → filter p c ≡ rs
      → (x : Row) → (Memᴰ x rs → Memᴰ x c × (p x ≡ true)) × (Memᴰ x c → p x ≡ true → Memᴰ x rs)
  selects p c rs e x =
      subst (λ rs. (Memᴰ x rs → Memᴰ x c × (p x ≡ true)) × (Memᴰ x c → p x ≡ true → Memᴰ x rs)) e
        (filter-mem p c x)

module _ {Row : Type 0} (id_of : Row → ℕ) where
  abbrev id_sum : List Row → ℕ
  id_sum [] = 0
  id_sum (x ∷ xs) = id_of x + id_sum xs

  above : (n : ℕ) (xs : List Row) → id_sum xs ≤ n → All (λ x. (id_of x == suc n) ≡ false) xs
  above n [] h = tt
  above n (x ∷ xs) h = (ground arith, above n xs (omega arith))

module _ {Row Active : Type 0} (id_of : Row → ℕ) (inserted : Active → ℕ → Row) where
  -- Rows that `refuses` rejects are not inserted.
  abbrev insert_into :
      (Active → List Row → Bool) → Active → List Row → Result DbErr (Row × List Row)
  insert_into refuses a c =
      let r = inserted a (suc (id_sum id_of c)) in
      if refuses a c then err (database 3) else ok (r, c ++ r ∷ [])

module _ {Row Active : Type 0} (Stores : Active → Row → Type 0) (id_of : Row → ℕ)
    (inserted : Active → ℕ → Row) (inserted_id : (a : Active) (i : ℕ) → id_of (inserted a i) ≡ i)
    (stores : (a : Active) (i : ℕ) → Stores a (inserted a i)) where
  pub insert_into-rows :
      (refuses : Active → List Row → Bool) (a : Active) (c c' : List Row) (r : Row)
      → insert_into id_of inserted refuses a c ≡ ok (r, c')
      → (refuses a c ≡ false)
        × Stores a r
        × (c' ≡ c ++ r ∷ [])
        × All (λ x. (id_of x == id_of r) ≡ false) c
  insert_into-rows refuses a c c' r h = elim (Bool-cases (refuses a c)) [
    | inl e ↦ let no : insert_into id_of inserted refuses a c ≡ err (database 3) = rw e refl in cc
    | inr e ↦
        let new = inserted a (suc (id_sum id_of c)) in
        let yes : insert_into id_of inserted refuses a c ≡ ok (new, c ++ new ∷ []) = rw e refl in
        let r_is : new ≡ r = cc in
        let c_is : c ++ new ∷ [] ≡ c' = cc in
        (
          e,
          (subst (Stores a) r_is (stores a (suc (id_sum id_of c)))),
          sym c_is ∙ ap (λ x. c ++ x ∷ []) r_is,
          subst (λ k. All (λ y. (id_of y == k) ≡ false) c)
              (sym (inserted_id a (suc (id_sum id_of c))) ∙ ap id_of r_is)
              (above id_of (id_sum id_of c) c (omega arith)),
        )
  ]

  abbrev pub memory : (Active → List Row → Bool) → Table Row Active id_of Stores
  memory refuses = record {
    Conn = List Row;
    rows = λ c. c;
    select = λ p c. ok (filter p c);
    select_by = λ before p c. ranked before (filter p c);
    insert = insert_into id_of inserted refuses;
    update = λ i f c.
        touched (filter (λ x. id_of x == i) c) (map (λ x. if id_of x == i then f x else x) c);
    delete = λ i c. ok (length (filter (λ x. id_of x == i) c), filter (λ x. not (id_of x == i)) c);
    begin = ok;
    commit = ok;
    select_mem = λ {p = p} {c = c} {rs = rs} h. selects p c rs (ok_is _ _ h);
    select_by_mem =
        λ {before = before} {p = p} {c = c} {rs = rs} h. selects p c rs (ranked-is before _ rs h);
    select_by_first = λ {before = before} {p = p} {c = c} {x = x} {rs = rs} h.
        ranked-Leads before (filter p c) (x ∷ rs) h;
    insert_rows = λ h. let (_, s, e, f) = insert_into-rows refuses _ _ _ _ h in (s, e, f);
    update_rows = λ h. touched-is _ _ _ _ h;
    delete_rows = λ h. deleted-is _ _ _ _ h;
    begin_rows = λ h. sym (ok_is _ _ h);
    commit_rows = λ h. sym (ok_is _ _ h);
  }
