-- ===== src/Examples/LogTable.antt =====
-- A table of logs held in memory.
use amos2026ss01_zero_downti.Prelude.{
  inr, inl, ℕ, suc, ◌≡◌, ◌↔◌, refl, sym, ap, ◌∙◌, List, [], ◌∷◌, ◌++◌, filter, length, take, drop,
  ◌*◌, Memᴰ, Result, ok, ltb, if◌then◌else◌, Bool-cases,
}
use amos2026ss01_zero_downti.Db.Table.{DbErr}
use amos2026ss01_zero_downti.LogApi.Store.{LogTable}
use amos2026ss01_zero_downti.Examples.Memory.{filter-mem}

module _ {Row : Type 0} (time : Row → ℕ) where
  abbrev insert_desc : Row → List Row → List Row
  insert_desc x [] = x ∷ []
  insert_desc x (y ∷ ys) =
      let rest = insert_desc x ys in if ltb (time x) (time y) then y ∷ rest else x ∷ y ∷ ys

  abbrev pub sort_desc : List Row → List Row
  sort_desc [] = []
  sort_desc (x ∷ xs) = insert_desc x (sort_desc xs)

  length-insert_desc : (x : Row) (ys : List Row) → length (insert_desc x ys) ≡ suc (length ys)
  length-insert_desc x [] = refl
  length-insert_desc x (y ∷ ys) = elim (Bool-cases (ltb (time x) (time y))) [
    | inl e ↦ rw e (ap suc (length-insert_desc x ys))
    | inr e ↦ rw e refl
  ]

  pub length-sort_desc : (xs : List Row) → length (sort_desc xs) ≡ length xs
  length-sort_desc [] = refl
  length-sort_desc (x ∷ xs) = length-insert_desc x (sort_desc xs) ∙ ap suc (length-sort_desc xs)

  swap_mem : {z x y : Row} {l : List Row} → Memᴰ z (x ∷ y ∷ l) → Memᴰ z (y ∷ x ∷ l)
  swap_mem (Memᴰ.head e) = Memᴰ.tail (Memᴰ.head e)
  swap_mem (Memᴰ.tail (Memᴰ.head e)) = Memᴰ.head e
  swap_mem (Memᴰ.tail (Memᴰ.tail m)) = Memᴰ.tail (Memᴰ.tail m)

  cons_mem : {z x : Row} {l r : List Row} → (Memᴰ z l → Memᴰ z r) → Memᴰ z (x ∷ l) → Memᴰ z (x ∷ r)
  cons_mem f (Memᴰ.head e) = Memᴰ.head e
  cons_mem f (Memᴰ.tail m) = Memᴰ.tail (f m)

  insert_desc-mem : (z x : Row) (ys : List Row) → Memᴰ z (insert_desc x ys) ↔ Memᴰ z (x ∷ ys)
  insert_desc-mem z x [] = (λ m. m, λ m. m)
  insert_desc-mem z x (y ∷ ys) =
      let (into, out) = insert_desc-mem z x ys in
      elim (Bool-cases (ltb (time x) (time y))) [
        | inl e ↦ rw e (λ m. swap_mem (cons_mem into m), λ m. cons_mem out (swap_mem m))
        | inr e ↦ rw e (λ m. m, λ m. m)
      ]

  pub sort_desc-mem : (z : Row) (xs : List Row) → Memᴰ z (sort_desc xs) ↔ Memᴰ z xs
  sort_desc-mem z [] = (λ m. m, λ m. m)
  sort_desc-mem z (x ∷ xs) =
      let (into, out) = insert_desc-mem z x (sort_desc xs) in
      let (into', out') = sort_desc-mem z xs in
      (λ m. cons_mem into' (into m), λ m. out (cons_mem out' m))

pub ok_inj : {A : Type 0} {x y : A} → ◌≡◌ {A = Result DbErr A} (ok x) (ok y) → x ≡ y
ok_inj h = cc

module _ {Row : Type 0} where
  abbrev pub log_table : LogTable Row
  log_table = record {
    Conn = List Row;
    rows = λ c. c;
    insert_many = λ rs c. ok (c ++ rs);
    num_items = λ p c. ok (length (filter p c));
    fetch_page = λ time p page_size page c.
        ok (take page_size (drop (page * page_size) (sort_desc time (filter p c))));
    ordered = λ time p page_size page c. sort_desc time (filter p c);
    insert_many_rows = λ h. sym (ok_inj h);
    num_items_length = λ h. sym (ok_inj h);
    fetch_page_ordered = λ h. sym (ok_inj h);
    ordered_length = λ time p page_size page c. length-sort_desc time (filter p c);
    ordered_mem = λ time p page_size page c x.
        let (into, out) = sort_desc-mem time x (filter p c) in
        let (selects, selected) = filter-mem p c x in
        (λ m. selects (into m), λ (m, h). out (selected m h));
  }
