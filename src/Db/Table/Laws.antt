-- ===== src/Db/Table/Laws.antt =====
-- What holds of every run over a table, from what is known of the table.
use amos2026ss01_zero_downti.Prelude.{
  some, Memᴰ, ℕ, ◌≡◌, refl, sym, ap, ◌∙◌, Bool, true, false, List, [], ◌∷◌, map, any, Result, ok,
  err, ◌==◌, if◌then◌else◌, ==_iff, Bool-cases, inl, inr, arith,
}
use amos2026ss01_zero_downti.Db.Table.{
  DbErr, Table, Db, find_one, first_row, pure, go_on, ◌>>=◌, read, write, wrote, finish, begun,
  committed, transaction, update_each,
}

if_same {ℓ} : {A : Type ℓ} (b : Bool) (x : A) → (if b then x else x) ≡ x
if_same true x = refl
if_same false x = refl

not_eq : (a b : ℕ) → (a == b) ≡ false → (b == a) ≡ false
not_eq a b e = ground arith

module _ {C A B : Type 0} where
  go_on-ok :
      (r : Result DbErr A × C) (f : A → Db C B) {b : B} {c' : C}
      → go_on r f ≡ (ok b, c')
      → (a : A) × (c : C) × (r ≡ (ok a, c)) × (f a c ≡ (ok b, c'))
  go_on-ok (ok a, c) f h = (a, c, refl, h)
  go_on-ok (err e, c) f h = cc

  -- A run that succeeds has succeeded in its first step.
  pub >>=-ok :
      (m : Db C A) (f : A → Db C B) {c : C} {b : B} {c' : C}
      → (m >>= f) c ≡ (ok b, c')
      → (a : A) × (d : C) × (m c ≡ (ok a, d)) × (f a d ≡ (ok b, c'))
  >>=-ok m f {c = c} h = go_on-ok (m c) f h

module _ {C A B : Type 0} where
  go_on-conn :
      (r : Result DbErr A × C) (f : A → Db C B) {c : C}
      → r.1 ≡ c
      → ((a : A) (d : C) → (f a d).1 ≡ d)
      → (go_on r f).1 ≡ c
  go_on-conn (ok a, d) f h reads = reads a d ∙ h
  go_on-conn (err e, d) f h reads = h

  -- A run whose steps only read leaves the connection as it is.
  pub >>=-conn :
      (m : Db C A) (f : A → Db C B) (c : C)
      → (m c).1 ≡ c
      → ((a : A) (d : C) → (f a d).1 ≡ d)
      → ((m >>= f) c).1 ≡ c
  >>=-conn m f c h reads = go_on-conn (m c) f h reads

module _ {C A : Type 0} where
  wrote-ok :
      (r : Result DbErr (A × C)) (c : C) {a : A} {c' : C} → wrote r c ≡ (ok a, c') → r ≡ ok (a, c')
  wrote-ok (ok (a, d)) c h = cc
  wrote-ok (err e) c h = cc

  pub write-ok :
      (q : C → Result DbErr (A × C)) {c : C} {a : A} {c' : C}
      → write q c ≡ (ok a, c')
      → q c ≡ ok (a, c')
  write-ok q {c = c} h = wrote-ok (q c) c h

  pub read-ok :
      (q : C → Result DbErr A) {c : C} {a : A} {c' : C}
      → read q c ≡ (ok a, c')
      → (q c ≡ ok a) × (c' ≡ c)
  read-ok q h =
      (ap (λ (r : Result DbErr A × C). r.0) h, sym (ap (λ (r : Result DbErr A × C). r.1) h))

module _ {Row Active : Type 0} {id_of : Row → ℕ} {Stores : Active → Row → Type 0}
    (t : Table Row Active id_of Stores) where
  open t use {
    Conn, rows, select, select_mem, update, update_rows, begin, commit, begin_rows, commit_rows,
  }

  module _ {A : Type 0} where
    committed-ok :
        (c : Conn) (a : A) (r : Result DbErr Conn) {b : A} {c' : Conn}
        → committed t c a r ≡ (ok b, c')
        → (a ≡ b) × (r ≡ ok c')
    committed-ok c a (ok d) h = (cc, cc)
    committed-ok c a (err e) h = cc

    finish-ok :
        (c : Conn) (r : Result DbErr A × Conn) {b : A} {c' : Conn}
        → finish t c r ≡ (ok b, c')
        → (d : Conn) × (r ≡ (ok b, d)) × (commit d ≡ ok c')
    finish-ok c (ok a, d) h =
        let (same, done) = committed-ok c a (commit d) h in (d, ap (λ x. (ok x, d)) same, done)
    finish-ok c (err e, d) h = cc

    begun-ok :
        (c : Conn) (m : Db Conn A) (r : Result DbErr Conn) {b : A} {c' : Conn}
        → begun t c m r ≡ (ok b, c')
        → (d : Conn) × (d' : Conn) × (r ≡ ok d) × (m d ≡ (ok b, d')) × (commit d' ≡ ok c')
    begun-ok c m (ok d) h = let (d', ran, done) = finish-ok c (m d) h in (d, d', refl, ran, done)
    begun-ok c m (err e) h = cc

    -- A transaction that succeeds has run, and was committed.
    pub transaction-ok :
        (m : Db Conn A) {c : Conn} {b : A} {c' : Conn}
        → transaction t m c ≡ (ok b, c')
        → (d : Conn) × (d' : Conn) × (rows d ≡ rows c) × (m d ≡ (ok b, d')) × (rows c' ≡ rows d')
    unfolding transaction
    transaction-ok m {c = c} h =
        let (d, d', started, ran, done) = begun-ok c m (begin c) h in
        (d, d', begin_rows started, ran, commit_rows done)

    committed-err :
        (c : Conn) (a : A) (r : Result DbErr Conn) {e : DbErr}
        → (committed t c a r).0 ≡ err e
        → (committed t c a r).1 ≡ c
    committed-err c a (ok d) h = cc
    committed-err c a (err e) h = refl

    finish-err :
        (c : Conn) (r : Result DbErr A × Conn) {e : DbErr}
        → (finish t c r).0 ≡ err e
        → (finish t c r).1 ≡ c
    finish-err c (ok a, d) h = committed-err c a (commit d) h
    finish-err c (err e, d) h = refl

    begun-err :
        (c : Conn) (m : Db Conn A) (r : Result DbErr Conn) {e : DbErr}
        → (begun t c m r).0 ≡ err e
        → (begun t c m r).1 ≡ c
    begun-err c m (ok d) h = finish-err c (m d) h
    begun-err c m (err e) h = refl

    -- A transaction that fails has changed nothing.
    pub transaction-err :
        (m : Db Conn A) (c : Conn) {e : DbErr}
        → (transaction t m c).0 ≡ err e
        → (transaction t m c).1 ≡ c
    unfolding transaction
    transaction-err m c h = begun-err c m (begin c) h

  first_row-mem : (xs : List Row) (x : Row) → first_row xs ≡ some x → Memᴰ x xs
  first_row-mem [] x h = cc
  first_row-mem (y ∷ xs) x h = Memᴰ.head (cc)

  -- What `.one()` finds is a row that passes the test.
  pub find_one-some :
      (p : Row → Bool) (c : Conn) (x : Row)
      → (find_one t p c).0 ≡ ok (some x)
      → Memᴰ x (rows c) × (p x ≡ true)
  unfolding find_one
  find_one-some p c x h =
      let run = find_one t p c in
      let whole : run ≡ (ok (some x), run.1) = λ i. (h i, run.1) in
      let (rs, c1, selected, h1) = >>=-ok (read (select p)) _ whole in
      let (selected', c1_is) = read-ok (select p) selected in
      let first : first_row rs ≡ some x = cc in
      (select_mem selected' x).0 (first_row-mem rs x first)

  -- A selection leaves the connection as it is.
  pub find_one-conn : (p : Row → Bool) (c : Conn) → (find_one t p c).1 ≡ c
  unfolding find_one
  find_one-conn p c = read_one (select p c)
    where
      read_one : (r : Result DbErr (List Row)) → (go_on (r, c) (λ rs. pure (first_row rs))).1 ≡ c
      read_one (ok rs) = refl
      read_one (err e) = refl

  -- The rows that the loop over `olds` touches.
  abbrev pub has_id : List Row → ℕ → Bool
  has_id olds i = any (λ l. id_of l == i) olds

  module _ (f : Row → Row) (same_id : (x : Row) → id_of (f x) ≡ id_of x)
      (twice : (x : Row) → f (f x) ≡ f x) where
    again_at :
        (i : ℕ) (olds : List Row) (x : Row)
        → (if has_id olds (id_of (if id_of x == i then f x else x))
            then f (if id_of x == i then f x else x)
            else if id_of x == i
            then f x
            else x)
          ≡ (if (if i == id_of x then true else has_id olds (id_of x)) then f x else x)
    again_at i olds x = elim (Bool-cases (id_of x == i)) [
      | inl e ↦
          let i_is : i ≡ id_of x = sym ((==_iff _ _).0 e) in
          rw (e, (==_iff i (id_of x)).1 i_is, same_id x, twice x)
            (if_same (has_id olds (id_of x)) (f x))
      | inr e ↦ rw (e, not_eq (id_of x) i e)
    ]

    again :
        (i : ℕ) (olds : List Row) (xs : List Row)
        → map
            (λ x. if has_id olds (id_of x) then f x else x)
            (map (λ x. if id_of x == i then f x else x) xs)
          ≡ map (λ x. if (if i == id_of x then true else has_id olds (id_of x)) then f x else x) xs
    again i olds [] = refl
    again i olds (x ∷ xs) = λ k. again_at i olds x k ∷ again i olds xs k

    map_same : (xs : List Row) → map (λ (x : Row). x) xs ≡ xs
    map_same [] = refl
    map_same (x ∷ xs) = ap (◌∷◌ x) (map_same xs)

    -- The loop that supersedes the old rows writes to them, and to no others.
    pub update_each-rows :
        (before_save : Row → Result DbErr (Unit {0})) (olds : List Row) (c c' : Conn) {u : Unit {0}}
        → update_each t before_save f olds c ≡ (ok u, c')
        → rows c' ≡ map (λ x. if has_id olds (id_of x) then f x else x) (rows c)
    unfolding update_each
    update_each-rows before_save [] c c' h =
        ap (λ (r : Result DbErr (Unit {0}) × Conn). rows r.1) (sym h) ∙ sym (map_same (rows c))
    update_each-rows before_save (old ∷ olds) c c' h =
        let (_, c1, saved, h1) = >>=-ok (read (λ _. before_save old)) _ h in
        let same : c1 ≡ c = (read-ok (λ _. before_save old) saved).1 in
        let (r, c2, wrote_old, h2) = >>=-ok (write (update (id_of old) f)) _ h1 in
        let one = update_rows (write-ok (update (id_of old) f) wrote_old) in
        update_each-rows before_save olds c2 c' h2
        ∙ ap (map (λ x. if has_id olds (id_of x) then f x else x))
            (one ∙ ap (λ d. map (λ x. if id_of x == id_of old then f x else x) (rows d)) same)
        ∙ again (id_of old) olds (rows c)
