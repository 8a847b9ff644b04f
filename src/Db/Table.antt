-- ===== src/Db/Table.antt =====
-- One table of the database as SeaORM presents it, and the runs over it.
pub mod Laws
use amos2026ss01_zero_downti.Prelude.{
  ℕ, ◌≡◌, Bool, true, false, Option, some, none, List, [], ◌∷◌, ◌++◌, map, Memᴰ, Result, ok, err,
  ◌==◌, if◌then◌else◌, All, filter, length, not,
}
use amos2026ss01_zero_downti.Prelude.Text.{Str}

-- The `DbErr` that the code makes itself, and the errors of the database.
pub data DbErr : Type 0 where
  record_not_found custom : Str → DbErr
  database : ℕ → DbErr

-- A row of type `Row` has the key `id_of`; a row to insert is an `Active`, and `Stores a r` says
-- that `r` has the columns that `a` sets and the defaults of the others. A statement that fails
-- changes nothing.
pub record Table (Row Active : Type 0) (id_of : Row → ℕ) (Stores : Active → Row → Type 0)
    : Type 1 where
  pub Conn : Type 0
  pub rows : Conn → List Row
  -- `SELECT … WHERE p`, in no particular order.
  pub select : (Row → Bool) → Conn → Result DbErr (List Row)
  -- `SELECT … WHERE p ORDER BY`, where the test says that a row stands strictly before another.
  pub select_by : (Row → Row → Bool) → (Row → Bool) → Conn → Result DbErr (List Row)
  pub insert : Active → Conn → Result DbErr (Row × Conn)
  -- `UPDATE … SET … WHERE id = i`, with the columns set by the function.
  pub update : ℕ → (Row → Row) → Conn → Result DbErr (Row × Conn)
  -- `DELETE … WHERE id = i`, with the number of rows affected.
  pub delete : ℕ → Conn → Result DbErr (ℕ × Conn)
  pub begin : Conn → Result DbErr Conn
  pub commit : Conn → Result DbErr Conn
  pub select_mem :
      {p : Row → Bool} {c : Conn} {rs : List Row}
      → select p c ≡ ok rs
      → (x : Row)
      → (Memᴰ x rs → Memᴰ x (rows c) × (p x ≡ true)) × (Memᴰ x (rows c) → p x ≡ true → Memᴰ x rs)
  pub select_by_mem :
      {before : Row → Row → Bool} {p : Row → Bool} {c : Conn} {rs : List Row}
      → select_by before p c ≡ ok rs
      → (x : Row)
      → (Memᴰ x rs → Memᴰ x (rows c) × (p x ≡ true)) × (Memᴰ x (rows c) → p x ≡ true → Memᴰ x rs)
  pub select_by_first :
      {before : Row → Row → Bool} {p : Row → Bool} {c : Conn} {x : Row} {rs : List Row}
      → select_by before p c ≡ ok (x ∷ rs)
      → All (λ y. before y x ≡ false) rs
  pub insert_rows :
      {a : Active} {c c' : Conn} {r : Row}
      → insert a c ≡ ok (r, c')
      → Stores a r × (rows c' ≡ rows c ++ r ∷ []) × All (λ x. (id_of x == id_of r) ≡ false) (rows c)
  pub update_rows :
      {i : ℕ} {f : Row → Row} {c c' : Conn} {r : Row}
      → update i f c ≡ ok (r, c')
      → rows c' ≡ map (λ x. if id_of x == i then f x else x) (rows c)
  pub delete_rows :
      {i n : ℕ} {c c' : Conn}
      → delete i c ≡ ok (n, c')
      → (rows c' ≡ filter (λ x. not (id_of x == i)) (rows c))
        × (n ≡ length (filter (λ x. id_of x == i) (rows c)))
  pub begin_rows : {c c' : Conn} → begin c ≡ ok c' → rows c' ≡ rows c
  pub commit_rows : {c c' : Conn} → commit c ≡ ok c' → rows c' ≡ rows c

-- A run over a connection: what was written before an error stays written.
abbrev pub Db : Type 0 → Type 0 → Type 0
Db C A = C → Result DbErr A × C

module _ {C A B : Type 0} where
  abbrev pub go_on : Result DbErr A × C → (A → Db C B) → Result DbErr B × C
  go_on (ok a, c) f = f a c
  go_on (err e, c) f = (err e, c)

  infixl 5 ◌>>=◌ ◌>>◌
  abbrev pub ◌>>=◌ : Db C A → (A → Db C B) → Db C B
  ◌>>=◌ m f c = go_on (m c) f

  abbrev pub ◌>>◌ : Db C A → Db C B → Db C B
  m >> k = m >>= λ _. k

module _ {C A : Type 0} where
  abbrev pub pure : A → Db C A
  pure a c = (ok a, c)

  abbrev pub raise : DbErr → Db C A
  raise e c = (err e, c)

  -- A statement that only reads, and one that writes.
  abbrev pub read : (C → Result DbErr A) → Db C A
  read q c = (q c, c)

  abbrev pub wrote : Result DbErr (A × C) → C → Result DbErr A × C
  wrote (ok (a, c')) c = (ok a, c')
  wrote (err e) c = (err e, c)

  abbrev pub write : (C → Result DbErr (A × C)) → Db C A
  write q c = wrote (q c) c

-- `.one()`: the first row of the selection.
abbrev pub first_row {ℓ} : {A : Type ℓ} → List A → Option A
first_row [] = none
first_row (x ∷ xs) = some x

module _ {Row Active : Type 0} {id_of : Row → ℕ} {Stores : Active → Row → Type 0}
    (t : Table Row Active id_of Stores) where
  open t use {Conn, select, update, begin, commit}

  abbrev pub committed : {A : Type 0} → Conn → A → Result DbErr Conn → Result DbErr A × Conn
  committed c a (ok c') = (ok a, c')
  committed c a (err e) = (err e, c)

  -- A transaction that is dropped before its commit is rolled back.
  abbrev pub finish : {A : Type 0} → Conn → Result DbErr A × Conn → Result DbErr A × Conn
  finish c (ok a, c') = committed c a (commit c')
  finish c (err e, c') = (err e, c)

  abbrev pub begun : {A : Type 0} → Conn → Db Conn A → Result DbErr Conn → Result DbErr A × Conn
  begun c m (ok c') = finish c (m c')
  begun c m (err e) = (err e, c)

  -- `db.begin()`, the run, and `txn.commit()`.
  unfoldable pub transaction : {A : Type 0} → Db Conn A → Db Conn A
  transaction m c = begun c m (begin c)

  unfoldable pub find_one : (Row → Bool) → Db Conn (Option Row)
  find_one p = do rs ← read (select p); pure (first_row rs)

  -- `for old in existing { … old_active.update(&txn).await?; }`
  unfoldable pub update_each :
      (Row → Result DbErr (Unit {0})) → (Row → Row) → List Row → Db Conn (Unit {0})
  update_each before_save f [] = pure tt
  update_each before_save f (old ∷ olds) = do
    read (λ _. before_save old)
    write (update (id_of old) f)
    update_each before_save f olds
