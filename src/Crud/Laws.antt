-- ===== src/Crud/Laws.antt =====
-- What an answer says of the call to the database that it came from.
use amos2026ss01_zero_downti.Prelude.{
  ap, ℕ, ◌≡◌, refl, Option, some, none, Result, ok, err, ◌⊎◌, inl, inr,
}
use amos2026ss01_zero_downti.Prelude.Text.{Str}
use amos2026ss01_zero_downti.Routes.{Response, answer, created, no_content, db_err}
use amos2026ss01_zero_downti.Db.Table.{DbErr, Db}
use amos2026ss01_zero_downti.Crud.{answered, fetched, made, removed, respond, unless}

module _ {C A : Type 0} where
  respond-created :
      (r : Result DbErr A × C) (a : A) (c' : C)
      → answered made r ≡ (answer created a, c')
      → r ≡ (ok a, c')
  respond-created (ok b, c) a c' h = cc
  respond-created (err e, c) a c' h = cc

  -- A body that is answered with 201 has passed the checks, and the call has made the row.
  pub unless-created :
      (msg : Option Str) (m : Db C A) (c c' : C) (a : A)
      → unless msg (respond made m) c ≡ (answer created a, c')
      → (msg ≡ none) × (m c ≡ (ok a, c'))
  unless-created none m c c' a h = (refl, respond-created (m c) a c' h)
  unless-created (some msg) m c c' a h = cc

module _ {C : Type 0} where
  removed-gone :
      (resource : Str) (id : ℕ) (r : Result DbErr ℕ × C) (c' : C)
      → answered (removed resource id) r ≡ (answer no_content tt, c')
      → (n : ℕ) × (r ≡ (ok n, c'))
  removed-gone resource id (ok n, c) c' h = (
    n,
    let same : c ≡ c' = ap (λ (x : Response (Unit {0}) × C). x.1) h in ap (λ x. (ok n, x)) same,
  )
  removed-gone resource id (err e, c) c' h = cc

  -- A deletion that is answered with 204 has run.
  pub respond-gone :
      (resource : Str) (id : ℕ) (m : Db C ℕ) (c c' : C)
      → respond (removed resource id) m c ≡ (answer no_content tt, c')
      → (n : ℕ) × (m c ≡ (ok n, c'))
  respond-gone resource id m c c' h = removed-gone resource id (m c) c' h

module _ {A : Type 0} where
  -- The answer, or that of a statement that fails.
  abbrev pub IsOrFails : Response A → Response A → Type 0
  IsOrFails r expected = (r ≡ expected) ⊎ ((e : DbErr) × (r ≡ db_err e))

  -- What is answered to a GET if only one row can be found.
  pub fetched-IsOrFails :
      (resource : Str) (id : ℕ) (r : Result DbErr (Option A)) (expected : Option A)
      → ((o : Option A) → r ≡ ok o → o ≡ expected)
      → IsOrFails (fetched resource id r) (fetched resource id (ok expected))
  fetched-IsOrFails resource id (ok o) expected only =
      inl (ap (λ x. fetched resource id (ok x)) (only o refl))
  fetched-IsOrFails resource id (err e) expected only = inr (e, refl)
