-- ===== src/Routes/Pagination.antt =====
-- The pages of api-server/src/api_v1/routes/pagination.rs and common/src/lib.rs.
use amos2026ss01_zero_downti.Prelude.{
  ℕ, zero, suc, ◌+◌, ◌-◌, ◌*◌, ◌≤◌, ◌<◌, ◌≡◌, ◌↔◌, List, [], ◌∷◌, ◌++◌, ok, arith, take, drop,
  length, refl, ap, sym, ◌∙◌,
}
use native.Mathlib.Nat.{div-lt_iff_lt-mul}
use amos2026ss01_zero_downti.Routes.{PageParams, validate, div_ceil}

pub validate_iff :
    (p : PageParams)
    → (validate p ≡ ok tt) ↔ ((1 ≤ p.page) × (1 ≤ p.page_size) × (p.page_size ≤ 200))
unfolding validate
validate_iff p = ground (arith)

-- The number of pages is the least that holds all items.
pub div_ceil-least : (n d k : ℕ) → 0 < d → (div_ceil n d ≤ k) ↔ (n ≤ k * d)
div_ceil-least n d k h =
    let (down, up) = div-lt_iff_lt-mul {k = d} {x = n + (d - 1)} {y = suc k} h in
    (
      λ le. let b : n + (d - 1) < suc k * d = down (omega arith) in omega arith,
      λ le. let b : n + (d - 1) < suc k * d = omega arith in let c = up b in omega arith,
    )

module _ {A : Type 0} where
  -- The page with this number, counted from 0.
  abbrev pub page_of : ℕ → ℕ → List A → List A
  page_of size i xs = take size (drop (i * size) xs)

  -- The first `n` pages, one after the other.
  abbrev pub pages : ℕ → ℕ → List A → List A
  pages size zero xs = []
  pages size (suc n) xs = pages size n xs ++ page_of size n xs

  take-nil : (n : ℕ) → take {A = A} n [] ≡ []
  take-nil zero = refl
  take-nil (suc n) = refl

  take-add : (m n : ℕ) (xs : List A) → take (m + n) xs ≡ take m xs ++ take n (drop m xs)
  take-add zero n xs = let e : 0 + n ≡ n = omega arith in ap (λ k. take k xs) e
  take-add (suc m) n [] = take-nil (suc m + n) ∙ sym (take-nil n)
  take-add (suc m) n (x ∷ xs) =
      let e : suc m + n ≡ suc (m + n) = omega arith in
      ap (λ k. take k (x ∷ xs)) e ∙ ap (◌∷◌ x) (take-add m n xs)

  take-all : (n : ℕ) (xs : List A) → length xs ≤ n → take n xs ≡ xs
  take-all zero [] h = refl
  take-all zero (x ∷ xs) h = absurd (omega arith)
  take-all (suc n) [] h = refl
  take-all (suc n) (x ∷ xs) h = ap (◌∷◌ x) (take-all n xs (omega arith))

  pages_lem : (size n : ℕ) (xs : List A) → pages size n xs ≡ take (n * size) xs
  pages_lem size zero xs = let e : 0 ≡ 0 * size = omega arith in ap (λ k. take k xs) e
  pages_lem size (suc n) xs =
      let e : n * size + size ≡ suc n * size = omega arith in
      ap (λ ys. ys ++ page_of size n xs) (pages_lem size n xs)
      ∙ sym (take-add (n * size) size xs)
      ∙ ap (λ k. take k xs) e

  -- All the pages, put together, are the list.
  pub pages-all :
      (size : ℕ) (xs : List A) → 0 < size → pages size (div_ceil (length xs) size) xs ≡ xs
  pages-all size xs h =
      pages_lem size (div_ceil (length xs) size) xs
      ∙ take-all _ xs
          ((div_ceil-least (length xs) size (div_ceil (length xs) size) h).0 (omega arith))
