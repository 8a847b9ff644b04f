-- ===== src/Prelude/Lists.antt =====
-- Lists measured by native numbers, Boolean filters and membership that can be matched.
use Prim.Native.Nat.{◌≤◌, ℕ, zero, suc, ◌+◌, ◌-◌, min}
use mathlib.Core.Path.{◌≡◌, refl, sym, ap, ◌∙◌}
use mathlib.Core.Bool.{Bool, true, false}
use mathlib.Core.List.{List, [], ◌∷◌, ◌++◌, map, Memᴰ}
use mathlib.Core.Option.{Option, none, some}
use native.Mathlib.Omega.{arith}
use amos2026ss01_zero_downti.Prelude.Tests.{if◌then◌else◌}

module _ {ℓ} {A : Type ℓ} where
  abbrev pub length : List A → ℕ
  length [] = 0
  length (x ∷ xs) = suc (length xs)

  abbrev pub get_elem? : List A → ℕ → Option A
  get_elem? [] i = none
  get_elem? (x ∷ xs) zero = some x
  get_elem? (x ∷ xs) (suc i) = get_elem? xs i

  abbrev pub is_empty : List A → Bool
  is_empty [] = true
  is_empty (x ∷ xs) = false

  abbrev pub drop : ℕ → List A → List A
  drop zero xs = xs
  drop (suc n) [] = []
  drop (suc n) (x ∷ xs) = drop n xs

  abbrev pub take : ℕ → List A → List A
  take zero xs = []
  take (suc n) [] = []
  take (suc n) (x ∷ xs) = x ∷ take n xs

  -- `iter().filter(p)`
  abbrev pub filter : (A → Bool) → List A → List A
  filter p [] = []
  filter p (x ∷ xs) = let rest = filter p xs in if p x then x ∷ rest else rest

  -- `iter().any(p)`
  abbrev pub any : (A → Bool) → List A → Bool
  any p [] = false
  any p (x ∷ xs) = let rest = any p xs in if p x then true else rest

  pub length-append : (xs ys : List A) → length (xs ++ ys) ≡ length xs + length ys
  length-append [] ys = omega arith
  length-append (x ∷ xs) ys = omega (arith, length-append xs ys)

  pub length-drop : (n : ℕ) (xs : List A) → length (drop n xs) ≡ length xs - n
  length-drop zero xs = omega arith
  length-drop (suc n) [] = omega arith
  length-drop (suc n) (x ∷ xs) = omega (arith, length-drop n xs)

  pub length-take : (n : ℕ) (xs : List A) → length (take n xs) ≡ min n (length xs)
  length-take zero xs = omega arith
  length-take (suc n) [] = omega arith
  length-take (suc n) (x ∷ xs) = omega (arith, length-take n xs)

  pub take-append-drop : (n : ℕ) (xs : List A) → take n xs ++ drop n xs ≡ xs
  take-append-drop zero xs = refl
  take-append-drop (suc n) [] = refl
  take-append-drop (suc n) (x ∷ xs) = ap (◌∷◌ x) (take-append-drop n xs)

module _ {ℓ} {A : Type ℓ} where
  -- The newest `n`.
  abbrev pub newest : ℕ → List A → List A
  newest n xs = drop (length xs - n) xs

  pub drop_all : (k : ℕ) → drop {A = A} k [] ≡ []
  drop_all zero = refl
  drop_all (suc k) = refl

  pub drop-drop : (m k : ℕ) (xs : List A) → drop m (drop k xs) ≡ drop (k + m) xs
  drop-drop m zero xs = let e : m ≡ 0 + m = omega arith in ap (λ n. drop n xs) e
  drop-drop m (suc k) [] = drop_all m ∙ sym (drop_all (suc k + m))
  drop-drop m (suc k) (x ∷ xs) =
      let e : suc (k + m) ≡ suc k + m = omega arith in
      drop-drop m k xs ∙ ap (λ n. drop n (x ∷ xs)) e

  pub drop-then : (k : ℕ) (xs ys : List A) → k ≤ length xs → drop k (xs ++ ys) ≡ drop k xs ++ ys
  drop-then zero xs ys h = refl
  drop-then (suc k) [] ys h = absurd (omega arith)
  drop-then (suc k) (x ∷ xs) ys h = drop-then k xs ys (omega arith)

  pub newest-then :
      (n : ℕ) (xs : List A) (x : A) → newest n (newest n xs ++ x ∷ []) ≡ newest n (xs ++ x ∷ [])
  newest-then n xs x =
      let k = length xs - n in
      let whole : newest n xs ++ x ∷ [] ≡ drop k (xs ++ x ∷ []) =
        sym (drop-then k xs (x ∷ []) (omega arith)) in
      let count : k + (length (drop k (xs ++ x ∷ [])) - n) ≡ length (xs ++ x ∷ []) - n =
        omega (arith, length-drop k (xs ++ x ∷ []), length-append xs (x ∷ [])) in
      ap (newest n) whole
      ∙ drop-drop (length (drop k (xs ++ x ∷ [])) - n) k (xs ++ x ∷ [])
      ∙ ap (λ m. drop m (xs ++ x ∷ [])) count

pub mem-last {ℓ} : {A : Type ℓ} (xs : List A) (x : A) → Memᴰ x (xs ++ x ∷ [])
mem-last [] x = Memᴰ.head refl
mem-last (y ∷ xs) x = Memᴰ.tail (mem-last xs x)

stays_under_if {ℓ} :
    {A : Type ℓ} (b : Bool) (x y : A) (xs : List A) → Memᴰ x xs → Memᴰ x (if b then y ∷ xs else xs)
stays_under_if true x y xs m = Memᴰ.tail m
stays_under_if false x y xs m = m

-- What passes a filter stays a member.
pub mem-filter {ℓ} :
    {A : Type ℓ} (p : A → Bool) (xs : List A) (x : A)
    → Memᴰ x xs
    → p x ≡ true
    → Memᴰ x (filter p xs)
mem-filter p [] x m h = elim m [ ]
mem-filter p (y ∷ xs) x (Memᴰ.head q) h =
    let e : p y ≡ true = sym (ap p q) ∙ h in rw e (Memᴰ.head q)
mem-filter p (y ∷ xs) x (Memᴰ.tail m) h =
    stays_under_if (p y) x y (filter p xs) (mem-filter p xs x m h)

pub mem-map {ℓ κ} :
    {A : Type ℓ} {B : Type κ} (f : A → B) (xs : List A) (y : B)
    → Memᴰ y (map f xs)
    → (x : A) × (y ≡ f x)
mem-map f [] y m = elim m [ ]
mem-map f (x ∷ xs) y (Memᴰ.head e) = (x, e)
mem-map f (x ∷ xs) y (Memᴰ.tail m) = mem-map f xs y m

-- A predicate on every element.
abbrev pub All {ℓ κ} : {A : Type ℓ} → (A → Type κ) → List A → Type κ
All P [] = Unit
All P (x ∷ xs) = P x × All P xs
