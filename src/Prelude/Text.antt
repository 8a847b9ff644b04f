-- ===== src/Prelude/Text.antt =====
-- Text as Rust's `str` compares it: a list of UTF-8 bytes, ordered byte by byte.
use Prim.Native.Nat.{ℕ, compare, Ordering}
use Prim.Native.Char.{code}
use Prim.Native.String.{String}
use mathlib.Core.Path.{◌≡◌, refl}
use mathlib.Core.Logic.{◌↔◌}
use mathlib.Core.Bool.{Bool, true, false, ◌&&◌}
use mathlib.Core.List.{List, [], ◌∷◌}
use native.Mathlib.Omega.{arith}
use amos2026ss01_zero_downti.Prelude.Tests.{◌==◌, if◌then◌else◌}

abbrev pub Str : Type 0
Str = List ℕ

-- The bytes of an ASCII literal.
abbrev pub codes : String → Str
codes String.[] = []
codes (String.◌∷◌ c s) = code c ∷ codes s

-- `a == b`
unfoldable pub str_eq : Str → Str → Bool
str_eq [] [] = true
str_eq (x ∷ a) (y ∷ b) = x == y && str_eq a b
str_eq _ _ = false

-- `a.cmp(b)`
unfoldable pub str_cmp : Str → Str → Ordering
str_cmp [] [] = Ordering.eq
str_cmp [] (y ∷ b) = Ordering.lt
str_cmp (x ∷ a) [] = Ordering.gt
str_cmp (x ∷ a) (y ∷ b) =
    let rest = str_cmp a b in
    elim (compare x y) [
      | Ordering.lt ↦ Ordering.lt
      | Ordering.gt ↦ Ordering.gt
      | Ordering.eq ↦ rest
    ]

-- `s.split(c).next()`: what stands before the first `c`, or all of `s`.
unfoldable pub split_first : ℕ → Str → Str
split_first c [] = []
split_first c (x ∷ s) = let rest = split_first c s in if x == c then [] else x ∷ rest

pub str_eq_iff : (a b : Str) → (str_eq a b ≡ true) ↔ (a ≡ b)
unfolding str_eq
str_eq_iff [] [] = ground arith
str_eq_iff [] (y ∷ b) = ground arith
str_eq_iff (x ∷ a) [] = ground arith
str_eq_iff (x ∷ a) (y ∷ b) = ground (arith, str_eq_iff a b)

pub str_cmp-eq_iff : (a b : Str) → (str_cmp a b ≡ Ordering.eq) ↔ (a ≡ b)
unfolding str_cmp
str_cmp-eq_iff [] [] = ground arith
str_cmp-eq_iff [] (y ∷ b) = ground arith
str_cmp-eq_iff (x ∷ a) [] = ground arith
str_cmp-eq_iff (x ∷ a) (y ∷ b) = ground (arith, str_cmp-eq_iff a b)

pub str_cmp-gt_iff : (a b : Str) → (str_cmp a b ≡ Ordering.gt) ↔ (str_cmp b a ≡ Ordering.lt)
unfolding str_cmp
str_cmp-gt_iff [] [] = ground arith
str_cmp-gt_iff [] (y ∷ b) = ground arith
str_cmp-gt_iff (x ∷ a) [] = ground arith
str_cmp-gt_iff (x ∷ a) (y ∷ b) = ground (arith, str_cmp-gt_iff a b)

pub str_cmp-lt_trans :
    (a b c : Str)
    → str_cmp a b ≡ Ordering.lt
    → str_cmp b c ≡ Ordering.lt
    → str_cmp a c ≡ Ordering.lt
unfolding str_cmp
str_cmp-lt_trans [] [] c h k = ground arith
str_cmp-lt_trans [] (y ∷ b) [] h k = ground arith
str_cmp-lt_trans [] (y ∷ b) (z ∷ c) h k = refl
str_cmp-lt_trans (x ∷ a) [] c h k = ground arith
str_cmp-lt_trans (x ∷ a) (y ∷ b) [] h k = ground arith
str_cmp-lt_trans (x ∷ a) (y ∷ b) (z ∷ c) h k = ground (arith, str_cmp-lt_trans a b c)
