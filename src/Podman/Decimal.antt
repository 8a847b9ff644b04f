-- ===== src/Podman/Decimal.antt =====
-- `to_string` and `parse` of an `i32`, as orchestrator/src/podman/wrapper.rs uses them for the labels
-- of a container.
use amos2026ss01_zero_downti.Prelude.{
  ℕ, zero, suc, ◌+◌, ◌-◌, ◌*◌, ◌/◌, ◌%◌, ◌^◌, ◌≤◌, ◌<◌, ◌≡◌, refl, ap, ◌∙◌, Bool, true, false, ◌&&◌,
  Option, some, none, [], ◌∷◌, ◌++◌, ltb, leb, ◌==◌, if◌then◌else◌, Bool-cases, inl, inr, arith,
}
use amos2026ss01_zero_downti.Prelude.Text.{Str}

pub data ℤ : Type 0 where
  pos negsuc : ℕ → ℤ

-- `negsuc n` is -(n + 1).
abbrev pub IsI32 : ℤ → Type 0
IsI32 (pos n) = n < 2 ^ 31
IsI32 (negsuc n) = n < 2 ^ 31

abbrev pub digit : ℕ → ℕ
digit n = b'0' + n

-- The decimal digits of `n`, of which there are at most one more than the fuel.
unfoldable pub print : ℕ → ℕ → Str
print zero n = digit (n % 10) ∷ []
print (suc k) n =
    let front = print k (n / 10) in if ltb n 10 then digit n ∷ [] else front ++ digit (n % 10) ∷ []

unfoldable pub to_string : ℤ → Str
unfolding print
to_string (pos n) = print 9 n
to_string (negsuc n) = b'-' ∷ print 9 (suc n)

abbrev pub is_digit : ℕ → Bool
is_digit c = leb b'0' c && leb c b'9'

-- One digit after another, none of which takes the value over `max`.
unfoldable pub scan : ℕ → Str → ℕ → Option ℕ
scan max [] n = some n
scan max (c ∷ s) n =
    let value = n * 10 + (c - b'0') in
    let rest = scan max s value in
    if is_digit c then (if ltb max value then none else rest) else none

abbrev pub unsigned : Option ℕ → Option ℤ
unsigned none = none
unsigned (some n) = some (pos n)

abbrev pub negated : Option ℕ → Option ℤ
negated none = none
negated (some zero) = some (pos 0)
negated (some (suc n)) = some (negsuc n)

-- A sign stands before one digit at least.
unfoldable pub parse : Str → Option ℤ
unfolding scan
parse [] = none
parse (c ∷ []) = unsigned (scan (2 ^ 31 - 1) (c ∷ []) 0)
parse (c ∷ d ∷ s) =
    if c == b'-'
    then negated (scan (2 ^ 31) (d ∷ s) 0)
    else if c == b'+'
    then unsigned (scan (2 ^ 31 - 1) (d ∷ s) 0)
    else unsigned (scan (2 ^ 31 - 1) (c ∷ d ∷ s) 0)

-- The number has at most one digit more than the fuel.
abbrev Fits : ℕ → ℕ → Type 0
Fits zero n = n < 10
Fits (suc k) n = Fits k (n / 10)

scan-append :
    (max : ℕ) (s t : Str) (n v : ℕ) → scan max s n ≡ some v → scan max (s ++ t) n ≡ scan max t v
unfolding scan
scan-append max [] t n v h = ground arith
scan-append max (c ∷ s) t n v h = ground (arith, scan-append max s t (n * 10 + (c - b'0')) v)

scan_last : (max n : ℕ) → n ≤ max → scan max (digit (n % 10) ∷ []) (n / 10) ≡ some n
unfolding scan
scan_last max n h = ground arith

scan-digit : (max n : ℕ) → ltb n 10 ≡ true → n ≤ max → scan max (digit n ∷ []) 0 ≡ some n
unfolding scan
scan-digit max n small h = ground arith

scan-print : (max k n : ℕ) → Fits k n → n ≤ max → scan max (print k n) 0 ≡ some n
unfolding print scan
scan-print max zero n fits h = ground arith
scan-print max (suc k) n fits h = elim (Bool-cases (ltb n 10)) [
  | inl e ↦ rw e (scan-digit max n e h)
  | inr e ↦
      let front = scan-print max k (n / 10) fits (omega arith) in
      rw e (
        scan-append max (print k (n / 10)) (digit (n % 10) ∷ []) 0 (n / 10) front
        ∙ scan_last max n h)
]

small-Fits : (n : ℕ) → n ≤ 2 ^ 31 → Fits 9 n
small-Fits n h = omega arith

-- The first byte that is printed is a digit.
abbrev StartsWithDigit : Str → Type 0
StartsWithDigit s = (c : ℕ) × (rest : Str) × (s ≡ c ∷ rest) × (is_digit c ≡ true)

append-StartsWithDigit : (s t : Str) → StartsWithDigit s → StartsWithDigit (s ++ t)
append-StartsWithDigit s t (c, rest, starts, h) = (c, rest ++ t, ap (λ x. x ++ t) starts, h)

print-StartsWithDigit : (k n : ℕ) → StartsWithDigit (print k n)
unfolding print
print-StartsWithDigit zero n = (_, _, refl, ground arith)
print-StartsWithDigit (suc k) n = elim (Bool-cases (ltb n 10)) [
  | inl e ↦ rw e (digit n, [], refl, ground arith)
  | inr e ↦ rw e (
      append-StartsWithDigit (print k (n / 10)) (digit (n % 10) ∷ [])
        (print-StartsWithDigit k (n / 10)))
]

no_sign : (d : ℕ) → is_digit d ≡ true → ((d == b'-') ≡ false) × ((d == b'+') ≡ false)
no_sign d h = (ground arith, ground arith)

-- A text that starts with a digit has no sign.
parse_unsigned : (s : Str) → StartsWithDigit s → parse s ≡ unsigned (scan (2 ^ 31 - 1) s 0)
unfolding parse
parse_unsigned [] (c, rest, starts, h) = cc
parse_unsigned (d ∷ []) (c, rest, starts, h) = refl
parse_unsigned (d ∷ e ∷ s) (c, rest, starts, h) =
    let same : d ≡ c = cc in
    let digits : is_digit d ≡ true = ap is_digit same ∙ h in
    let (no_minus, no_plus) = no_sign d digits in rw (no_minus, no_plus) refl

parse_negative : (s : Str) → StartsWithDigit s → parse (b'-' ∷ s) ≡ negated (scan (2 ^ 31) s 0)
unfolding parse
parse_negative [] (c, rest, starts, h) = cc
parse_negative (d ∷ s) (c, rest, starts, h) = refl

-- Every `i32` is read back from its print.
pub parse-to_string : (i : ℤ) → IsI32 i → parse (to_string i) ≡ some i
unfolding to_string
parse-to_string (pos n) h =
    parse_unsigned (print 9 n) (print-StartsWithDigit 9 n)
    ∙ ap unsigned (scan-print (2 ^ 31 - 1) 9 n (small-Fits n (omega arith)) (omega arith))
parse-to_string (negsuc n) h =
    parse_negative (print 9 (suc n)) (print-StartsWithDigit 9 (suc n))
    ∙ ap negated (scan-print (2 ^ 31) 9 (suc n) (small-Fits (suc n) (omega arith)) (omega arith))
