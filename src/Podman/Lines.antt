-- ===== src/Podman/Lines.antt =====
-- Reading back the lines that Podman prefixes with a time.
use amos2026ss01_zero_downti.Prelude.{
  ℕ, ◌≡◌, refl, ap, ◌∙◌, Bool, true, false, ◌&&◌, Option, some, List, [], ◌∷◌, ◌++◌, is_empty, All,
  ◌==◌, if◌then◌else◌, arith,
}
use amos2026ss01_zero_downti.Prelude.Text.{Str}
use amos2026ss01_zero_downti.Logs.Registry.{LogStreamKind}
use amos2026ss01_zero_downti.Podman.{
  is_newline, trim_end, split_once, parse_log_line, parsed_line, stamped,
}

trim_end-newlines : (nl : Str) → All (λ c. is_newline c ≡ true) nl → trim_end nl ≡ []
unfolding trim_end
trim_end-newlines [] h = refl
trim_end-newlines (c ∷ nl) h = rw (trim_end-newlines nl h.1, h.0) refl

trim_end-append : (s nl : Str) → All (λ c. is_newline c ≡ true) nl → trim_end (s ++ nl) ≡ trim_end s
unfolding trim_end
trim_end-append [] nl h = trim_end-newlines nl h
trim_end-append (c ∷ s) nl h = rw (trim_end-append s nl h) refl

-- What stands before text that stays, stays.
trim_end-kept :
    (a : Str) (c : ℕ) (s : Str)
    → is_newline c ≡ false
    → trim_end s ≡ s
    → trim_end (a ++ c ∷ s) ≡ a ++ c ∷ s
unfolding trim_end
trim_end-kept [] c s h k = rw (k, h) (no_newline (is_empty s) c s h)
  where
    no_newline :
        (b : Bool) (c : ℕ) (s : Str)
        → is_newline c ≡ false
        → (if b && false then [] else c ∷ s) ≡ c ∷ s
    no_newline true c s h = refl
    no_newline false c s h = refl
trim_end-kept (x ∷ a) c s h k = rw (trim_end-kept a c s h k) (filled a)
  where
    filled :
        (a : Str)
        → (if is_empty (a ++ c ∷ s) && is_newline x then [] else x ∷ (a ++ c ∷ s))
          ≡ x ∷ (a ++ c ∷ s)
    filled [] = refl
    filled (y ∷ a) = refl

split_once-first :
    (c : ℕ) (a s : Str) → All (λ x. (x == c) ≡ false) a → split_once c (a ++ c ∷ s) ≡ some (a, s)
unfolding split_once
split_once-first c [] s h = ground arith
split_once-first c (x ∷ a) s h = rw (h.0, split_once-first c a s h.1) refl

module _ (from_utf8_lossy : List ℕ → Str) (parse_from_rfc3339 : Str → Option ℕ) where
  -- A line of a time, a space and a message that does not end in a line break, with any line breaks
  -- behind it, is read back as that time and that message.
  pub parse_log_line-stamped :
      (stream : LogStreamKind) (bytes : List ℕ) (ts message nl : Str) (t : ℕ)
      → from_utf8_lossy bytes ≡ (ts ++ b' ' ∷ message) ++ nl
      → parse_from_rfc3339 ts ≡ some t
      → All (λ x. (x == b' ') ≡ false) ts
      → trim_end message ≡ message
      → All (λ c. is_newline c ≡ true) nl
      → parse_log_line from_utf8_lossy parse_from_rfc3339 stream bytes
        ≡ record { stream = stream; time = some t; message = message }
  unfolding parse_log_line
  parse_log_line-stamped stream bytes ts message nl t text parses one_word trimmed breaks =
      let raw : trim_end (from_utf8_lossy bytes) ≡ ts ++ b' ' ∷ message =
        ap trim_end text
        ∙ trim_end-append (ts ++ b' ' ∷ message) nl breaks
        ∙ trim_end-kept ts b' ' message refl trimmed in
      ap (λ r. parsed_line from_utf8_lossy parse_from_rfc3339 stream (split_once b' ' r) r) raw
      ∙ ap (λ o. parsed_line from_utf8_lossy parse_from_rfc3339 stream o (ts ++ b' ' ∷ message))
          (split_once-first b' ' ts message one_word)
      ∙ ap
          (λ o.
            stamped from_utf8_lossy parse_from_rfc3339 stream ts message o (ts ++ b' ' ∷ message))
          parses
