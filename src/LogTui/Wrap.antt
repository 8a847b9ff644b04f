-- ===== src/LogTui/Wrap.antt =====
-- `wrap_text` of log-tui/src/ui.rs. A text is the list of its characters.
pub mod Place
pub mod Wraps
use amos2026ss01_zero_downti.Prelude.{
  ℕ, zero, suc, ◌+◌, Bool, true, false, not, ◌&&◌, ◌||◌, Option, some, none, List, [], ◌∷◌, ◌++◌,
  length, take, drop, is_empty, ltb, leb, ◌==◌, if◌then◌else◌,
}

abbrev pub Text : Type 0
Text = List ℕ

-- `char::is_whitespace`
abbrev pub is_whitespace : ℕ → Bool
is_whitespace c =
    (leb 9 c && leb c 13)
    || ((c == 32)
        || ((c == 133)
            || ((c == 160)
                || ((c == 5760)
                    || ((leb 8192 c && leb c 8202)
                        || ((c == 8232)
                            || ((c == 8233) || ((c == 8239) || ((c == 8287) || (c == 12288))))))))))

-- The word that a text starts with, and the words after it.
unfoldable pub split_from : Text → Text × List Text
split_from [] = ([], [])
split_from (c ∷ s) =
    let (word, words) = split_from s in
    if is_whitespace c
    then ([], if is_empty word then words else word ∷ words)
    else (c ∷ word, words)

-- `split_whitespace`
unfoldable pub split_whitespace : Text → List Text
unfolding split_from
split_whitespace s =
    let (word, words) = split_from s in if is_empty word then words else word ∷ words

-- `max(1)`
abbrev pub max_1 : ℕ → ℕ
max_1 n = if ltb n 1 then 1 else n

abbrev pub sep_of : Text → ℕ
sep_of cur = if is_empty cur then 0 else 1

abbrev pub joined : Text → Text → Text
joined cur word = if is_empty cur then word else cur ++ b' ' ∷ word

module _ (first_width cont_width : ℕ) where
  abbrev pub limit_for : List Text → ℕ
  limit_for [] = first_width
  limit_for (l ∷ ls) = cont_width

  abbrev pub fits : List Text → Text → Text → Bool
  fits out cur word = leb (length cur + sep_of cur + length word) (limit_for out)

  -- The line that a turn of the `loop` writes if the word does not fit, and what it leaves of the
  -- word.
  abbrev pub line_of : List Text → Text → Text → Text
  line_of out cur word = if is_empty cur then take (limit_for out) word else cur

  abbrev pub left_of : List Text → Text → Text → Text
  left_of out cur word = if is_empty cur then drop (limit_for out) word else word

  -- The `loop` for one word, on fuel; `none` if that runs out.
  unfoldable pub place : ℕ → List Text → Text → Text → Option (List Text × Text)
  place zero out cur word = none
  place (suc fuel) out cur word =
      let line = line_of out cur word in
      let left = left_of out cur word in
      let next = place fuel (out ++ line ∷ []) [] left in
      if fits out cur word
      then some (out, joined cur word)
      else if is_empty cur && is_empty left
      then some (out ++ line ∷ [], [])
      else next

  unfoldable pub place_all : List Text → List Text → Text → Option (List Text × Text)
  unfolding place
  place_all [] out cur = some (out, cur)
  place_all (word ∷ words) out cur = elim (place (suc (suc (length word))) out cur word) [
    | none ↦ none
    | some (out', cur') ↦ place_all words out' cur'
  ]

abbrev pub ended : Option (List Text × Text) → Option (List Text)
ended none = none
ended (some (out, cur)) = some (if not (is_empty cur) || is_empty out then out ++ cur ∷ [] else out)

unfoldable pub wrap_text : Text → ℕ → ℕ → Option (List Text)
unfolding place_all split_whitespace
wrap_text text first_width cont_width =
    ended (place_all (max_1 first_width) (max_1 cont_width) (split_whitespace text) [] [])
