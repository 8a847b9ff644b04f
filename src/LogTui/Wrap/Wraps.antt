-- ===== src/LogTui/Wrap/Wraps.antt =====
-- What `wrap_text` makes of a text.
use amos2026ss01_zero_downti.Prelude.{
  ℕ, zero, suc, ◌+◌, ◌≤◌, ◌<◌, ◌≡◌, refl, sym, ap, ◌∙◌, subst, false, Option, some, List, [], ◌∷◌,
  ◌++◌, length, take, drop, is_empty, leb, if◌then◌else◌, Bool-cases, inl, inr, arith, length-drop,
  append_assoc, append-nil,
}
use amos2026ss01_zero_downti.LogTui.Wrap.{
  Text, is_whitespace, split_from, split_whitespace, max_1, sep_of, joined, limit_for, fits, place,
  place_all, ended, wrap_text,
}
use amos2026ss01_zero_downti.LogTui.Wrap.Place.{
  visible, visible-append, concat, concat-last, IsWithin, IsWithin-last, Holds, joined-Holds,
  flushed-Holds, cut-Holds, split-visible,
}

module _ (first_width cont_width : ℕ) (some_first : 1 ≤ first_width)
    (some_cont : 1 ≤ cont_width) where
  limit-positive : (out : List Text) → 1 ≤ limit_for first_width cont_width out
  limit-positive [] = some_first
  limit-positive (l ∷ ls) = some_cont

  abbrev IsPlaced : Option (List Text × Text) → Text → Type 0
  IsPlaced o shown =
      (out : List Text) × (cur : Text) × (o ≡ some (out, cur))
      × Holds first_width cont_width (out, cur) shown

  long_word : (n : ℕ) (word : Text) → leb (0 + 0 + length word) n ≡ false → n < length word
  long_word n word h = ground arith

  nonempty : (s : Text) → 1 ≤ length s → is_empty s ≡ false
  nonempty [] h = absurd (omega arith)
  nonempty (c ∷ s) h = refl

  still_left :
      (n : ℕ) (word : Text) → leb (0 + 0 + length word) n ≡ false → is_empty (drop n word) ≡ false
  still_left n word h =
      nonempty (drop n word) (omega (arith, length-drop n word, long_word n word h))

  -- Enough fuel for one word: two turns for its first character, and one for each other.
  place-Holds :
      (fuel : ℕ) (out : List Text) (cur word shown : Text)
      → length word + sep_of cur < fuel
      → Holds first_width cont_width (out, cur) shown
      → IsPlaced (place first_width cont_width fuel out cur word) (shown ++ visible word)
  unfolding place
  place-Holds zero out cur word shown enough h = absurd (omega arith)
  place-Holds (suc fuel) out [] word shown enough h =
      elim (Bool-cases (fits first_width cont_width out [] word)) [
        | inl e ↦
            rw e
              (out, joined [] word, refl, joined-Holds first_width cont_width out [] word shown h e)
        | inr e ↦
            let n = limit_for first_width cont_width out in
            rw (e, still_left n word e)
              (subst
                (IsPlaced
                  (place first_width cont_width fuel (out ++ take n word ∷ []) [] (drop n word)))
                (append_assoc shown (visible (take n word)) (visible (drop n word))
                  ∙ ap (λ t. shown ++ t) (split-visible first_width cont_width n word))
                (place-Holds fuel (out ++ take n word ∷ []) [] (drop n word)
                  (shown ++ visible (take n word))
                  (omega (arith, length-drop n word, long_word n word e, limit-positive out))
                  (cut-Holds first_width cont_width out word shown h)))
      ]
  place-Holds (suc fuel) out (c ∷ cur) word shown enough h =
      elim (Bool-cases (fits first_width cont_width out (c ∷ cur) word)) [
        | inl e ↦ rw e (
          out,
          joined (c ∷ cur) word,
          refl,
          joined-Holds first_width cont_width out (c ∷ cur) word shown h e,
        )
        | inr e ↦ rw e (
            place-Holds fuel (out ++ (c ∷ cur) ∷ []) [] word shown (omega arith)
              (flushed-Holds first_width cont_width out (c ∷ cur) shown h))
      ]

  place_all-Holds :
      (words out : List Text) (cur shown : Text)
      → Holds first_width cont_width (out, cur) shown
      → IsPlaced (place_all first_width cont_width words out cur) (shown ++ visible (concat words))
  unfolding place_all
  place_all-Holds [] out cur shown (within, short, is) =
      (out, cur, refl, (within, short, is ∙ sym (append-nil shown)))
  place_all-Holds (word ∷ words) out cur shown h =
      let (out', cur', placed, holds) =
        place-Holds (suc (suc (length word))) out cur word shown (sep_small cur) h in
      rw (place_all, placed)
        (subst (IsPlaced (place_all first_width cont_width words out' cur'))
          (append_assoc shown (visible word) (visible (concat words))
            ∙ ap (λ t. shown ++ t) (sym (visible-append word (concat words))))
          (place_all-Holds words out' cur' (shown ++ visible word) holds))
    where
      sep_small : (cur : Text) → length word + sep_of cur < suc (suc (length word))
      sep_small [] = omega arith
      sep_small (c ∷ cur) = omega arith

-- The words show what the text shows.
split_from-visible : (s : Text) → visible ((split_from s).0 ++ concat (split_from s).1) ≡ visible s
unfolding split_from
split_from-visible [] = refl
split_from-visible (c ∷ s) = elim (Bool-cases (is_whitespace c)) [
  | inl e ↦ rw e (again (split_from s).0 (split_from s).1 ∙ split_from-visible s)
  | inr e ↦ rw (e, e) (ap (◌∷◌ c) (split_from-visible s))
]
  where
    again :
        (word : Text) (words : List Text)
        → visible (concat (if is_empty word then words else word ∷ words))
          ≡ visible (word ++ concat words)
    again [] words = refl
    again (d ∷ word) words = refl

first_word :
    (word : Text) (words : List Text)
    → visible (concat (if is_empty word then words else word ∷ words))
      ≡ visible (word ++ concat words)
first_word [] words = refl
first_word (d ∷ word) words = refl

split_whitespace-visible : (s : Text) → visible (concat (split_whitespace s)) ≡ visible s
unfolding split_whitespace
split_whitespace-visible s = first_word (split_from s).0 (split_from s).1 ∙ split_from-visible s

max_1-positive : (n : ℕ) → 1 ≤ max_1 n
max_1-positive n = ground arith

-- How a text is wrapped.
abbrev pub IsWrapped : Text → ℕ → ℕ → List Text → Type 0
IsWrapped text first_width cont_width lines =
    IsWithin (max_1 first_width) (max_1 cont_width) lines
    × (visible (concat lines) ≡ visible text)
    × (is_empty lines ≡ false)

not_empty_last : (ls : List Text) (l : Text) → is_empty (ls ++ l ∷ []) ≡ false
not_empty_last [] l = refl
not_empty_last (x ∷ ls) l = refl

ended-IsWrapped :
    (text : Text) (f c : ℕ) (out : List Text) (cur : Text)
    → Holds (max_1 f) (max_1 c) (out, cur) (visible text)
    → (lines : List Text) × (ended (some (out, cur)) ≡ some lines) × IsWrapped text f c lines
ended-IsWrapped text f c [] [] (within, short, is) = ([] ∷ [], refl, ((short, tt), is, refl))
ended-IsWrapped text f c [] (d ∷ cur) (within, short, is) =
    ((d ∷ cur) ∷ [], refl, ((short, tt), ap visible (append-nil (d ∷ cur)) ∙ is, refl))
ended-IsWrapped text f c (l ∷ out) [] (within, short, is) =
    (l ∷ out, refl, (within, ap visible (sym (append-nil (concat (l ∷ out)))) ∙ is, refl))
ended-IsWrapped text f c (l ∷ out) (d ∷ cur) (within, short, is) = (
  l ∷ (out ++ (d ∷ cur) ∷ []),
  refl,
  (
    IsWithin-last (max_1 f) (max_1 c) (l ∷ out) (d ∷ cur) within short,
    ap visible (concat-last (l ∷ out) (d ∷ cur)) ∙ is,
    refl,
  ),
)

-- wrap_text makes at least one line of every text, at any widths. The first line has at most the
-- first width and each other line at most the other width, where a width of 0 counts as 1. But for
-- white space, the lines together are the text.
pub wrap_text-wraps :
    (text : Text) (first_width cont_width : ℕ)
    → (lines : List Text) × (wrap_text text first_width cont_width ≡ some lines)
      × IsWrapped text first_width cont_width lines
unfolding wrap_text
wrap_text-wraps text f c =
    let words = split_whitespace text in
    let (out, cur, placed, holds) =
      place_all-Holds (max_1 f) (max_1 c) (max_1-positive f) (max_1-positive c) words [] [] []
        (tt, omega arith, refl) in
    rw placed (
      ended-IsWrapped text f c out cur
        (subst (Holds (max_1 f) (max_1 c) (out, cur)) (split_whitespace-visible text) holds))
