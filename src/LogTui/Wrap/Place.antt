-- ===== src/LogTui/Wrap/Place.antt =====
-- What one word does to the lines.
use amos2026ss01_zero_downti.Prelude.{
  ℕ, ◌+◌, ◌≤◌, ◌≡◌, refl, sym, ap, ◌∙◌, true, not, List, [], ◌∷◌, ◌++◌, length, take, drop, filter,
  Bool-cases, inl, inr, arith, length-append, length-take, All, append_assoc, append-nil,
  take-append-drop,
}
use amos2026ss01_zero_downti.LogTui.Wrap.{Text, is_whitespace, sep_of, joined, limit_for, fits}

-- The characters that are no white space.
abbrev pub visible : Text → Text
visible s = filter (λ c. not (is_whitespace c)) s

abbrev pub concat : List Text → Text
concat [] = []
concat (l ∷ ls) = l ++ concat ls

pub visible-append : (a b : Text) → visible (a ++ b) ≡ visible a ++ visible b
visible-append [] b = refl
visible-append (c ∷ a) b = elim (Bool-cases (is_whitespace c)) [
  | inl e ↦ rw e (visible-append a b)
  | inr e ↦ rw e (ap (◌∷◌ c) (visible-append a b))
]

pub concat-last : (ls : List Text) (l : Text) → concat (ls ++ l ∷ []) ≡ concat ls ++ l
concat-last [] l = append-nil l
concat-last (x ∷ ls) l = ap (λ t. x ++ t) (concat-last ls l) ∙ sym (append_assoc x (concat ls) l)

module _ (first_width cont_width : ℕ) where
  -- The first line has its width, and the others have theirs.
  abbrev pub IsWithin : List Text → Type 0
  IsWithin [] = Unit
  IsWithin (l ∷ ls) = (length l ≤ first_width) × All (λ (x : Text). length x ≤ cont_width) ls

  all-last :
      (ls : List Text) (l : Text)
      → All (λ (x : Text). length x ≤ cont_width) ls
      → length l ≤ cont_width
      → All (λ (x : Text). length x ≤ cont_width) (ls ++ l ∷ [])
  all-last [] l all h = (h, tt)
  all-last (x ∷ ls) l (y, all) h = (y, all-last ls l all h)

  pub IsWithin-last :
      (out : List Text) (l : Text)
      → IsWithin out
      → length l ≤ limit_for first_width cont_width out
      → IsWithin (out ++ l ∷ [])
  IsWithin-last [] l w h = (h, tt)
  IsWithin-last (x ∷ ls) l (y, all) h = (y, all-last ls l all h)

  -- The lines and the current one are within their widths, and show `shown`.
  abbrev pub Holds : List Text × Text → Text → Type 0
  Holds (out, cur) shown =
      IsWithin out
      × (length cur ≤ limit_for first_width cont_width out)
      × (visible (concat out ++ cur) ≡ shown)

  joined-visible : (cur word : Text) → visible (joined cur word) ≡ visible cur ++ visible word
  joined-visible [] word = refl
  joined-visible (c ∷ cur) word = visible-append (c ∷ cur) (b' ' ∷ word)

  joined-length :
      (cur word : Text) → length (joined cur word) ≡ length cur + sep_of cur + length word
  joined-length [] word = omega arith
  joined-length (c ∷ cur) word = omega (arith, length-append cur (b' ' ∷ word))

  pub split-visible :
      (n : ℕ) (word : Text) → visible (take n word) ++ visible (drop n word) ≡ visible word
  split-visible n word =
      sym (visible-append (take n word) (drop n word)) ∙ ap visible (take-append-drop n word)

  -- The word goes on the current line.
  pub joined-Holds :
      (out : List Text) (cur word shown : Text)
      → Holds (out, cur) shown
      → fits first_width cont_width out cur word ≡ true
      → Holds (out, joined cur word) (shown ++ visible word)
  joined-Holds out cur word shown (within, short, is) h = (
    within,
    rw (joined-length cur word) (ground arith),
    visible-append (concat out) (joined cur word)
        ∙ ap (λ t. visible (concat out) ++ t) (joined-visible cur word)
        ∙ sym (append_assoc (visible (concat out)) (visible cur) (visible word))
        ∙ ap (λ t. t ++ visible word) (sym (visible-append (concat out) cur) ∙ is),
  )

  -- The current line is written.
  pub flushed-Holds :
      (out : List Text) (cur shown : Text)
      → Holds (out, cur) shown
      → Holds (out ++ cur ∷ [], []) shown
  flushed-Holds out cur shown (within, short, is) = (
    IsWithin-last out cur within short,
    empty-short (out ++ cur ∷ []),
    ap visible (append-nil (concat (out ++ cur ∷ [])) ∙ concat-last out cur) ∙ is,
  )
    where
      empty-short : (ls : List Text) → length {A = ℕ} [] ≤ limit_for first_width cont_width ls
      empty-short ls = omega arith

  -- The start of the word is written as a line of its own.
  pub cut-Holds :
      (out : List Text) (word shown : Text)
      → Holds (out, []) shown
      → Holds
          (out ++ take (limit_for first_width cont_width out) word ∷ [], [])
          (shown ++ visible (take (limit_for first_width cont_width out) word))
  cut-Holds out word shown (within, short, is) =
      flushed-Holds out line (shown ++ visible line)
        (within, omega (arith, length-take (limit_for first_width cont_width out) word), seen)
    where
      line : Text
      line = take (limit_for first_width cont_width out) word

      seen : visible (concat out ++ line) ≡ shown ++ visible line
      seen =
          visible-append (concat out) line
          ∙ ap (λ t. t ++ visible line) (ap visible (sym (append-nil (concat out))) ∙ is)
