-- ===== src/LogTui/Entry.antt =====
-- `render_entry` of log-tui/src/ui.rs: the rows of one log entry, without their styles.
use amos2026ss01_zero_downti.Prelude.{
  ℕ, ◌+◌, ◌-◌, ◌*◌, ◌≤◌, ◌<◌, append_assoc, ◌≡◌, refl, sym, ap, ◌∙◌, false, Option, some, none,
  List, [], ◌∷◌, ◌++◌, length, map, All, is_empty, ltb, ◌==◌, if◌then◌else◌, arith, length-append,
}
use amos2026ss01_zero_downti.Prelude.Text.{Str, codes}
use amos2026ss01_zero_downti.Logs.{LogLevel, trace, debug, info, warn, error, fatal}
use amos2026ss01_zero_downti.Logs.Events.{LogEvent, of_device, of_application}
use amos2026ss01_zero_downti.Podman.Decimal.{pos, to_string}
use amos2026ss01_zero_downti.LogTui.Wrap.{Text, max_1, wrap_text}
use amos2026ss01_zero_downti.LogTui.Wrap.Place.{visible, visible-append, concat}
use amos2026ss01_zero_downti.LogTui.Wrap.Wraps.{IsWrapped, wrap_text-wraps}

-- One byte of UTF-8: how many bytes are still to come, the bits so far, and the character that ends.
abbrev pub decode_byte : ℕ → ℕ → ℕ → ℕ × ℕ × Text
decode_byte more bits b =
    if ltb b 128
    then (0, 0, b ∷ [])
    else if ltb b 192
    then (more - 1, bits * 64 + (b - 128), if more == 1 then (bits * 64 + (b - 128)) ∷ [] else [])
    else if ltb b 224
    then (1, b - 192, [])
    else if ltb b 240
    then (2, b - 224, [])
    else (3, b - 240, [])

unfoldable pub decode : ℕ → ℕ → Str → Text
decode more bits [] = []
decode more bits (b ∷ s) =
    let (more', bits', out) = decode_byte more bits b in out ++ decode more' bits' s

-- The characters of a text.
abbrev pub chars : Str → Text
chars s = decode 0 0 s

-- `level_str(level).to_uppercase()` in the format `{:<5} `.
abbrev pub level_text : LogLevel → Text
level_text trace = codes "TRACE "
level_text debug = codes "DEBUG "
level_text info = codes "INFO  "
level_text warn = codes "WARN  "
level_text error = codes "ERROR "
level_text fatal = codes "FATAL "

abbrev pub with_source : Option Str → Text
with_source none = []
with_source (some s) = codes " (" ++ chars s ++ codes ")"

-- The time, the level, the body and the tag.
abbrev pub parts : LogEvent → ℕ × LogLevel × Text × Text
parts (of_device m) = (
  m.time,
  m.level,
  chars m.message ++ with_source m.source,
  codes "[dev " ++ to_string (pos m.device_id) ++ codes "] ",
)
parts (of_application m) = (
  m.time,
  m.level,
  chars m.message ++ with_source m.source,
  codes "[dev "
      ++ to_string (pos m.device_id)
      ++ codes "/app "
      ++ to_string (pos m.application_id)
      ++ codes "] ",
)

abbrev pub cont_indent : ℕ
cont_indent = 2

abbrev pub indented : Text → Text
indented chunk = b' ' ∷ b' ' ∷ chunk

-- The rows of the wrapped body, where the fuel of `wrap_text` gives it.
abbrev pub rows_of : Text → Option (List Text) → List Text
rows_of prefix none = []
rows_of prefix (some []) = prefix ∷ []
rows_of prefix (some (chunk ∷ chunks)) = (prefix ++ chunk) ∷ map indented chunks

abbrev pub first_w : ℕ → Text → ℕ
first_w width prefix = max_1 (max_1 width - length prefix)

abbrev pub cont_w : ℕ → ℕ
cont_w width = max_1 (max_1 width - cont_indent)

-- `time_text` formats a time as "%H:%M:%S ".
module _ (time_text : ℕ → Text) where
  abbrev pub prefix_of : LogEvent → Text
  prefix_of e = let (time, level, body, tag) = parts e in time_text time ++ level_text level ++ tag

  abbrev pub body_of : LogEvent → Text
  body_of e = let (time, level, body, tag) = parts e in body

  unfoldable pub render_entry : LogEvent → ℕ → List Text
  unfolding wrap_text to_string decode
  render_entry e width =
      let prefix = prefix_of e in
      rows_of prefix (wrap_text (body_of e) (first_w width prefix) (cont_w width))

level_length : (l : LogLevel) → length (level_text l) ≡ 6
level_length trace = refl
level_length debug = refl
level_length info = refl
level_length warn = refl
level_length error = refl
level_length fatal = refl

prefix_long : (time : Text) (l : LogLevel) (tag : Text) → 6 ≤ length (time ++ level_text l ++ tag)
prefix_long time l tag = omega (
  arith,
  level_length l,
  length-append (time ++ level_text l) tag,
  length-append time (level_text l),
)

all-indented :
    (w c : ℕ) (chunks : List Text)
    → c + 2 ≤ w
    → All (λ (l : Text). length l ≤ c) chunks
    → All (λ (l : Text). length l ≤ w) (map indented chunks)
all-indented w c [] h all = tt
all-indented w c (l ∷ chunks) h (short, all) = (omega arith, all-indented w c chunks h all)

visible-indented :
    (chunks : List Text) → visible (concat (map indented chunks)) ≡ visible (concat chunks)
visible-indented [] = refl
visible-indented (l ∷ chunks) =
    visible-append l (concat (map indented chunks))
    ∙ ap (λ t. visible l ++ t) (visible-indented chunks)
    ∙ sym (visible-append l (concat chunks))

first_fits : (w n k : ℕ) → n < w → k ≤ max_1 (max_1 (max_1 w - n)) → n + k ≤ w
first_fits w n k room short = ground arith

cont_fits : (w : ℕ) → 3 ≤ w → max_1 (max_1 (max_1 w - 2)) + 2 ≤ w
cont_fits w wide = ground arith

-- Rows of at most `w` cells that show the prefix and the body.
abbrev pub Shows : ℕ → Text → Text → List Text → Type 0
Shows w prefix body rows =
    All (λ (l : Text). length l ≤ w) rows
    × (is_empty rows ≡ false)
    × (visible (concat rows) ≡ visible prefix ++ visible body)

rows_of-Shows :
    (w : ℕ) (prefix body : Text) (lines : List Text)
    → length prefix < w
    → 3 ≤ w
    → IsWrapped body (first_w w prefix) (cont_w w) lines
    → Shows w prefix body (rows_of prefix (some lines))
rows_of-Shows w prefix body [] long wide (within, is, some_line) = cc
rows_of-Shows w prefix body (chunk ∷ chunks) long wide ((short, all), is, some_line) = (
  (
    rw (length-append prefix chunk) (first_fits w (length prefix) (length chunk) long short),
    all-indented w _ chunks (cont_fits w wide) all,
  ),
  refl,
  visible-append (prefix ++ chunk) (concat (map indented chunks))
      ∙ ap (λ t. visible (prefix ++ chunk) ++ t) (visible-indented chunks)
      ∙ ap (λ t. t ++ visible (concat chunks)) (visible-append prefix chunk)
      ∙ append_assoc (visible prefix) (visible chunk) (visible (concat chunks))
      ∙ ap (λ t. visible prefix ++ t) (sym (visible-append chunk (concat chunks)) ∙ is),
)

module _ (time_text : ℕ → Text) where
  wide_enough : (e : LogEvent) {width : ℕ} → length (prefix_of time_text e) < width → 3 ≤ width
  wide_enough (of_device m) room =
      omega (arith, prefix_long (time_text m.time) m.level (parts (of_device m)).3)
  wide_enough (of_application m) room =
      omega (arith, prefix_long (time_text m.time) m.level (parts (of_application m)).3)

  -- If the width has room for the time, the level and the tag and one cell more, an entry is rendered
  -- as one row at least, each of at most the width, and the rows show the time, the level, the tag,
  -- the message and the source in full, but for white space.
  pub render_entry-Shows :
      (e : LogEvent) (width : ℕ)
      → length (prefix_of time_text e) < width
      → Shows width (prefix_of time_text e) (body_of time_text e) (render_entry time_text e width)
  unfolding render_entry
  render_entry-Shows e width room =
      let (lines, wrapped, is) =
        wrap_text-wraps (body_of time_text e) (first_w width (prefix_of time_text e))
          (cont_w width) in
      rw wrapped (
        rows_of-Shows width (prefix_of time_text e) (body_of time_text e) lines room
          (wide_enough e room) is)
