-- ===== src/LogTui/Draw.antt =====
-- The log pane of log-tui/src/ui.rs: `draw_logs`, over whatever rows `render_entry` makes of an
-- entry at a width.
use amos2026ss01_zero_downti.Prelude.{
  ℕ, suc, ◌+◌, ◌-◌, ◌^◌, ◌<◌, ◌≤◌, ◌≡◌, ◌⊎◌, inl, inr, refl, sym, ap, ◌∙◌, List, [], ◌∷◌, ◌++◌,
  append_assoc, reverse, length, take, drop, ltb, leb, if◌then◌else◌, arith, Bool-cases,
  length-append,
}
use mathlib.Core.List.{reverse-cons}
use amos2026ss01_zero_downti.Logs.Events.{LogEvent}
use amos2026ss01_zero_downti.LogTui.{App, saturating_add}

abbrev pub least : ℕ → ℕ → ℕ
least m n = if ltb n m then n else m

module _ {Line : Type 0} where
  -- `rows[start..end]`
  abbrev pub slice : ℕ → ℕ → List Line → List Line
  slice start end rows = take (end - start) (drop start rows)

module _ {Line : Type 0} (render_entry : LogEvent → ℕ → List Line) where
  -- The loop over the entries from the newest one, until the rows suffice.
  unfoldable pub collect : ℕ → ℕ → List LogEvent → List Line → List Line
  collect need width [] rows = rows
  collect need width (e ∷ older) rows =
      let rows' = render_entry e width ++ rows in
      let rest = collect need width older rows' in if leb need (length rows') then rows' else rest

  -- The rows shown, and the state with the viewport and the scroll offset set.
  unfoldable pub draw_logs : (width height : ℕ) → App → App × List Line
  unfolding collect
  draw_logs width height a =
      let inner_w = width - 2 in
      let inner_h = height - 2 in
      let need = saturating_add inner_h a.scroll in
      let rows = collect need inner_w (reverse a.logs) [] in
      let scroll = least a.scroll (length rows - inner_h) in
      let end = length rows - scroll in
      let start = end - inner_h in
      (record a { viewport = inner_h; scroll = scroll }, slice start end rows)

  -- All rows, from the oldest entry to the newest.
  abbrev pub all_rows : ℕ → List LogEvent → List Line
  all_rows width [] = []
  all_rows width (e ∷ logs) = render_entry e width ++ all_rows width logs

  stacked : ℕ → List LogEvent → List Line → List Line
  stacked width [] rows = rows
  stacked width (e ∷ older) rows = stacked width older (render_entry e width ++ rows)

  stacked-append :
      (width : ℕ) (es : List LogEvent) (a b : List Line)
      → stacked width es (a ++ b) ≡ stacked width es a ++ b
  unfolding stacked
  stacked-append width [] a b = refl
  stacked-append width (e ∷ es) a b =
      ap (stacked width es) (sym (append_assoc (render_entry e width) a b))
      ∙ stacked-append width es (render_entry e width ++ a) b

  stacked_then :
      (width : ℕ) (es : List LogEvent) (e : LogEvent) (rows : List Line)
      → stacked width (es ++ e ∷ []) rows ≡ render_entry e width ++ stacked width es rows
  unfolding stacked
  stacked_then width [] e rows = refl
  stacked_then width (x ∷ es) e rows = stacked_then width es e (render_entry x width ++ rows)

  stacked-reverse :
      (width : ℕ) (es : List LogEvent) → stacked width (reverse es) [] ≡ all_rows width es
  unfolding stacked
  stacked-reverse width [] = refl
  stacked-reverse width (e ∷ es) =
      ap (λ l. stacked width l []) (reverse-cons e es)
      ∙ stacked_then width (reverse es) e []
      ∙ ap (λ l. render_entry e width ++ l) (stacked-reverse width es)

  -- The loop leaves out older rows only when it has enough.
  collect-suffix :
      (need width : ℕ) (es : List LogEvent) (rows : List Line)
      → (older : List Line) × (stacked width es rows ≡ older ++ collect need width es rows)
        × ((older ≡ []) ⊎ (need ≤ length (collect need width es rows)))
  unfolding stacked collect
  collect-suffix need width [] rows = ([], refl, inl refl)
  collect-suffix need width (e ∷ es) rows =
      let rows' = render_entry e width ++ rows in
      elim (Bool-cases (leb need (length rows'))) [
        | inl enough ↦
            rw enough (stacked width es [], stacked-append width es [] rows', inr (ground arith))
        | inr short ↦ rw short (collect-suffix need width es rows')
      ]

  -- The rows that a pane of `inner_h` rows shows of all rows, `scroll` rows above the last.
  abbrev pub window : ℕ → ℕ → List Line → List Line
  window inner_h scroll rows = slice (length rows - scroll - inner_h) (length rows - scroll) rows

  drop-append :
      (older rows : List Line) (k : ℕ) → drop (length older + k) (older ++ rows) ≡ drop k rows
  drop-append [] rows k = let e : 0 + k ≡ k = omega arith in ap (λ n. drop n rows) e
  drop-append (x ∷ older) rows k =
      let e : suc (length older) + k ≡ suc (length older + k) = omega arith in
      ap (λ n. drop n (x ∷ (older ++ rows))) e ∙ drop-append older rows k

  window-append :
      (older rows : List Line) (inner_h scroll : ℕ)
      → inner_h + scroll ≤ length rows
      → window inner_h scroll (older ++ rows) ≡ window inner_h scroll rows
  window-append older rows inner_h scroll h =
      let total = length-append older rows in
      let from : length (older ++ rows) - scroll - inner_h
          ≡ length older + (length rows - scroll - inner_h) =
        omega (arith, total) in
      let count : (length (older ++ rows) - scroll) - (length (older ++ rows) - scroll - inner_h)
          ≡ (length rows - scroll) - (length rows - scroll - inner_h) =
        omega (arith, total) in
      (λ i. take (count i) (drop (from i) (older ++ rows)))
      ∙ ap (take ((length rows - scroll) - (length rows - scroll - inner_h)))
          (drop-append older rows (length rows - scroll - inner_h))

  -- The state and the rows shown, if `rows` are what is there to show.
  abbrev pub shown : ℕ → List Line → App → App × List Line
  shown inner_h rows a =
      let scroll = least a.scroll (length rows - inner_h) in
      (record a { viewport = inner_h; scroll = scroll }, window inner_h scroll rows)

  shown-suffix :
      (inner_h : ℕ) (older rows : List Line) (a : App)
      → inner_h + a.scroll ≤ length rows
      → shown inner_h rows a ≡ shown inner_h (older ++ rows) a
  shown-suffix inner_h older rows a h =
      let total = length-append older rows in
      let here : least a.scroll (length rows - inner_h) ≡ a.scroll = ground (arith) in
      let there : least a.scroll (length (older ++ rows) - inner_h) ≡ a.scroll =
        ground (arith, total) in
      let same = here ∙ sym there in
      λ i. (
        record a { viewport = inner_h; scroll = same i },
        (ap (λ k. window inner_h k rows) here
              ∙ sym (window-append older rows inner_h a.scroll h)
              ∙ ap (λ k. window inner_h k (older ++ rows)) (sym there))
            i,
      )

  -- Drawing the pane shows exactly the rows that it would show if all entries had been wrapped, and
  -- sets the viewport and the scroll offset, brought back to the rows that there are, in the same
  -- way; all rows together are taken to be fewer than a `usize` can count.
  pub draw_logs-shown :
      (width height : ℕ) (a : App)
      → length (all_rows (width - 2) a.logs) < 2 ^ 64 - 1
      → draw_logs width height a ≡ shown (height - 2) (all_rows (width - 2) a.logs) a
  unfolding draw_logs
  draw_logs-shown width height a few =
      let inner_w = width - 2 in
      let inner_h = height - 2 in
      let need = saturating_add inner_h a.scroll in
      let rows = collect need inner_w (reverse a.logs) [] in
      let (older, split, enough) = collect-suffix need inner_w (reverse a.logs) [] in
      let all_is : all_rows inner_w a.logs ≡ older ++ rows =
        sym (stacked-reverse inner_w a.logs) ∙ split in
      let total = ap length all_is ∙ length-append older rows in
      elim enough [
        | inl none_older ↦
            ap (λ l. shown inner_h l a) (sym (all_is ∙ ap (λ o. o ++ rows) none_older))
        | inr enough ↦
            let fits : inner_h + a.scroll ≤ length rows = ground (arith, total, few, enough) in
            shown-suffix inner_h older rows a fits ∙ ap (λ l. shown inner_h l a) (sym all_is)
      ]
