-- ===== src/LogTui/Scrollback.antt =====
-- The entries that log-tui/src/app.rs keeps over a run of log-tui/src/main.rs.
use amos2026ss01_zero_downti.LogTui.Kept.{
  told_all, Keeps, on_msgs-Keeps, on_key-Keeps, same-Keeps, preselect-Keeps, reconnect-Keeps,
}
use amos2026ss01_zero_downti.Prelude.{
  newest, drop_all, ℕ, ◌-◌, ◌≡◌, refl, sym, not, ◌&&◌, Option, List, [], ◌∷◌, Bool-cases, inl, inr,
  if◌then◌else◌,
}
use amos2026ss01_zero_downti.Logs.{LogLevel}
use amos2026ss01_zero_downti.Logs.Events.{LogEvent}
use amos2026ss01_zero_downti.LogTui.{App, is_c, reconnect, new, max_1}
use amos2026ss01_zero_downti.LogTui.Draw.{draw_logs}
use amos2026ss01_zero_downti.LogTui.Run.{Turn, Wake, open_app, preselect, wanted, woken, turn, run}

abbrev pub told_wake : Wake → App → List LogEvent → List LogEvent
told_wake (Wake.messages msg msgs) a h = told_all (msg ∷ msgs) a h
told_wake (Wake.key code control) a h = if is_c code && not control then [] else h
told_wake Wake.closed a h = h
told_wake Wake.other_event a h = h

module _ {Line : Type 0} (render_entry : LogEvent → ℕ → List Line) where
  abbrev pub told_turn : Turn → App → List LogEvent → List LogEvent
  told_turn t a h = told_wake t.wake (draw_logs render_entry t.width t.height a).0 h

  abbrev pub told_run : List Turn → App → List LogEvent → List LogEvent
  told_run [] a h = h
  told_run (t ∷ ts) a h =
      let h' = told_turn t a h in
      let b = (turn render_entry t a).0 in
      let rest = told_run ts b h' in if t.drawn then (if b.should_quit then h' else rest) else h

woken-Keeps :
    (n : ℕ) (w : Wake) (h : List LogEvent) (a : App)
    → Keeps n h a
    → Keeps n (told_wake w a h) (woken w a).0
unfolding woken
woken-Keeps n (Wake.messages msg msgs) h a e = on_msgs-Keeps n (msg ∷ msgs) h a e
woken-Keeps n Wake.closed h a e = e
woken-Keeps n Wake.other_event h a e = e
woken-Keeps n (Wake.key code control) h a e = on_key-Keeps n code control h a e

module _ {Line : Type 0} (render_entry : LogEvent → ℕ → List Line) where
  turn-Keeps :
      (n : ℕ) (t : Turn) (h : List LogEvent) (a : App)
      → Keeps n h a
      → Keeps n (told_turn render_entry t a h) (turn render_entry t a).0
  unfolding turn draw_logs
  turn-Keeps n t h a e = woken-Keeps n t.wake h _ (same-Keeps n h e refl refl)

  run-Keeps :
      (n : ℕ) (ts : List Turn) (h : List LogEvent) (a : App)
      → Keeps n h a
      → Keeps n (told_run render_entry ts a h) (run render_entry ts a).0
  unfolding run
  run-Keeps n [] h a e = e
  run-Keeps n (t ∷ ts) h a e =
      let b = (turn render_entry t a).0 in
      let e' = turn-Keeps n t h a e in
      let later = run-Keeps n ts (told_turn render_entry t a h) b e' in
      elim (Bool-cases t.drawn) [
        | inl drawn ↦ elim (Bool-cases b.should_quit) [
          | inl quit ↦ rw (drawn, quit) e'
          | inr go_on ↦ rw (drawn, go_on) later
        ]
        | inr undrawn ↦ rw undrawn e
      ]

  -- From the start of the program, the entries that are kept are always the newest `max_logs`, or
  -- one if that is zero, of those that streams delivered with the epoch of that moment since the
  -- pane was last cleared, in the order of their delivery.
  pub run-newest :
      (level : Option LogLevel) (max_logs : ℕ) (device : Option ℕ) (devices : List ℕ)
      (ts : List Turn)
      → let opened = (open_app level max_logs device devices).0 in
        (run render_entry ts opened).0.logs
        ≡ newest (max_1 max_logs) (told_run render_entry ts opened [])
  unfolding open_app reconnect new
  run-newest level max_logs device devices ts =
      let a = record (new level max_logs) { devices = devices } in
      let n = max_1 max_logs in
      let fresh : Keeps n [] a = record { same_max = refl; logs = sym (drop_all (0 - n)) } in
      let selected = preselect-Keeps n [] (wanted device devices) a fresh in
      let opened = reconnect-Keeps n [] (preselect (wanted device devices) a) selected in
      (run-Keeps n ts [] (open_app level max_logs device devices).0 opened).logs
