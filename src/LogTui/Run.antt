-- ===== src/LogTui/Run.antt =====
-- `run` of log-tui/src/main.rs. A turn of its loop is what the drawing and the `select!` yield; the
-- handle of the stream is dropped, which stops the task, when the function returns.
use amos2026ss01_zero_downti.Prelude.{
  ℕ, suc, ◌+◌, Bool, true, false, Option, some, none, List, [], ◌∷◌, ◌++◌, ◌==◌, if◌then◌else◌,
}
use amos2026ss01_zero_downti.Logs.{LogLevel}
use amos2026ss01_zero_downti.Logs.Events.{LogEvent}
use amos2026ss01_zero_downti.LogTui.{
  App, Msg, KeyCode, Effect, new, reconnect, stop_old, on_msg, on_key,
}
use amos2026ss01_zero_downti.LogTui.Draw.{draw_logs}

-- `messages` has the one received and those that `try_recv` drains after it.
pub data Wake : Type 0 where
  messages : Msg → List Msg → Wake
  closed other_event : Wake
  key : KeyCode → Bool → Wake

pub record Turn : Type 0 where
  pub width : ℕ
  pub height : ℕ
  pub drawn : Bool
  pub wake : Wake

abbrev pub position : ℕ → List ℕ → Option ℕ
position id [] = none
position id (d ∷ devices) =
    let rest = position id devices in
    if d == id then some 0 else elim rest [ none ↦ none | some i ↦ some (suc i) ]

abbrev pub preselect : Option ℕ → App → App
preselect none a = a
preselect (some pos) a = record a { selected = pos + 1 }

abbrev pub wanted : Option ℕ → List ℕ → Option ℕ
wanted none devices = none
wanted (some id) devices = position id devices

-- What precedes the loop. `devices` is empty if they could not be fetched.
unfoldable pub open_app :
    (level : Option LogLevel) (max_logs : ℕ) (device : Option ℕ) (devices : List ℕ)
    → App × List Effect
unfolding new reconnect
open_app level max_logs device devices =
    reconnect
      (preselect (wanted device devices) (record (new level max_logs) { devices = devices }))

abbrev pub on_msgs : List Msg → App → App
on_msgs [] a = a
on_msgs (msg ∷ msgs) a = on_msgs msgs (on_msg msg a)

unfoldable pub woken : Wake → App → App × List Effect
unfolding on_msg on_key
woken (messages msg msgs) a = (on_msgs (msg ∷ msgs) a, [])
woken closed a = (a, [])
woken other_event a = (a, [])
woken (key code control) a = on_key code control a

module _ {Line : Type 0} (render_entry : LogEvent → ℕ → List Line) where
  unfoldable pub turn : Turn → App → App × List Effect
  unfolding draw_logs woken
  turn t a = woken t.wake (draw_logs render_entry t.width t.height a).0

  -- The loop: the state, the effects, and whether it has returned.
  unfoldable pub run : List Turn → App → App × List Effect × Bool
  unfolding turn
  run [] a = (a, [], false)
  run (t ∷ ts) a =
      let (b, effects) = turn t a in
      let (end, later, returned) = run ts b in
      if t.drawn
      then (if b.should_quit
          then (b, effects ++ stop_old b.stream, true)
          else (end, effects ++ later, returned))
      else (a, stop_old a.stream, true)
