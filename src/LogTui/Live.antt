-- ===== src/LogTui/Live.antt =====
-- The stream that the terminal interface keeps open (log-tui/src/app.rs, log-tui/src/main.rs).
use amos2026ss01_zero_downti.Prelude.{
  inr, inl, ℕ, ◌+◌, ◌≤◌, ◌≡◌, refl, ap, ◌∙◌, subst, Bool, true, false, not, Option, some, none,
  List, [], ◌∷◌, ◌++◌, length, filter, ◌==◌, arith, Bool-cases, if◌then◌else◌,
}
use amos2026ss01_zero_downti.Logs.{LogLevel}
use amos2026ss01_zero_downti.Logs.Events.{LogEvent}
use amos2026ss01_zero_downti.LogTui.{
  suc, App, Msg, MsgKind, StreamHandle, Effect, spawn, stop, new, stop_old, reconnect, push_log,
  received, on_msg,
}
use amos2026ss01_zero_downti.LogTui.Draw.{draw_logs}
use amos2026ss01_zero_downti.LogTui.Run.{
  Turn, Wake, position, preselect, wanted, open_app, on_msgs, woken, turn, run,
}
use amos2026ss01_zero_downti.LogTui.Steps.{
  running_after, IsBounded, current_handle, IsLive, open_of, Follows, stopped, reconnect-Follows,
  stays, same, on_key-Follows, on_msgs-IsLive,
}

received-stream : (k : MsgKind) (a : App) → (received k a).stream ≡ a.stream
unfolding received push_log
received-stream MsgKind.connected a = refl
received-stream (MsgKind.log ev) a = refl
received-stream (MsgKind.disconnected e) a = refl
received-stream (MsgKind.parse_warn e) a = refl

on_msg-stream : (msg : Msg) (a : App) → (on_msg msg a).stream ≡ a.stream
unfolding on_msg
on_msg-stream msg a = elim (Bool-cases (msg.epoch == a.epoch)) [
  | inl e ↦ rw e (received-stream msg.kind a)
  | inr e ↦ rw e refl
]

on_msgs-stream : (msgs : List Msg) (a : App) → (on_msgs msgs a).stream ≡ a.stream
on_msgs-stream [] a = refl
on_msgs-stream (msg ∷ msgs) a = on_msgs-stream msgs (on_msg msg a) ∙ on_msg-stream msg a

woken-Follows : (w : Wake) (a : App) → IsLive a → Follows a.stream (woken w a)
unfolding woken
woken-Follows (Wake.messages msg msgs) a h =
    same (on_msgs-IsLive (msg ∷ msgs) a h) (on_msgs-stream (msg ∷ msgs) a)
woken-Follows Wake.closed a h = stays a h
woken-Follows Wake.other_event a h = stays a h
woken-Follows (Wake.key code control) a h = on_key-Follows code control a h

running_after-append :
    (first later : List Effect) (o : List StreamHandle)
    → running_after (first ++ later) o ≡ running_after later (running_after first o)
running_after-append [] later o = refl
running_after-append (spawn h ∷ first) later o = running_after-append first later (o ++ h ∷ [])
running_after-append (stop h ∷ first) later o =
    running_after-append first later (filter (λ s. not (s.epoch == h.epoch)) o)

all_stopped : (s : Option StreamHandle) → running_after (stop_old s) (open_of s) ≡ []
all_stopped none = refl
all_stopped (some o) = stopped o

-- The task that runs at the end of a run, if it has not returned.
abbrev pub left_over : App → Bool → List StreamHandle
left_over end true = []
left_over end false = current_handle end ∷ []

-- A run over an old task stops every task that it does not leave over.
pub record EndsLive (old : Option StreamHandle) (r : App × List Effect × Bool) : Type 0 where
  pub tasks : running_after r.1 (open_of old) ≡ left_over r.0 r.2
  pub is_live : r.2 ≡ false → IsLive r.0

if-EndsLive :
    (b : Bool) (old : Option StreamHandle) (r s : App × List Effect × Bool)
    → EndsLive old r
    → EndsLive old s
    → EndsLive old (if b then r else s)
if-EndsLive true old r s hr hs = hr
if-EndsLive false old r s hr hs = hs

after-EndsLive :
    (old : Option StreamHandle) (b end : App) (effects later : List Effect) (returned : Bool)
    → Follows old (b, effects)
    → EndsLive b.stream (end, later, returned)
    → EndsLive old (end, effects ++ later, returned)
after-EndsLive old b end effects later returned f e = record {
  tasks =
      running_after-append effects later (open_of old) ∙ ap (running_after later) f.tasks ∙ e.tasks;
  is_live = e.is_live;
}

dropped : (a : App) → EndsLive a.stream (a, stop_old a.stream, true)
dropped a = record { tasks = all_stopped a.stream; is_live = λ h. absurd (cc) }

module _ {Line : Type 0} (render_entry : LogEvent → ℕ → List Line) where
  turn-Follows : (t : Turn) (a : App) → IsLive a → Follows a.stream (turn render_entry t a)
  unfolding turn draw_logs
  turn-Follows t a h = woken-Follows t.wake _ h

  run-EndsLive : (ts : List Turn) (a : App) → IsLive a → EndsLive a.stream (run render_entry ts a)
  unfolding run
  run-EndsLive [] a h = record { tasks = ap open_of h.1; is_live = λ _. h }
  run-EndsLive (t ∷ ts) a h =
      let next = turn render_entry t a in
      let follows = turn-Follows t a h in
      let later = run-EndsLive ts next.0 follows.is_live in
      let rest = run render_entry ts next.0 in
      if-EndsLive t.drawn a.stream _ _
        (if-EndsLive next.0.should_quit a.stream _ _
          (after-EndsLive a.stream next.0 next.0 next.1 (stop_old next.0.stream) true follows
            (dropped next.0))
          (after-EndsLive a.stream next.0 rest.0 next.1 rest.1 rest.2 follows later))
        (dropped a)

abbrev pub Within : Option ℕ → ℕ → Type 0
Within none n = Unit
Within (some pos) n = pos + 1 ≤ n

later-Within :
    (b : Bool) (rest : Option ℕ) (n : ℕ)
    → Within rest n
    → Within (if b then some 0 else elim rest [ none ↦ none | some i ↦ some (suc i) ]) (suc n)
later-Within true rest n h = omega arith
later-Within false none n h = tt
later-Within false (some i) n h = omega arith

position-Within : (id : ℕ) (devices : List ℕ) → Within (position id devices) (length devices)
position-Within id [] = tt
position-Within id (d ∷ devices) =
    later-Within (d == id) (position id devices) (length devices) (position-Within id devices)

wanted-Within :
    (device : Option ℕ) (devices : List ℕ) → Within (wanted device devices) (length devices)
wanted-Within none devices = tt
wanted-Within (some id) devices = position-Within id devices

preselect-IsBounded :
    (pos : Option ℕ) (a : App)
    → Within pos (length a.devices)
    → IsBounded a
    → IsBounded (preselect pos a)
preselect-IsBounded none a h k = k
preselect-IsBounded (some pos) a h (s, m, l) = (h, m, l)

preselect-stream : (pos : Option ℕ) (a : App) → (preselect pos a).stream ≡ a.stream
preselect-stream none a = refl
preselect-stream (some pos) a = refl

open_app-Follows :
    (level : Option LogLevel) (max_logs : ℕ) (device : Option ℕ) (devices : List ℕ)
    → Follows none (open_app level max_logs device devices)
unfolding open_app new
open_app-Follows level max_logs device devices =
    let a = record (new level max_logs) { devices = devices } in
    let bounded : IsBounded a = (omega arith, ground arith, omega arith) in
    let selected = preselect (wanted device devices) a in
    subst (λ old. Follows old (reconnect selected)) (preselect-stream (wanted device devices) a)
      (reconnect-Follows selected
        (preselect-IsBounded (wanted device devices) a (wanted-Within device devices) bounded))

module _ {Line : Type 0} (render_entry : LogEvent → ℕ → List Line) where
  -- From the start of the program, whatever it is given and sent and whichever keys are pressed, the
  -- tasks that were spawned and not stopped are these: none if the loop has returned, also because
  -- the drawing failed, and otherwise one, with the current epoch and the query of the current
  -- selection and level. As long as the loop goes on the selection is one of the devices or none,
  -- and at most `max_logs` entries are kept.
  pub run-streams :
      (level : Option LogLevel) (max_logs : ℕ) (device : Option ℕ) (devices : List ℕ)
      (ts : List Turn)
      → let opened = open_app level max_logs device devices in
        let r = run render_entry ts opened.0 in
        (running_after (opened.1 ++ r.1) [] ≡ left_over r.0 r.2) × (r.2 ≡ false → IsLive r.0)
  run-streams level max_logs device devices ts =
      let opened = open_app level max_logs device devices in
      let follows = open_app-Follows level max_logs device devices in
      let r = run render_entry ts opened.0 in
      let ends =
        after-EndsLive none opened.0 r.0 opened.1 r.1 r.2 follows
          (run-EndsLive render_entry ts opened.0 follows.is_live) in
      (ends.tasks, ends.is_live)
