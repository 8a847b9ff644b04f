-- ===== src/LogTui/Steps.antt =====
-- What each operation of log-tui/src/app.rs does to the stream tasks.
use amos2026ss01_zero_downti.Prelude.{
  inr, inl, ℕ, ◌+◌, ◌-◌, ◌%◌, ◌^◌, ◌≤◌, ◌≡◌, refl, sym, ap, Bool, ◌&&◌, true, false, not, Option,
  some, none, List, [], ◌∷◌, ◌++◌, length, filter, ◌==◌, arith, Bool-cases, if◌then◌else◌, ltb,
}
use amos2026ss01_zero_downti.Logs.{LogLevel, info, warn, error}
use amos2026ss01_zero_downti.Logs.Events.{LogEvent}
use amos2026ss01_zero_downti.LogTui.{
  App, Msg, MsgKind, KeyCode, char, esc, down, up, left, other, is_c, StreamHandle, Effect, spawn,
  stop, current_query, stop_old, reconnect, trim, push_log, received, on_msg, set_level,
  select_next, select_prev, select_all, pressed, on_key, same_min_level,
}
use amos2026ss01_zero_downti.LogTui.Run.{on_msgs}

-- The tasks that are running after the effects.
abbrev pub running_after : List Effect → List StreamHandle → List StreamHandle
running_after [] open_streams = open_streams
running_after (spawn h ∷ effects) open_streams = running_after effects (open_streams ++ h ∷ [])
running_after (stop h ∷ effects) open_streams =
    running_after effects (filter (λ s. not (s.epoch == h.epoch)) open_streams)

abbrev pub IsBounded : App → Type 0
IsBounded a = (a.selected ≤ length a.devices) × (1 ≤ a.max_logs) × (length a.logs ≤ a.max_logs)

abbrev pub current_handle : App → StreamHandle
current_handle a = record { query = current_query a; epoch = a.epoch }

abbrev pub IsLive : App → Type 0
IsLive a = IsBounded a × (a.stream ≡ some (current_handle a))

abbrev pub open_of : Option StreamHandle → List StreamHandle
open_of none = []
open_of (some h) = h ∷ []

-- The effects lead from the tasks of one state to those of the next, which is live.
pub record Follows (old : Option StreamHandle) (r : App × List Effect) : Type 0 where
  pub is_live : IsLive r.0
  pub tasks : running_after r.1 (open_of old) ≡ open_of r.0.stream

pub length-trim : (m : ℕ) (logs : List LogEvent) → length (trim m logs) ≤ m
unfolding trim
length-trim m [] = omega arith
length-trim m (e ∷ logs) = ground (arith, length-trim m logs)

pub stopped : (o : StreamHandle) → running_after (stop o ∷ []) (o ∷ []) ≡ []
stopped o = ground arith

pub reopened :
    (s : Option StreamHandle) (h : StreamHandle)
    → running_after (stop_old s ++ spawn h ∷ []) (open_of s) ≡ h ∷ []
reopened none h = refl
reopened (some o) h = ap (λ l. l ++ h ∷ []) (stopped o)

pub reconnect-Follows : (a : App) → IsBounded a → Follows a.stream (reconnect a)
unfolding reconnect
reconnect-Follows a h =
    let handle : StreamHandle = record {
      query = current_query a;
      epoch = (a.epoch + 1) % 2 ^ 64;
    } in
    record { is_live = (h, refl); tasks = reopened a.stream handle }

pub stays : (a : App) → IsLive a → Follows a.stream (a, [])
stays a h = record { is_live = h; tasks = refl }

pub same : {old : Option StreamHandle} {b : App} → IsLive b → b.stream ≡ old → Follows old (b, [])
same h e = record { is_live = h; tasks = ap open_of (sym e) }

pub if-Follows :
    (b : Bool) (old : Option StreamHandle) (r s : App × List Effect)
    → Follows old r
    → Follows old s
    → Follows old (if b then r else s)
if-Follows true old r s hr hs = hr
if-Follows false old r s hr hs = hs

pub set_level-Follows :
    (level : Option LogLevel) (a : App) → IsLive a → Follows a.stream (set_level level a)
unfolding set_level
set_level-Follows level a h =
    if-Follows (same_min_level a.min_level level) a.stream (a, []) _ (stays a h)
      (reconnect-Follows (record a { min_level = level }) h.0)

pub select_next-Follows : (a : App) → IsLive a → Follows a.stream (select_next a)
unfolding select_next
select_next-Follows a ((s, m, l), e) = elim (Bool-cases (ltb a.selected (length a.devices))) [
  | inl can ↦
      let next : a.selected + 1 ≤ length a.devices = ground arith in
      rw can (reconnect-Follows (record a { selected = a.selected + 1 }) (next, m, l))
  | inr cannot ↦ rw cannot (stays a ((s, m, l), e))
]

pub select_prev-Follows : (a : App) → IsLive a → Follows a.stream (select_prev a)
unfolding select_prev
select_prev-Follows a ((s, m, l), e) =
    if-Follows (ltb 0 a.selected) a.stream _ (a, [])
      (reconnect-Follows (record a { selected = a.selected - 1 }) (omega (arith, s), m, l))
      (stays a ((s, m, l), e))

pub select_all-Follows : (a : App) → IsLive a → Follows a.stream (select_all a)
unfolding select_all
select_all-Follows a ((s, m, l), e) =
    if-Follows (a.selected == 0) a.stream (a, []) _ (stays a ((s, m, l), e))
      (reconnect-Follows (record a { selected = 0 }) (omega arith, m, l))

pub char-Follows : (c : ℕ) (a : App) → IsLive a → Follows a.stream (pressed (char c) a)
unfolding pressed
char-Follows c a h =
    let ((s, m, l), e) = h in
    if-Follows (c == b'q') a.stream _ _ (same h refl) (
      if-Follows (c == b'0') a.stream _ _ (set_level-Follows none a h) (
        if-Follows (c == b'1') a.stream _ _ (set_level-Follows (some info) a h) (
          if-Follows (c == b'2') a.stream _ _ (set_level-Follows (some warn) a h) (
            if-Follows (c == b'3') a.stream _ _ (set_level-Follows (some error) a h) (
              if-Follows (c == b'c') a.stream _ _ (same ((s, m, omega arith), e) refl) (
                if-Follows (c == b'u') a.stream _ _ (same h refl) (
                  if-Follows (c == b'd') a.stream _ _ (same h refl) (
                    if-Follows (c == b'j') a.stream _ _ (select_next-Follows a h) (
                      if-Follows (c == b'k') a.stream _ _ (select_prev-Follows a h) (
                        if-Follows (c == b'a') a.stream _ _ (select_all-Follows a h)
                          (stays a h)))))))))))

pub pressed-Follows : (code : KeyCode) (a : App) → IsLive a → Follows a.stream (pressed code a)
unfolding pressed
pressed-Follows (char c) a h = char-Follows c a h
pressed-Follows esc a h = same h refl
pressed-Follows down a h = select_next-Follows a h
pressed-Follows up a h = select_prev-Follows a h
pressed-Follows left a h = select_all-Follows a h
pressed-Follows other a h = stays a h

pub on_key-Follows :
    (code : KeyCode) (control : Bool) (a : App)
    → IsLive a
    → Follows a.stream (on_key code control a)
unfolding on_key
on_key-Follows code control a h =
    if-Follows (control && is_c code) a.stream _ _ (same h refl) (pressed-Follows code a h)

pub received-IsLive : (k : MsgKind) (a : App) → IsLive a → IsLive (received k a)
unfolding received push_log
received-IsLive MsgKind.connected a h = h
received-IsLive (MsgKind.log ev) a ((s, m, l), e) =
    ((s, m, length-trim a.max_logs (a.logs ++ ev ∷ [])), e)
received-IsLive (MsgKind.disconnected e) a h = h
received-IsLive (MsgKind.parse_warn e) a h = h

pub on_msg-IsLive : (msg : Msg) (a : App) → IsLive a → IsLive (on_msg msg a)
unfolding on_msg
on_msg-IsLive msg a h = elim (Bool-cases (msg.epoch == a.epoch)) [
  | inl e ↦ rw e (received-IsLive msg.kind a h)
  | inr e ↦ rw e h
]

pub on_msgs-IsLive : (msgs : List Msg) (a : App) → IsLive a → IsLive (on_msgs msgs a)
on_msgs-IsLive [] a h = h
on_msgs-IsLive (msg ∷ msgs) a h = on_msgs-IsLive msgs (on_msg msg a) (on_msg-IsLive msg a h)
