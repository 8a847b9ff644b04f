-- ===== src/LogTui.antt =====
-- The terminal interface for logs: the state of log-tui/src/app.rs, the messages of
-- log-tui/src/client.rs and the loop of log-tui/src/main.rs. A device is its id, the only part of it
-- that the state reads; a stream task is the query and the epoch that it was spawned with.
pub mod Draw
pub mod Wrap
pub mod Entry
pub mod Run
pub mod Stream
pub mod Live
pub mod Kept
pub mod Scrollback
pub mod Steps
use amos2026ss01_zero_downti.Prelude.{
  ℕ, suc, ◌+◌, ◌-◌, ◌/◌, ◌%◌, ◌^◌, Bool, true, false, not, ◌&&◌, Option, some, none, List, [], ◌∷◌,
  ◌++◌, length, get_elem?, ltb, ◌==◌, if◌then◌else◌, is_num,
}
use amos2026ss01_zero_downti.Prelude.Text.{Str}
use amos2026ss01_zero_downti.Logs.{LogLevel, info, warn, error}
use amos2026ss01_zero_downti.Logs.Events.{LogEvent, LogStreamQuery, same_level}

pub data ConnState : Type 0 where
  reconnecting live : ConnState
  failed : Str → ConnState

pub data MsgKind : Type 0 where
  connected : MsgKind
  log : LogEvent → MsgKind
  disconnected parse_warn : Str → MsgKind

pub record Msg : Type 0 where
  pub epoch : ℕ
  pub kind : MsgKind

-- The keys that the program looks at.
pub data KeyCode : Type 0 where
  char : ℕ → KeyCode
  esc down up left other : KeyCode

pub record StreamHandle : Type 0 where
  pub query : LogStreamQuery
  pub epoch : ℕ

pub record App : Type 0 where
  pub devices : List ℕ
  pub selected : ℕ
  pub min_level : Option LogLevel
  pub logs : List LogEvent
  pub max_logs : ℕ
  pub scroll : ℕ
  pub viewport : ℕ
  pub conn : ConnState
  pub last_warn : Option Str
  pub should_quit : Bool
  pub epoch : ℕ
  pub stream : Option StreamHandle

-- What happens to the stream tasks.
pub data Effect : Type 0 where
  spawn stop : StreamHandle → Effect

abbrev pub max_1 : ℕ → ℕ
max_1 n = if ltb n 1 then 1 else n

unfoldable pub new : Option LogLevel → ℕ → App
new min_level max_logs = record {
  devices = [];
  selected = 0;
  min_level = min_level;
  logs = [];
  max_logs = max_1 max_logs;
  scroll = 0;
  viewport = 0;
  conn = reconnecting;
  last_warn = none;
  should_quit = false;
  epoch = 0;
  stream = none;
}

abbrev pub selected_device_id : App → Option ℕ
selected_device_id a = if a.selected == 0 then none else get_elem? a.devices (a.selected - 1)

abbrev pub current_query : App → LogStreamQuery
current_query a = record {
  device_id = selected_device_id a;
  application_id = none;
  level = a.min_level;
  kind = none;
}

abbrev pub stop_old : Option StreamHandle → List Effect
stop_old none = []
stop_old (some handle) = stop handle ∷ []

-- The epoch is a `u64`, which wraps around in a release build.
unfoldable pub reconnect : App → App × List Effect
reconnect a =
    let epoch = (a.epoch + 1) % 2 ^ 64 in
    let handle : StreamHandle = record { query = current_query a; epoch = epoch } in
    (
      record a { epoch = epoch; conn = reconnecting; scroll = 0; stream = some handle },
      stop_old a.stream ++ spawn handle ∷ [],
    )

-- `while len > max_logs { pop_front }`
unfoldable pub trim : ℕ → List LogEvent → List LogEvent
trim max_logs [] = []
trim max_logs (e ∷ logs) =
    let popped = trim max_logs logs in if ltb max_logs (suc (length logs)) then popped else e ∷ logs

unfoldable pub push_log : LogEvent → App → App
unfolding trim
push_log ev a = record a {
  logs = trim a.max_logs (a.logs ++ ev ∷ []);
  scroll = if ltb 0 a.scroll then (a.scroll + 1) % 2 ^ 64 else a.scroll;
}

unfoldable pub received : MsgKind → App → App
unfolding push_log
received connected a = record a { conn = live }
received (log ev) a = push_log ev (record a { conn = live })
received (disconnected e) a = record a { conn = failed e }
received (parse_warn e) a = record a { last_warn = some e }

unfoldable pub on_msg : Msg → App → App
unfolding received
on_msg msg a = if msg.epoch == a.epoch then received msg.kind a else a

abbrev pub scroll_step : App → ℕ
scroll_step a = max_1 (a.viewport / 2)

-- `saturating_add` of a 64-bit `usize`.
abbrev pub saturating_add : ℕ → ℕ → ℕ
saturating_add m n = if ltb (2 ^ 64 - 1) (m + n) then 2 ^ 64 - 1 else m + n

abbrev pub scroll_up : App → App
scroll_up a = record a { scroll = saturating_add a.scroll (scroll_step a) }

abbrev pub scroll_down : App → App
scroll_down a = record a { scroll = a.scroll - scroll_step a }

abbrev pub same_min_level : Option LogLevel → Option LogLevel → Bool
same_min_level none none = true
same_min_level (some a) (some b) = same_level a b
same_min_level _ _ = false

unfoldable pub set_level : Option LogLevel → App → App × List Effect
unfolding reconnect
set_level level a =
    if same_min_level a.min_level level then (a, []) else reconnect (record a { min_level = level })

unfoldable pub select_next : App → App × List Effect
unfolding reconnect
select_next a =
    if ltb a.selected (length a.devices)
    then reconnect (record a { selected = a.selected + 1 })
    else (a, [])

unfoldable pub select_prev : App → App × List Effect
unfolding reconnect
select_prev a =
    if ltb 0 a.selected then reconnect (record a { selected = a.selected - 1 }) else (a, [])

unfoldable pub select_all : App → App × List Effect
unfolding reconnect
select_all a = if a.selected == 0 then (a, []) else reconnect (record a { selected = 0 })

-- The `match` on a key that is no Ctrl-C.
unfoldable pub pressed : KeyCode → App → App × List Effect
unfolding set_level select_next select_prev select_all
pressed (char c) a =
    if c == b'q'
    then (record a { should_quit = true }, [])
    else if c == b'0'
    then set_level none a
    else if c == b'1'
    then set_level (some info) a
    else if c == b'2'
    then set_level (some warn) a
    else if c == b'3'
    then set_level (some error) a
    else if c == b'c'
    then (record a { logs = []; scroll = 0 }, [])
    else if c == b'u'
    then (scroll_up a, [])
    else if c == b'd'
    then (scroll_down a, [])
    else if c == b'j'
    then select_next a
    else if c == b'k'
    then select_prev a
    else if c == b'a'
    then select_all a
    else (a, [])
pressed esc a = (record a { should_quit = true }, [])
pressed down a = select_next a
pressed up a = select_prev a
pressed left a = select_all a
pressed other a = (a, [])

abbrev pub is_c : KeyCode → Bool
is_c (char c) = c == b'c'
is_c _ = false

unfoldable pub on_key : KeyCode → (control : Bool) → App → App × List Effect
unfolding pressed
on_key code control a =
    if control && is_c code then (record a { should_quit = true }, []) else pressed code a
