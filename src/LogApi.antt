-- ===== src/LogApi.antt =====
-- The logs in the API server: which events a subscriber is sent (routes/logs.rs under
-- api-server/src/api_v1/), how a device's logs are stored and published (routes/device/logs.rs) and
-- how the stored ones are listed (ts_db/). The broadcast channel, which drops what a slow
-- subscriber lags behind, and the database are third-party code.
pub mod Filter
pub mod Store
pub mod Publish
pub mod History
use amos2026ss01_zero_downti.Prelude.{
  ℕ, Bool, true, false, not, Option, some, none, List, [], ◌∷◌, filter, ◌==◌, if◌then◌else◌, is_num,
}
use amos2026ss01_zero_downti.Logs.{LogLevel}
use amos2026ss01_zero_downti.Logs.Events.{
  LogKind, LogEvent, LogStreamQuery, of_device, of_application, device_id, application_id, level,
  same_kind, lower,
}

abbrev pub kind_of : LogEvent → LogKind
kind_of (of_device model) = LogKind.device
kind_of (of_application model) = LogKind.application

-- The conditions of the four early returns.
abbrev pub other_kind : LogEvent → Option LogKind → Bool
other_kind event none = false
other_kind event (some kind) = not (same_kind (kind_of event) kind)

abbrev pub other_device : LogEvent → Option ℕ → Bool
other_device event none = false
other_device event (some d) = not (device_id event == d)

abbrev pub other_application : LogEvent → Option ℕ → Bool
other_application event none = false
other_application event (some a) = not (is_num (application_id event) a)

abbrev pub too_low : LogEvent → Option LogLevel → Bool
too_low event none = false
too_low event (some min_level) = lower (level event) min_level

unfoldable pub matches : LogEvent → Option ℕ → Option ℕ → Option LogLevel → Option LogKind → Bool
matches event device application min_level kind =
    if other_kind event kind
    then false
    else if other_device event device
    then false
    else if other_application event application
    then false
    else if too_low event min_level
    then false
    else true

-- What a broadcast receiver yields: an event, or that it lagged behind and missed some.
pub data Received : Type 0 where
  got : LogEvent → Received
  lagged : ℕ → Received

-- `item.ok()`
abbrev pub keep_ok : List Received → List LogEvent
keep_ok [] = []
keep_ok (got e ∷ items) = e ∷ keep_ok items
keep_ok (lagged n ∷ items) = keep_ok items

-- The events that a subscriber is sent.
unfoldable pub stream_logs : LogStreamQuery → List Received → List LogEvent
unfolding matches
stream_logs params items =
    filter (λ e. matches e params.device_id params.application_id params.level params.kind)
      (keep_ok items)
