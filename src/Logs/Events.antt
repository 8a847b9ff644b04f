-- ===== src/Logs/Events.antt =====
-- The logs of all devices as the cloud keeps and streams them (common/src/entities/log/).
use amos2026ss01_zero_downti.Prelude.{ℕ, Bool, true, false, Option, some, none, ltb, ◌==◌}
use amos2026ss01_zero_downti.Prelude.Text.{Str}
use amos2026ss01_zero_downti.Logs.{LogLevel, trace, debug, info, warn, error, fatal}

-- The derived order of `LogLevel` is that of its variants.
abbrev pub severity : LogLevel → ℕ
severity trace = 0
severity debug = 1
severity info = 2
severity warn = 3
severity error = 4
severity fatal = 5

-- `a < b`
abbrev pub lower : LogLevel → LogLevel → Bool
lower a b = ltb (severity a) (severity b)

abbrev pub same_level : LogLevel → LogLevel → Bool
same_level a b = severity a == severity b

pub data LogKind : Type 0 where
  device application : LogKind

abbrev pub same_kind : LogKind → LogKind → Bool
same_kind device device = true
same_kind application application = true
same_kind _ _ = false

-- A UUID and a time are numbers.
pub record DeviceLog : Type 0 where
  pub id : ℕ
  pub time : ℕ
  pub device_id : ℕ
  pub level : LogLevel
  pub message : Str
  pub source : Option Str

pub record ApplicationLog : Type 0 where
  pub id : ℕ
  pub time : ℕ
  pub device_id : ℕ
  pub application_id : ℕ
  pub level : LogLevel
  pub message : Str
  pub source : Option Str

pub data LogEvent : Type 0 where
  of_device : DeviceLog → LogEvent
  of_application : ApplicationLog → LogEvent

abbrev pub device_id : LogEvent → ℕ
device_id (of_device model) = model.device_id
device_id (of_application model) = model.device_id

abbrev pub application_id : LogEvent → Option ℕ
application_id (of_device model) = none
application_id (of_application model) = some model.application_id

abbrev pub level : LogEvent → LogLevel
level (of_device model) = model.level
level (of_application model) = model.level

pub record LogStreamQuery : Type 0 where
  pub device_id : Option ℕ
  pub application_id : Option ℕ
  pub level : Option LogLevel
  pub kind : Option LogKind

-- `from` and `to` are inclusive.
pub record LogQuery : Type 0 where
  pub device_id : Option ℕ
  pub application_id : Option ℕ
  pub level : Option LogLevel
  pub from : Option ℕ
  pub to : Option ℕ
