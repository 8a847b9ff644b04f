-- ===== src/Logs.antt =====
-- The log entries that a device ships (common/src/device_api/logs.rs, common/src/entities/log/) and
-- the cloud that receives them. What the cloud answers is not code of the repository: it is a
-- function of all requests so far and the new one, which the shippers take as a parameter.
pub mod Shipper
pub mod Registry
pub mod Events
use amos2026ss01_zero_downti.Prelude.{
  ℕ, ◌-◌, Bool, true, false, Option, List, ◌++◌, [], ◌∷◌, length, drop, ltb, if◌then◌else◌,
}
use amos2026ss01_zero_downti.Prelude.Text.{Str}

pub data LogLevel : Type 0 where
  trace debug info warn error fatal : LogLevel

-- `time` counts the nanoseconds of a `DateTime<Utc>`.
pub record PostBodyItem : Type 0 where
  pub time : Option ℕ
  pub level : LogLevel
  pub message : Str
  pub source : Option Str

-- One POST of a batch, and whether the API client returned `Ok`.
pub record Attempt : Type 0 where
  pub batch : List PostBodyItem
  pub accepted : Bool

-- The batches that were answered with success, in order. One that the server stored, but whose
-- answer was lost, is not among them, and is sent again.
abbrev pub delivered : List Attempt → List PostBodyItem
delivered [] = []
delivered (a ∷ rest) = let later = delivered rest in if a.accepted then a.batch ++ later else later

-- The branch `Err(err)` of both flushes: the oldest entries above the cap are dropped.
unfoldable pub cap_buffer : ℕ → List PostBodyItem → List PostBodyItem
cap_buffer max_buffer buffer =
    if ltb max_buffer (length buffer) then drop (length buffer - max_buffer) buffer else buffer
