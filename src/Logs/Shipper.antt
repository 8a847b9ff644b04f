-- ===== src/Logs/Shipper.antt =====
-- orchestrator/src/logging.rs: `OrchestratorLogger::flush` and the task of `into_spawned_shipper`.
-- One turn of its `select!` is a call of `handle`; what the channel and the interval deliver, and
-- in which order, is the list of events.
pub mod Bounds
pub mod Delivery
pub mod Order
use amos2026ss01_zero_downti.Prelude.{
  ℕ, Bool, true, false, Option, some, none, List, [], ◌∷◌, ◌++◌, length, is_empty, leb,
  if◌then◌else◌,
}
use amos2026ss01_zero_downti.Logs.{PostBodyItem, Attempt, cap_buffer}

-- The oneshot sender of `Flush` is the acknowledgement that `handle` returns.
pub data LogMessage : Type 0 where
  entry : PostBodyItem → LogMessage
  flush_request : LogMessage

-- `received none` is the closed channel.
pub data Event : Type 0 where
  received : Option LogMessage → Event
  tick : Event

pub data Status : Type 0 where
  running acknowledged returned : Status

pub record Shipper : Type 0 where
  pub buffer : List PostBodyItem
  pub attempts : List Attempt

-- `attempts` has the first request at its head.
module _ (push_device_logs : List Attempt → List PostBodyItem → Bool)
    (log_max_batch log_max_buffer : ℕ) where
  unfoldable pub flush : Shipper → Shipper
  unfolding cap_buffer
  flush s =
      if is_empty s.buffer
      then s
      else (let accepted = push_device_logs s.attempts s.buffer in
          record {
            buffer = if accepted then [] else cap_buffer log_max_buffer s.buffer;
            attempts = s.attempts ++ record { batch = s.buffer; accepted = accepted } ∷ [];
          })

  unfoldable pub handle : Event → Shipper → Shipper × Status
  handle (received (some (entry e))) s =
      let pushed = record s { buffer = s.buffer ++ e ∷ [] } in
      (if leb log_max_batch (length pushed.buffer) then flush pushed else pushed, running)
  handle (received (some flush_request)) s = (flush s, acknowledged)
  handle (received none) s = (flush s, returned)
  handle tick s = (if is_empty s.buffer then s else flush s, running)

  -- The `loop`: it ends when the channel is closed.
  unfoldable pub run : List Event → Shipper → Shipper
  run [] s = s
  run (e ∷ es) s =
      let (s', status) = handle e s in
      let rest = run es s' in elim status [ returned ↦ s' | _ ↦ rest ]
