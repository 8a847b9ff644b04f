-- ===== src/Logs/Shipper/Bounds.antt =====
-- The memory that the device log shipper of orchestrator/src/logging.rs holds on to.
use amos2026ss01_zero_downti.Prelude.{
  ℕ, Bool, List, [], ◌∷◌, ◌<◌, ◌≤◌, ◌++◌, ◌⊎◌, inr, length, length-drop, arith, ◌-◌, some, none,
}
use amos2026ss01_zero_downti.Logs.{PostBodyItem, Attempt}
use amos2026ss01_zero_downti.Logs.{cap_buffer}
use amos2026ss01_zero_downti.Logs.Shipper.{
  Shipper, Event, received, tick, entry, flush_request, flush, handle, run,
}

pub length-cap_buffer : (m : ℕ) (b : List PostBodyItem) → length (cap_buffer m b) ≤ m
unfolding cap_buffer
length-cap_buffer m b = ground (arith, length-drop (length b - m) b)

-- Between two turns the buffer is short of a batch, or within the cap.
abbrev pub IsBounded : ℕ → ℕ → Shipper → Type 0
IsBounded log_max_batch log_max_buffer s =
    (length s.buffer < log_max_batch) ⊎ (length s.buffer ≤ log_max_buffer)

module _ (push_device_logs : List Attempt → List PostBodyItem → Bool)
    (log_max_batch log_max_buffer : ℕ) where
  length-flush :
      (s : Shipper)
      → length (flush push_device_logs log_max_batch log_max_buffer s).buffer ≤ log_max_buffer
  unfolding flush
  length-flush s = ground (arith, length-cap_buffer log_max_buffer s.buffer)

  handle-IsBounded :
      (e : Event) (s : Shipper)
      → IsBounded log_max_batch log_max_buffer s
      → IsBounded log_max_batch log_max_buffer
          (handle push_device_logs log_max_batch log_max_buffer e s).0
  unfolding handle
  handle-IsBounded (received (some (entry e))) s h =
      ground (arith, length-flush (record s { buffer = s.buffer ++ e ∷ [] }))
  handle-IsBounded (received (some flush_request)) s h = inr (length-flush s)
  handle-IsBounded (received none) s h = inr (length-flush s)
  handle-IsBounded tick s h = ground (arith, length-flush s)

  -- Whatever the cloud answers, the buffer that the task holds between two turns is shorter than a
  -- batch or at most `log_max_buffer` long, if it was so at the start.
  pub run-IsBounded :
      (es : List Event) (s : Shipper)
      → IsBounded log_max_batch log_max_buffer s
      → IsBounded log_max_batch log_max_buffer
          (run push_device_logs log_max_batch log_max_buffer es s)
  unfolding run
  run-IsBounded [] s h = h
  run-IsBounded (e ∷ es) s h =
      let next = handle push_device_logs log_max_batch log_max_buffer e s in
      let h' = handle-IsBounded e s h in ground (arith, run-IsBounded es next.0 h')
