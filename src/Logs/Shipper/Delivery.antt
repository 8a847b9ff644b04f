-- ===== src/Logs/Shipper/Delivery.antt =====
-- What the cloud accepts from the device log shipper of orchestrator/src/logging.rs, and in which
-- order.

use amos2026ss01_zero_downti.Prelude.{
  ℕ, Bool, List, [], ◌∷◌, ◌+◌, ◌-◌, length-drop, ◌≤◌, ◌≡◌, ◌++◌, refl, sym, length, length-append,
  arith, some, none, append-nil, append_assoc, Bool-cases, inl, inr,
}
use amos2026ss01_zero_downti.Logs.{PostBodyItem, Attempt, delivered, cap_buffer}
use amos2026ss01_zero_downti.Logs.Shipper.{
  Shipper, Event, received, tick, entry, flush_request, flush, handle, run,
}

-- The entries among the events, up to the closing of the channel.
abbrev pub entries : List Event → List PostBodyItem
entries [] = []
entries (received (some (entry e)) ∷ es) = e ∷ entries es
entries (received (some flush_request) ∷ es) = entries es
entries (received none ∷ es) = []
entries (tick ∷ es) = entries es

-- What was accepted, followed by what is still held.
abbrev pub account : Shipper → List PostBodyItem
account s = delivered s.attempts ++ s.buffer

pub delivered-append : (a b : List Attempt) → delivered (a ++ b) ≡ delivered a ++ delivered b
delivered-append [] b = refl
delivered-append (x ∷ a) b = elim (Bool-cases x.accepted) [
  | inl e ↦
      rw e (rw (delivered-append a b) (sym (append_assoc x.batch (delivered a) (delivered b))))
  | inr e ↦ rw e (delivered-append a b)
]

module _ (push_device_logs : List Attempt → List PostBodyItem → Bool)
    (log_max_batch log_max_buffer : ℕ) where
  flush_at :
      (a : List Attempt) (b : List PostBodyItem)
      → length b ≤ log_max_buffer
      → account (
          flush push_device_logs log_max_batch log_max_buffer (record { buffer = b; attempts = a }))
        ≡ delivered a ++ b
  unfolding flush cap_buffer
  flush_at a [] h = refl
  flush_at a (x ∷ b) h = elim (Bool-cases (push_device_logs a (x ∷ b))) [
    | inl e ↦ rw e (simp (delivered-append, append-nil))
    | inr e ↦ rw e (simp (delivered-append, append-nil) (ground arith))
  ]

  -- A flush within the cap loses nothing.
  account-flush :
      (s : Shipper)
      → length s.buffer ≤ log_max_buffer
      → account (flush push_device_logs log_max_batch log_max_buffer s) ≡ account s
  account-flush s h = flush_at s.attempts s.buffer h

  length-flush-le :
      (s : Shipper)
      → length (flush push_device_logs log_max_batch log_max_buffer s).buffer ≤ length s.buffer
  unfolding flush cap_buffer
  length-flush-le s = ground (arith, length-drop (length s.buffer - log_max_buffer) s.buffer)

  account-handle :
      (e : Event) (s : Shipper)
      → length s.buffer + length (entries (e ∷ [])) ≤ log_max_buffer
      → (account (handle push_device_logs log_max_batch log_max_buffer e s).0
          ≡ account s ++ entries (e ∷ []))
        × (length (handle push_device_logs log_max_batch log_max_buffer e s).0.buffer
            ≤ length s.buffer + length (entries (e ∷ [])))
  unfolding handle
  account-handle (received (some (entry e))) s h =
      let pushed : Shipper = record s { buffer = s.buffer ++ e ∷ [] } in
      ground (
        arith,
        account-flush pushed,
        length-flush-le pushed,
        length-append s.buffer (e ∷ []),
        append_assoc (delivered s.attempts) s.buffer (e ∷ []),
      )
  account-handle (received (some flush_request)) s h =
      ground (arith, account-flush s, length-flush-le s, append-nil (account s))
  account-handle (received none) s h =
      ground (arith, account-flush s, length-flush-le s, append-nil (account s))
  account-handle tick s h =
      ground (arith, account-flush s, length-flush-le s, append-nil (account s))

  -- At each turn, what is held and what the turn brings fit under `log_max_buffer` together.
  abbrev pub HasRoom : List Event → Shipper → Type 0
  HasRoom [] s = Unit
  HasRoom (e ∷ es) s =
      (length s.buffer + length (entries (e ∷ [])) ≤ log_max_buffer)
      × HasRoom es (handle push_device_logs log_max_batch log_max_buffer e s).0

  -- As long as at each turn the buffer and the entry that is received fit under `log_max_buffer`, no
  -- refused request loses or reorders an entry: the batches that were answered with success followed
  -- by what is still held are all that was handed over, in order. Entries behind the closing of the
  -- channel do not count.
  pub account-run :
      (es : List Event) (s : Shipper)
      → HasRoom es s
      → account (run push_device_logs log_max_batch log_max_buffer es s) ≡ account s ++ entries es
  unfolding run handle
  account-run [] s h = rw append-nil
  account-run (received (some (entry e)) ∷ es) s h =
      let next =
        handle push_device_logs log_max_batch log_max_buffer (received (some (entry e))) s in
      ground (
        arith,
        account-handle (received (some (entry e))) s,
        account-run es next.0,
        append_assoc (account s) (e ∷ []) (entries es),
      )
  account-run (received (some flush_request) ∷ es) s h =
      let next =
        handle push_device_logs log_max_batch log_max_buffer (received (some flush_request)) s in
      ground (
        arith,
        account-handle (received (some flush_request)) s,
        account-run es next.0,
        append-nil (account s),
      )
  account-run (received none ∷ es) s h = ground (arith, account-handle (received none) s)
  account-run (tick ∷ es) s h =
      let next = handle push_device_logs log_max_batch log_max_buffer tick s in
      ground (arith, account-handle tick s, account-run es next.0, append-nil (account s))
