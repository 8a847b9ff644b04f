-- ===== src/Logs/Shipper/Order.antt =====
-- The order of what the device log shipper of orchestrator/src/logging.rs delivers, outages
-- included.
use mathlib.Core.List.Sublistᴰ
use mathlib.Core.List.{Sublistᴰ}
use amos2026ss01_zero_downti.Prelude.{
  ℕ, zero, suc, Bool, List, [], ◌∷◌, ◌++◌, ◌-◌, length, drop, some, none, append-nil, append_assoc,
  Bool-cases, inl, inr, ltb, leb, is_empty,
}
use amos2026ss01_zero_downti.Logs.{PostBodyItem, Attempt, delivered, cap_buffer}
use amos2026ss01_zero_downti.Logs.Shipper.{
  Shipper, Event, received, tick, entry, flush_request, flush, handle, run,
}
use amos2026ss01_zero_downti.Logs.Shipper.Delivery.{account, entries, delivered-append}

drop-Sublistᴰ : (n : ℕ) (b : List PostBodyItem) → Sublistᴰ (drop n b) b
drop-Sublistᴰ zero b = Sublistᴰ.refl b
drop-Sublistᴰ (suc n) [] = Sublistᴰ.slnil
drop-Sublistᴰ (suc n) (x ∷ b) = Sublistᴰ.cons (drop-Sublistᴰ n b)

cap_buffer-Sublistᴰ : (m : ℕ) (b : List PostBodyItem) → Sublistᴰ (cap_buffer m b) b
unfolding cap_buffer
cap_buffer-Sublistᴰ m b = elim (Bool-cases (ltb m (length b))) [
  | inl e ↦ rw e (drop-Sublistᴰ (length b - m) b)
  | inr e ↦ rw e (Sublistᴰ.refl b)
]

module _ (push_device_logs : List Attempt → List PostBodyItem → Bool)
    (log_max_batch log_max_buffer : ℕ) where
  flush_at :
      (a : List Attempt) (b : List PostBodyItem)
      → Sublistᴰ
          (account (
            flush push_device_logs log_max_batch log_max_buffer
              (record { buffer = b; attempts = a })))
          (delivered a ++ b)
  unfolding flush
  flush_at a [] = Sublistᴰ.refl _
  flush_at a (x ∷ b) = elim (Bool-cases (push_device_logs a (x ∷ b))) [
    | inl e ↦ rw e (simp (delivered-append, append-nil) (Sublistᴰ.refl (delivered a ++ x ∷ b)))
    | inr e ↦ rw e (
        simp (delivered-append, append-nil)
          (Sublistᴰ.append (Sublistᴰ.refl (delivered a))
            (cap_buffer-Sublistᴰ log_max_buffer (x ∷ b))))
  ]

  flush-Sublistᴰ :
      (s : Shipper)
      → Sublistᴰ (account (flush push_device_logs log_max_batch log_max_buffer s)) (account s)
  flush-Sublistᴰ s = flush_at s.attempts s.buffer

  handle-Sublistᴰ :
      (e : Event) (s : Shipper)
      → Sublistᴰ
          (account (handle push_device_logs log_max_batch log_max_buffer e s).0)
          (account s ++ entries (e ∷ []))
  unfolding handle
  handle-Sublistᴰ (received (some (entry e))) s =
      let pushed : Shipper = record s { buffer = s.buffer ++ e ∷ [] } in
      rw (append_assoc (delivered s.attempts) s.buffer (e ∷ []))
        (elim (Bool-cases (leb log_max_batch (length (s.buffer ++ e ∷ [])))) [
          | inl full ↦ rw full (flush-Sublistᴰ pushed)
          | inr short ↦ rw short (Sublistᴰ.refl (account pushed))
        ])
  handle-Sublistᴰ (received (some flush_request)) s = rw append-nil (flush-Sublistᴰ s)
  handle-Sublistᴰ (received none) s = rw append-nil (flush-Sublistᴰ s)
  handle-Sublistᴰ tick s = rw append-nil (elim (Bool-cases (is_empty s.buffer)) [
    | inl idle ↦ rw idle (Sublistᴰ.refl (account s))
    | inr some_held ↦ rw some_held (flush-Sublistᴰ s)
  ])

  handle_then :
      (e : Event) (es : List Event) (s : Shipper) {l : List PostBodyItem}
      → Sublistᴰ l
          (account (handle push_device_logs log_max_batch log_max_buffer e s).0 ++ entries es)
      → Sublistᴰ l (account s ++ (entries (e ∷ []) ++ entries es))
  handle_then e es s later = Sublistᴰ.trans later (
      rw (← append_assoc (account s) (entries (e ∷ [])) (entries es))
        (Sublistᴰ.append (handle-Sublistᴰ e s) (Sublistᴰ.refl (entries es))))

  -- Whatever the cloud answers, the batches that were answered with success followed by what is
  -- still held are what was handed over with some entries left out: none is invented, moved, or
  -- counted in two of these places. A refused batch is held and sent again.
  pub run-Sublistᴰ :
      (es : List Event) (s : Shipper)
      → Sublistᴰ
          (account (run push_device_logs log_max_batch log_max_buffer es s))
          (account s ++ entries es)
  unfolding run handle
  run-Sublistᴰ [] s = rw append-nil (Sublistᴰ.refl (account s))
  run-Sublistᴰ (received (some (entry e)) ∷ es) s = handle_then (received (some (entry e))) es s (
      run-Sublistᴰ es
        (handle push_device_logs log_max_batch log_max_buffer (received (some (entry e))) s).0)
  run-Sublistᴰ (received (some flush_request) ∷ es) s =
      handle_then (received (some flush_request)) es s (
        run-Sublistᴰ es
          (handle push_device_logs log_max_batch log_max_buffer (received (some flush_request))
            s).0)
  run-Sublistᴰ (received none ∷ es) s = handle-Sublistᴰ (received none) s
  run-Sublistᴰ (tick ∷ es) s =
      handle_then tick es s
        (run-Sublistᴰ es (handle push_device_logs log_max_batch log_max_buffer tick s).0)
