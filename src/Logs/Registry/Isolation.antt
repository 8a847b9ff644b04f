-- ===== src/Logs/Registry/Isolation.antt =====
-- Under which id orchestrator/src/podman/log_registry.rs posts an entry.
use amos2026ss01_zero_downti.Prelude.{
  ℕ, zero, suc, ◌-◌, inl, inr, ◌≡◌, Bool, Option, some, none, List, [], ◌∷◌, ◌++◌, length, drop,
  leb, ltb, ◌==◌, ok, err, All, Bool-cases, Option-cases, arith,
}
use amos2026ss01_zero_downti.Prelude.Text.{Str}
use amos2026ss01_zero_downti.Logs.{PostBodyItem, cap_buffer}
use amos2026ss01_zero_downti.Logs.Registry.{
  LogChunk, AppAttempt, add, remove_app, Event, received, yielded, tick, Registry, get, remove,
  insert, or_default, entry_of, flush_application_logs, flush_all, push_chunk, remove_application,
  handle,
}

module _ {ℓ κ} {A : Type ℓ} (P : A → Type κ) where
  pub All-append : (xs ys : List A) → All P xs → All P ys → All P (xs ++ ys)
  All-append [] ys h k = k
  All-append (x ∷ xs) ys h k = (h.0, All-append xs ys h.1 k)

  pub All-drop : (n : ℕ) (xs : List A) → All P xs → All P (drop n xs)
  All-drop zero xs h = h
  All-drop (suc n) [] h = h
  All-drop (suc n) (x ∷ xs) h = All-drop n xs h.1

module _ {ℓ κ} {V : Type ℓ} (P : ℕ × V → Type κ) where
  pub All-remove : (k : ℕ) (m : List (ℕ × V)) → All P m → All P (remove k m)
  unfolding remove
  All-remove k [] h = h
  All-remove k ((j, v) ∷ m) h = elim (Bool-cases (j == k)) [
    | inl e ↦ rw e (All-remove k m h.1)
    | inr e ↦ rw e (h.0, All-remove k m h.1)
  ]

  pub All-insert : (k : ℕ) (v : V) (m : List (ℕ × V)) → P (k, v) → All P m → All P (insert k v m)
  unfolding insert
  All-insert k v m p h = (p, All-remove k m h)

All-get {κ} :
    (P : ℕ → List PostBodyItem → Type κ) (k : ℕ) (m : List (ℕ × List PostBodyItem))
    → P k []
    → All (λ e. P e.0 e.1) m
    → P k (or_default (get k m))
unfolding get
All-get P k [] p h = p
All-get P k ((j, b) ∷ m) p h = elim (Bool-cases (j == k)) [
  | inl e ↦ rw e (let j_is_k : j ≡ k = ground arith in rw j_is_k at h.0)
  | inr e ↦ rw e (All-get P k m p h.1)
]

All-cap_buffer {κ} :
    (P : PostBodyItem → Type κ) (m : ℕ) (b : List PostBodyItem) → All P b → All P (cap_buffer m b)
unfolding cap_buffer
All-cap_buffer P m b h = elim (Bool-cases (ltb m (length b))) [
  | inl e ↦ rw e (All-drop P (length b - m) b h)
  | inr e ↦ rw e h
]

-- Entries of application `k` are those that satisfy `P k`: every buffer, and every batch that was
-- posted, holds only entries of its own application.
pub record IsSeparated (P : ℕ → PostBodyItem → Type 0) (r : Registry) : Type 0 where
  pub held : All (λ e. All (P e.0) e.1) r.buffers
  pub posted : All (λ a. All (P a.application_id) a.batch) r.attempts

module _ (push_application_logs : List AppAttempt → ℕ → List PostBodyItem → Bool)
    (log_max_batch log_max_buffer : ℕ) (P : ℕ → PostBodyItem → Type 0) where
  Posted : List AppAttempt → Type 0
  Posted = All (λ a. All (P a.application_id) a.batch)

  flush-separated :
      (b : List PostBodyItem) (id : ℕ) (a : List AppAttempt)
      → All (P id) b
      → Posted a
      → All
          (P id)
          (flush_application_logs push_application_logs log_max_batch log_max_buffer b id a).0
        × Posted
            (flush_application_logs push_application_logs log_max_batch log_max_buffer b id a).1
  unfolding flush_application_logs Posted
  flush-separated [] id a h k = (h, k)
  flush-separated (x ∷ b) id a h k = elim (Bool-cases (push_application_logs a id (x ∷ b))) [
    | inl e ↦ rw e (tt, All-append _ a _ k (h, tt))
    | inr e ↦ rw e (All-cap_buffer (P id) log_max_buffer (x ∷ b) h, All-append _ a _ k (h, tt))
  ]

  flush_all-separated :
      (m : List (ℕ × List PostBodyItem)) (a : List AppAttempt)
      → All (λ e. All (P e.0) e.1) m
      → Posted a
      → All
          (λ e. All (P e.0) e.1)
          (flush_all push_application_logs log_max_batch log_max_buffer m a).0
        × Posted (flush_all push_application_logs log_max_batch log_max_buffer m a).1
  unfolding flush_all
  flush_all-separated [] a h k = (h, k)
  flush_all-separated ((id, b) ∷ m) a h k =
      let one = flush-separated b id a h.0 k in
      let rest = flush_all-separated m _ h.1 one.1 in ((one.0, rest.0), rest.1)

  -- The entry that a chunk becomes belongs to the application whose stream it came from.
  abbrev pub Owned : Event → Type 0
  Owned (yielded id (ok chunk) now) = (name : Option Str) → P id (entry_of chunk name now)
  Owned _ = Unit

  push_chunk-IsSeparated :
      (id : ℕ) (chunk : LogChunk) (now : ℕ) (r : Registry)
      → ((name : Option Str) → P id (entry_of chunk name now))
      → IsSeparated P r
      → IsSeparated P (push_chunk push_application_logs log_max_batch log_max_buffer id chunk now r)
  unfolding push_chunk Posted
  push_chunk-IsSeparated id chunk now r own h =
      let old = or_default (get id r.buffers) in
      let new = entry_of chunk (get id r.names) now in
      let fits =
        All-append (P id) old (new ∷ []) (All-get (λ k b. All (P k) b) id r.buffers tt h.held)
          (own (get id r.names), tt) in
      let flushed = flush-separated (old ++ new ∷ []) id r.attempts fits h.posted in
      elim (Bool-cases (leb log_max_batch (length (old ++ new ∷ [])))) [
        | inl e ↦
            rw e
              (record { held = All-insert _ id _ r.buffers flushed.0 h.held; posted = flushed.1 })
        | inr e ↦
            rw e (record { held = All-insert _ id _ r.buffers fits h.held; posted = h.posted })
      ]

  -- An entry is held and posted under the id of the application whose stream yielded it: every
  -- turn keeps all buffers and requests to entries of their own application, whatever the API
  -- client answers.
  pub handle-IsSeparated :
      (e : Event) (r : Registry)
      → Owned e
      → IsSeparated P r
      → IsSeparated P (handle push_application_logs log_max_batch log_max_buffer e r).0
  unfolding handle remove_application Posted
  handle-IsSeparated (received (some (add id name))) r own h = record {
    held = h.held;
    posted = h.posted;
  }
  handle-IsSeparated (received (some (remove_app id))) r own h = record {
    held = All-remove _ id r.buffers h.held;
    posted =
        (flush-separated (or_default (get id r.buffers)) id r.attempts
          (All-get (λ k b. All (P k) b) id r.buffers tt h.held) h.posted).1;
  }
  handle-IsSeparated (received none) r own h = record {
    held = tt;
    posted = (flush_all-separated r.buffers r.attempts h.held h.posted).1;
  }
  handle-IsSeparated (yielded id (ok chunk) now) r own h = elim (Option-cases (get id r.streams)) [
    | inl e ↦ rw (e, handle) h
    | inr (u, e) ↦ rw (e, handle) (push_chunk-IsSeparated id chunk now r own h)
  ]
  handle-IsSeparated (yielded id (err e) now) r own h = h
  handle-IsSeparated tick r own h =
      let all = flush_all-separated r.buffers r.attempts h.held h.posted in
      record { held = all.0; posted = all.1 }
