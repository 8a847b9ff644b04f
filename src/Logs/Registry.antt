-- ===== src/Logs/Registry.antt =====
-- orchestrator/src/podman/log_registry.rs: the task of `spawn_app_log_registry`, which tails the
-- applications' log streams. One turn of its `select!` is a call of `handle`. The streams
-- themselves (podman) are not modelled: what one yields is an event `yielded`.
pub mod Isolation
use amos2026ss01_zero_downti.Prelude.{
  ℕ, zero, suc, Bool, true, false, Option, some, none, List, [], ◌∷◌, ◌++◌, length, is_empty, leb,
  ◌==◌, if◌then◌else◌, Result, ok, err,
}
use amos2026ss01_zero_downti.Prelude.Text.{Str}
use amos2026ss01_zero_downti.Logs.{LogLevel, info, error, PostBodyItem, cap_buffer}

pub data LogStreamKind : Type 0 where
  stdout stderr : LogStreamKind

pub record LogChunk : Type 0 where
  pub stream : LogStreamKind
  pub time : Option ℕ
  pub message : Str

unfoldable pub stream_to_level : LogStreamKind → LogLevel
stream_to_level stdout = info
stream_to_level stderr = error

-- `HashMap<i32, V>`: at most one entry for a key; no code depends on the order of the entries.
module _ {ℓ} {V : Type ℓ} where
  unfoldable pub get : ℕ → List (ℕ × V) → Option V
  get k [] = none
  get k ((j, v) ∷ m) = let rest = get k m in if j == k then some v else rest

  unfoldable pub remove : ℕ → List (ℕ × V) → List (ℕ × V)
  remove k [] = []
  remove k ((j, v) ∷ m) = let rest = remove k m in if j == k then rest else (j, v) ∷ rest

  unfoldable pub insert : ℕ → V → List (ℕ × V) → List (ℕ × V)
  unfolding remove
  insert k v m = (k, v) ∷ remove k m

-- One POST of a batch under an application's id, and whether the API client returned `Ok`.
pub record AppAttempt : Type 0 where
  pub application_id : ℕ
  pub batch : List PostBodyItem
  pub accepted : Bool

-- The stream of an `Add` yields its chunks through `yielded`, so the command carries none.
pub data RegistryCommand : Type 0 where
  add : ℕ → Str → RegistryCommand
  remove_app : ℕ → RegistryCommand

-- `received none`: all handles are dropped. `yielded id r`: the stream under `id` yields `r`, with
-- the clock at the time given.
pub data Event : Type 0 where
  received : Option RegistryCommand → Event
  yielded : ℕ → Result Str LogChunk → ℕ → Event
  tick : Event

pub record Registry : Type 0 where
  pub streams : List (ℕ × Unit {0})
  pub buffers : List (ℕ × List PostBodyItem)
  pub names : List (ℕ × Str)
  pub attempts : List AppAttempt

abbrev pub or_default : Option (List PostBodyItem) → List PostBodyItem
or_default none = []
or_default (some b) = b

unfoldable pub entry_of : LogChunk → Option Str → ℕ → PostBodyItem
unfolding stream_to_level
entry_of chunk name now = record {
  time = elim chunk.time [ none ↦ some now | some t ↦ some t ];
  level = stream_to_level chunk.stream;
  message = chunk.message;
  source = name;
}

module _ (push_application_logs : List AppAttempt → ℕ → List PostBodyItem → Bool)
    (log_max_batch log_max_buffer : ℕ) where
  -- The buffer that is left, and the requests so far.
  unfoldable pub flush_application_logs :
      List PostBodyItem → ℕ → List AppAttempt → List PostBodyItem × List AppAttempt
  flush_application_logs buffer application_id attempts =
      if is_empty buffer
      then (buffer, attempts)
      else (let accepted = push_application_logs attempts application_id buffer in
          (
            if accepted then [] else cap_buffer log_max_buffer buffer,
            attempts
                ++ record { application_id = application_id; batch = buffer; accepted = accepted }
                  ∷ [],
          ))

  -- The loops over all buffers, at a tick and at the end; an empty buffer is passed over by the
  -- flush itself.
  unfoldable pub flush_all :
      List (ℕ × List PostBodyItem)
      → List AppAttempt
      → List (ℕ × List PostBodyItem) × List AppAttempt
  flush_all [] attempts = ([], attempts)
  flush_all ((id, b) ∷ m) attempts =
      let (b', attempts') = flush_application_logs b id attempts in
      let (m', attempts'') = flush_all m attempts' in ((id, b') ∷ m', attempts'')

  -- The arm of a stream's chunk: the buffer is flushed when it is as long as a batch, and what the
  -- flush leaves goes back into the map.
  unfoldable pub push_chunk : ℕ → LogChunk → ℕ → Registry → Registry
  push_chunk id chunk now r =
      let pushed = or_default (get id r.buffers) ++ entry_of chunk (get id r.names) now ∷ [] in
      let flushed = flush_application_logs pushed id r.attempts in
      if leb log_max_batch (length pushed)
      then record r { buffers = insert id flushed.0 r.buffers; attempts = flushed.1 }
      else record r { buffers = insert id pushed r.buffers }

  -- The arm of `Remove`: what a failed flush leaves is dropped with the local `buffer`.
  unfoldable pub remove_application : ℕ → Registry → Registry
  remove_application id r = record {
    streams = remove id r.streams;
    buffers = remove id r.buffers;
    names = remove id r.names;
    attempts = (flush_application_logs (or_default (get id r.buffers)) id r.attempts).1;
  }

  -- The state after the turn, and whether the task goes on. A `StreamMap` yields only from the
  -- streams that it holds.
  unfoldable pub handle : Event → Registry → Registry × Bool
  handle (received (some (add id name))) r =
      (record r { streams = insert id tt r.streams; names = insert id name r.names }, true)
  handle (received (some (remove_app id))) r = (remove_application id r, true)
  handle (received none) r =
      (record r { buffers = []; attempts = (flush_all r.buffers r.attempts).1 }, false)
  handle (yielded id (ok chunk) now) r =
      (elim (get id r.streams) [ some _ ↦ push_chunk id chunk now r | none ↦ r ], true)
  handle (yielded id (err e) now) r = (r, true)
  handle tick r =
      let (buffers, attempts) = flush_all r.buffers r.attempts in
      (record r { buffers = buffers; attempts = attempts }, true)
