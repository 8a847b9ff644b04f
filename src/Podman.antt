-- ===== src/Podman.antt =====
-- orchestrator/src/podman/wrapper.rs: the lines of a container's log, its states, and the calls that
-- start, stop and destroy it. What Podman answers is a parameter.
pub mod Lines
pub mod Decimal
pub mod Images
pub mod ImagesTold
pub mod Containers
use amos2026ss01_zero_downti.Prelude.{
  ℕ, Bool, true, false, not, ◌&&◌, ◌||◌, Option, some, none, List, [], ◌∷◌, ◌++◌, filter, is_empty,
  Result, ok, err, ◌==◌, if◌then◌else◌,
}
use amos2026ss01_zero_downti.Prelude.Text.{Str, str_eq, codes}
use amos2026ss01_zero_downti.Logs.Registry.{LogStreamKind, LogChunk}
use amos2026ss01_zero_downti.Lifecycle.{
  PodmanContainerState, running, stopped, ambiguous, same_state,
}

abbrev pub is_newline : ℕ → Bool
is_newline c = (c == b'\n') || (c == b'\r')

-- `trim_end_matches(['\n', '\r'])`
unfoldable pub trim_end : Str → Str
trim_end [] = []
trim_end (c ∷ s) = let rest = trim_end s in if is_empty rest && is_newline c then [] else c ∷ rest

abbrev pub with_first : ℕ → Option (Str × Str) → Option (Str × Str)
with_first c none = none
with_first c (some (a, b)) = some (c ∷ a, b)

-- `split_once(c)`
unfoldable pub split_once : ℕ → Str → Option (Str × Str)
split_once c [] = none
split_once c (x ∷ s) =
    let rest = with_first x (split_once c s) in if x == c then some ([], s) else rest

module _ (from_utf8_lossy : List ℕ → Str) (parse_from_rfc3339 : Str → Option ℕ) where
  abbrev pub stamped : LogStreamKind → Str → Str → Option ℕ → Str → LogChunk
  stamped stream ts rest none raw = record { stream = stream; time = none; message = raw }
  stamped stream ts rest (some t) raw = record { stream = stream; time = some t; message = rest }

  abbrev pub parsed_line : LogStreamKind → Option (Str × Str) → Str → LogChunk
  parsed_line stream none raw = record { stream = stream; time = none; message = raw }
  parsed_line stream (some (ts, rest)) raw = stamped stream ts rest (parse_from_rfc3339 ts) raw

  unfoldable pub parse_log_line : LogStreamKind → List ℕ → LogChunk
  unfolding trim_end split_once
  parse_log_line stream bytes =
      let raw = trim_end (from_utf8_lossy bytes) in parsed_line stream (split_once b' ' raw) raw

-- `From<&str> for PodmanContainerState`
unfoldable pub state_of : Str → PodmanContainerState
unfolding str_eq
state_of s =
    if str_eq s (codes "created")
      || (str_eq s (codes "initialized")
          || (str_eq s (codes "stopped")
              || (str_eq s (codes "exited") || str_eq s (codes "paused"))))
    then stopped
    else if str_eq s (codes "running")
    then running
    else ambiguous

abbrev pub state_or_ambiguous : Option Str → PodmanContainerState
state_or_ambiguous none = ambiguous
state_or_ambiguous (some s) = state_of s

abbrev all_conditions : List Str
all_conditions =
    codes "created" ∷ codes "exited" ∷ codes "paused" ∷ codes "removing" ∷ codes "running" ∷ []

-- The conditions of `wait_for_state_change`.
unfoldable pub wait_conditions : PodmanContainerState → List Str
wait_conditions current = filter (λ c. not (same_state current (state_of c))) all_conditions

-- The calls to the socket that change a container.
pub data ContainerCall : Type 0 where
  call_start call_stop call_delete : ContainerCall

module _ (inspect : List ContainerCall → Result Str (Option Str))
    (call : List ContainerCall → ContainerCall → Result Str (Unit {0})) where
  unfoldable pub state : List ContainerCall → Result Str PodmanContainerState
  state calls = elim (inspect calls) [ err e ↦ err e | ok s ↦ ok (state_or_ambiguous s) ]

  -- A call under the condition that the container is in a state.
  abbrev pub call_in :
      PodmanContainerState
      → ContainerCall
      → Result Str PodmanContainerState
      → List ContainerCall
      → Result Str (Unit {0}) × List ContainerCall
  call_in wanted c (err e) calls = (err e, calls)
  call_in wanted c (ok s) calls =
      if same_state s wanted then (call calls c, calls ++ c ∷ []) else (ok tt, calls)

  unfoldable pub start : List ContainerCall → Result Str (Unit {0}) × List ContainerCall
  start calls = call_in stopped call_start (state calls) calls

  unfoldable pub stop : List ContainerCall → Result Str (Unit {0}) × List ContainerCall
  stop calls = call_in running call_stop (state calls) calls

  unfoldable pub destroy : List ContainerCall → Result Str (Unit {0}) × List ContainerCall
  destroy calls = (call calls call_delete, calls ++ call_delete ∷ [])
