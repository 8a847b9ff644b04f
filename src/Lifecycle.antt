-- ===== src/Lifecycle.antt =====
-- orchestrator/src/application.rs: `run_lifecycle_loop`, which keeps a container alive until its
-- application is removed. One turn of the inner loop is a call of `turn`; what Podman answers in it
-- and what ends its `select!` is its argument. A turn that breaks out is followed by the outer loop's
-- `FatalError`, its pause and its fresh locals.
pub mod Endings
pub mod Removal
use amos2026ss01_zero_downti.Prelude.{
  ℕ, ◌+◌, ◌%◌, ◌^◌, Bool, true, false, not, ◌&&◌, ◌||◌, Option, some, none, List, [], ◌∷◌, ◌++◌,
  Result, ok, err, ◌==◌, if◌then◌else◌,
}
use amos2026ss01_zero_downti.Prelude.Text.{Str}

pub data PodmanContainerState : Type 0 where
  running stopped ambiguous : PodmanContainerState

abbrev pub same_state : PodmanContainerState → PodmanContainerState → Bool
same_state running running = true
same_state stopped stopped = true
same_state ambiguous ambiguous = true
same_state _ _ = false

pub data LifecycleEvent : Type 0 where
  state_change : Option PodmanContainerState → PodmanContainerState → LifecycleEvent
  stopped_unexpectedly attempting_start : LifecycleEvent
  failure_threshold_reached : ℕ → LifecycleEvent
  fatal_error : Str → LifecycleEvent

-- What the loop does to the outside: an event, a log stream added to the registry from now on or
-- from its beginning, and the calls that change the container.
pub data Effect : Type 0 where
  send : LifecycleEvent → Effect
  add_stream : (from_now : Bool) → Effect
  start stop destroy : Effect

-- How the `select!` ends. A sleep without a timeout does not end; the theorems do not need that.
pub data Wake : Type 0 where
  slept : Wake
  waited : Result Str (Unit {0}) → Wake
  deleted : (stopping destroying : Result Str (Unit {0})) → Wake

pub record Turn : Type 0 where
  pub state : Result Str PodmanContainerState
  pub has_handle : Bool
  pub starting : Result Str (Unit {0})
  pub wake : Wake

pub record Lifecycle : Type 0 where
  pub log_handle : Bool
  pub ever_registered : Bool
  pub failure_counter : ℕ
  pub old_state : Option PodmanContainerState

abbrev pub is_first : Option PodmanContainerState → Bool
is_first none = true
is_first (some s) = false

-- `state_changed`
abbrev pub has_changed : Option PodmanContainerState → PodmanContainerState → Bool
has_changed none s = false
has_changed (some o) s = not (same_state o s)

abbrev pub was_running : Option PodmanContainerState → Bool
was_running (some running) = true
was_running _ = false

unfoldable pub announce : PodmanContainerState → Lifecycle → List Effect
announce s l =
    if is_first l.old_state || has_changed l.old_state s
    then send (state_change l.old_state s) ∷ []
    else []

-- The log stream is registered when the container enters `Running` and yields a handle.
unfoldable pub register : Turn → PodmanContainerState → Lifecycle → List Effect × Lifecycle
register t s l =
    let has_handle = l.log_handle || t.has_handle in
    if same_state s running && (is_first l.old_state || has_changed l.old_state s)
    then (if has_handle
        then (
          add_stream l.ever_registered ∷ [],
          record l { log_handle = true; ever_registered = true },
        )
        else ([], l))
    else ([], l)

-- A `u32` wraps around in a release build.
unfoldable pub increase_failures : Lifecycle → List Effect × Lifecycle
increase_failures l =
    let n = (l.failure_counter + 1) % 2 ^ 32 in
    (
      if n == 10 then send (failure_threshold_reached n) ∷ [] else [],
      record l { failure_counter = n },
    )

-- The outer loop's reaction to an error, and its fresh locals.
unfoldable pub fail : Str → List Effect → Lifecycle → List Effect × Lifecycle × Bool
fail e effects l =
    (effects ++ send (fatal_error e) ∷ [], record l { failure_counter = 0; old_state = none }, true)

abbrev pub failed : Result Str (Unit {0}) → List Effect
failed (ok u) = []
failed (err e) = send (fatal_error e) ∷ []

-- The `select!`, and whether the task goes on.
unfoldable pub await_change :
    Wake → PodmanContainerState → List Effect → Lifecycle → List Effect × Lifecycle × Bool
unfolding fail
await_change slept s effects l = (effects, record l { old_state = some s }, true)
await_change (waited (ok u)) s effects l = (effects, record l { old_state = some s }, true)
await_change (waited (err e)) s effects l = fail e effects l
await_change (deleted stopping destroying) s effects l = (
  effects ++ (stop ∷ (failed stopping ++ (destroy ∷ failed destroying))),
  record l { old_state = some s },
  false,
)

-- What the answer to the start leads to.
unfoldable pub started :
    Result Str (Unit {0}) → Turn → List Effect → Lifecycle → List Effect × Lifecycle × Bool
unfolding fail await_change
started (err e) t effects l = fail e effects l
started (ok u) t effects l = await_change t.wake stopped (effects ++ send attempting_start ∷ []) l

-- The start of a stopped container; the first one does not count as a failure.
unfoldable pub revive : Turn → List Effect → Lifecycle → List Effect × Lifecycle × Bool
unfolding increase_failures started
revive t effects l =
    let (counted, l') = if is_first l.old_state then ([], l) else increase_failures l in
    let surprise = if was_running l.old_state then send stopped_unexpectedly ∷ [] else [] in
    let before = effects ++ (counted ++ (surprise ++ (start ∷ []))) in
    started t.starting t before l'

unfoldable pub observe :
    Turn → PodmanContainerState → List Effect → Lifecycle → List Effect × Lifecycle × Bool
unfolding revive increase_failures await_change
observe t stopped effects l = revive t effects l
observe t ambiguous effects l =
    let (counted, l') = increase_failures l in await_change t.wake ambiguous (effects ++ counted) l'
observe t running effects l =
    await_change t.wake running effects
      (if has_changed l.old_state running then l else record l { failure_counter = 0 })

unfoldable pub queried :
    Result Str PodmanContainerState → Turn → Lifecycle → List Effect × Lifecycle × Bool
unfolding announce register observe fail
queried (err e) t l = fail e [] l
queried (ok s) t l = let (added, l') = register t s l in observe t s (announce s l ++ added) l'

-- The effects of the turn, the locals after it, and whether the task goes on.
unfoldable pub turn : Turn → Lifecycle → List Effect × Lifecycle × Bool
unfolding queried
turn t l = queried t.state t l

unfoldable pub run : List Turn → Lifecycle → List Effect × Bool
run [] l = ([], true)
run (t ∷ ts) l =
    let (effects, l', goes_on) = turn t l in
    let (later, end) = run ts l' in if goes_on then (effects ++ later, end) else (effects, false)

abbrev pub fresh : Lifecycle
fresh = record {
  log_handle = false;
  ever_registered = false;
  failure_counter = 0;
  old_state = none;
}
