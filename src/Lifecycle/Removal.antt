-- ===== src/Lifecycle/Removal.antt =====
-- What a requested removal does to the loop of orchestrator/src/application.rs.
use amos2026ss01_zero_downti.Prelude.{
  any, ◌&&◌, not, ◌≡◌, refl, ap, ◌∙◌, Bool, true, false, List, [], ◌∷◌, Result, ok, err,
  if◌then◌else◌, All, Bool-cases, inl, inr,
}
use amos2026ss01_zero_downti.Prelude.Text.{Str}
use amos2026ss01_zero_downti.Lifecycle.{
  slept, waited, Wake, PodmanContainerState, running, stopped, ambiguous, Effect, stop, destroy,
  deleted, Turn, Lifecycle, turn, run, started, queried, fail, await_change, revive, observe,
}
use amos2026ss01_zero_downti.Lifecycle.Endings.{endings, run-endings}

-- A turn that does not get to its `select!`: the query fails, or the container is stopped and does
-- not start.
abbrev pub is_stuck : Result Str PodmanContainerState → Result Str (Unit {0}) → Bool
is_stuck (err e) starting = true
is_stuck (ok stopped) (err e) = true
is_stuck _ _ = false

turn-stuck : (t : Turn) (l : Lifecycle) → is_stuck t.state t.starting ≡ true → (turn t l).2 ≡ true
unfolding turn queried observe revive started fail
turn-stuck t l = from t.state
  where
    given :
        (r : Result Str (Unit {0})) (es : List Effect) (k : Lifecycle)
        → is_stuck (ok stopped) r ≡ true
        → (started r t es k).2 ≡ true
    given (err e) es k h = refl
    given (ok u) es k h = cc

    from :
        (r : Result Str PodmanContainerState)
        → is_stuck r t.starting ≡ true
        → (queried r t l).2 ≡ true
    from (err e) h = refl
    from (ok stopped) h = given t.starting _ _ h
    from (ok running) h = cc
    from (ok ambiguous) h = cc

-- As long as every query fails or finds the container stopped and unable to start, the loop goes on
-- and neither stops nor destroys the container, whether or not its removal was asked for.
pub run-stuck :
    (ts : List Turn) (l : Lifecycle)
    → All (λ (t : Turn). is_stuck t.state t.starting ≡ true) ts
    → ((run ts l).1 ≡ true) × (endings (run ts l).0 ≡ [])
unfolding run
run-stuck ts l h =
    let goes_on = on ts l h in
    (goes_on, run-endings ts l ∙ ap (λ b. if b then [] else stop ∷ destroy ∷ []) goes_on)
  where
    on :
        (ts : List Turn) (l : Lifecycle)
        → All (λ (t : Turn). is_stuck t.state t.starting ≡ true) ts
        → (run ts l).1 ≡ true
    on [] l h = refl
    on (t ∷ ts) l h = rw (turn-stuck t l h.0) (on ts (turn t l).1 h.1)

abbrev is_deleted : Wake → Bool
is_deleted (deleted stopping destroying) = true
is_deleted _ = false

-- A turn that gets to its `select!`, and is woken there by the request of the removal.
abbrev pub takes_removal : Turn → Bool
takes_removal t = not (is_stuck t.state t.starting) && is_deleted t.wake

await_change-goes_on :
    (w : Wake) (s : PodmanContainerState) (es : List Effect) (l : Lifecycle)
    → (await_change w s es l).2 ≡ not (is_deleted w)
unfolding await_change fail
await_change-goes_on slept s es l = refl
await_change-goes_on (waited (ok u)) s es l = refl
await_change-goes_on (waited (err e)) s es l = refl
await_change-goes_on (deleted a b) s es l = refl

turn-goes_on : (t : Turn) (l : Lifecycle) → (turn t l).2 ≡ not (takes_removal t)
unfolding turn queried observe revive started fail
turn-goes_on t l = from t.state
  where
    given :
        (r : Result Str (Unit {0})) (es : List Effect) (k : Lifecycle)
        → (started r t es k).2 ≡ not (not (is_stuck (ok stopped) r) && is_deleted t.wake)
    given (err e) es k = refl
    given (ok u) es k = await_change-goes_on t.wake stopped _ k

    from :
        (r : Result Str PodmanContainerState)
        → (queried r t l).2 ≡ not (not (is_stuck r t.starting) && is_deleted t.wake)
    from (err e) = refl
    from (ok stopped) = given t.starting _ _
    from (ok running) = await_change-goes_on t.wake running _ _
    from (ok ambiguous) = await_change-goes_on t.wake ambiguous _ _

-- The loop returns exactly if some turn gets to its `select!` and is woken there by the request of
-- the removal, whatever the other turns are and whatever stopping and destroying answer; it has then
-- stopped and destroyed the container once, and otherwise neither.
pub run-returns :
    (ts : List Turn) (l : Lifecycle)
    → ((run ts l).1 ≡ not (any takes_removal ts))
      × (endings (run ts l).0 ≡ (if any takes_removal ts then stop ∷ destroy ∷ [] else []))
unfolding run
run-returns ts l =
    (goes_on ts l, run-endings ts l ∙ rw (goes_on ts l) (other (any takes_removal ts)))
  where
    other :
        (b : Bool)
        → ◌≡◌ {A = List Effect}
            (if not b then [] else stop ∷ destroy ∷ [])
            (if b then stop ∷ destroy ∷ [] else [])
    other true = refl
    other false = refl

    goes_on : (ts : List Turn) (l : Lifecycle) → (run ts l).1 ≡ not (any takes_removal ts)
    goes_on [] l = refl
    goes_on (t ∷ ts) l = elim (Bool-cases (takes_removal t)) [
      | inl e ↦ let ends : (turn t l).2 ≡ false = turn-goes_on t l ∙ ap not e in rw (ends, e) refl
      | inr e ↦
          let stays : (turn t l).2 ≡ true = turn-goes_on t l ∙ ap not e in
          rw (stays, e) (goes_on ts (turn t l).1)
    ]
