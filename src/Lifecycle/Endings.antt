-- ===== src/Lifecycle/Endings.antt =====
-- When the loop of orchestrator/src/application.rs stops and destroys its container.
use amos2026ss01_zero_downti.Prelude.{
  ◌+◌, ◌%◌, ◌^◌, ◌||◌, ◌&&◌, ◌==◌, ◌≡◌, refl, ap, ◌∙◌, Bool, true, false, List, [], ◌∷◌, ◌++◌,
  Result, ok, err, if◌then◌else◌, Bool-cases, inl, inr,
}
use amos2026ss01_zero_downti.Prelude.Text.{Str}
use amos2026ss01_zero_downti.Lifecycle.{
  PodmanContainerState, fatal_error, stopped_unexpectedly, attempting_start, has_changed, is_first,
  was_running, same_state, running, stopped, ambiguous, Effect, send, add_stream, start, stop,
  destroy, Wake, slept, waited, deleted, Turn, Lifecycle, turn, run, started, queried, fail, failed,
  await_change, revive, observe, announce, register, increase_failures,
}

-- The calls that end the container.
abbrev pub endings : List Effect → List Effect
endings [] = []
endings (stop ∷ es) = stop ∷ endings es
endings (destroy ∷ es) = destroy ∷ endings es
endings (_ ∷ es) = endings es

endings-append : (a b : List Effect) → endings (a ++ b) ≡ endings a ++ endings b
endings-append [] b = refl
endings-append (stop ∷ a) b = ap (◌∷◌ stop) (endings-append a b)
endings-append (destroy ∷ a) b = ap (◌∷◌ destroy) (endings-append a b)
endings-append (send e ∷ a) b = endings-append a b
endings-append (add_stream f ∷ a) b = endings-append a b
endings-append (start ∷ a) b = endings-append a b

-- A task that goes on has ended nothing; one that returns has stopped and then destroyed.
abbrev Ended : List Effect × Lifecycle × Bool → Type 0
Ended r = endings r.0 ≡ (if r.2 then [] else stop ∷ destroy ∷ [])

endings-failed : (r : Result Str (Unit {0})) → endings (failed r) ≡ []
endings-failed (ok u) = refl
endings-failed (err e) = refl

last_calls :
    (a b : Result Str (Unit {0}))
    → endings (stop ∷ (failed a ++ destroy ∷ failed b)) ≡ stop ∷ destroy ∷ []
last_calls (ok u) (ok v) = refl
last_calls (ok u) (err e) = refl
last_calls (err e) (ok v) = refl
last_calls (err e) (err f) = refl

fail-Ended : (e : Str) (es : List Effect) (l : Lifecycle) → endings es ≡ [] → Ended (fail e es l)
unfolding fail
fail-Ended e es l h = rw (endings-append es (send (fatal_error e) ∷ []), h) refl

await_change-Ended :
    (w : Wake) (s : PodmanContainerState) (es : List Effect) (l : Lifecycle)
    → endings es ≡ []
    → Ended (await_change w s es l)
unfolding await_change
await_change-Ended slept s es l h = h
await_change-Ended (waited (ok u)) s es l h = h
await_change-Ended (waited (err e)) s es l h = fail-Ended e es l h
await_change-Ended (deleted a b) s es l h =
    endings-append es (stop ∷ (failed a ++ destroy ∷ failed b))
    ∙ ap (λ x. x ++ endings (stop ∷ (failed a ++ destroy ∷ failed b))) h
    ∙ last_calls a b

both : (a b : List Effect) → endings a ≡ [] → endings b ≡ [] → endings (a ++ b) ≡ []
both a b h k = rw (endings-append a b, h) k

increase_failures-endings : (l : Lifecycle) → endings (increase_failures l).0 ≡ []
unfolding increase_failures
increase_failures-endings l = elim (Bool-cases ((l.failure_counter + 1) % 2 ^ 32 == 10)) [
  | inl e ↦ rw e refl
  | inr e ↦ rw e refl
]

counted-endings :
    (b : Bool) (l : Lifecycle) → endings (if b then ([], l) else increase_failures l).0 ≡ []
counted-endings true l = refl
counted-endings false l = increase_failures-endings l

surprise-endings : (b : Bool) → endings (if b then send stopped_unexpectedly ∷ [] else []) ≡ []
surprise-endings true = refl
surprise-endings false = refl

announce-endings : (s : PodmanContainerState) (l : Lifecycle) → endings (announce s l) ≡ []
unfolding announce
announce-endings s l = elim (Bool-cases (is_first l.old_state || has_changed l.old_state s)) [
  | inl e ↦ rw e refl
  | inr e ↦ rw e refl
]

register-endings :
    (t : Turn) (s : PodmanContainerState) (l : Lifecycle) → endings (register t s l).0 ≡ []
unfolding register
register-endings t s l =
    elim (Bool-cases
      (same_state s running && (is_first l.old_state || has_changed l.old_state s))) [
        | inl e ↦ elim (Bool-cases (l.log_handle || t.has_handle)) [
          | inl f ↦ rw (e, f) refl
          | inr f ↦ rw (e, f) refl
        ]
        | inr e ↦ rw e refl
      ]

started-Ended :
    (r : Result Str (Unit {0})) (t : Turn) (es : List Effect) (l : Lifecycle)
    → endings es ≡ []
    → Ended (started r t es l)
unfolding started
started-Ended (err e) t es l h = fail-Ended e es l h
started-Ended (ok u) t es l h =
    await_change-Ended t.wake stopped (es ++ send attempting_start ∷ []) l
      (both es (send attempting_start ∷ []) h refl)

revive-Ended :
    (t : Turn) (es : List Effect) (l : Lifecycle) → endings es ≡ [] → Ended (revive t es l)
unfolding revive
revive-Ended t es l h = started-Ended t.starting t _ _ (
    both es _ h (
      both (if is_first l.old_state then ([], l) else increase_failures l).0 _
        (counted-endings (is_first l.old_state) l)
        (both (if was_running l.old_state then send stopped_unexpectedly ∷ [] else []) (start ∷ [])
          (surprise-endings (was_running l.old_state)) refl)))

observe-Ended :
    (t : Turn) (s : PodmanContainerState) (es : List Effect) (l : Lifecycle)
    → endings es ≡ []
    → Ended (observe t s es l)
unfolding observe
observe-Ended t stopped es l h = revive-Ended t es l h
observe-Ended t ambiguous es l h =
    await_change-Ended t.wake ambiguous (es ++ (increase_failures l).0) (increase_failures l).1
      (both es (increase_failures l).0 h (increase_failures-endings l))
observe-Ended t running es l h =
    await_change-Ended t.wake running es
      (if has_changed l.old_state running then l else record l { failure_counter = 0 }) h

turn-Ended : (t : Turn) (l : Lifecycle) → Ended (turn t l)
unfolding turn
turn-Ended t l = from t.state
  where
    from : (r : Result Str PodmanContainerState) → Ended (queried r t l)
    from (err e) = fail-Ended e [] l refl
    from (ok s) =
        observe-Ended t s (announce s l ++ (register t s l).0) (register t s l).1
          (both (announce s l) (register t s l).0 (announce-endings s l) (register-endings t s l))

pub run-endings :
    (ts : List Turn) (l : Lifecycle)
    → endings (run ts l).0 ≡ (if (run ts l).1 then [] else stop ∷ destroy ∷ [])
unfolding run
run-endings [] l = refl
run-endings (t ∷ ts) l = elim (Bool-cases (turn t l).2) [
  | inl e ↦ rw e (
      endings-append (turn t l).0 (run ts (turn t l).1).0
      ∙ ap (λ x. x ++ endings (run ts (turn t l).1).0)
          (turn-Ended t l ∙ ap (λ b. if b then [] else stop ∷ destroy ∷ []) e)
      ∙ run-endings ts (turn t l).1)
  | inr e ↦ rw e (turn-Ended t l ∙ ap (λ b. if b then [] else stop ∷ destroy ∷ []) e)
]
