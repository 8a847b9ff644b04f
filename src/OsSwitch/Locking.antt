-- ===== src/OsSwitch/Locking.antt =====
-- When the application loop is locked (orchestrator/src/loop_os.rs).
use amos2026ss01_zero_downti.Prelude.{
  ◌≡◌, refl, Bool, true, false, Option, some, none, List, [], ◌∷◌, ◌++◌, Result, ok, err,
  Bool-cases, inl, inr,
}
use amos2026ss01_zero_downti.Prelude.Text.{Str}
use amos2026ss01_zero_downti.OsSwitch.{
  OsEvent, status_command, apply_command, switch_command, get_target, report_current, lock,
  spawn_timer, World, State, OsState, TargetOsVersion, Cycle, then_with, status, switch, apply,
  stage, towards, with_state, try_switch, fire_timer, run, switch_immediately, run_bootc_root,
  report_current_os_assignment, get_target_os_version, new_state, is_up_to_date, is_target_staged,
  switched, parsed, applied,
}

-- `os_switch_in_progress` after a trace.
abbrev pub is_locked : List OsEvent → Bool
is_locked [] = false
is_locked (lock ∷ es) = true
is_locked (_ ∷ es) = is_locked es

-- No command to reboot is given before the lock.
abbrev pub locks_first : List OsEvent → Bool
locks_first [] = true
locks_first (lock ∷ es) = true
locks_first (apply_command ∷ es) = false
locks_first (_ ∷ es) = locks_first es

abbrev is_reboot : OsEvent → Bool
is_reboot apply_command = true
is_reboot _ = false

abbrev Safe : State → Type 0
Safe s = locks_first s.trace ≡ true

abbrev Ready : State → Type 0
Ready s = (is_locked s.trace ≡ true) × (locks_first s.trace ≡ true)

-- Once locked, any event may follow.
ready_end :
    (es : List OsEvent) (e : OsEvent)
    → is_locked es ≡ true
    → locks_first es ≡ true
    → (is_locked (es ++ e ∷ []) ≡ true) × (locks_first (es ++ e ∷ []) ≡ true)
ready_end [] e h k = cc
ready_end (lock ∷ es) e h k = (refl, refl)
ready_end (apply_command ∷ es) e h k = cc
ready_end (status_command ∷ es) e h k = ready_end es e h k
ready_end (switch_command i ∷ es) e h k = ready_end es e h k
ready_end (get_target ∷ es) e h k = ready_end es e h k
ready_end (report_current i ∷ es) e h k = ready_end es e h k
ready_end (spawn_timer ∷ es) e h k = ready_end es e h k

lock_end :
    (es : List OsEvent)
    → locks_first es ≡ true
    → (is_locked (es ++ lock ∷ []) ≡ true) × (locks_first (es ++ lock ∷ []) ≡ true)
lock_end [] k = (refl, refl)
lock_end (lock ∷ es) k = (refl, refl)
lock_end (apply_command ∷ es) k = cc
lock_end (status_command ∷ es) k = lock_end es k
lock_end (switch_command i ∷ es) k = lock_end es k
lock_end (get_target ∷ es) k = lock_end es k
lock_end (report_current i ∷ es) k = lock_end es k
lock_end (spawn_timer ∷ es) k = lock_end es k

safe_end :
    (es : List OsEvent) (e : OsEvent)
    → is_reboot e ≡ false
    → locks_first es ≡ true
    → locks_first (es ++ e ∷ []) ≡ true
safe_end [] status_command h k = refl
safe_end [] apply_command h k = cc
safe_end [] (switch_command i) h k = refl
safe_end [] get_target h k = refl
safe_end [] (report_current i) h k = refl
safe_end [] lock h k = refl
safe_end [] spawn_timer h k = refl
safe_end (lock ∷ es) e h k = refl
safe_end (apply_command ∷ es) e h k = cc
safe_end (status_command ∷ es) e h k = safe_end es e h k
safe_end (switch_command i ∷ es) e h k = safe_end es e h k
safe_end (get_target ∷ es) e h k = safe_end es e h k
safe_end (report_current i ∷ es) e h k = safe_end es e h k
safe_end (spawn_timer ∷ es) e h k = safe_end es e h k

-- Whether the run succeeds or not, it keeps `P`.
abbrev Keeps : (State → Type 0) → {A : Type 0} → Cycle A → Type 0
Keeps P m = (s : State) → P s → P (m s).1

went_on :
    {A B : Type 0} (P : State → Type 0) (r : Result Str A × State) (f : A → Cycle B)
    → P r.1
    → ((a : A) → Keeps P (f a))
    → P (then_with r f).1
went_on P (ok a, s) f h k = k a s h
went_on P (err e, s) f h k = h

module _ (w : World) where
  status-Safe : Keeps Safe (status w)
  unfolding status run_bootc_root
  status-Safe s h =
      went_on Safe (run_bootc_root w status_command s) (parsed w)
        (safe_end s.trace status_command refl h) (λ r s h. h)

  switch-Safe : (i : Str) → Keeps Safe (switch w i)
  unfolding switch run_bootc_root
  switch-Safe i s h =
      went_on Safe (run_bootc_root w (switch_command i) s) (switched w)
        (safe_end s.trace (switch_command i) refl h) (λ r s h. h)

  switch-Ready : (i : Str) → Keeps Ready (switch w i)
  unfolding switch run_bootc_root
  switch-Ready i s h =
      went_on Ready (run_bootc_root w (switch_command i) s) (switched w)
        (ready_end s.trace (switch_command i) h.0 h.1) (λ r s h. h)

  apply-Ready : Keeps Ready (apply w)
  unfolding apply run_bootc_root
  apply-Ready s h =
      went_on Ready (run_bootc_root w apply_command s) (applied w)
        (ready_end s.trace apply_command h.0 h.1) (λ r s h. h)

  fire_timer-Safe : Keeps Safe (fire_timer w)
  unfolding fire_timer
  fire_timer-Safe s h =
      (apply-Ready (record s { trace = s.trace ++ lock ∷ [] }) (lock_end s.trace h)).1

  switch_immediately-Safe : (i : Str) → Keeps Safe (switch_immediately w i)
  unfolding switch_immediately
  switch_immediately-Safe i s h =
      let s' : State = record s { trace = s.trace ++ lock ∷ [] } in
      (went_on Ready (switch w i s') (λ u. apply w) (switch-Ready i s' (lock_end s.trace h))
        (λ u. apply-Ready)).1

  stage-Safe : (i : Str) → Keeps Safe (stage w i)
  unfolding stage
  stage-Safe i s h = went_on Safe (switch w i s) _ (switch-Safe i s h) (λ u s h.
      went_on Safe (status w _) _ (status-Safe _ h) (λ b s h. safe_end s.trace spawn_timer refl h))

  towards-Safe : (t : TargetOsVersion) (os : OsState) → Keeps Safe (towards w t os)
  unfolding towards report_current_os_assignment
  towards-Safe t os s h = elim (Bool-cases (is_up_to_date os t)) [
    | inl e ↦ rw e (safe_end s.trace (report_current t.id) refl h)
    | inr e ↦ elim (Bool-cases (is_target_staged os t)) [
      | inl f ↦ elim (Bool-cases t.immediate) [
        | inl g ↦
            rw (e, f, g)
              (apply-Ready (record s { trace = s.trace ++ lock ∷ [] }) (lock_end s.trace h)).1
        | inr g ↦ rw (e, f, g) h
      ]
      | inr f ↦ elim (Bool-cases t.immediate) [
        | inl g ↦ rw (e, f, g) (switch_immediately-Safe t.commit_hash s h)
        | inr g ↦ rw (e, f, g) (stage-Safe t.commit_hash s h)
      ]
    ]
  ]

  with_state-Safe : (o : Option OsState) → Keeps Safe (with_state w o)
  unfolding with_state get_target_os_version
  with_state-Safe none s h = h
  with_state-Safe (some os) s h =
      let s' : State = record s { os = os } in
      went_on Safe (get_target_os_version w s') (λ t. towards w t os)
        (safe_end s.trace get_target refl h) (λ t. towards-Safe t os)

  try_switch-Safe : Keeps Safe (try_switch w)
  unfolding try_switch
  try_switch-Safe s h =
      went_on Safe (status w s) _ (status-Safe s h)
        (λ b. with_state-Safe (new_state s.os.countdown_started b))

  -- Over all cycles and timers, whatever fails, the application loop is locked before the first
  -- command that reboots the device.
  pub run-locks_first :
      (steps : List Bool) (s : State)
      → locks_first s.trace ≡ true
      → locks_first (run w steps s).trace ≡ true
  unfolding run
  run-locks_first [] s h = h
  run-locks_first (true ∷ steps) s h =
      run-locks_first steps (fire_timer w s).1 (fire_timer-Safe s h)
  run-locks_first (false ∷ steps) s h =
      run-locks_first steps (try_switch w s).1 (try_switch-Safe s h)
