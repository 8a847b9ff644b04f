-- ===== src/OsSwitch.antt =====
-- orchestrator/src/loop_os.rs (`try_switch`, one cycle of the loop, and the deferred timer) over
-- orchestrator/src/util/bootc_wrapper.rs. What commands, the API and the JSON parser answer is a
-- parameter, a function of all that was done before.
pub mod Locking
use amos2026ss01_zero_downti.Prelude.{
  ℕ, Bool, true, false, not, ◌&&◌, ◌||◌, Option, some, none, List, [], ◌∷◌, ◌++◌, Result, ok, err,
  is_num, if◌then◌else◌,
}
use amos2026ss01_zero_downti.Prelude.Text.{Str, str_eq, codes}

-- The part of a deployment that the loop reads: its checksum and, if it has an image, its reference.
pub record BootcDeploymentInfo : Type 0 where
  pub checksum : Str
  pub image_ref : Option Str

pub record BootcStatus : Type 0 where
  pub booted : Option BootcDeploymentInfo
  pub staged : Option BootcDeploymentInfo

pub record ExecResult : Type 0 where
  pub stdout : Str
  pub stderr : Str
  pub exit_code : Option ℕ

pub record TargetOsVersion : Type 0 where
  pub id : ℕ
  pub commit_hash : Str
  pub immediate : Bool

pub record OsState : Type 0 where
  pub update_pending : Bool
  pub booted_checksum : Str
  pub booted_image_ref : Option Str
  pub staged_checksum : Option Str
  pub staged_image_ref : Option Str
  pub countdown_started : Bool

-- What is done: commands under `sudo bootc`, API calls, and the stores to `os_switch_in_progress`.
pub data OsEvent : Type 0 where
  status_command apply_command : OsEvent
  switch_command : Str → OsEvent
  get_target : OsEvent
  report_current : ℕ → OsEvent
  lock spawn_timer : OsEvent

pub record World : Type 0 where
  pub execute : List OsEvent → OsEvent → Result Str ExecResult
  pub parse : Str → Result Str BootcStatus
  pub target : List OsEvent → Result Str TargetOsVersion
  pub report : List OsEvent → ℕ → Result Str (Unit {0})

pub record State : Type 0 where
  pub os : OsState
  pub trace : List OsEvent

abbrev pub Cycle : Type 0 → Type 0
Cycle A = State → Result Str A × State

module _ {A B : Type 0} where
  abbrev pub then_with : Result Str A × State → (A → Cycle B) → Result Str B × State
  then_with (ok a, s) f = f a s
  then_with (err e, s) f = (err e, s)

  infixl 5 ◌>>=◌ ◌>>◌
  abbrev pub ◌>>=◌ : Cycle A → (A → Cycle B) → Cycle B
  ◌>>=◌ m f s = then_with (m s) f

  abbrev pub ◌>>◌ : Cycle A → Cycle B → Cycle B
  m >> k = m >>= λ _. k

abbrev pub done : Cycle (Unit {0})
done s = (ok tt, s)

abbrev pub note : OsEvent → Cycle (Unit {0})
note e s = (ok tt, record s { trace = s.trace ++ e ∷ [] })

abbrev pub image_of : Option BootcDeploymentInfo → Option Str
image_of none = none
image_of (some d) = d.image_ref

abbrev pub checksum_of : Option BootcDeploymentInfo → Option Str
checksum_of none = none
checksum_of (some d) = some d.checksum

abbrev pub is_there : Option BootcDeploymentInfo → Bool
is_there none = false
is_there (some d) = true

-- `o.as_deref() == Some(s)`
abbrev pub is_text : Option Str → Str → Bool
is_text none s = false
is_text (some t) s = str_eq t s

-- `OsState::new`, with the countdown that `try_switch` puts back.
unfoldable pub new_state : Bool → BootcStatus → Option OsState
new_state countdown status = elim status.booted [
  | none ↦ none
  | some b ↦ some (record {
    update_pending = is_there status.staged;
    booted_checksum = b.checksum;
    booted_image_ref = b.image_ref;
    staged_checksum = checksum_of status.staged;
    staged_image_ref = image_of status.staged;
    countdown_started = countdown;
  })
]

unfoldable pub is_up_to_date : OsState → TargetOsVersion → Bool
is_up_to_date os t =
    str_eq os.booted_checksum t.commit_hash || is_text os.booted_image_ref t.commit_hash

unfoldable pub is_target_staged : OsState → TargetOsVersion → Bool
is_target_staged os t =
    is_text os.staged_checksum t.commit_hash || is_text os.staged_image_ref t.commit_hash

unfoldable pub handle_exit_code : Option ℕ → Result Str (Unit {0})
handle_exit_code code =
    if is_num code 0 || is_num code 137 then ok tt else err (codes "Command failed with exit code")

abbrev pub start_countdown : Cycle (Unit {0})
start_countdown s = (ok tt, record s { os = record s.os { countdown_started = true } })

abbrev pub set_state : OsState → Cycle (Unit {0})
set_state os s = (ok tt, record s { os = os })

module _ (w : World) where
  unfoldable pub run_bootc_root : OsEvent → Cycle ExecResult
  run_bootc_root e s = (w.execute s.trace e, record s { trace = s.trace ++ e ∷ [] })

  abbrev pub parsed : ExecResult → Cycle BootcStatus
  parsed r s = (if is_num r.exit_code 0 then w.parse r.stdout else err r.stderr, s)

  unfoldable pub status : Cycle BootcStatus
  unfolding run_bootc_root
  status = do r ← run_bootc_root status_command; parsed r

  abbrev pub switched : ExecResult → Cycle (Unit {0})
  switched r s = (if is_num r.exit_code 0 then ok tt else err r.stderr, s)

  unfoldable pub switch : Str → Cycle (Unit {0})
  unfolding run_bootc_root
  switch image = do r ← run_bootc_root (switch_command image); switched r

  abbrev pub applied : ExecResult → Cycle (Unit {0})
  applied r s = (handle_exit_code r.exit_code, s)

  unfoldable pub apply : Cycle (Unit {0})
  unfolding run_bootc_root
  apply = do r ← run_bootc_root apply_command; applied r

  unfoldable pub get_target_os_version : Cycle TargetOsVersion
  get_target_os_version s = (w.target s.trace, record s { trace = s.trace ++ get_target ∷ [] })

  unfoldable pub report_current_os_assignment : ℕ → Cycle (Unit {0})
  report_current_os_assignment i s =
      (w.report s.trace i, record s { trace = s.trace ++ report_current i ∷ [] })

  unfoldable pub switch_immediately : Str → Cycle (Unit {0})
  switch_immediately image = do note lock; switch image; apply

  unfoldable pub stage : Str → Cycle (Unit {0})
  stage image = do switch image; start_countdown; b_state ← status; note spawn_timer

  unfoldable pub towards : TargetOsVersion → OsState → Cycle (Unit {0})
  towards t os =
      if is_up_to_date os t
      then report_current_os_assignment t.id
      else if is_target_staged os t
      then (if t.immediate then note lock >> apply else done)
      else if t.immediate
      then switch_immediately t.commit_hash
      else stage t.commit_hash

  unfoldable pub with_state : Option OsState → Cycle (Unit {0})
  with_state none = done
  with_state (some os) = do set_state os; t ← get_target_os_version; towards t os

  unfoldable pub try_switch : Cycle (Unit {0})
  try_switch s = then_with (status s) (λ b. with_state (new_state s.os.countdown_started b))

  -- What the deferred timer does when it fires.
  unfoldable pub fire_timer : Cycle (Unit {0})
  fire_timer = do note lock; apply

  -- The cycles of `run_os_main_loop` and the timers between them; an error ends its cycle only.
  unfoldable pub run : List Bool → State → State
  run [] s = s
  run (true ∷ steps) s = run steps (fire_timer s).1
  run (false ∷ steps) s = run steps (try_switch s).1
