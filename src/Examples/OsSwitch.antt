-- ===== src/Examples/OsSwitch.antt =====
-- Two cycles towards an immediate target, the first of which fails to pull it.
use amos2026ss01_zero_downti.Prelude.{
  ℕ, ◌≡◌, refl, true, false, some, none, List, [], ◌∷◌, ok, length, leb, if◌then◌else◌,
}
use amos2026ss01_zero_downti.Prelude.Text.{codes}
use amos2026ss01_zero_downti.OsSwitch.{World, State, OsEvent, switch_command, run}
use amos2026ss01_zero_downti.OsSwitch.Locking.{locks_first, run-locks_first}

abbrev code_of : List OsEvent → OsEvent → ℕ
code_of trace (switch_command i) = if leb (length trace) 4 then 1 else 0
code_of trace _ = 0

abbrev world : World
world = record {
  execute = λ trace e. ok (record { stdout = []; stderr = []; exit_code = some (code_of trace e) });
  parse = λ s. ok (record {
    booted = some (record { checksum = codes "old"; image_ref = none });
    staged = none;
  });
  target = λ trace. ok (record { id = 3; commit_hash = codes "new"; immediate = true });
  report = λ trace i. ok tt;
}

abbrev start : State
start = record {
  os = record {
    update_pending = false;
    booted_checksum = codes "old";
    booted_image_ref = none;
    staged_checksum = none;
    staged_image_ref = none;
    countdown_started = false;
  };
  trace = [];
}

run-locks_first_example : locks_first (run world (false ∷ false ∷ []) start).trace ≡ true
run-locks_first_example = run-locks_first world (false ∷ false ∷ []) start refl
