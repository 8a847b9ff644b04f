-- ===== src/Examples/Lifecycle.antt =====
-- Runs of the lifecycle loop.
use amos2026ss01_zero_downti.Prelude.{◌≡◌, refl, true, false, List, [], ◌∷◌, ok, err}
use amos2026ss01_zero_downti.Prelude.Text.{codes}
use amos2026ss01_zero_downti.Lifecycle.{
  running, stopped, stop, destroy, slept, deleted, waited, Turn, run, fresh, Wake,
}
use amos2026ss01_zero_downti.Lifecycle.Endings.{endings}
use amos2026ss01_zero_downti.Lifecycle.Removal.{run-stuck, run-returns}

abbrev runs_until : Wake → Turn
runs_until wake = record { state = ok running; has_handle = true; starting = ok tt; wake = wake }

-- The image of the container has no such command.
abbrev does_not_start : Turn
does_not_start = record {
  state = ok stopped;
  has_handle = false;
  starting = err (codes "exec");
  wake = deleted (ok tt) (ok tt);
}

abbrev life : List Turn
life = runs_until (waited (ok tt)) ∷ runs_until (deleted (err (codes "late")) (ok tt)) ∷ []

run-stuck_example :
    ((run (does_not_start ∷ does_not_start ∷ []) fresh).1 ≡ true)
    × (endings (run (does_not_start ∷ does_not_start ∷ []) fresh).0 ≡ [])
run-stuck_example = run-stuck (does_not_start ∷ does_not_start ∷ []) fresh (refl, (refl, tt))

-- The first request finds the container unable to start.
abbrev ends_late : List Turn
ends_late = does_not_start ∷ runs_until slept ∷ runs_until (deleted (ok tt) (ok tt)) ∷ []

run-returns_example :
    ((run ends_late fresh).1 ≡ false) × (endings (run ends_late fresh).0 ≡ stop ∷ destroy ∷ [])
run-returns_example = run-returns ends_late fresh
