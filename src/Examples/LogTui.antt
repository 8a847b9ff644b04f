-- ===== src/Examples/LogTui.antt =====
-- A session of the terminal interface.
use amos2026ss01_zero_downti.Prelude.{
  ℕ, ◌≡◌, refl, true, false, some, none, List, [], ◌∷◌, ◌++◌, arith, newest,
}
use amos2026ss01_zero_downti.Prelude.Text.{codes}
use amos2026ss01_zero_downti.Logs.{warn, error}
use amos2026ss01_zero_downti.Logs.Events.{LogEvent, of_device}
use amos2026ss01_zero_downti.LogTui.{App, Msg, MsgKind, down}
use amos2026ss01_zero_downti.LogTui.Draw.{draw_logs, all_rows, shown, draw_logs-shown}
use amos2026ss01_zero_downti.LogTui.Run.{Turn, Wake, open_app, run}
use amos2026ss01_zero_downti.LogTui.Steps.{running_after, IsLive}
use amos2026ss01_zero_downti.LogTui.Live.{left_over, run-streams}
use amos2026ss01_zero_downti.LogTui.Scrollback.{told_run, run-newest}

abbrev event : ℕ → LogEvent
event n =
    of_device record {
      id = n;
      time = n;
      device_id = 7;
      level = error;
      message = codes "disk";
      source = none;
    }

abbrev delivers : ℕ → ℕ → Msg
delivers epoch n = record { epoch = epoch; kind = MsgKind.log (event n) }

-- Each entry takes two rows.
abbrev render : LogEvent → ℕ → List ℕ
render e width = 1 ∷ width ∷ []

abbrev turn_of : Wake → Turn
turn_of wake = record { width = 80; height = 6; drawn = true; wake = wake }

-- The second message comes from the stream before the selection of a device.
abbrev session : List Turn
session =
    turn_of (Wake.messages (delivers 1 10) (delivers 1 11 ∷ []))
    ∷ turn_of (Wake.key down false)
    ∷ turn_of (Wake.messages (delivers 1 12) (delivers 2 13 ∷ []))
    ∷ []

abbrev opened : App
opened = (open_app (some warn) 2 none (7 ∷ 8 ∷ [])).0

run-streams_example :
    let r = run render session opened in
    (running_after ((open_app (some warn) 2 none (7 ∷ 8 ∷ [])).1 ++ r.1) [] ≡ left_over r.0 r.2)
    × (r.2 ≡ false → IsLive r.0)
run-streams_example = run-streams render (some warn) 2 none (7 ∷ 8 ∷ []) session

run-newest_example :
    (run render session opened).0.logs ≡ newest 2 (told_run render session opened [])
run-newest_example = run-newest render (some warn) 2 none (7 ∷ 8 ∷ []) session

session_logs : (run render session opened).0.logs ≡ event 11 ∷ event 13 ∷ []
unfolding run open_app
session_logs = refl

draw_logs-shown_example :
    draw_logs render 80 6 (record opened { logs = event 1 ∷ event 2 ∷ event 3 ∷ []; scroll = 9 })
    ≡ shown render 4
        (all_rows render 78 (event 1 ∷ event 2 ∷ event 3 ∷ []))
        (record opened { logs = event 1 ∷ event 2 ∷ event 3 ∷ []; scroll = 9 })
draw_logs-shown_example =
    draw_logs-shown render 80 6
      (record opened { logs = event 1 ∷ event 2 ∷ event 3 ∷ []; scroll = 9 }) (omega arith)
