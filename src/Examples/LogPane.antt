-- ===== src/Examples/LogPane.antt =====
-- Entries as the log pane shows them.
use amos2026ss01_zero_downti.Prelude.{ℕ, ◌≡◌, refl, some, List, [], ◌∷◌}
use amos2026ss01_zero_downti.Prelude.Text.{codes}
use amos2026ss01_zero_downti.Logs.{warn}
use amos2026ss01_zero_downti.Logs.Events.{LogEvent, of_application}
use amos2026ss01_zero_downti.Podman.Decimal.{to_string, print}
use amos2026ss01_zero_downti.LogTui.Wrap.{
  Text, split_from, split_whitespace, place, place_all, wrap_text,
}
use amos2026ss01_zero_downti.LogTui.Wrap.Wraps.{IsWrapped, wrap_text-wraps}
use amos2026ss01_zero_downti.LogTui.Entry.{decode, render_entry}

abbrev text : Text
text = codes "hello  there everyone"

-- The word of eight characters is split.
wrapped :
    wrap_text text 5 6 ≡ some (codes "hello" ∷ codes "there" ∷ codes "everyo" ∷ codes "ne" ∷ [])
unfolding wrap_text split_whitespace split_from place_all place
wrapped = refl

packed : wrap_text (codes "a b c d e f") 5 5 ≡ some (codes "a b c" ∷ codes "d e f" ∷ [])
unfolding wrap_text split_whitespace split_from place_all place
packed = refl

no_text : wrap_text [] 8 8 ≡ some ([] ∷ [])
unfolding wrap_text split_whitespace split_from place_all
no_text = refl

wrap_text-wraps_example :
    (lines : List Text) × (wrap_text text 5 6 ≡ some lines) × IsWrapped text 5 6 lines
wrap_text-wraps_example = wrap_text-wraps text 5 6

abbrev noon : ℕ → Text
noon time = codes "12:00:00 "

abbrev event : LogEvent
event = of_application record {
  id = 1;
  time = 3;
  device_id = 7;
  application_id = 12;
  level = warn;
  message = codes "disk almost full";
  source = some (codes "stderr");
}

rendered :
    render_entry noon event 36
    ≡ codes "12:00:00 WARN  [dev 7/app 12] disk" ∷ codes "  almost full (stderr)" ∷ []
unfolding render_entry to_string print decode wrap_text split_whitespace split_from place_all place
rendered = refl
