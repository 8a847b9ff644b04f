-- ===== src/Examples/Reconcile.antt =====
-- A merge of two running applications into two targets.
use amos2026ss01_zero_downti.Prelude.{ℕ, ◌≡◌, refl, some, none, List, [], ◌∷◌, map, ok}
use amos2026ss01_zero_downti.Prelude.Text.{Str, codes, str_cmp}
use mathlib.Core.List.{Perm}
use amos2026ss01_zero_downti.Reconcile.{Application, TargetApp, without_tag}
use amos2026ss01_zero_downti.Reconcile.Update.{
  World, State, merge_into_apps, sort_apps, sort_targets,
}
use amos2026ss01_zero_downti.Reconcile.Vec.{sort_by}
use amos2026ss01_zero_downti.Reconcile.Ends.{Ends}
use amos2026ss01_zero_downti.Reconcile.Converge.{app_info, target_info}
use amos2026ss01_zero_downti.Reconcile.Merge.{merge_into_apps-converges}
use amos2026ss01_zero_downti.Reconcile.Settled.{merge_into_apps_settled}

-- Everything succeeds.
abbrev world : World
world = record { targets = λ h. ok []; image = λ h s. ok none; answer = λ h c. ok tt }

abbrev running : Str → ℕ → Application
running reference config = record {
  image_reference = reference;
  image_digest = codes "d1";
  application_id = config;
  application_config_id = some config;
}

abbrev wanted : Str → Str → ℕ → TargetApp
wanted reference digest config = record {
  image = record { id = codes "i"; reference = reference; digest = digest };
  name = codes "n";
  config = none;
  application_id = config;
  application_config_id = config;
}

abbrev start : State
start = record { apps = running (codes "b:1") 2 ∷ running (codes "a:1") 1 ∷ []; calls = [] }

-- `a` is updated, `b` is removed and `c` is created.
abbrev targets : List TargetApp
targets = wanted (codes "c:1") (codes "d1") 3 ∷ wanted (codes "a:2") (codes "d2") 1 ∷ []

merge_into_apps-converges_example :
    Ends world
      (merge_into_apps world targets)
      start
      (λ _ apps. Perm (map app_info apps) (map target_info targets))
merge_into_apps-converges_example = merge_into_apps-converges world targets start

abbrev same_targets : List TargetApp
same_targets = wanted (codes "b:1") (codes "d1") 2 ∷ wanted (codes "a:1") (codes "d1") 1 ∷ []

same : map app_info (sort_apps start.apps) ≡ map target_info (sort_targets same_targets)
unfolding sort_apps sort_targets without_tag str_cmp sort_by
same = refl

merge_into_apps_settled_example :
    merge_into_apps world same_targets start ≡ (ok tt, record start { apps = sort_apps start.apps })
merge_into_apps_settled_example = merge_into_apps_settled world same_targets start same
