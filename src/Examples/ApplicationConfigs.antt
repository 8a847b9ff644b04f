-- ===== src/Examples/ApplicationConfigs.antt =====
-- The configs of a device whose own config was deleted.
use amos2026ss01_zero_downti.Prelude.{
  ℕ, ◌≡◌, refl, false, Option, some, none, List, [], ◌∷◌, Memᴰ, Result, ok, true,
}
use amos2026ss01_zero_downti.Prelude.Text.{codes}
use amos2026ss01_zero_downti.Reconcile.Vec.{sort_by}
use amos2026ss01_zero_downti.Db.Table.{DbErr}
use amos2026ss01_zero_downti.Db.ApplicationConfigs.{
  ApplicationConfig, ActiveModel, Stores, id_of, ApplicationConfigs, of_device, insert_all,
  effective, list_application_configs_for_device,
}
use amos2026ss01_zero_downti.Db.ApplicationConfigs.Effective.{
  list_application_configs_for_device-own,
}
use amos2026ss01_zero_downti.Logs.Registry.{insert}
use amos2026ss01_zero_downti.Examples.Memory.{memory}

abbrev pub inserted : ActiveModel → ℕ → ApplicationConfig
inserted a i = record {
  id = i;
  device_id = a.device_id;
  group_id = a.group_id;
  application_id = a.application_id;
  image = a.image;
  config_version = a.config_version;
  config = a.config;
  version = a.version;
  deleted_at = none;
  superseded_by = none;
}

abbrev pub table : ApplicationConfigs
table =
    memory Stores id_of inserted (λ a i. refl)
      (λ a i. (refl, refl, refl, refl, refl, refl, refl, refl, refl)) (λ a c. false)

abbrev pub row : ℕ → Option ℕ → Option ℕ → Option ℕ → ApplicationConfig
row i device group deleted = record {
  id = i;
  device_id = device;
  group_id = group;
  application_id = 5;
  image = codes "a";
  config_version = 1;
  config = none;
  version = 1;
  deleted_at = deleted;
  superseded_by = none;
}

abbrev configured : List ApplicationConfig
configured = row 1 (some 7) none (some 400) ∷ row 2 none (some 3) none ∷ []

abbrev group_of : ℕ → List ApplicationConfig → Result DbErr (Option ℕ)
group_of d c = ok (some 3)

abbrev served : List ApplicationConfig
served = row 1 (some 7) none (some 400) ∷ []

listed : list_application_configs_for_device table group_of 7 configured ≡ (ok served, configured)
unfolding list_application_configs_for_device effective insert_all insert sort_by
listed = refl

list_application_configs_for_device-own_example :
    (w : ApplicationConfig) × Memᴰ w served × (w.application_id ≡ 5) × (of_device 7 w ≡ true)
list_application_configs_for_device-own_example =
    list_application_configs_for_device-own table group_of 7 configured configured served
      (row 1 (some 7) none (some 400)) listed (Memᴰ.head refl) refl
