-- ===== src/Examples/DeviceRoutes.antt =====
-- What a device is told to run.
use amos2026ss01_zero_downti.Prelude.{
  ℕ, ◌≡◌, refl, true, false, some, none, List, [], ◌∷◌, Memᴰ, ok, err,
}
use amos2026ss01_zero_downti.Prelude.Text.{codes}
use amos2026ss01_zero_downti.Routes.{internal_server_error}
use amos2026ss01_zero_downti.Db.Table.{find_one}
use amos2026ss01_zero_downti.Db.Assignments.{stands_before}
use amos2026ss01_zero_downti.Db.OsAssignments.{
  OsAssignment, for_device, list_os_assignments_for_device,
}
use amos2026ss01_zero_downti.Db.OsVersions.{
  OsVersion, OsVersions, ActiveModel, Stores, id_of, is_active, get_os_version, update_os_version,
}
use amos2026ss01_zero_downti.Db.ApplicationAssignments.{
  for_device as is_for, ApplicationAssignment, deduplicate, application_of, paginate,
  list_application_assignments_for_device,
}
use amos2026ss01_zero_downti.Db.ApplicationConfigs.{
  is_active as is_active_config, ApplicationConfig, get_application_config,
}
use amos2026ss01_zero_downti.DeviceRoutes.{OsResponse, get_os, configs_of, get_apps}
use amos2026ss01_zero_downti.DeviceRoutes.Os.{get_os-assigned, get_os-superseded}
use amos2026ss01_zero_downti.DeviceRoutes.Apps.{get_apps-assigned}
use amos2026ss01_zero_downti.Examples.Memory.{memory}
use amos2026ss01_zero_downti.Examples.OsAssignments.{plain, two_rows, row}
use amos2026ss01_zero_downti.Examples.ApplicationAssignments.{
  table as assignments, configs, assigned,
}
use amos2026ss01_zero_downti.Examples.ApplicationConfigs.{table as app_configs, row as config_row}

abbrev inserted : ActiveModel → ℕ → OsVersion
inserted a i = record {
  id = i;
  commit_hash = a.commit_hash;
  orchestrator_version = a.orchestrator_version;
  description = a.description;
  deleted_at = none;
  superseded_by = none;
}

abbrev pub versions : OsVersions
versions =
    memory Stores id_of inserted (λ a i. refl) (λ a i. (refl, refl, refl, refl, refl))
      (λ a c. false)

abbrev pub columns : ActiveModel
columns = record {
  commit_hash = codes "cafe";
  orchestrator_version = codes "2";
  description = none;
}

abbrev pub version_70 : OsVersion
version_70 = inserted columns 70

abbrev pub response : OsResponse
response = record { id = 70; commit_hash = codes "cafe"; immediate = false }

told : get_os versions plain false 7 (some 3) two_rows (version_70 ∷ []) ≡ ok response
unfolding get_os list_os_assignments_for_device stands_before get_os_version find_one
told = refl

get_os-assigned_example :
    (a : OsAssignment) × (os : OsVersion) × Memᴰ a two_rows
    × (for_device 7 (some 3) none a ≡ true)
    × Memᴰ os (version_70 ∷ [])
    × (is_active os ≡ true)
    × (os.id ≡ a.os_version_id)
    × (response ≡ record { id = os.id; commit_hash = os.commit_hash; immediate = a.immediate })
get_os-assigned_example =
    get_os-assigned versions plain false 7 (some 3) two_rows (version_70 ∷ []) response told

abbrev version_71 : OsVersion
version_71 = inserted columns 71

abbrev updated : List OsVersion
updated =
    record {
      id = 70;
      commit_hash = codes "cafe";
      orchestrator_version = codes "2";
      description = none;
      deleted_at = none;
      superseded_by = some 71;
    }
    ∷ version_71
    ∷ []

updated_run : update_os_version versions 70 columns (version_70 ∷ []) ≡ (ok version_71, updated)
unfolding update_os_version find_one
updated_run = refl

listed_run :
    (list_os_assignments_for_device plain false 7 (some 3) none two_rows).0
    ≡ ok (row 1 (some 7) none ∷ [], 1)
unfolding list_os_assignments_for_device stands_before
listed_run = refl

get_os-superseded_example :
    get_os versions plain false 7 (some 3) two_rows updated ≡ err internal_server_error
get_os-superseded_example =
    get_os-superseded versions plain false 7 (some 3) two_rows (version_70 ∷ []) updated
      (row 1 (some 7) none) [] 1 columns version_71 listed_run updated_run

abbrev config_20 : ApplicationConfig
config_20 = config_row 20 (some 7) none none

abbrev given : List ApplicationConfig
given = config_20 ∷ []

given_run :
    get_apps app_configs assignments configs false 7 (some 3) assigned (config_20 ∷ []) ≡ ok given
unfolding get_apps list_application_assignments_for_device stands_before deduplicate application_of
    paginate configs_of get_application_config find_one
given_run = refl

get_apps-assigned_example :
    Memᴰ config_20 given
    × (is_active_config config_20 ≡ true)
    × ((a : ApplicationAssignment) × Memᴰ a assigned
        × (is_for 7 (some 3) none a ≡ true)
        × (a.application_config_id ≡ 20))
get_apps-assigned_example =
    get_apps-assigned app_configs assignments configs false 7 (some 3) assigned (config_20 ∷ [])
      given given_run config_20 (Memᴰ.head refl)
