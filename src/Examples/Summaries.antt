-- ===== src/Examples/Summaries.antt =====
-- The summaries of two devices.
use amos2026ss01_zero_downti.Prelude.{
  ℕ, ◌≡◌, refl, Bool, true, Option, some, none, List, [], ◌∷◌, map, ok,
}
use amos2026ss01_zero_downti.Prelude.Text.{Str, codes}
use amos2026ss01_zero_downti.Db.Keyed.{paginated}
use amos2026ss01_zero_downti.Db.Devices.{Device}
use amos2026ss01_zero_downti.Db.OsVersions.{OsVersion}
use amos2026ss01_zero_downti.Db.ApplicationConfigs.{ApplicationConfig}
use amos2026ss01_zero_downti.Db.ReportedAssignments.{Report}
use amos2026ss01_zero_downti.Crud.Applications.{Application}
use amos2026ss01_zero_downti.Crud.Tenants.{Tenant}
use amos2026ss01_zero_downti.Crud.Devices.{DeviceQuery}
use amos2026ss01_zero_downti.Crud.Summaries.{Related, assemble_device_summary}
use amos2026ss01_zero_downti.Crud.Summaries.Described.{described, assemble_device_summary-described}
use amos2026ss01_zero_downti.Examples.Auth.{in_memory, pump}
use amos2026ss01_zero_downti.Examples.DeviceRoutes.{version_70}

abbrev valve : Device
valve = record pump { id = 5; group_id = none }

abbrev report : ℕ → ℕ → Report
report id device = record { id = id; device_id = device; reported_id = 70; updated_at = 100 }

abbrev camera : Application
camera = record { id = 9; name = codes "camera"; description = [] }

abbrev config : ApplicationConfig
config = record {
  id = 70;
  device_id = none;
  group_id = none;
  application_id = 9;
  image = codes "camera:1";
  config_version = 1;
  config = none;
  version = 1;
  deleted_at = none;
  superseded_by = none;
}

abbrev owner : Tenant
owner = record { id = 1; name = codes "city"; description = none }

abbrev os_rows : List (Report × Option OsVersion)
os_rows = (report 1 5, some version_70) ∷ (report 2 4, none) ∷ []

abbrev app_rows : List (Report × Option ApplicationConfig)
app_rows = (report 3 5, some config) ∷ (report 4 4, some config) ∷ (report 5 5, none) ∷ []

abbrev others : Related (List Device)
others = record {
  reported_os = λ p c. ok os_rows;
  reported_apps = λ p c. ok app_rows;
  applications = λ p c. ok (camera ∷ []);
  tenants = λ p c. ok (owner ∷ []);
}

abbrev contains : Str → Str → Bool
contains text s = true

abbrev query : DeviceQuery
query = record { group_id = none; tenant_id = none; uuid = none; serial_number = none }

found_run : (paginated in_memory (λ d. true) 0 20 (pump ∷ valve ∷ [])).0 ≡ ok (pump ∷ valve ∷ [], 2)
unfolding paginated
found_run = refl

assemble_device_summary-described_example :
    (assemble_device_summary in_memory contains others none query 0 20 (pump ∷ valve ∷ [])).0
    ≡ ok (map (described os_rows app_rows (camera ∷ []) (owner ∷ [])) (pump ∷ valve ∷ []), 2)
assemble_device_summary-described_example =
    assemble_device_summary-described in_memory contains others none query 0 20 2
      (pump ∷ valve ∷ []) (pump ∷ valve ∷ []) os_rows app_rows (camera ∷ []) (owner ∷ []) found_run
      ((refl, tt), (tt, tt)) refl refl refl refl
