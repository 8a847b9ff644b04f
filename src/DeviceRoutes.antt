-- ===== src/DeviceRoutes.antt =====
-- The routes of devices (api-server/src/api_v1/routes/device/apps.rs and os.rs): what a device is
-- told to run, and what it reports.
pub mod Os
pub mod Apps
use amos2026ss01_zero_downti.Prelude.{
  ℕ, ◌-◌, ◌^◌, Bool, Option, some, none, List, [], ◌∷◌, map, Result, ok, err,
}
use amos2026ss01_zero_downti.Prelude.Text.{Str, codes}
use amos2026ss01_zero_downti.Routes.{StatusCode, created, internal_server_error}
use amos2026ss01_zero_downti.Db.Table.{DbErr, record_not_found, Table}
use amos2026ss01_zero_downti.Db.OsAssignments.{
  OsAssignment, OsAssignments, list_os_assignments_for_device,
}
use amos2026ss01_zero_downti.Db.OsVersions.{OsVersion, OsVersions, get_os_version}
use amos2026ss01_zero_downti.Db.ApplicationAssignments.{
  ApplicationAssignment, ApplicationAssignments, ConfigRow, list_application_assignments_for_device,
}
use amos2026ss01_zero_downti.Db.ApplicationConfigs.{
  ApplicationConfig, ApplicationConfigs, get_application_config,
}

-- `os::GetResponse`
pub record OsResponse : Type 0 where
  pub id : ℕ
  pub commit_hash : Str
  pub immediate : Bool

abbrev pub no_os : DbErr
no_os = record_not_found (codes "OsVersion")

module _ {A : Type 0} where
  -- A database error is answered with 500, without a body.
  abbrev pub or_500 : Result DbErr A → Result StatusCode A
  or_500 (ok a) = ok a
  or_500 (err e) = err internal_server_error

  -- The answer to a report.
  abbrev pub reported_status : Result DbErr A → StatusCode
  reported_status (ok a) = created
  reported_status (err e) = internal_server_error

module _ (versions : OsVersions) where
  abbrev pub versioned :
      OsAssignment → Result DbErr (Option OsVersion) → Result DbErr (OsVersion × Bool)
  versioned a (ok (some ver)) = ok (ver, a.immediate)
  versioned a (ok none) = err no_os
  versioned a (err e) = err e

  abbrev pub first_version :
      Table.Conn versions → Result DbErr (List OsAssignment × ℕ) → Result DbErr (OsVersion × Bool)
  first_version c (err e) = err e
  first_version c (ok ([], n)) = err no_os
  first_version c (ok (a ∷ rest, n)) = versioned a (get_os_version versions a.os_version_id c).0

  module _ (assignments : OsAssignments) (nulls_first : Bool) where
    -- `ca` and `cv` are the connections of the two tables.
    unfoldable pub os_get_assigned :
        ℕ
        → Option ℕ
        → Table.Conn assignments
        → Table.Conn versions
        → Result DbErr (OsVersion × Bool)
    unfolding list_os_assignments_for_device get_os_version
    os_get_assigned device group ca cv =
        first_version cv
          (list_os_assignments_for_device assignments nulls_first device group none ca).0

    abbrev pub os_response : Result DbErr (OsVersion × Bool) → Result DbErr OsResponse
    os_response (ok (os, immediate)) =
        ok (record { id = os.id; commit_hash = os.commit_hash; immediate = immediate })
    os_response (err e) = err e

    -- GET /device/os
    unfoldable pub get_os :
        ℕ → Option ℕ → Table.Conn assignments → Table.Conn versions → Result StatusCode OsResponse
    unfolding os_get_assigned
    get_os device group ca cv = or_500 (os_response (os_get_assigned device group ca cv))

module _ (configs : ApplicationConfigs) where
  -- One assignment of the loop of `apps_get_assigned`: a config that is not found is left out.
  abbrev pub with_config :
      Result DbErr (Option ApplicationConfig)
      → Result DbErr (List ApplicationConfig)
      → Result DbErr (List ApplicationConfig)
  with_config (err e) rest = err e
  with_config (ok none) rest = rest
  with_config (ok (some config)) (ok rest) = ok (config ∷ rest)
  with_config (ok (some config)) (err e) = err e

  unfoldable pub configs_of :
      List ApplicationAssignment → Table.Conn configs → Result DbErr (List ApplicationConfig)
  unfolding get_application_config
  configs_of [] c = ok []
  configs_of (a ∷ assignments) c =
      with_config (get_application_config configs a.application_config_id c).0
        (configs_of assignments c)

  module _ (assignments : ApplicationAssignments)
      (config_rows : (ConfigRow → Bool) → Table.Conn assignments → Result DbErr (List ConfigRow))
      (nulls_first : Bool) where
    abbrev pub all_configs :
        Table.Conn configs
        → Result DbErr (List ApplicationAssignment × ℕ)
        → Result DbErr (List ApplicationConfig)
    all_configs c (err e) = err e
    all_configs c (ok (rows, n)) = configs_of rows c

    -- The first page, of `u64::MAX` rows.
    unfoldable pub apps_get_assigned :
        ℕ
        → Option ℕ
        → Table.Conn assignments
        → Table.Conn configs
        → Result DbErr (List ApplicationConfig)
    unfolding list_application_assignments_for_device configs_of
    apps_get_assigned device group ca cg =
        all_configs cg
          (list_application_assignments_for_device assignments config_rows nulls_first device group
            none 0 (2 ^ 64 - 1) ca).0

    -- GET /device/apps: of each config the id, the application, the image and the config.
    unfoldable pub get_apps :
        ℕ
        → Option ℕ
        → Table.Conn assignments
        → Table.Conn configs
        → Result StatusCode (List ApplicationConfig)
    unfolding apps_get_assigned
    get_apps device group ca cg = or_500 (apps_get_assigned device group ca cg)
