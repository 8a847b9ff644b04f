-- ===== src/Crud/OsVersions.antt =====
-- api-server/src/api_v1/routes/os_versions.rs
use amos2026ss01_zero_downti.Prelude.{ℕ, Option, List}
use amos2026ss01_zero_downti.Prelude.Text.{Str, codes}
use amos2026ss01_zero_downti.Routes.{PageParams, Page, validate}
use amos2026ss01_zero_downti.Db.Table.{Db}
use amos2026ss01_zero_downti.Db.Keyed.{paginated}
use amos2026ss01_zero_downti.Db.OsVersions.{
  OsVersion, OsVersions, ActiveModel, is_active, get_os_version, add_os_version, update_os_version,
  delete_os_version,
}
use amos2026ss01_zero_downti.Crud.{
  Handler, fetched, made, changed, removed, respond, unless, list_page, blank_msg, or_then,
}

abbrev resource : Str
resource = codes "OsVersion"

-- The checks of the body of POST and PUT.
abbrev pub version_msg : ActiveModel → Option Str
version_msg body =
    or_then (blank_msg body.commit_hash (codes "OS Version commit hash cannot be empty")) (
      blank_msg body.orchestrator_version (codes "OS Version orchestrator version cannot be empty"))

module _ (t : OsVersions) where
  open t use {Conn}

  unfoldable pub list_os_versions : ℕ → ℕ → Db Conn (List OsVersion × ℕ)
  list_os_versions = paginated t is_active

  unfoldable pub list_os_versions_route : PageParams → Handler Conn (Page OsVersion)
  unfolding list_os_versions validate
  list_os_versions_route p = list_page p list_os_versions

  unfoldable pub get_os_version_route : ℕ → Handler Conn OsVersion
  unfolding get_os_version
  get_os_version_route id = respond (fetched resource id) (get_os_version t id)

  unfoldable pub create_os_version : ActiveModel → Handler Conn OsVersion
  unfolding add_os_version
  create_os_version body = unless (version_msg body) (respond made (add_os_version t body))

  unfoldable pub update_os_version_route : ℕ → ActiveModel → Handler Conn OsVersion
  unfolding update_os_version
  update_os_version_route id body =
      unless (version_msg body) (respond changed (update_os_version t id body))

  -- `now` is the clock.
  unfoldable pub delete_os_version_route : ℕ → ℕ → Handler Conn (Unit {0})
  unfolding delete_os_version
  delete_os_version_route now id = respond (removed resource id) (delete_os_version t now id)
