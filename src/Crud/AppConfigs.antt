-- ===== src/Crud/AppConfigs.antt =====
-- api-server/src/api_v1/routes/application_configs.rs
use amos2026ss01_zero_downti.Prelude.{ℕ, Bool, Option, some, none, List, Result, ok, err, ◌&&◌}
use amos2026ss01_zero_downti.Prelude.Text.{Str, codes}
use amos2026ss01_zero_downti.Routes.{
  Response, PageParams, Page, new_page, validate, to_db_page, answer, success,
}
use amos2026ss01_zero_downti.Db.Table.{DbErr, Table, Db}
use amos2026ss01_zero_downti.Prelude.{length}
use amos2026ss01_zero_downti.Routes.{at_least_1, db_err}
use amos2026ss01_zero_downti.Db.Assignments.{matches}
use amos2026ss01_zero_downti.Db.Keyed.{paginated}
use amos2026ss01_zero_downti.Db.Devices.{Devices, Device, get_device_by_uuid, get_device}
use amos2026ss01_zero_downti.Db.ApplicationConfigs.{
  ApplicationConfig, ApplicationConfigs, is_active, add_application_config, get_application_config,
  update_application_config, delete_application_config, list_application_configs_for_device,
}
use amos2026ss01_zero_downti.Crud.{
  Handler, fetched, made, changed, paged, removed, respond, unless, when_valid, target_msg,
  for_found, blank_msg, or_then,
}

pub record AppConfigCreate (ContainerConfig : Type 0) : Type 0 where
  pub device_id : Option ℕ
  pub group_id : Option ℕ
  pub application_id : ℕ
  pub image : Str
  pub config : Option ContainerConfig

pub record AppConfigQuery : Type 0 where
  pub application_id : Option ℕ
  pub device_id : Option ℕ
  pub device_uuid : Option Str
  pub group_id : Option ℕ

abbrev resource : Str
resource = codes "ApplicationConfig"

unfoldable pub validate_app_config_body :
    {ContainerConfig : Type 0} → AppConfigCreate ContainerConfig → Option Str
validate_app_config_body body =
    or_then (blank_msg body.image (codes "ApplicationConfig image cannot be empty"))
      (target_msg body.device_id body.group_id)

abbrev pub is_listed : Option ℕ → Option ℕ → Option ℕ → ApplicationConfig → Bool
is_listed application device group r =
    is_active r
    && (matches application (some r.application_id)
        && (matches device r.device_id && matches group r.group_id))

-- All configs on one page.
abbrev pub one_page : Result DbErr (List ApplicationConfig) → Response (Page ApplicationConfig)
one_page (ok rows) =
    let total = length rows in answer success (new_page rows 1 (at_least_1 total) total)
one_page (err e) = db_err e

abbrev pub group_of : Result DbErr (Option Device) → Result DbErr (Option ℕ)
group_of (ok (some d)) = ok d.group_id
group_of (ok none) = ok none
group_of (err e) = err e

module _ (t : ApplicationConfigs) where
  open t use {Conn}

  unfoldable pub list_application_configs :
      Option ℕ → Option ℕ → Option ℕ → ℕ → ℕ → Db Conn (List ApplicationConfig × ℕ)
  list_application_configs application device group =
      paginated t (is_listed application device group)

  unfoldable pub get_application_config_route : ℕ → Handler Conn ApplicationConfig
  unfolding get_application_config
  get_application_config_route id = respond (fetched resource id) (get_application_config t id)

  -- `to_string` prints a config as JSON.
  module _ {ContainerConfig : Type 0} (to_string : ContainerConfig → Result Str Str) where
    unfoldable pub create_application_config :
        AppConfigCreate ContainerConfig → Handler Conn ApplicationConfig
    unfolding add_application_config validate_app_config_body
    create_application_config body = unless (validate_app_config_body body) (
        respond made (
          add_application_config to_string t body.device_id body.group_id body.application_id
            body.image body.config))

    unfoldable pub update_application_config_route :
        ℕ → AppConfigCreate ContainerConfig → Handler Conn ApplicationConfig
    unfolding update_application_config validate_app_config_body
    update_application_config_route id body = unless (validate_app_config_body body) (
        respond changed (
          update_application_config to_string t id body.device_id body.group_id body.application_id
            body.image body.config))

  -- `now` is the clock.
  unfoldable pub delete_application_config_route : ℕ → ℕ → Handler Conn (Unit {0})
  unfolding delete_application_config
  delete_application_config_route now id =
      respond (removed resource id) (delete_application_config t now id)

  module _ (devices : Devices) where
    abbrev pub listed_for : Table.Conn devices → Device → Handler Conn (Page ApplicationConfig)
    listed_for cd d =
        respond one_page
          (list_application_configs_for_device t (λ i _. group_of (get_device devices i cd).0) d.id)

    abbrev pub selected :
        PageParams
        → AppConfigQuery
        → Table.Conn devices
        → Option Str
        → Handler Conn (Page ApplicationConfig)
    selected p q cd none = respond (paged p) (
        list_application_configs q.application_id q.device_id q.group_id (to_db_page p) p.page_size)
    selected p q cd (some uuid) =
        for_found uuid (get_device_by_uuid devices uuid cd).0 (listed_for cd)

    -- `cd` is the connection of the devices.
    unfoldable pub list_application_configs_route :
        PageParams → AppConfigQuery → Table.Conn devices → Handler Conn (Page ApplicationConfig)
    unfolding list_application_configs list_application_configs_for_device get_device_by_uuid
        get_device validate
    list_application_configs_route p q cd = when_valid (validate p) (selected p q cd q.device_uuid)
