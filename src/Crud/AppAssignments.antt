-- ===== src/Crud/AppAssignments.antt =====
-- api-server/src/api_v1/routes/application_assignments.rs
use amos2026ss01_zero_downti.Prelude.{
  ℕ, Bool, Option, some, none, List, Result, ◌&&◌, if◌then◌else◌,
}
use amos2026ss01_zero_downti.Prelude.Text.{Str, codes}
use amos2026ss01_zero_downti.Routes.{PageParams, Page, validate, to_db_page}
use amos2026ss01_zero_downti.Db.Table.{DbErr, Table, Db}
use amos2026ss01_zero_downti.Db.Assignments.{matches, is_set}
use amos2026ss01_zero_downti.Db.Keyed.{paginated}
use amos2026ss01_zero_downti.Db.Devices.{Devices, Device, get_device_by_uuid}
use amos2026ss01_zero_downti.Db.ApplicationAssignments.{
  ApplicationAssignment, ApplicationAssignments, ConfigRow, is_active,
  add_application_assignment_to_device, add_application_assignment_to_group,
  get_application_assignment, update_application_assignment, delete_application_assignment,
  list_application_assignments_for_device,
}
use amos2026ss01_zero_downti.Crud.{
  Handler, fetched, made, changed, paged, removed, respond, unless, when_valid, target_msg,
  for_found, refuse, neither, not_both,
}

pub record AppAssignmentCreate : Type 0 where
  pub application_config_id : ℕ
  pub device_id : Option ℕ
  pub group_id : Option ℕ

pub record AppAssignmentQuery : Type 0 where
  pub application_config_id : Option ℕ
  pub device_id : Option ℕ
  pub device_uuid : Option Str
  pub group_id : Option ℕ

abbrev resource : Str
resource = codes "ApplicationAssignment"

abbrev pub is_listed : Option ℕ → Option ℕ → Option ℕ → ApplicationAssignment → Bool
is_listed config device group r =
    is_active r
    && (matches config (some r.application_config_id)
        && (matches device r.device_id && matches group r.group_id))

module _ (t : ApplicationAssignments) where
  open t use {Conn, select}

  unfoldable pub list_application_assignments :
      Option ℕ → Option ℕ → Option ℕ → ℕ → ℕ → Db Conn (List ApplicationAssignment × ℕ)
  list_application_assignments config device group = paginated t (is_listed config device group)

  unfoldable pub get_application_assignment_route : ℕ → Handler Conn ApplicationAssignment
  unfolding get_application_assignment
  get_application_assignment_route id =
      respond (fetched resource id) (get_application_assignment t id)

  abbrev pub create_for : ℕ → Option ℕ → Option ℕ → Handler Conn ApplicationAssignment
  create_for config (some device) none =
      respond made (add_application_assignment_to_device t config device)
  create_for config none (some group) =
      respond made (add_application_assignment_to_group t config group)
  create_for config none none = refuse neither
  create_for config (some device) (some group) = refuse neither

  unfoldable pub create_application_assignment :
      AppAssignmentCreate → Handler Conn ApplicationAssignment
  unfolding add_application_assignment_to_device add_application_assignment_to_group
  create_application_assignment body =
      if is_set body.device_id && is_set body.group_id
      then refuse not_both
      else create_for body.application_config_id body.device_id body.group_id

  unfoldable pub update_application_assignment_route :
      ℕ → AppAssignmentCreate → Handler Conn ApplicationAssignment
  unfolding update_application_assignment
  update_application_assignment_route id body = unless (target_msg body.device_id body.group_id) (
      respond changed (
        update_application_assignment t id body.application_config_id body.device_id body.group_id))

  -- `now` is the clock.
  unfoldable pub delete_application_assignment_route : ℕ → ℕ → Handler Conn (Unit {0})
  unfolding delete_application_assignment
  delete_application_assignment_route now id =
      respond (removed resource id) (delete_application_assignment t now id)

  -- `configs` selects the configs over the same connection.
  module _ (devices : Devices) (configs : (ConfigRow → Bool) → Conn → Result DbErr (List ConfigRow))
      (nulls_first : Bool) where
    abbrev pub listed_for :
        Option ℕ → PageParams → Device → Handler Conn (Page ApplicationAssignment)
    listed_for config p d = respond (paged p) (
        list_application_assignments_for_device t configs nulls_first d.id d.group_id config
          (to_db_page p) p.page_size)

    abbrev pub selected :
        PageParams
        → AppAssignmentQuery
        → Table.Conn devices
        → Option Str
        → Handler Conn (Page ApplicationAssignment)
    selected p q cd none = respond (paged p) (
        list_application_assignments q.application_config_id q.device_id q.group_id (to_db_page p)
          p.page_size)
    selected p q cd (some uuid) =
        for_found uuid (get_device_by_uuid devices uuid cd).0 (listed_for q.application_config_id p)

    -- `cd` is the connection of the devices.
    unfoldable pub list_application_assignments_route :
        PageParams
        → AppAssignmentQuery
        → Table.Conn devices
        → Handler Conn (Page ApplicationAssignment)
    unfolding list_application_assignments list_application_assignments_for_device
        get_device_by_uuid validate
    list_application_assignments_route p q cd =
        when_valid (validate p) (selected p q cd q.device_uuid)
