-- ===== src/Crud/OsAssignments.antt =====
-- api-server/src/api_v1/routes/os_assignments.rs
pub mod Told
use amos2026ss01_zero_downti.Prelude.{
  ℕ, Bool, Option, some, none, List, Result, ok, err, ◌&&◌, ◌==◌,
}
use amos2026ss01_zero_downti.Prelude.Text.{Str, codes}
use amos2026ss01_zero_downti.Routes.{
  Response, PageParams, Page, new_page, validate, to_db_page, failure, message, answer, success,
}
use amos2026ss01_zero_downti.Db.Table.{DbErr, Table, Db, read, ◌>>=◌, pure}
use amos2026ss01_zero_downti.Db.Assignments.{matches}
use amos2026ss01_zero_downti.Db.Keyed.{paginated}
use amos2026ss01_zero_downti.Db.Devices.{Devices, Device, get_device_by_uuid}
use amos2026ss01_zero_downti.Db.OsAssignments.{
  OsAssignment, OsAssignments, is_active, add_os_assignment, get_os_assignment,
  update_os_assignment, delete_os_assignment, list_os_assignments_for_device,
}
use amos2026ss01_zero_downti.Crud.{
  Handler, fetched, made, changed, paged, removed, respond, unless, when_valid, list_page,
  target_msg, for_found,
}

pub record OsAssignmentCreate : Type 0 where
  pub os_version_id : ℕ
  pub device_id : Option ℕ
  pub group_id : Option ℕ
  pub immediate : Option Bool

pub record OsAssignmentQuery : Type 0 where
  pub os_version_id : Option ℕ
  pub device_id : Option ℕ
  pub device_uuid : Option Str
  pub group_id : Option ℕ

abbrev resource : Str
resource = codes "OsAssignment"

abbrev pub is_listed : Option ℕ → Option ℕ → Option ℕ → OsAssignment → Bool
is_listed version device group r =
    is_active r
    && (matches version (some r.os_version_id)
        && (matches device r.device_id && matches group r.group_id))

module _ (t : OsAssignments) where
  open t use {Conn}

  unfoldable pub list_os_assignments :
      Option ℕ → Option ℕ → Option ℕ → ℕ → ℕ → Db Conn (List OsAssignment × ℕ)
  list_os_assignments version device group = paginated t (is_listed version device group)

  unfoldable pub get_os_assignment_route : ℕ → Handler Conn OsAssignment
  unfolding get_os_assignment
  get_os_assignment_route id = respond (fetched resource id) (get_os_assignment t id)

  unfoldable pub create_os_assignment : OsAssignmentCreate → Handler Conn OsAssignment
  unfolding add_os_assignment
  create_os_assignment body = unless (target_msg body.device_id body.group_id) (
      respond made
        (add_os_assignment t body.os_version_id body.device_id body.group_id body.immediate))

  unfoldable pub update_os_assignment_route : ℕ → OsAssignmentCreate → Handler Conn OsAssignment
  unfolding update_os_assignment
  update_os_assignment_route id body = unless (target_msg body.device_id body.group_id) (
      respond changed
        (update_os_assignment t id body.os_version_id body.device_id body.group_id body.immediate))

  -- `now` is the clock.
  unfoldable pub delete_os_assignment_route : ℕ → ℕ → Handler Conn (Unit {0})
  unfolding delete_os_assignment
  delete_os_assignment_route now id = respond (removed resource id) (delete_os_assignment t now id)

  module _ (devices : Devices) (nulls_first : Bool) where
    abbrev pub listed_for : Option ℕ → PageParams → Device → Handler Conn (Page OsAssignment)
    listed_for version p d =
        respond (paged p) (list_os_assignments_for_device t nulls_first d.id d.group_id version)

    abbrev pub selected :
        PageParams
        → OsAssignmentQuery
        → Table.Conn devices
        → Option Str
        → Handler Conn (Page OsAssignment)
    selected p q cd none =
        respond (paged p)
          (list_os_assignments q.os_version_id q.device_id q.group_id (to_db_page p) p.page_size)
    selected p q cd (some uuid) =
        for_found uuid (get_device_by_uuid devices uuid cd).0 (listed_for q.os_version_id p)

    -- `cd` is the connection of the devices.
    unfoldable pub list_os_assignments_route :
        PageParams → OsAssignmentQuery → Table.Conn devices → Handler Conn (Page OsAssignment)
    unfolding list_os_assignments list_os_assignments_for_device get_device_by_uuid validate
    list_os_assignments_route p q cd = when_valid (validate p) (selected p q cd q.device_uuid)
