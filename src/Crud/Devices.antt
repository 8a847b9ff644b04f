-- ===== src/Crud/Devices.antt =====
-- api-server/src/api_v1/routes/devices.rs, without the summaries.
pub mod RoundTrip
use amos2026ss01_zero_downti.Prelude.{
  ℕ, Bool, true, Option, some, none, List, Result, ok, err, ◌&&◌, ◌==◌, if◌then◌else◌,
}
use amos2026ss01_zero_downti.Prelude.Text.{Str, codes}
use amos2026ss01_zero_downti.Routes.{
  StatusCode, Response, PageParams, Page, new_page, validate, to_db_page, failure, message, answer,
  success,
}
use amos2026ss01_zero_downti.Db.Table.{DbErr, Table, Db, read, ◌>>=◌, pure}
use amos2026ss01_zero_downti.Routes.{no_device_id, db_err}
use amos2026ss01_zero_downti.Db.Table.{record_not_found, custom, database}
use amos2026ss01_zero_downti.Db.Assignments.{matches}
use amos2026ss01_zero_downti.Db.Keyed.{paginated}
use amos2026ss01_zero_downti.Db.Devices.{
  Devices, Device, Columns, Patch, get_device, add_device, update_device, patch_device,
  delete_device,
}
use amos2026ss01_zero_downti.Crud.{
  Handler, fetched, made, changed, paged, removed, respond, unless, when_valid, list_page,
  target_msg, for_found, refuse, neither, not_both, blank_msg, or_then,
}

pub record DeviceQuery : Type 0 where
  pub group_id : Option ℕ
  pub tenant_id : Option ℕ
  pub uuid : Option Str
  pub serial_number : Option Str

abbrev resource : Str
resource = codes "Device"

-- The checks of the body of POST and PUT.
abbrev pub device_msg : Columns → Option Str
device_msg body =
    or_then (blank_msg body.uuid (codes "Device UUID cannot be empty"))
      (blank_msg body.serial_number (codes "Device serial number cannot be empty"))

-- `like text s` is the database's `text LIKE '%s%'`.
abbrev pub is_like : (Str → Str → Bool) → Option Str → Str → Bool
is_like like none text = true
is_like like (some s) text = like text s

abbrev pub is_listed : (Str → Str → Bool) → DeviceQuery → Device → Bool
is_listed like q d =
    matches q.group_id d.group_id
    && (matches q.tenant_id (some d.tenant_id)
        && (is_like like q.uuid d.uuid && is_like like q.serial_number d.serial_number))

-- The answer to PATCH.
abbrev pub patched_answer : ℕ → Result DbErr Device → Response Device
patched_answer id (ok d) = answer success d
patched_answer id (err (record_not_found m)) = failure StatusCode.not_found (no_device_id id)
patched_answer id (err (custom m)) = db_err (custom m)
patched_answer id (err (database n)) = db_err (database n)

module _ (t : Devices) where
  open t use {Conn}

  unfoldable pub list_devices : (Str → Str → Bool) → DeviceQuery → ℕ → ℕ → Db Conn (List Device × ℕ)
  list_devices like q = paginated t (is_listed like q)

  unfoldable pub list_devices_route :
      (Str → Str → Bool) → PageParams → DeviceQuery → Handler Conn (Page Device)
  unfolding list_devices validate
  list_devices_route like p q = list_page p (list_devices like q)

  unfoldable pub get_device_route : ℕ → Handler Conn Device
  unfolding get_device
  get_device_route id = respond (fetched resource id) (get_device t id)

  unfoldable pub create_device : Columns → Handler Conn Device
  unfolding add_device
  create_device body = unless (device_msg body) (respond made (add_device t body))

  unfoldable pub update_device_route : ℕ → Columns → Handler Conn Device
  unfolding update_device
  update_device_route id body = unless (device_msg body) (respond changed (update_device t id body))

  unfoldable pub patch_device_route : ℕ → Patch → Handler Conn Device
  unfolding patch_device
  patch_device_route id p = respond (patched_answer id) (patch_device t id p)

  unfoldable pub delete_device_route : ℕ → Handler Conn (Unit {0})
  unfolding delete_device
  delete_device_route id = respond (removed resource id) (delete_device t id)
