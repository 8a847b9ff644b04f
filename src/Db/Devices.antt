-- ===== src/Db/Devices.antt =====
-- The devices (api-server/src/api_v1/db/devices.rs).
use amos2026ss01_zero_downti.Prelude.{ℕ, ◌≡◌, Option, some, none, ◌==◌}
use amos2026ss01_zero_downti.Prelude.Text.{Str, str_eq, codes}
use amos2026ss01_zero_downti.Db.Table.{record_not_found, Table, Db, ◌>>=◌, raise, write, find_one}

pub record Device : Type 0 where
  pub id : ℕ
  pub uuid : Str
  pub public_key : Option Str
  pub serial_number : Str
  pub tenant_id : ℕ
  pub group_id : Option ℕ

-- All columns but the key.
pub record Columns : Type 0 where
  pub uuid : Str
  pub public_key : Option Str
  pub serial_number : Str
  pub tenant_id : ℕ
  pub group_id : Option ℕ

abbrev pub columns_of : Device → Columns
columns_of d = record {
  uuid = d.uuid;
  public_key = d.public_key;
  serial_number = d.serial_number;
  tenant_id = d.tenant_id;
  group_id = d.group_id;
}

abbrev pub with_columns : Columns → Device → Device
with_columns a d = record {
  id = d.id;
  uuid = a.uuid;
  public_key = a.public_key;
  serial_number = a.serial_number;
  tenant_id = a.tenant_id;
  group_id = a.group_id;
}

abbrev pub Stores : Columns → Device → Type 0
Stores a d = columns_of d ≡ a

abbrev pub id_of : Device → ℕ
id_of d = d.id

abbrev pub Devices : Type 1
Devices = Table Device Columns id_of Stores

abbrev pub or_same : {A : Type 0} → Option A → A → A
or_same none a = a
or_same (some b) a = b

abbrev pub or_old : {A : Type 0} → Option A → Option A → Option A
or_old none a = a
or_old (some b) a = some b

pub record Patch : Type 0 where
  pub uuid : Option Str
  pub public_key : Option Str
  pub serial_number : Option Str
  pub tenant_id : Option ℕ
  pub group_id : Option ℕ

abbrev pub patched : Patch → Device → Device
patched p d = record {
  id = d.id;
  uuid = or_same p.uuid d.uuid;
  public_key = or_old p.public_key d.public_key;
  serial_number = or_same p.serial_number d.serial_number;
  tenant_id = or_same p.tenant_id d.tenant_id;
  group_id = or_old p.group_id d.group_id;
}

module _ (t : Devices) where
  open t use {Conn, insert, update, delete}

  unfoldable pub get_device : ℕ → Db Conn (Option Device)
  get_device id = find_one t (λ d. d.id == id)

  unfoldable pub get_device_by_uuid : Str → Db Conn (Option Device)
  get_device_by_uuid uuid = find_one t (λ d. str_eq d.uuid uuid)

  unfoldable pub add_device : Columns → Db Conn Device
  add_device a = write (insert a)

  abbrev pub update_found : (Device → Device) → Option Device → Db Conn Device
  update_found f none = raise (record_not_found (codes "Device not found"))
  update_found f (some d) = write (update d.id f)

  unfoldable pub update_device : ℕ → Columns → Db Conn Device
  update_device id a = do found ← find_one t (λ d. d.id == id); update_found (with_columns a) found

  unfoldable pub patch_device : ℕ → Patch → Db Conn Device
  patch_device id p = do found ← find_one t (λ d. d.id == id); update_found (patched p) found

  unfoldable pub delete_device : ℕ → Db Conn ℕ
  delete_device id = write (delete id)
