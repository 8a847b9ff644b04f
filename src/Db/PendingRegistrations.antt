-- ===== src/Db/PendingRegistrations.antt =====
-- The pending device registrations (api-server/src/api_v1/db/pending_device_registrations.rs).
use amos2026ss01_zero_downti.Prelude.{ℕ, ◌≡◌, Option, ◌&&◌, Bool}
use amos2026ss01_zero_downti.Prelude.Text.{Str, str_eq}
use amos2026ss01_zero_downti.Db.Table.{Table, Db, write, find_one}

pub record PendingRegistration : Type 0 where
  pub id : ℕ
  pub serial_number : Str
  pub endorsement_public_key : Str

pub record NewRegistration : Type 0 where
  pub serial_number : Str
  pub endorsement_public_key : Str

abbrev pub Stores : NewRegistration → PendingRegistration → Type 0
Stores a r =
    (a.serial_number ≡ r.serial_number) × (a.endorsement_public_key ≡ r.endorsement_public_key)

abbrev pub id_of : PendingRegistration → ℕ
id_of r = r.id

abbrev pub PendingRegistrations : Type 1
PendingRegistrations = Table PendingRegistration NewRegistration id_of Stores

abbrev pub is_pending : Str → Str → PendingRegistration → Bool
is_pending serial_number endorsement_public_key r =
    str_eq r.serial_number serial_number && str_eq r.endorsement_public_key endorsement_public_key

module _ (t : PendingRegistrations) where
  open t use {Conn, insert, delete}

  unfoldable pub add_pending_device_registration : NewRegistration → Db Conn PendingRegistration
  add_pending_device_registration a = write (insert a)

  unfoldable pub delete_pending_device_registration : ℕ → Db Conn ℕ
  delete_pending_device_registration id = write (delete id)

  unfoldable pub search_pending_device_registration :
      Str → Str → Db Conn (Option PendingRegistration)
  search_pending_device_registration serial_number endorsement_public_key =
      find_one t (is_pending serial_number endorsement_public_key)
