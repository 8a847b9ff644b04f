-- ===== src/Registration.antt =====
-- POST /register (api-server/src/api_v1/routes/register.rs). The two tables are used one after the
-- other, without a transaction.
pub mod Outcomes
pub mod Accepts
use amos2026ss01_zero_downti.Prelude.{
  ℕ, Bool, true, false, ◌&&◌, ◌||◌, Option, some, none, List, [], ◌∷◌, Result, ok, err, ltb, leb,
  ◌==◌, if◌then◌else◌,
}
use amos2026ss01_zero_downti.Prelude.Text.{Str, codes}
use amos2026ss01_zero_downti.Routes.{StatusCode, created, bad_request, internal_server_error}
use amos2026ss01_zero_downti.Db.Table.{DbErr, record_not_found, custom, database, Table, ◌>>=◌}
use amos2026ss01_zero_downti.Db.Devices.{Devices, Device, Columns, add_device}
use amos2026ss01_zero_downti.Db.PendingRegistrations.{
  PendingRegistrations, PendingRegistration, search_pending_device_registration,
}

-- How far a character of several bytes has been read that may be white space.
pub data Partial : Type 0 where
  start after_c2 after_e1 after_e1_9a after_e2 after_e2_80 after_e2_81 after_e3 after_e3_80 :
      Partial

-- One byte of white space as Unicode has it, in UTF-8.
abbrev pub step_blank : Partial → ℕ → Option Partial
step_blank start b =
    if (leb 9 b && leb b 13) || (b == 32)
    then some start
    else if b == 194
    then some after_c2
    else if b == 225
    then some after_e1
    else if b == 226
    then some after_e2
    else if b == 227
    then some after_e3
    else none
step_blank after_c2 b = if (b == 133) || (b == 160) then some start else none
step_blank after_e1 b = if b == 154 then some after_e1_9a else none
step_blank after_e1_9a b = if b == 128 then some start else none
step_blank after_e2 b =
    if b == 128 then some after_e2_80 else if b == 129 then some after_e2_81 else none
step_blank after_e2_80 b =
    if (leb 128 b && leb b 138) || ((b == 168) || ((b == 169) || (b == 175)))
    then some start
    else none
step_blank after_e2_81 b = if b == 159 then some start else none
step_blank after_e3 b = if b == 128 then some after_e3_80 else none
step_blank after_e3_80 b = if b == 128 then some start else none

-- `trim().is_empty()`: all of the text is white space.
unfoldable pub is_blank_from : Option Partial → Str → Bool
is_blank_from none s = false
is_blank_from (some start) [] = true
is_blank_from (some _) [] = false
is_blank_from (some p) (b ∷ s) = is_blank_from (step_blank p b) s

unfoldable pub is_blank : Str → Bool
unfolding is_blank_from
is_blank s = is_blank_from (some start) s

pub record PostBody : Type 0 where
  pub uuid : Str
  pub serial_number : Str
  pub endorsement_public_key : Str
  pub signing_public_key : Str

abbrev pub err_msg : PostBody → Option Str
err_msg body =
    if is_blank body.uuid
    then some (codes "Device UUID cannot be empty")
    else if is_blank body.serial_number
    then some (codes "Device serial number cannot be empty")
    else if is_blank body.endorsement_public_key
    then some (codes "Device endorsement key cannot be empty")
    else if is_blank body.signing_public_key
    then some (codes "Device signing key cannot be empty")
    else none

-- The new device, of the first tenant and of no group.
abbrev pub new_device : PostBody → Columns
new_device body = record {
  uuid = body.uuid;
  public_key = some body.signing_public_key;
  serial_number = body.serial_number;
  tenant_id = 1;
  group_id = none;
}

module _ (devices : Devices) (pending : PendingRegistrations) where
  pub record Tables : Type 0 where
    pub device_rows : Table.Conn devices
    pub pending_rows : Table.Conn pending

  -- `let _ = active.delete(…)`: an error is ignored.
  abbrev pub deleted : Tables → Result DbErr (ℕ × Table.Conn pending) → Tables
  deleted w (ok (n, c)) = record w { pending_rows = c }
  deleted w (err e) = w

  abbrev pub added :
      PendingRegistration
      → Tables
      → Result DbErr Device × Table.Conn devices
      → Result DbErr (Unit {0}) × Tables
  added active w (ok device, c) =
      (ok tt, deleted (record w { device_rows = c }) (pending.delete active.id w.pending_rows))
  added active w (err e, c) = (err e, record w { device_rows = c })

  abbrev pub searched :
      PostBody
      → Tables
      → Result DbErr (Option PendingRegistration) × Table.Conn pending
      → Result DbErr (Unit {0}) × Tables
  searched body w (ok (some active), c) =
      added active (record w { pending_rows = c })
        (add_device devices (new_device body) w.device_rows)
  searched body w (ok none, c) = (
    err (record_not_found (codes "Did not find device registration")),
    record w { pending_rows = c },
  )
  searched body w (err e, c) = (err e, record w { pending_rows = c })

  unfoldable pub register_device : PostBody → Tables → Result DbErr (Unit {0}) × Tables
  unfolding search_pending_device_registration add_device
  register_device body w = searched body w (
      search_pending_device_registration pending body.serial_number body.endorsement_public_key
        w.pending_rows)

  abbrev pub status_of : Result DbErr (Unit {0}) → StatusCode
  status_of (ok u) = created
  status_of (err (record_not_found m)) = bad_request
  status_of (err (custom m)) = internal_server_error
  status_of (err (database n)) = internal_server_error

  abbrev pub checked : PostBody → Tables → Option Str → StatusCode × Tables
  checked body w none = let (r, w') = register_device body w in (status_of r, w')
  checked body w (some msg) = (bad_request, w)

  unfoldable pub post : PostBody → Tables → StatusCode × Tables
  unfolding register_device is_blank
  post body w = checked body w (err_msg body)
