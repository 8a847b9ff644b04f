-- ===== src/Registration/Accepts.antt =====
-- When the registration of api-server/src/api_v1/routes/register.rs is answered with 201.
use amos2026ss01_zero_downti.Prelude.{
  ◌≡◌, ◌↔◌, refl, false, Option, some, none, Result, ok, err, arith,
}
use amos2026ss01_zero_downti.Prelude.Text.{Str}
use amos2026ss01_zero_downti.Routes.{created}
use amos2026ss01_zero_downti.Db.Table.{DbErr, record_not_found, custom, database, Table, wrote}
use amos2026ss01_zero_downti.Db.Devices.{Devices, Device, add_device}
use amos2026ss01_zero_downti.Db.PendingRegistrations.{
  PendingRegistrations, PendingRegistration, search_pending_device_registration,
}
use amos2026ss01_zero_downti.Registration.{
  PostBody, is_blank, err_msg, new_device, Tables, added, searched, register_device, status_of,
  checked, post,
}

-- No text of the body is white space only.
abbrev pub HasTexts : PostBody → Type 0
HasTexts body =
    (is_blank body.uuid ≡ false)
    × (is_blank body.serial_number ≡ false)
    × (is_blank body.endorsement_public_key ≡ false)
    × (is_blank body.signing_public_key ≡ false)

err_msg-none : (body : PostBody) → (err_msg body ≡ none) ↔ HasTexts body
err_msg-none body = ground arith

module _ (devices : Devices) (pending : PendingRegistrations) where
  -- A pending row is found and the device can be inserted.
  abbrev pub IsExpected : PostBody → Tables devices pending → Type 0
  IsExpected body w =
      (active : PendingRegistration) × (inserted : Device × Table.Conn devices)
      × ((search_pending_device_registration pending body.serial_number body.endorsement_public_key
            w.pending_rows).0
          ≡ ok (some active))
      × (devices.insert (new_device body) w.device_rows ≡ ok inserted)

  status_of-created :
      (r : Result DbErr (Unit {0})) → (status_of devices pending r ≡ created) ↔ (r ≡ ok tt)
  status_of-created (ok u) = (λ h. refl, λ h. refl)
  status_of-created (err (record_not_found m)) = (λ h. cc, λ h. cc)
  status_of-created (err (custom m)) = (λ h. cc, λ h. cc)
  status_of-created (err (database n)) = (λ h. cc, λ h. cc)

  abbrev Inserts : Result DbErr (Device × Table.Conn devices) → Type 0
  Inserts r = (inserted : Device × Table.Conn devices) × (r ≡ ok inserted)

  added-ok :
      (active : PendingRegistration) (w : Tables devices pending)
      (r : Result DbErr (Device × Table.Conn devices))
      → ((added devices pending active w (wrote r w.device_rows)).0 ≡ ok tt) ↔ Inserts r
  added-ok active w (ok x) = (λ h. (x, refl), λ h. refl)
  added-ok active w (err e) = (λ h. cc, λ (x, h). cc)

  searched-ok :
      (body : PostBody) (w : Tables devices pending)
      (r : Result DbErr (Option PendingRegistration) × Table.Conn pending)
      → ((searched devices pending body w r).0 ≡ ok tt) ↔ (
          (active : PendingRegistration) × (inserted : Device × Table.Conn devices) × (r.0
            ≡ ok (some active))
          × (devices.insert (new_device body) w.device_rows ≡ ok inserted))
  unfolding add_device
  searched-ok body w (ok none, c) = (λ h. cc, λ (a, x, h, k). cc)
  searched-ok body w (err e, c) = (λ h. cc, λ (a, x, h, k). cc)
  searched-ok body w (ok (some active), c) =
      let (into, out) =
        added-ok active (record w { pending_rows = c })
          (devices.insert (new_device body) w.device_rows) in
      (λ h. let (x, k) = into h in (active, x, refl, k), λ (a, x, h, k). out (x, k))

  checked-created :
      (body : PostBody) (w : Tables devices pending) (o : Option Str)
      → ((checked devices pending body w o).0 ≡ created) ↔ ((o ≡ none) × IsExpected body w)
  unfolding register_device
  checked-created body w (some msg) = (λ h. cc, λ (h, k). cc)
  checked-created body w none =
      let (into, out) = status_of-created (register_device devices pending body w).0 in
      let (into', out') = searched-ok body w (
        search_pending_device_registration pending body.serial_number body.endorsement_public_key
          w.pending_rows) in
      (λ h. (refl, into' (into h)), λ (_, k). out (out' k))

  -- A registration is answered with 201 exactly when none of its four texts is white space only, a
  -- pending row of its serial number and endorsement key is found, and the device can be inserted.
  pub post-created :
      (body : PostBody) (w : Tables devices pending)
      → ((post devices pending body w).0 ≡ created) ↔ (HasTexts body × IsExpected body w)
  unfolding post
  post-created body w =
      let (into, out) = checked-created body w (err_msg body) in
      let (texts, no_msg) = err_msg-none body in
      (λ h. let (o, k) = into h in (texts o, k), λ (t, k). out (no_msg t, k))
