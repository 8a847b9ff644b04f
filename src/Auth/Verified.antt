-- ===== src/Auth/Verified.antt =====
-- What a request has shown that gets past api-server/src/auth/.
use amos2026ss01_zero_downti.Prelude.{
  ℕ, ◌+◌, ◌≤◌, ◌≡◌, refl, sym, ap, Bool, true, false, Option, some, none, ◌++◌, Result, ok, err,
  ltb, Memᴰ, Bool-cases, inl, inr, arith, if◌then◌else◌,
}
use amos2026ss01_zero_downti.Prelude.Text.{Str, str_eq, str_eq_iff, codes}
use amos2026ss01_zero_downti.Db.Table.{DbErr, Table}
use amos2026ss01_zero_downti.Db.Table.Laws.{find_one-some}
use amos2026ss01_zero_downti.Db.Devices.{Devices, Device, get_device_by_uuid}
use amos2026ss01_zero_downti.Auth.Users.{user_outcome-device, token_of-some, is_text-true}
use amos2026ss01_zero_downti.Auth.{
  Value, DeviceClaims, ClientDevice, Claims, JwtConfig, DeviceTokenError, jwt, device_not_found,
  missing_public_key, database_error, Outcome, refused, with_device, with_user, max_token_lifetime,
  bearer, token_of, is_device_token, unescape, checked_lifetime, checked_key, checked_device,
  checked_subject, validate_device_token, validate_user_token, device_outcome, decoded, with_token,
  jwt_middleware, auth_device,
}

not_late :
    (late : Bool) (x client : ClientDevice)
    → (if late then err jwt else ok x) ≡ ok client
    → (late ≡ false) × (client ≡ x)
not_late true x client h = cc
not_late false x client h = (refl, cc)

module _ (t : Devices) where
  open t use {Conn, rows}

  get_device_by_uuid-some :
      (uuid : Str) (c : Conn) (d : Device)
      → (get_device_by_uuid t uuid c).0 ≡ ok (some d)
      → Memᴰ d (rows c) × (d.uuid ≡ uuid)
  unfolding get_device_by_uuid
  get_device_by_uuid-some uuid c d h =
      let (m, e) = find_one-some t (λ d. str_eq d.uuid uuid) c d h in
      (m, (str_eq_iff d.uuid uuid).0 e)

module _ (insecure_decode : Str → Option Value) (decode_device : Str → Str → Option DeviceClaims)
    (decode_user : Str → Str → Option Value) (t : Devices) (now : ℕ) where
  open t use {Conn, rows}

  -- The token is one of the device of this row.
  abbrev pub IsTokenOf : Str → Conn → ClientDevice → Type 0
  IsTokenOf token c client =
      (claims : Value) × (d : Device) × (key : Str) × (verified : DeviceClaims) × (insecure_decode
          token
        ≡ some claims)
      × (claims.text (codes "role") ≡ some (codes "device"))
      × (claims.text (codes "sub") ≡ some d.uuid)
      × Memᴰ d (rows c)
      × (d.public_key ≡ some key)
      × (decode_device (unescape key) token ≡ some verified)
      × (verified.exp ≤ now + 10 + max_token_lifetime)
      × (client ≡ record { id = d.id; group_id = d.group_id })

  lifetime-ok :
      (d : Device) (o : Option DeviceClaims) (client : ClientDevice)
      → checked_lifetime insecure_decode decode_device decode_user t now d o ≡ ok client
      → (verified : DeviceClaims) × (o ≡ some verified)
        × (verified.exp ≤ now + 10 + max_token_lifetime)
        × (client ≡ record { id = d.id; group_id = d.group_id })
  lifetime-ok d none client h = cc
  lifetime-ok d (some claims) client h =
      let (in_time, same) =
        not_late (ltb (now + 10 + max_token_lifetime) claims.exp)
          (record { id = d.id; group_id = d.group_id }) client h in
      (claims, refl, ground (arith, in_time), same)

  key-ok :
      (token : Str) (d : Device) (o : Option Str) (client : ClientDevice)
      → checked_key insecure_decode decode_device decode_user t now token d o ≡ ok client
      → (key : Str) × (verified : DeviceClaims) × (o ≡ some key)
        × (decode_device (unescape key) token ≡ some verified)
        × (verified.exp ≤ now + 10 + max_token_lifetime)
        × (client ≡ record { id = d.id; group_id = d.group_id })
  key-ok token d none client h = cc
  key-ok token d (some key) client h =
      let (verified, e, in_time, same) =
        lifetime-ok d (decode_device (unescape key) token) client h in
      (key, verified, refl, e, in_time, same)

  device-ok :
      (token : Str) (r : Result DbErr (Option Device)) (client : ClientDevice)
      → checked_device insecure_decode decode_device decode_user t now token r ≡ ok client
      → (d : Device) × (key : Str) × (verified : DeviceClaims) × (r ≡ ok (some d))
        × (d.public_key ≡ some key)
        × (decode_device (unescape key) token ≡ some verified)
        × (verified.exp ≤ now + 10 + max_token_lifetime)
        × (client ≡ record { id = d.id; group_id = d.group_id })
  device-ok token (err e) client h = cc
  device-ok token (ok none) client h = cc
  device-ok token (ok (some d)) client h =
      let (key, verified, k, e, in_time, same) = key-ok token d d.public_key client h in
      (d, key, verified, refl, k, e, in_time, same)

  subject-ok :
      (token : Str) (c : Conn) (o : Option Str) (client : ClientDevice)
      → checked_subject insecure_decode decode_device decode_user t now token c o ≡ ok client
      → (d : Device) × (key : Str) × (verified : DeviceClaims) × (o ≡ some d.uuid)
        × Memᴰ d (rows c)
        × (d.public_key ≡ some key)
        × (decode_device (unescape key) token ≡ some verified)
        × (verified.exp ≤ now + 10 + max_token_lifetime)
        × (client ≡ record { id = d.id; group_id = d.group_id })
  subject-ok token c none client h = cc
  subject-ok token c (some uuid) client h =
      let (d, key, verified, r, k, e, in_time, same) =
        device-ok token (get_device_by_uuid t uuid c).0 client h in
      let (m, u) = get_device_by_uuid-some t uuid c d r in
      (d, key, verified, ap some (sym u), m, k, e, in_time, same)

  outcome-device :
      (r : Result DeviceTokenError ClientDevice) (client : ClientDevice)
      → device_outcome insecure_decode decode_device decode_user t now r ≡ with_device client
      → r ≡ ok client
  outcome-device (ok d) client h = cc
  outcome-device (err device_not_found) client h = cc
  outcome-device (err jwt) client h = cc
  outcome-device (err missing_public_key) client h = cc
  outcome-device (err database_error) client h = cc

  module _ (upsert_user : Claims → Conn → Result DbErr (ℕ × Conn))
      (set_audit_user : ℕ → Conn → Result DbErr Conn) (is_postgres : Bool) where
    decoded-device :
        (config : JwtConfig) (token : Str) (c : Conn) (o : Option Value) (client : ClientDevice)
        → insecure_decode token ≡ o
        → (decoded insecure_decode decode_device decode_user t now upsert_user set_audit_user
            is_postgres config token c o).0
          ≡ with_device client
        → IsTokenOf token c client
    unfolding validate_device_token
    decoded-device config token c none client e h = cc
    decoded-device config token c (some claims) client e h =
        elim (Bool-cases (is_device_token claims)) [
          | inl role ↦
              let passed = rw role at h in
              let valid = outcome-device _ client passed in
              let (d, key, verified, sub, m, k, v, in_time, same) =
                subject-ok token c (claims.text (codes "sub")) client valid in
              (claims, d, key, verified, e, is_text-true _ _ role, sub, m, k, v, in_time, same)
          | inr role ↦
              let passed = rw role at h in
              absurd (
                user_outcome-device insecure_decode decode_device decode_user t now upsert_user
                  set_audit_user is_postgres c
                  (validate_user_token insecure_decode decode_device decode_user t now token config)
                  client passed)
        ]

    token-device :
        (config : JwtConfig) (c : Conn) (o : Option Str) (client : ClientDevice)
        → (with_token insecure_decode decode_device decode_user t now upsert_user set_audit_user
            is_postgres config c o).0
          ≡ with_device client
        → (token : Str) × (o ≡ some token) × IsTokenOf token c client
    token-device config c none client h = cc
    token-device config c (some token) client h =
        (token, refl, decoded-device config token c (insecure_decode token) client refl h)

auth_device-ok :
    (o : Outcome) (client : ClientDevice) → auth_device o ≡ ok client → o ≡ with_device client
auth_device-ok (refused status) client h = cc
auth_device-ok (with_device d) client h = cc
auth_device-ok (with_user claims) client h = cc

module _ (insecure_decode : Str → Option Value) (decode_device : Str → Str → Option DeviceClaims)
    (decode_user : Str → Str → Option Value) (t : Devices) (now : ℕ)
    (upsert_user : Claims → Table.Conn t → Result DbErr (ℕ × Table.Conn t))
    (set_audit_user : ℕ → Table.Conn t → Result DbErr (Table.Conn t)) (is_postgres : Bool) where
  -- A request that passes the extractor of the device routes, as a client, has in its header a
  -- bearer token whose claims name the role `device` and, as subject, a device of the table; the
  -- token was verified under the key of that row, it expires at most 310 seconds from now, and the
  -- client has the key and the group of that row.
  pub auth_device-jwt_middleware :
      (config : JwtConfig) (header : Option Str) (c : Table.Conn t) (client : ClientDevice)
      → auth_device
          (jwt_middleware insecure_decode decode_device decode_user t now upsert_user set_audit_user
            is_postgres config header c).0
        ≡ ok client
      → (token : Str) × (header ≡ some (bearer ++ token))
        × IsTokenOf insecure_decode decode_device decode_user t now token c client
  unfolding jwt_middleware
  auth_device-jwt_middleware config header c client h =
      let (token, e, is_of) =
        token-device insecure_decode decode_device decode_user t now upsert_user set_audit_user
          is_postgres config c (token_of header) client (auth_device-ok _ client h) in
      (token, token_of-some header token e, is_of)
