-- ===== src/Auth.antt =====
-- Who may call the API server (api-server/src/auth/). The JWT library and the JSON that it decodes
-- are third-party code: `insecure_decode` reads the claims of a token without a look at its
-- signature, `decode_device` and `decode_user` check the signature under a key with RS256 and RS512,
-- and the expiry.
pub mod Users
pub mod Verified
use amos2026ss01_zero_downti.Prelude.{
  ℕ, ◌+◌, Bool, true, false, Option, some, none, List, [], ◌∷◌, Result, ok, err, ltb, ◌==◌,
  if◌then◌else◌,
}
use amos2026ss01_zero_downti.Prelude.Text.{Str, str_eq, codes}
use amos2026ss01_zero_downti.Db.Table.{DbErr, Db, Table}
use amos2026ss01_zero_downti.Db.Devices.{Devices, Device, get_device_by_uuid}
use amos2026ss01_zero_downti.Routes.{StatusCode, unauthorized, im_a_teapot, internal_server_error}

-- What the code reads of a JSON object: `get(key).and_then(as_str)` and `as_u64`.
pub record Value : Type 0 where
  pub text : Str → Option Str
  pub number : Str → Option ℕ

-- The claims of a verified device token. An expiry before 1970 does not get past the decoding.
pub record DeviceClaims : Type 0 where
  pub sub : Str
  pub exp : ℕ
  pub role : Str

pub record ClientDevice : Type 0 where
  pub id : ℕ
  pub group_id : Option ℕ

pub record Claims : Type 0 where
  pub subject : Str
  pub name : Str
  pub expiry : ℕ

pub record JwtConfig : Type 0 where
  pub public_key : Str
  pub subject_claim : Str
  pub name_claim : Str

pub data DeviceTokenError : Type 0 where
  jwt device_not_found missing_public_key database_error : DeviceTokenError

-- What becomes of a request: it is refused, or goes on with an extension.
pub data Outcome : Type 0 where
  refused : StatusCode → Outcome
  with_device : ClientDevice → Outcome
  with_user : Claims → Outcome

abbrev pub max_token_lifetime : ℕ
max_token_lifetime = 300

-- `strip_prefix`
unfoldable pub strip_prefix : Str → Str → Option Str
strip_prefix [] s = some s
strip_prefix (p ∷ ps) [] = none
strip_prefix (p ∷ ps) (x ∷ s) = let rest = strip_prefix ps s in if p == x then rest else none

abbrev pub bearer : Str
bearer = codes "Bearer "

abbrev pub token_of : Option Str → Option Str
token_of none = none
token_of (some header) = strip_prefix bearer header

abbrev pub is_text : Option Str → Str → Bool
is_text none t = false
is_text (some s) t = str_eq s t

abbrev pub is_device_token : Value → Bool
is_device_token claims = is_text (claims.text (codes "role")) (codes "device")

-- `replace("\\n", "\n")`: a backslash and an `n` become a line break. The flag is a backslash before.
unfoldable pub unescape_after : Bool → Str → Str
unescape_after false [] = []
unescape_after true [] = 92 ∷ []
unescape_after false (x ∷ s) =
    let rest = unescape_after (x == 92) s in if x == 92 then rest else x ∷ rest
unescape_after true (x ∷ s) =
    let rest = unescape_after (x == 92) s in
    if x == 110 then 10 ∷ rest else if x == 92 then 92 ∷ rest else 92 ∷ x ∷ rest

unfoldable pub unescape : Str → Str
unfolding unescape_after
unescape s = unescape_after false s

module _ (insecure_decode : Str → Option Value) (decode_device : Str → Str → Option DeviceClaims)
    (decode_user : Str → Str → Option Value) (t : Devices) (now : ℕ) where
  open t use {Conn}

  abbrev pub checked_lifetime : Device → Option DeviceClaims → Result DeviceTokenError ClientDevice
  checked_lifetime d none = err jwt
  checked_lifetime d (some claims) =
      if ltb (now + 10 + max_token_lifetime) claims.exp
      then err jwt
      else ok (record { id = d.id; group_id = d.group_id })

  abbrev pub checked_key : Str → Device → Option Str → Result DeviceTokenError ClientDevice
  checked_key token d none = err missing_public_key
  checked_key token d (some key) = checked_lifetime d (decode_device (unescape key) token)

  abbrev pub checked_device :
      Str → Result DbErr (Option Device) → Result DeviceTokenError ClientDevice
  checked_device token (err e) = err database_error
  checked_device token (ok none) = err device_not_found
  checked_device token (ok (some d)) = checked_key token d d.public_key

  abbrev pub checked_subject : Str → Conn → Option Str → Result DeviceTokenError ClientDevice
  checked_subject token c none = err jwt
  checked_subject token c (some uuid) = checked_device token (get_device_by_uuid t uuid c).0

  -- `device::validate_token`
  unfoldable pub validate_device_token : Str → Value → Conn → Result DeviceTokenError ClientDevice
  unfolding get_device_by_uuid unescape
  validate_device_token token claims c = checked_subject token c (claims.text (codes "sub"))

  abbrev pub user_claims : Option Str → Option Str → Option ℕ → Option Claims
  user_claims (some subject) (some name) (some expiry) =
      some (record { subject = subject; name = name; expiry = expiry })
  user_claims _ _ _ = none

  abbrev pub extracted : JwtConfig → Option Value → Option Claims
  extracted config none = none
  extracted config (some payload) =
      user_claims (payload.text config.subject_claim) (payload.text config.name_claim)
        (payload.number (codes "exp"))

  -- `user::validate_token`
  unfoldable pub validate_user_token : Str → JwtConfig → Option Claims
  validate_user_token token config = extracted config (decode_user config.public_key token)

  abbrev pub device_outcome : Result DeviceTokenError ClientDevice → Outcome
  device_outcome (ok d) = with_device d
  device_outcome (err device_not_found) = refused im_a_teapot
  device_outcome (err jwt) = refused unauthorized
  device_outcome (err missing_public_key) = refused unauthorized
  device_outcome (err database_error) = refused unauthorized

  -- The upsert of the user and the session variable of PostgreSQL, as statements.
  module _ (upsert_user : Claims → Conn → Result DbErr (ℕ × Conn))
      (set_audit_user : ℕ → Conn → Result DbErr Conn) (is_postgres : Bool) where
    abbrev pub session_set : Claims → Conn → Result DbErr Conn → Outcome × Conn
    session_set claims c (ok c') = (with_user claims, c')
    session_set claims c (err e) = (refused internal_server_error, c)

    abbrev pub set_pg_session_user : ℕ → Conn → Result DbErr Conn
    set_pg_session_user user c = if is_postgres then set_audit_user user c else ok c

    abbrev pub upserted : Claims → Conn → Result DbErr (ℕ × Conn) → Outcome × Conn
    upserted claims c (ok (user, c')) = session_set claims c' (set_pg_session_user user c')
    upserted claims c (err e) = (refused internal_server_error, c)

    abbrev pub user_outcome : Conn → Option Claims → Outcome × Conn
    user_outcome c none = (refused unauthorized, c)
    user_outcome c (some claims) = upserted claims c (upsert_user claims c)

    abbrev pub decoded : JwtConfig → Str → Conn → Option Value → Outcome × Conn
    decoded config token c none = (refused unauthorized, c)
    decoded config token c (some claims) =
        if is_device_token claims
        then (device_outcome (validate_device_token token claims c), c)
        else user_outcome c (validate_user_token token config)

    abbrev pub with_token : JwtConfig → Conn → Option Str → Outcome × Conn
    with_token config c none = (refused unauthorized, c)
    with_token config c (some token) = decoded config token c (insecure_decode token)

    unfoldable pub jwt_middleware : JwtConfig → Option Str → Conn → Outcome × Conn
    unfolding validate_device_token validate_user_token strip_prefix
    jwt_middleware config header c = with_token config c (token_of header)

-- The extractors that stand before the routes of devices and of users.
abbrev pub auth_device : Outcome → Result StatusCode ClientDevice
auth_device (refused status) = err status
auth_device (with_device d) = ok d
auth_device (with_user claims) = err unauthorized

abbrev pub auth_user : Outcome → Result StatusCode (Unit {0})
auth_user (refused status) = err status
auth_user (with_device d) = err unauthorized
auth_user (with_user claims) = ok tt
