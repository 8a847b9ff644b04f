-- ===== src/Examples/Auth.antt =====
-- Requests with a device's and with a user's token.
use amos2026ss01_zero_downti.Prelude.{
  ℕ, ◌≡◌, refl, ◌++◌, true, false, Option, some, none, List, [], ◌∷◌, Result, ok, if◌then◌else◌,
}
use amos2026ss01_zero_downti.Prelude.Text.{Str, str_eq, codes}
use amos2026ss01_zero_downti.Db.Table.{DbErr, find_one}
use amos2026ss01_zero_downti.Db.Devices.{
  Devices, Device, Columns, Stores, id_of, with_columns, get_device_by_uuid,
}
use amos2026ss01_zero_downti.Auth.{
  Value, DeviceClaims, ClientDevice, Claims, JwtConfig, with_user, bearer, strip_prefix, unescape,
  unescape_after, validate_device_token, validate_user_token, jwt_middleware, auth_device,
  auth_user,
}
use amos2026ss01_zero_downti.Auth.Verified.{IsTokenOf, auth_device-jwt_middleware}
use amos2026ss01_zero_downti.Auth.Users.{IsSignedFor, auth_user-jwt_middleware}
use amos2026ss01_zero_downti.Examples.Memory.{memory}

abbrev pub inserted : Columns → ℕ → Device
inserted a i = with_columns a (record {
  id = i;
  uuid = [];
  public_key = none;
  serial_number = [];
  tenant_id = 0;
  group_id = none;
})

abbrev pub in_memory : Devices
in_memory = memory Stores id_of inserted (λ a i. refl) (λ a i. refl) (λ a c. false)

abbrev pub pump : Device
pump = record {
  id = 4;
  uuid = codes "u4";
  public_key = some (codes "key");
  serial_number = codes "s4";
  tenant_id = 1;
  group_id = some 2;
}

-- A token is the uuid of its device or, for a user, "me".
abbrev pub claims_of : Str → Option Value
claims_of token = some (record {
  text = λ key.
      if str_eq key (codes "role")
      then (if str_eq token (codes "me") then none else some (codes "device"))
      else some token;
  number = λ key. some 900;
})

abbrev pub verified_device : Str → Str → Option DeviceClaims
verified_device key token = some (record { sub = token; exp = 1200; role = codes "device" })

abbrev pub verified_user : Str → Str → Option Value
verified_user key token = claims_of token

abbrev config : JwtConfig
config = record {
  public_key = codes "server";
  subject_claim = codes "sub";
  name_claim = codes "name";
}

abbrev upsert : Claims → List Device → Result DbErr (ℕ × List Device)
upsert claims c = ok (1, c)

abbrev set_user : ℕ → List Device → Result DbErr (List Device)
set_user user c = ok c

abbrev client : ClientDevice
client = record { id = 4; group_id = some 2 }

passed_device :
    auth_device
      (jwt_middleware claims_of verified_device verified_user in_memory 1000 upsert set_user true
        config
        (some (codes "Bearer u4"))
        (pump ∷ [])).0
    ≡ ok client
unfolding jwt_middleware strip_prefix str_eq unescape unescape_after validate_device_token
    get_device_by_uuid find_one
passed_device = refl

auth_device-jwt_middleware_example :
    (token : Str) × (some (codes "Bearer u4") ≡ some (bearer ++ token))
    × IsTokenOf claims_of verified_device verified_user in_memory 1000 token (pump ∷ []) client
auth_device-jwt_middleware_example =
    auth_device-jwt_middleware claims_of verified_device verified_user in_memory 1000 upsert
      set_user true config (some (codes "Bearer u4")) (pump ∷ []) client passed_device

passed_user :
    auth_user
      (jwt_middleware claims_of verified_device verified_user in_memory 1000 upsert set_user true
        config
        (some (codes "Bearer me"))
        (pump ∷ [])).0
    ≡ ok tt
unfolding jwt_middleware strip_prefix str_eq validate_user_token
passed_user = refl

auth_user-jwt_middleware_example :
    (token : Str) × (claims : Claims) × (some (codes "Bearer me") ≡ some (bearer ++ token))
    × ((jwt_middleware claims_of verified_device verified_user in_memory 1000 upsert set_user true
          config
          (some (codes "Bearer me"))
          (pump ∷ [])).0
        ≡ with_user claims)
    × IsSignedFor claims_of verified_device verified_user in_memory 1000 upsert set_user true config
        token claims
auth_user-jwt_middleware_example =
    auth_user-jwt_middleware claims_of verified_device verified_user in_memory 1000 upsert set_user
      true config (some (codes "Bearer me")) (pump ∷ []) passed_user
