-- ===== src/DeviceToken.antt =====
-- The token of a device (orchestrator/src/util/device_jwt.rs). A time counts the nanoseconds since
-- 1970. JSON, Base64 and the TPM are a parameter.
pub mod Fresh
use amos2026ss01_zero_downti.Prelude.{
  ℕ, ◌+◌, ◌*◌, ◌/◌, ◌^◌, List, [], Result, ok, err, ltb, if◌then◌else◌, ◌++◌,
}
use amos2026ss01_zero_downti.Prelude.Text.{Str, codes}
use amos2026ss01_zero_downti.Auth.{DeviceClaims, max_token_lifetime}

abbrev pub seconds : ℕ → ℕ
seconds n = n * 1000000000

-- `as_secs()`
abbrev pub as_secs : ℕ → ℕ
as_secs time = time / 1000000000

abbrev pub refresh_before : ℕ
refresh_before = seconds 30

pub record DeviceJwtProvider : Type 0 where
  pub current_token : Str
  pub expire_time : ℕ

abbrev pub new : DeviceJwtProvider
new = record { current_token = []; expire_time = 0 }

abbrev pub claims_for : Str → ℕ → DeviceClaims
claims_for device_uuid expire_time = record {
  sub = device_uuid;
  exp = as_secs expire_time;
  role = codes "device";
}

-- What the code calls for a token: JSON, Base64, and the TPM, asked at a time, that signs or fails.
pub record Signer : Type 0 where
  pub header_json : Str
  pub claims_json : DeviceClaims → Str
  pub base64 : Str → Str
  pub sign_data : ℕ → Str → Result Str Str

abbrev pub dot : Str
dot = codes "."

module _ (signer : Signer) where
  abbrev pub with_signature : Str → Result Str Str → Result Str Str
  with_signature data_str (ok signature) = ok (data_str ++ dot ++ signer.base64 signature)
  with_signature data_str (err e) = err e

  abbrev pub create_signed_jwt : ℕ → Str → ℕ → Result Str Str
  create_signed_jwt time device_uuid expire_time =
      let header_b64 = signer.base64 signer.header_json in
      let claims_b64 = signer.base64 (signer.claims_json (claims_for device_uuid expire_time)) in
      let text = header_b64 ++ dot ++ claims_b64 in with_signature text (signer.sign_data time text)

  -- The new expiry is kept when the signing fails.
  abbrev pub refreshed : DeviceJwtProvider → Result Str Str → Result Str Str × DeviceJwtProvider
  refreshed p (ok t) = (ok t, record p { current_token = t })
  refreshed p (err e) = (err e, p)

  -- The clock is read twice: `now` for the test and `later` for the new expiry.
  unfoldable pub token : ℕ → ℕ → Str → DeviceJwtProvider → Result Str Str × DeviceJwtProvider
  token now later device_uuid p =
      let expire_time = later + seconds max_token_lifetime in
      if ltb p.expire_time (now + refresh_before)
      then refreshed (record p { expire_time = expire_time })
          (create_signed_jwt later device_uuid expire_time)
      else (ok p.current_token, p)
