-- ===== src/Examples/DeviceToken.antt =====
-- The tokens of one device, and a signing that fails.
use amos2026ss01_zero_downti.Prelude.{ℕ, ◌+◌, ◌≡◌, ◌≤◌, refl, inl, some, [], ok, err, arith}
use amos2026ss01_zero_downti.Prelude.Text.{Str, codes}
use amos2026ss01_zero_downti.Auth.{DeviceClaims, checked_lifetime}
use amos2026ss01_zero_downti.DeviceToken.{
  Signer, DeviceJwtProvider, claims_for, seconds, as_secs, token, new,
}
use amos2026ss01_zero_downti.DeviceToken.Fresh.{
  IsConsistent, IsSigned, token-IsAccepted, token-stale,
}
use amos2026ss01_zero_downti.Examples.Auth.{
  in_memory, pump, claims_of, verified_device, verified_user,
}

abbrev pub tpm : Signer
tpm = record {
  header_json = codes "h";
  claims_json = λ (c : DeviceClaims). c.sub;
  base64 = λ (s : Str). s;
  sign_data = λ (time : ℕ) (s : Str). ok (codes "s");
}

abbrev broken_tpm : Signer
broken_tpm = record tpm { sign_data = λ (time : ℕ) (s : Str). err (codes "busy") }

abbrev pub first_token : Str
first_token = codes "h.d1.s"

abbrev pub provided : DeviceJwtProvider
provided = record { current_token = first_token; expire_time = seconds 1301 }

first_run : token tpm (seconds 1000) (seconds 1001) (codes "d1") new ≡ (ok first_token, provided)
unfolding token
first_run = refl

abbrev broken : DeviceJwtProvider
broken = record { current_token = []; expire_time = seconds 1301 }

broken_run :
    token broken_tpm (seconds 1000) (seconds 1001) (codes "d1") new ≡ (err (codes "busy"), broken)
unfolding token
broken_run = refl

token-IsAccepted_example :
    IsConsistent tpm (codes "d1") (seconds 1001) provided
    × IsSigned tpm (codes "d1") first_token (seconds 1301)
    × (as_secs (seconds 1000) + 30 ≤ 1301)
    × (checked_lifetime claims_of verified_device verified_user in_memory 995 pump
          (some (claims_for (codes "d1") (seconds 1301)))
        ≡ ok (record { id = pump.id; group_id = pump.group_id }))
token-IsAccepted_example =
    token-IsAccepted tpm (codes "d1") claims_of verified_device verified_user in_memory
      (seconds 1000) (seconds 1001) 995 first_token pump new provided (omega arith) (omega arith)
      (inl refl) first_run

token-stale_example :
    token broken_tpm (seconds 1100) (seconds 1100) (codes "d1") broken ≡ (ok [], broken)
token-stale_example =
    token-stale broken_tpm (codes "d1") (seconds 1000) (seconds 1001) (codes "busy") new broken
      (seconds 1100) (seconds 1100) broken_run (omega arith)
