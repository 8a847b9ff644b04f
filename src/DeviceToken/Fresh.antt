-- ===== src/DeviceToken/Fresh.antt =====
-- Whether the token that a device sends is one that the server takes.
use amos2026ss01_zero_downti.Prelude.{
  some, Option, subst, ℕ, ◌+◌, ◌≤◌, ◌≡◌, refl, sym, ap, ◌∙◌, false, ◌⊎◌, inl, inr, Result, ok, err,
  ltb, Bool-cases, arith,
}
use amos2026ss01_zero_downti.Prelude.Text.{Str}
use amos2026ss01_zero_downti.Auth.{checked_lifetime, Value, DeviceClaims, max_token_lifetime}
use amos2026ss01_zero_downti.Db.Devices.{Devices, Device}
use amos2026ss01_zero_downti.DeviceToken.{
  Signer, create_signed_jwt, seconds, as_secs, refresh_before, DeviceJwtProvider, claims_for,
  refreshed, token,
}

module _ (signer : Signer) (device_uuid : Str) where
  -- The token was signed with the expiry that is kept beside it.
  abbrev pub IsSigned : Str → ℕ → Type 0
  IsSigned t expire_time =
      (time : ℕ) × (create_signed_jwt signer time device_uuid expire_time ≡ ok t)

  -- So was the token that is kept, not longer than its lifetime ahead; or there is none yet.
  abbrev pub IsConsistent : ℕ → DeviceJwtProvider → Type 0
  IsConsistent time p =
      (p.expire_time ≡ 0)
      ⊎ (IsSigned p.current_token p.expire_time
          × (p.expire_time ≤ time + seconds max_token_lifetime))

  refreshed-ok :
      (p p' : DeviceJwtProvider) (r : Result Str Str) (t : Str)
      → refreshed signer p r ≡ (ok t, p')
      → (r ≡ ok t) × (record p { current_token = t } ≡ p')
  refreshed-ok p p' (ok u) t h =
      let same : ok u ≡ ok t = ap (λ (x : Result Str Str × DeviceJwtProvider). x.0) h in
      let kept : record p { current_token = u } ≡ p' =
        ap (λ (x : Result Str Str × DeviceJwtProvider). x.1) h in
      let is : u ≡ t = cc in
      (same, ap (λ (v : Str). record p { current_token = v }) (sym is) ∙ kept)
  refreshed-ok p p' (err e) t h = cc

  -- The token is the kept one, and good for as long as it has to be.
  abbrev pub IsFresh : ℕ → ℕ → Str → DeviceJwtProvider → Type 0
  IsFresh now later t p =
      (p.current_token ≡ t)
      × IsSigned t p.expire_time
      × (now + refresh_before ≤ p.expire_time)
      × (p.expire_time ≤ later + seconds max_token_lifetime)

  not_below : (a b : ℕ) → ltb a b ≡ false → b ≤ a
  not_below a b h = ground arith

  not_above : (a b : ℕ) → b ≤ a → ltb a b ≡ false
  not_above a b h = ground arith

  refreshed-err :
      (p p' : DeviceJwtProvider) (r : Result Str Str) (e : Str)
      → refreshed signer p r ≡ (err e, p')
      → p ≡ p'
  refreshed-err p p' (ok u) e h = cc
  refreshed-err p p' (err u) e h = ap (λ (x : Result Str Str × DeviceJwtProvider). x.1) h

  token-IsFresh :
      (now later : ℕ) (t : Str) (p p' : DeviceJwtProvider)
      → now ≤ later
      → IsConsistent now p
      → token signer now later device_uuid p ≡ (ok t, p')
      → IsFresh now later t p'
  unfolding token
  token-IsFresh now later t p p' order consistent h =
      elim (Bool-cases (ltb p.expire_time (now + refresh_before))) [
        | inl e ↦
            let expire_time = later + seconds max_token_lifetime in
            let h' : refreshed signer (record p { expire_time = expire_time })
                  (create_signed_jwt signer later device_uuid expire_time)
                ≡ (ok t, p') =
              rw e at h in
            let (signed, is) = refreshed-ok (record p { expire_time = expire_time }) p' _ t h' in
            subst (IsFresh now later t) is (refl, (later, signed), omega arith, omega arith)
        | inr e ↦
            let h' : ◌≡◌ {A = Result Str Str × DeviceJwtProvider} (ok p.current_token, p)
                (ok t, p') =
              rw e at h in
            let told : ok p.current_token ≡ ok t =
              ap (λ (x : Result Str Str × DeviceJwtProvider). x.0) h' in
            let is : p.current_token ≡ t = cc in
            subst (IsFresh now later t) (ap (λ (x : Result Str Str × DeviceJwtProvider). x.1) h')
              (kept consistent (not_below p.expire_time (now + refresh_before) e) is)
      ]
    where
      kept :
          IsConsistent now p
          → now + refresh_before ≤ p.expire_time
          → p.current_token ≡ t
          → IsFresh now later t p
      kept (inl none_yet) enough is = absurd (omega arith)
      kept (inr ((time, signed), short)) enough is =
          (is, (time, signed ∙ ap ok is), enough, omega arith)

  pub token-IsKept :
      (now later : ℕ) (t : Str) (p p' : DeviceJwtProvider)
      → now ≤ later
      → IsConsistent now p
      → token signer now later device_uuid p ≡ (ok t, p')
      → IsConsistent later p'
        × IsSigned t p'.expire_time
        × (as_secs now + 30 ≤ (claims_for device_uuid p'.expire_time).exp)
        × (p'.expire_time ≤ later + seconds max_token_lifetime)
  token-IsKept now later t p p' order consistent h =
      let (same, signed, enough, short) = token-IsFresh now later t p p' order consistent h in
      let kept : IsSigned p'.current_token p'.expire_time =
        subst (λ (v : Str). IsSigned v p'.expire_time) (sym same) signed in
      (inr (kept, short), signed, omega arith, short)

  -- If there is no token yet, or the kept one was signed for the kept expiry, which is at most the
  -- lifetime ahead: a call that succeeds keeps this so; its token is signed for an expiry at least
  -- thirty seconds ahead, and the check of the lifetime on the server lets that expiry pass if the
  -- clock of the device is not more than ten seconds ahead of the server's.
  pub token-IsAccepted :
      (insecure_decode : Str → Option Value) (decode_device : Str → Str → Option DeviceClaims)
      (decode_user : Str → Str → Option Value) (table : Devices) (now later arrival : ℕ) (t : Str)
      (d : Device) (p p' : DeviceJwtProvider)
      → now ≤ later
      → as_secs later ≤ arrival + 10
      → IsConsistent now p
      → token signer now later device_uuid p ≡ (ok t, p')
      → IsConsistent later p'
        × IsSigned t p'.expire_time
        × (as_secs now + 30 ≤ (claims_for device_uuid p'.expire_time).exp)
        × (checked_lifetime insecure_decode decode_device decode_user table arrival d
              (some (claims_for device_uuid p'.expire_time))
            ≡ ok (record { id = d.id; group_id = d.group_id }))
  token-IsAccepted insecure_decode decode_device decode_user table now later arrival t d p p' order
        clocks consistent h =
      let (kept, signed, enough, short) = token-IsKept now later t p p' order consistent h in
      let lasts : ltb (arrival + 10 + max_token_lifetime) (as_secs p'.expire_time) ≡ false =
        not_above _ _ (omega arith) in
      (kept, signed, enough, rw lasts)

  -- After a call that fails, the next one, up to thirty seconds before the new expiry, succeeds with
  -- the old token and changes nothing.
  pub token-stale :
      (now later : ℕ) (e : Str) (p p' : DeviceJwtProvider) (now2 later2 : ℕ)
      → token signer now later device_uuid p ≡ (err e, p')
      → now2 + refresh_before ≤ later + seconds max_token_lifetime
      → token signer now2 later2 device_uuid p' ≡ (ok p.current_token, p')
  unfolding token
  token-stale now later e p p' now2 later2 h soon =
      elim (Bool-cases (ltb p.expire_time (now + refresh_before))) [
        | inl due ↦
            let expire_time = later + seconds max_token_lifetime in
            let h' : refreshed signer (record p { expire_time = expire_time })
                  (create_signed_jwt signer later device_uuid expire_time)
                ≡ (err e, p') =
              rw due at h in
            subst
              (λ (q : DeviceJwtProvider).
                token signer now2 later2 device_uuid q ≡ (ok p.current_token, q))
              (refreshed-err (record p { expire_time = expire_time }) p' _ e h')
              (rw (not_above expire_time (now2 + refresh_before) soon))
        | inr fresh ↦
            let h' : ◌≡◌ {A = Result Str Str × DeviceJwtProvider} (ok p.current_token, p)
                (err e, p') =
              rw fresh at h in
            absurd cc
      ]
