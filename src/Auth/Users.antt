-- ===== src/Auth/Users.antt =====
-- The users that get past api-server/src/auth/.
use amos2026ss01_zero_downti.Prelude.{
  ◌≢◌, ℕ, ◌≡◌, refl, ◌≢◌, ◌⊎◌, sym, ap, Bool, true, false, Option, some, none, [], ◌∷◌, ◌++◌,
  Result, ok, err, ◌==◌, ==_iff, Bool-cases, inl, inr, arith,
}
use amos2026ss01_zero_downti.Prelude.Text.{Str, str_eq_iff, codes}
use amos2026ss01_zero_downti.Db.Table.{DbErr, Table}
use amos2026ss01_zero_downti.Db.Devices.{Devices}
use amos2026ss01_zero_downti.Routes.{internal_server_error}
use amos2026ss01_zero_downti.Auth.{
  Value, DeviceClaims, ClientDevice, Claims, JwtConfig, DeviceTokenError, jwt, device_not_found,
  missing_public_key, database_error, Outcome, refused, with_device, with_user, strip_prefix,
  bearer, token_of, is_text, is_device_token, user_claims, extracted, validate_user_token,
  device_outcome, session_set, set_pg_session_user, upserted, user_outcome, decoded, with_token,
  jwt_middleware, auth_user,
}

strip_prefix-some : (p s rest : Str) → strip_prefix p s ≡ some rest → s ≡ p ++ rest
unfolding strip_prefix
strip_prefix-some [] s rest h = cc
strip_prefix-some (p ∷ ps) [] rest h = cc
strip_prefix-some (p ∷ ps) (x ∷ s) rest h = elim (Bool-cases (p == x)) [
  | inl e ↦
      let same : p ≡ x = (==_iff p x).0 e in
      let later : strip_prefix ps s ≡ some rest = ground (arith, e) in
      λ i. sym same i ∷ strip_prefix-some ps s rest later i
  | inr e ↦ absurd (ground (arith, e))
]

pub token_of-some :
    (header : Option Str) (token : Str)
    → token_of header ≡ some token
    → header ≡ some (bearer ++ token)
token_of-some none token h = cc
token_of-some (some header) token h = ap some (strip_prefix-some bearer header token h)

pub is_text-true : (o : Option Str) (t : Str) → is_text o t ≡ true → o ≡ some t
is_text-true none t h = cc
is_text-true (some s) t h = ap some ((str_eq_iff s t).0 h)

module _ (insecure_decode : Str → Option Value) (decode_device : Str → Str → Option DeviceClaims)
    (decode_user : Str → Str → Option Value) (t : Devices) (now : ℕ)
    (upsert_user : Claims → Table.Conn t → Result DbErr (ℕ × Table.Conn t))
    (set_audit_user : ℕ → Table.Conn t → Result DbErr (Table.Conn t)) (is_postgres : Bool) where
  open t use {Conn}

  -- The claims with which a user's request goes on.
  session-is :
      (claims : Claims) (c : Conn) (r : Result DbErr Conn) (o : Outcome)
      → (session_set insecure_decode decode_device decode_user t now upsert_user set_audit_user
          is_postgres claims c r).0
        ≡ o
      → (o ≡ with_user claims) ⊎ (o ≡ refused internal_server_error)
  session-is claims c (ok c') o h = inl (sym h)
  session-is claims c (err e) o h = inr (sym h)

  upserted-is :
      (claims : Claims) (c : Conn) (r : Result DbErr (ℕ × Conn)) (o : Outcome)
      → (upserted insecure_decode decode_device decode_user t now upsert_user set_audit_user
          is_postgres claims c r).0
        ≡ o
      → (o ≡ with_user claims) ⊎ (o ≡ refused internal_server_error)
  upserted-is claims c (ok (user, c')) o h =
      session-is claims c'
        (set_pg_session_user insecure_decode decode_device decode_user t now upsert_user
          set_audit_user is_postgres user c')
        o h
  upserted-is claims c (err e) o h = inr (sym h)

  pub user_outcome-device :
      (c : Conn) (o : Option Claims) (client : ClientDevice)
      → (user_outcome insecure_decode decode_device decode_user t now upsert_user set_audit_user
          is_postgres c o).0
        ≢ with_device client
  user_outcome-device c none client h = cc
  user_outcome-device c (some claims) client h =
      elim (upserted-is claims c (upsert_user claims c) (with_device client) h) [
        | inl e ↦ cc
        | inr e ↦ cc
      ]

  user_outcome-user :
      (c : Conn) (o : Option Claims) (claims : Claims)
      → (user_outcome insecure_decode decode_device decode_user t now upsert_user set_audit_user
          is_postgres c o).0
        ≡ with_user claims
      → o ≡ some claims
  user_outcome-user c none claims h = cc
  user_outcome-user c (some own) claims h =
      elim (upserted-is own c (upsert_user own c) (with_user claims) h) [ inl e ↦ cc | inr e ↦ cc ]

  outcome-no_user :
      (r : Result DeviceTokenError ClientDevice) (claims : Claims)
      → device_outcome insecure_decode decode_device decode_user t now r ≢ with_user claims
  outcome-no_user (ok d) claims h = cc
  outcome-no_user (err device_not_found) claims h = cc
  outcome-no_user (err jwt) claims h = cc
  outcome-no_user (err missing_public_key) claims h = cc
  outcome-no_user (err database_error) claims h = cc

  user_claims-some :
      (s n : Option Str) (e : Option ℕ) (claims : Claims)
      → user_claims insecure_decode decode_device decode_user t now s n e ≡ some claims
      → (s ≡ some claims.subject) × (n ≡ some claims.name) × (e ≡ some claims.expiry)
  user_claims-some (some s) (some n) (some e) claims h =
      let same : claims ≡ record { subject = s; name = n; expiry = e } = cc in
      (
        ap (λ (c : Claims). some c.subject) (sym same),
        ap (λ (c : Claims). some c.name) (sym same),
        ap (λ (c : Claims). some c.expiry) (sym same),
      )
  user_claims-some (some s) (some n) none claims h = cc
  user_claims-some (some s) none e claims h = cc
  user_claims-some none n e claims h = cc

  -- The token is one that was signed for this user.
  abbrev pub IsSignedFor : JwtConfig → Str → Claims → Type 0
  IsSignedFor config token claims =
      (unchecked : Value) × (payload : Value) × (insecure_decode token ≡ some unchecked)
      × (is_device_token unchecked ≡ false)
      × (decode_user config.public_key token ≡ some payload)
      × (payload.text config.subject_claim ≡ some claims.subject)
      × (payload.text config.name_claim ≡ some claims.name)
      × (payload.number (codes "exp") ≡ some claims.expiry)

  extracted-some :
      (config : JwtConfig) (o : Option Value) (claims : Claims)
      → extracted insecure_decode decode_device decode_user t now config o ≡ some claims
      → (payload : Value) × (o ≡ some payload)
        × (payload.text config.subject_claim ≡ some claims.subject)
        × (payload.text config.name_claim ≡ some claims.name)
        × (payload.number (codes "exp") ≡ some claims.expiry)
  extracted-some config none claims h = cc
  extracted-some config (some payload) claims h =
      let (s, n, e) = user_claims-some _ _ _ claims h in (payload, refl, s, n, e)

  decoded-user :
      (config : JwtConfig) (token : Str) (c : Conn) (o : Option Value) (claims : Claims)
      → insecure_decode token ≡ o
      → (decoded insecure_decode decode_device decode_user t now upsert_user set_audit_user
          is_postgres config token c o).0
        ≡ with_user claims
      → IsSignedFor config token claims
  unfolding validate_user_token
  decoded-user config token c none claims e h = cc
  decoded-user config token c (some v) claims e h = elim (Bool-cases (is_device_token v)) [
    | inl role ↦ let passed = rw role at h in absurd (outcome-no_user _ claims passed)
    | inr role ↦
        let passed = rw role at h in
        let valid = user_outcome-user c _ claims passed in
        let (payload, d, s, n, x) =
          extracted-some config (decode_user config.public_key token) claims valid in
        (v, payload, e, role, d, s, n, x)
  ]

  token-user :
      (config : JwtConfig) (c : Conn) (o : Option Str) (claims : Claims)
      → (with_token insecure_decode decode_device decode_user t now upsert_user set_audit_user
          is_postgres config c o).0
        ≡ with_user claims
      → (token : Str) × (o ≡ some token) × IsSignedFor config token claims
  token-user config c none claims h = cc
  token-user config c (some token) claims h =
      (token, refl, decoded-user config token c (insecure_decode token) claims refl h)

  auth_user-ok : (o : Outcome) → auth_user o ≡ ok tt → (claims : Claims) × (o ≡ with_user claims)
  auth_user-ok (refused status) h = cc
  auth_user-ok (with_device d) h = cc
  auth_user-ok (with_user claims) h = (claims, refl)

  -- A request that passes the extractor of the user routes has in its header a bearer token whose
  -- unchecked claims do not name the role `device` and that was verified under the key of the
  -- configuration; the subject, the name and the expiry that it goes on with are those of the
  -- verified claims.
  pub auth_user-jwt_middleware :
      (config : JwtConfig) (header : Option Str) (c : Conn)
      → auth_user
          (jwt_middleware insecure_decode decode_device decode_user t now upsert_user set_audit_user
            is_postgres config header c).0
        ≡ ok tt
      → (token : Str) × (claims : Claims) × (header ≡ some (bearer ++ token))
        × ((jwt_middleware insecure_decode decode_device decode_user t now upsert_user
              set_audit_user is_postgres config header c).0
            ≡ with_user claims)
        × IsSignedFor config token claims
  unfolding jwt_middleware
  auth_user-jwt_middleware config header c h =
      let (claims, passed) = auth_user-ok _ h in
      let (token, e, signed) = token-user config c (token_of header) claims passed in
      (token, claims, token_of-some header token e, passed, signed)
