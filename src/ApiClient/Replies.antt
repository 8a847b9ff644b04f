-- ===== src/ApiClient/Replies.antt =====
-- What a request through the client comes to: the first reply, and the registration after a 418.
use amos2026ss01_zero_downti.Prelude.{
  inr, inl, ℕ, ◌+◌, ◌≤◌, ◌≡◌, refl, sym, ap, ◌∙◌, true, false, Option, some, none, [], ◌∷◌, ◌++◌,
  Result, ok, err, ◌==◌, Bool-cases, arith, append_assoc,
}
use amos2026ss01_zero_downti.Prelude.Text.{Str}
use amos2026ss01_zero_downti.Auth.{token_of, strip_prefix}
use amos2026ss01_zero_downti.DeviceToken.{as_secs, token, claims_for}
use amos2026ss01_zero_downti.DeviceToken.Fresh.{IsConsistent, IsSigned, token-IsKept}
use amos2026ss01_zero_downti.ApiClient.{
  Method, Reply, Error, unreachable, responded, Outside, ApiClient, is_success, sent, reply,
  registered, register_request, register_self, checked_success, after_registration, replied,
  request_for, with_token, req,
}

teapot : (res : Reply) → (res.status == 418) ≡ true → is_success res ≡ false
teapot res h = ground arith

module _ (o : Outside) where
  checked_success-ok :
      (endpoint : Str) (res res' : Reply)
      → checked_success o endpoint res ≡ ok res'
      → (res ≡ res') × (is_success res ≡ true)
  checked_success-ok endpoint res res' h = elim (Bool-cases (is_success res)) [
    | inl e ↦ let h' : ok res ≡ ok res' = rw e at h in (cc, e)
    | inr e ↦ let h' : err (responded res.status endpoint) ≡ ok res' = rw e at h in absurd cc
  ]

  replied-ok :
      (endpoint : Str) (c c' : ApiClient) (r : Option Reply) (res : Reply)
      → replied o endpoint c r ≡ (ok res, c')
      → (r ≡ some res) × (c ≡ c') × (is_success res ≡ true)
  unfolding replied
  replied-ok endpoint c c' none res h =
      let h' : ◌≡◌ {A = Result Error Reply × ApiClient} (err unreachable, c) (ok res, c') = h in
      absurd cc
  replied-ok endpoint c c' (some r) res h = elim (Bool-cases (r.status == 418)) [
    | inl e ↦
        let h' : after_registration o endpoint r (register_self o c) ≡ (ok res, c') = rw e at h in
        let (_, fine) = checked_success-ok endpoint r res (registered-ok _ h') in
        let not_fine : is_success r ≡ false = teapot r e in absurd cc
    | inr e ↦
        let h' : ◌≡◌ {A = Result Error Reply × ApiClient} (checked_success o endpoint r, c)
            (ok res, c') =
          rw e at h in
        let (same, fine) =
          checked_success-ok endpoint r res (ap (λ (x : Result Error Reply × ApiClient). x.0) h') in
        let is : is_success res ≡ true = cc in
        (ap some same, ap (λ (x : Result Error Reply × ApiClient). x.1) h', is)
  ]
    where
      registered-ok :
          (x : Result Error (Unit {0}) × ApiClient)
          → after_registration o endpoint r x ≡ (ok res, c')
          → checked_success o endpoint r ≡ ok res
      registered-ok (err e, d) q = absurd cc
      registered-ok (ok u, d) q = ap (λ (x : Result Error Reply × ApiClient). x.0) q

  -- What a success comes to: one request was sent, with the token, and this is its reply.
  abbrev pub IsAnswered : Method → Str → Option Str → Str → ApiClient → ApiClient → Reply → Type 0
  IsAnswered method endpoint body t c c' res =
      (c'.requests ≡ c.requests ++ request_for o c method endpoint body t ∷ [])
      × (o.send c'.requests ≡ some res)
      × (is_success res ≡ true)

  with_token-ok :
      (method : Method) (endpoint : Str) (body : Option Str) (c c' : ApiClient) (r : Result Str Str)
      (res : Reply)
      → with_token o method endpoint body c r ≡ (ok res, c')
      → (t : Str) × (r ≡ ok t)
        × IsAnswered method endpoint body t c c' res
        × (c.jwt_provider ≡ c'.jwt_provider)
  with_token-ok method endpoint body c c' (err e) res h = absurd cc
  with_token-ok method endpoint body c c' (ok t) res h =
      let c1 = sent (request_for o c method endpoint body t) c in
      let (told, same, fine) = replied-ok endpoint c1 c' (reply o c1) res h in
      let there : o.send c'.requests ≡ some res =
        ap (λ (d : ApiClient). o.send d.requests) (sym same) ∙ told in
      (
        t,
        refl,
        (ap (λ (d : ApiClient). d.requests) (sym same), there, fine),
        ap (λ (d : ApiClient). d.jwt_provider) same,
      )

  pub req-ok :
      (now later : ℕ) (method : Method) (endpoint : Str) (body : Option Str) (c c' : ApiClient)
      (res : Reply)
      → req o now later method endpoint body c ≡ (ok res, c')
      → (t : Str) × IsAnswered method endpoint body t c c' res
        × (token o.signer now later c.device_uuid c.jwt_provider ≡ (ok t, c'.jwt_provider))
  unfolding req
  req-ok now later method endpoint body c c' res h =
      let provided = token o.signer now later c.device_uuid c.jwt_provider in
      let (t, signed, answered, kept) =
        with_token-ok method endpoint body (record c { jwt_provider = provided.1 }) c' provided.0
          res h in
      (t, answered, λ i. (signed i, kept i))

  -- If there is no token yet, or the kept one was signed for the kept expiry, which is at most the
  -- lifetime ahead: each request that succeeds through the client did so by its first and only reply,
  -- and was authorized by a token, which the server reads from it, that is signed for an expiry at
  -- least thirty seconds ahead; the condition holds afterwards.
  pub req-IsAnswered :
      (now later : ℕ) (method : Method) (endpoint : Str) (body : Option Str) (c c' : ApiClient)
      (res : Reply)
      → now ≤ later
      → IsConsistent o.signer c.device_uuid now c.jwt_provider
      → req o now later method endpoint body c ≡ (ok res, c')
      → (t : Str) × IsAnswered method endpoint body t c c' res
        × (token_of (request_for o c method endpoint body t).authorization ≡ some t)
        × IsConsistent o.signer c.device_uuid later c'.jwt_provider
        × IsSigned o.signer c.device_uuid t c'.jwt_provider.expire_time
        × (as_secs now + 30 ≤ (claims_for c.device_uuid c'.jwt_provider.expire_time).exp)
  unfolding strip_prefix
  req-IsAnswered now later method endpoint body c c' res order consistent h =
      let (t, answered, gave) = req-ok now later method endpoint body c c' res h in
      let (consistent', is, enough, short) =
        token-IsKept o.signer c.device_uuid now later t c.jwt_provider c'.jwt_provider order
          consistent gave in
      (t, answered, refl, consistent', is, enough)

  after_registration-err :
      (endpoint : Str) (res : Reply) (c : ApiClient) (r : Result Error (Unit {0}))
      → is_success res ≡ false
      → (e : Error) × (after_registration o endpoint res (r, c) ≡ (err e, c))
  after_registration-err endpoint res c (err e) fails = (e, refl)
  after_registration-err endpoint res c (ok u) fails = (responded res.status endpoint, rw fails)

  replied-registers :
      (endpoint endorsement_pubkey signing_pubkey : Str) (c : ApiClient) (res : Reply)
      → res.status ≡ 418
      → o.endorsement_key c.requests ≡ ok endorsement_pubkey
      → o.signing_key c.requests ≡ ok signing_pubkey
      → (e : Error) × (replied o endpoint c (some res)
          ≡ (err e, sent (register_request o c endorsement_pubkey signing_pubkey) c))
  unfolding replied register_self
  replied-registers endpoint endorsement_pubkey signing_pubkey c res unknown endorsement signing =
      let is : (res.status == 418) ≡ true = ap (λ (n : ℕ). n == 418) unknown in
      let c' = sent (register_request o c endorsement_pubkey signing_pubkey) c in
      let (e, fails) =
        after_registration-err endpoint res c' (registered o (reply o c')) (teapot res is) in
      (e, rw (is, endorsement, signing, fails))

  -- After a first reply of 418, when the keys can be read, the client sends one registration and no
  -- second request, and the call fails whatever the registration is answered.
  pub req-teapot :
      (now later : ℕ) (method : Method) (endpoint : Str) (body : Option Str) (c : ApiClient)
      (t endorsement_pubkey signing_pubkey : Str) (res : Reply)
      → (token o.signer now later c.device_uuid c.jwt_provider).0 ≡ ok t
      → o.send (c.requests ++ request_for o c method endpoint body t ∷ []) ≡ some res
      → res.status ≡ 418
      → o.endorsement_key (c.requests ++ request_for o c method endpoint body t ∷ [])
        ≡ ok endorsement_pubkey
      → o.signing_key (c.requests ++ request_for o c method endpoint body t ∷ [])
        ≡ ok signing_pubkey
      → (e : Error) × ((req o now later method endpoint body c).0 ≡ err e)
        × ((req o now later method endpoint body c).1.requests
            ≡ c.requests
              ++ request_for o c method endpoint body t
                ∷ register_request o c endorsement_pubkey signing_pubkey
                ∷ [])
  unfolding req register_self replied
  req-teapot now later method endpoint body c t endorsement_pubkey signing_pubkey res signed first
        unknown endorsement signing =
      let p = (token o.signer now later c.device_uuid c.jwt_provider).1 in
      let c1 = sent (request_for o c method endpoint body t) (record c { jwt_provider = p }) in
      let first_reply : req o now later method endpoint body c ≡ replied o endpoint c1 (some res) =
        rw (signed, first) in
      let (e, told) =
        replied-registers endpoint endorsement_pubkey signing_pubkey c1 res unknown endorsement
          signing in
      let ends = first_reply ∙ told in
      (
        e,
        ap (λ (x : Result Error Reply × ApiClient). x.0) ends,
        ap (λ (x : Result Error Reply × ApiClient). x.1.requests) ends
            ∙ append_assoc c.requests (request_for o c method endpoint body t ∷ []) _,
      )
