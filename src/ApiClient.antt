-- ===== src/ApiClient.antt =====
-- The client of the API (orchestrator/src/api_client.rs), after its construction. HTTP, JSON and the
-- reading of the keys out of the TPM are parameters; what they answer is a function of the requests
-- sent so far.
pub mod Replies
pub mod Endpoints
use amos2026ss01_zero_downti.Prelude.{
  ℕ, Bool, true, false, Option, some, none, List, [], ◌∷◌, ◌++◌, Result, ok, err, ltb, leb, ◌==◌,
  if◌then◌else◌, ◌&&◌,
}
use amos2026ss01_zero_downti.Prelude.Text.{Str, codes}
use amos2026ss01_zero_downti.Auth.{bearer}
use amos2026ss01_zero_downti.Registration.{PostBody}
use amos2026ss01_zero_downti.DeviceToken.{Signer, DeviceJwtProvider, token}

pub data Method : Type 0 where
  get post put : Method

pub record Request : Type 0 where
  pub method : Method
  pub url : Str
  pub authorization : Option Str
  pub json : Option Str

pub record Reply : Type 0 where
  pub status : ℕ
  pub text : Str

-- The contexts and messages of the errors.
pub data Error : Type 0 where
  signer_failed : Str → Error
  unreachable : Error
  registration_refused : ℕ → Error
  responded : ℕ → Str → Error
  unexpected : Str → Error

pub record Outside : Type 0 where
  pub signer : Signer
  -- The answer to the last of the requests, or none if it failed.
  pub send : List Request → Option Reply
  pub endorsement_key : List Request → Result Str Str
  pub signing_key : List Request → Result Str Str
  pub to_json : PostBody → Str

pub record ApiClient : Type 0 where
  pub base_url : Str
  pub device_uuid : Str
  pub serial_number : Str
  pub jwt_provider : DeviceJwtProvider
  -- All that was sent.
  pub requests : List Request

abbrev pub is_success : Reply → Bool
is_success r = leb 200 r.status && ltb r.status 300

abbrev pub sent : Request → ApiClient → ApiClient
sent r c = record c { requests = c.requests ++ r ∷ [] }

module _ (o : Outside) where
  -- `send`, the request being on record first.
  abbrev pub reply : ApiClient → Option Reply
  reply c = o.send c.requests

  abbrev pub register_request : ApiClient → Str → Str → Request
  register_request c endorsement_pubkey signing_pubkey = record {
    method = post;
    url = c.base_url ++ codes "/register";
    authorization = none;
    json = some (
        o.to_json (record {
          uuid = c.device_uuid;
          serial_number = c.serial_number;
          endorsement_public_key = endorsement_pubkey;
          signing_public_key = signing_pubkey;
        }));
  }

  abbrev pub registered : Option Reply → Result Error (Unit {0})
  registered none = err unreachable
  registered (some res) = if is_success res then ok tt else err (registration_refused res.status)

  abbrev pub with_keys :
      ApiClient → Result Str Str → Result Str Str → Result Error (Unit {0}) × ApiClient
  with_keys c (err e) signing_pubkey = (err (signer_failed e), c)
  with_keys c (ok endorsement_pubkey) (err e) = (err (signer_failed e), c)
  with_keys c (ok endorsement_pubkey) (ok signing_pubkey) =
      let c' = sent (register_request c endorsement_pubkey signing_pubkey) c in
      (registered (reply c'), c')

  unfoldable pub register_self : ApiClient → Result Error (Unit {0}) × ApiClient
  register_self c = with_keys c (o.endorsement_key c.requests) (o.signing_key c.requests)

  abbrev pub checked_success : Str → Reply → Result Error Reply
  checked_success endpoint res =
      if is_success res then ok res else err (responded res.status endpoint)

  abbrev pub after_registration :
      Str → Reply → Result Error (Unit {0}) × ApiClient → Result Error Reply × ApiClient
  after_registration endpoint res (err e, c) = (err e, c)
  after_registration endpoint res (ok _, c) = (checked_success endpoint res, c)

  unfoldable pub replied : Str → ApiClient → Option Reply → Result Error Reply × ApiClient
  unfolding register_self
  replied endpoint c none = (err unreachable, c)
  replied endpoint c (some res) =
      if res.status == 418
      then after_registration endpoint res (register_self c)
      else (checked_success endpoint res, c)

  abbrev pub request_for : ApiClient → Method → Str → Option Str → Str → Request
  request_for c method endpoint body current_token = record {
    method = method;
    url = c.base_url ++ endpoint;
    authorization = some (bearer ++ current_token);
    json = body;
  }

  abbrev pub with_token :
      Method → Str → Option Str → ApiClient → Result Str Str → Result Error Reply × ApiClient
  with_token method endpoint body c (err e) = (err (signer_failed e), c)
  with_token method endpoint body c (ok current_token) =
      let c' = sent (request_for c method endpoint body current_token) c in
      replied endpoint c' (reply c')

  -- The times are those of the call of `token`.
  unfoldable pub req :
      ℕ → ℕ → Method → Str → Option Str → ApiClient → Result Error Reply × ApiClient
  unfolding token
  req now later method endpoint body c =
      let provided = token o.signer now later c.device_uuid c.jwt_provider in
      with_token method endpoint body (record c { jwt_provider = provided.1 }) provided.0

  abbrev pub no_reply : Result Error Reply × ApiClient → Result Error (Unit {0}) × ApiClient
  no_reply (ok res, c) = (ok tt, c)
  no_reply (err e, c) = (err e, c)

  unfoldable pub post_json : ℕ → ℕ → Str → Str → ApiClient → Result Error (Unit {0}) × ApiClient
  unfolding req
  post_json now later endpoint body c = no_reply (req now later post endpoint (some body) c)

  unfoldable pub put_json :
      ℕ → ℕ → Str → Option Str → ApiClient → Result Error (Unit {0}) × ApiClient
  unfolding req
  put_json now later endpoint body c = no_reply (req now later put endpoint body c)

  module _ {T : Type 0} (deserialize : Str → Option T) where
    abbrev pub deserialized : Str → Option T → Result Error T
    deserialized endpoint none = err (unexpected endpoint)
    deserialized endpoint (some x) = ok x

    abbrev pub got_json : Str → Result Error Reply × ApiClient → Result Error T × ApiClient
    got_json endpoint (ok res, c) = (deserialized endpoint (deserialize res.text), c)
    got_json endpoint (err e, c) = (err e, c)

    unfoldable pub get_json : ℕ → ℕ → Str → ApiClient → Result Error T × ApiClient
    unfolding req
    get_json now later endpoint c = got_json endpoint (req now later get endpoint none c)
