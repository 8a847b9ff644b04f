-- ===== src/Examples/ApiClient.antt =====
-- A client whose device the server knows, and one whose device it does not know.
use amos2026ss01_zero_downti.Prelude.{
  ◌+◌, ◌≤◌, ◌≡◌, refl, inl, Option, some, none, List, [], ◌∷◌, ok, err, arith,
}
use amos2026ss01_zero_downti.Prelude.Text.{Str, codes}
use amos2026ss01_zero_downti.Auth.{token_of}
use amos2026ss01_zero_downti.Registration.{PostBody}
use amos2026ss01_zero_downti.DeviceToken.{as_secs, seconds, token, new}
use amos2026ss01_zero_downti.DeviceToken.Fresh.{IsConsistent, IsSigned}
use amos2026ss01_zero_downti.ApiClient.{
  replied, get, Request, Reply, Error, Outside, ApiClient, request_for, register_request, req,
}
use amos2026ss01_zero_downti.ApiClient.Replies.{IsAnswered, req-IsAnswered, req-teapot}
use amos2026ss01_zero_downti.Examples.DeviceToken.{tpm, first_token, provided}

abbrev assigned : Reply
assigned = record { status = 200; text = codes "7" }

abbrev unknown_device : Reply
unknown_device = record { status = 418; text = [] }

abbrev outside : (List Request → Option Reply) → Outside
outside send = record {
  signer = tpm;
  send = send;
  endorsement_key = λ (rs : List Request). ok (codes "e");
  signing_key = λ (rs : List Request). ok (codes "s");
  to_json = λ (b : PostBody). b.uuid;
}

abbrev known : Outside
known = outside (λ (rs : List Request). some assigned)

abbrev unknown : Outside
unknown = outside (λ (rs : List Request). some unknown_device)

abbrev client : ApiClient
client = record {
  base_url = codes "http://a";
  device_uuid = codes "d1";
  serial_number = codes "n1";
  jwt_provider = new;
  requests = [];
}

abbrev asked : Request
asked = request_for known client get (codes "/device/os") none first_token

abbrev answered : ApiClient
answered = record client { jwt_provider = provided; requests = asked ∷ [] }

answered_run :
    req known (seconds 1000) (seconds 1001) get (codes "/device/os") none client
    ≡ (ok assigned, answered)
unfolding req replied
answered_run = refl

signed_run : (token tpm (seconds 1000) (seconds 1001) (codes "d1") new).0 ≡ ok first_token
unfolding token
signed_run = refl

req-IsAnswered_example :
    (t : Str) × IsAnswered known get (codes "/device/os") none t client answered assigned
    × (token_of (request_for known client get (codes "/device/os") none t).authorization ≡ some t)
    × IsConsistent tpm (codes "d1") (seconds 1001) provided
    × IsSigned tpm (codes "d1") t (seconds 1301)
    × (as_secs (seconds 1000) + 30 ≤ 1301)
req-IsAnswered_example =
    req-IsAnswered known (seconds 1000) (seconds 1001) get (codes "/device/os") none client answered
      assigned (omega arith) (inl refl) answered_run

req-teapot_example :
    (e : Error) × ((req unknown
        (seconds 1000)
        (seconds 1001)
        get
        (codes "/device/os")
        none
        client).0
      ≡ err e)
    × ((req unknown (seconds 1000) (seconds 1001) get (codes "/device/os") none client).1.requests
        ≡ asked ∷ register_request unknown client (codes "e") (codes "s") ∷ [])
req-teapot_example =
    req-teapot unknown (seconds 1000) (seconds 1001) get (codes "/device/os") none client
      first_token (codes "e") (codes "s") unknown_device signed_run refl refl refl refl
