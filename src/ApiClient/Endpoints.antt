-- ===== src/ApiClient/Endpoints.antt =====
-- The requests of the orchestrator (orchestrator/src/api_client.rs), by endpoint and body. The JSON
-- of the bodies and of the replies is a parameter. An uptime is an `i64`.
use amos2026ss01_zero_downti.Prelude.{ℕ, ◌≡◌, ap, Option, some, none, List, ◌++◌, Result, ok, err}
use amos2026ss01_zero_downti.Prelude.Text.{Str, codes}
use amos2026ss01_zero_downti.Podman.Decimal.{ℤ, IsI32, to_string, parse, parse-to_string}
use amos2026ss01_zero_downti.ApiClient.Replies.{IsAnswered, req-ok}
use amos2026ss01_zero_downti.ApiClient.{
  Method, Reply, no_reply, req, Error, Outside, ApiClient, post_json, put_json, get_json,
}

pub record Json (Entry Os Apps : Type 0) : Type 0 where
  pub ping : ℤ → Str
  pub os : ℤ → Str
  pub apps : List ℤ → Str
  pub logs : List Entry → Str
  pub os_reply : Str → Option Os
  pub apps_reply : Str → Option Apps

abbrev pub option_map : {A B : Type 0} → (A → B) → Option A → Option B
option_map f none = none
option_map f (some x) = some (f x)

module _ {Entry Os Apps : Type 0} (json : Json Entry Os Apps) (o : Outside) (now later : ℕ) where
  abbrev pub send_ping : Option ℤ → ApiClient → Result Error (Unit {0}) × ApiClient
  send_ping uptime_secs c =
      put_json o now later (codes "/device/ping") (option_map json.ping uptime_secs) c

  abbrev pub get_target_os_version : ApiClient → Result Error Os × ApiClient
  get_target_os_version c = get_json o json.os_reply now later (codes "/device/os") c

  abbrev pub report_current_os_assignment : ℤ → ApiClient → Result Error (Unit {0}) × ApiClient
  report_current_os_assignment os_version_id c =
      put_json o now later (codes "/device/os") (some (json.os os_version_id)) c

  abbrev pub get_target_application_configs : ApiClient → Result Error Apps × ApiClient
  get_target_application_configs c = get_json o json.apps_reply now later (codes "/device/apps") c

  abbrev pub report_current_application_assignment :
      List ℤ → ApiClient → Result Error (Unit {0}) × ApiClient
  report_current_application_assignment application_config_ids c =
      put_json o now later (codes "/device/apps") (some (json.apps application_config_ids)) c

  abbrev pub push_device_logs : List Entry → ApiClient → Result Error (Unit {0}) × ApiClient
  push_device_logs entries c = post_json o now later (codes "/device/logs") (json.logs entries) c

  abbrev pub application_logs : ℤ → Str
  application_logs application_id = codes "/device/logs?application_id=" ++ to_string application_id

  abbrev pub push_application_logs :
      ℤ → List Entry → ApiClient → Result Error (Unit {0}) × ApiClient
  push_application_logs application_id entries c =
      post_json o now later (application_logs application_id) (json.logs entries) c

  no_reply-ok :
      (r : Result Error Reply × ApiClient) (c' : ApiClient)
      → no_reply o r ≡ (ok tt, c')
      → (res : Reply) × (r ≡ (ok res, c'))
  no_reply-ok (ok res, c) c' h =
      (res, ap (λ (x : Result Error (Unit {0}) × ApiClient). (ok res, x.1)) h)
  no_reply-ok (err e, c) c' h = absurd cc

  -- A push of the logs of an application that succeeds has sent one POST of the entries, under a URL
  -- that ends with the digits of its id, which can be parsed again.
  push_application_logs-IsAnswered :
      (application_id : ℤ) (entries : List Entry) (c c' : ApiClient)
      → IsI32 application_id
      → push_application_logs application_id entries c ≡ (ok tt, c')
      → (t : Str) × (res : Reply) × (digits : Str) × IsAnswered o Method.post
          (codes "/device/logs?application_id=" ++ digits)
          (some (json.logs entries))
          t
          c
          c'
          res
        × (parse digits ≡ some application_id)
  unfolding post_json
  push_application_logs-IsAnswered application_id entries c c' small h =
      let (res, sent) =
        no_reply-ok
          (req o now later Method.post (application_logs application_id) (some (json.logs entries))
            c)
          c' h in
      let (t, answered, gave) =
        req-ok o now later Method.post (application_logs application_id) (some (json.logs entries))
          c c' res sent in
      (t, res, to_string application_id, answered, parse-to_string application_id small)
