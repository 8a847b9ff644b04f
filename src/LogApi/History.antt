-- ===== src/LogApi/History.antt =====
-- The historic logs: ts_db/mod.rs, ts_db/device_logs.rs, ts_db/application_logs.rs and the two
-- listing handlers of routes/logs.rs (api-server/src/api_v1/).
pub mod Agrees
pub mod Walk
use amos2026ss01_zero_downti.Prelude.{
  ℕ, Bool, true, false, not, ◌&&◌, Option, some, none, List, [], ◌∷◌, filter, any, Result, ok, err,
  ltb, leb, ◌==◌, if◌then◌else◌,
}
use amos2026ss01_zero_downti.Prelude.Text.{Str}
use amos2026ss01_zero_downti.Logs.{LogLevel, trace, debug, info, warn, error, fatal}
use amos2026ss01_zero_downti.Logs.Events.{DeviceLog, ApplicationLog, LogQuery, lower, same_level}
use amos2026ss01_zero_downti.Db.Table.{DbErr, Db, ◌>>=◌, pure, read}
use amos2026ss01_zero_downti.Routes.{
  Response, answer, success, db_err, pagination_err, PageParams, to_db_page, validate, Page,
  new_page,
}
use amos2026ss01_zero_downti.LogApi.Store.{LogTable}

-- The levels that are listed in a column filter, since their texts do not sort by severity.
unfoldable pub levels_at_least : LogLevel → List LogLevel
levels_at_least min =
    filter (λ level. not (lower level min)) (trace ∷ debug ∷ info ∷ warn ∷ error ∷ fatal ∷ [])

abbrev pub is_in : List LogLevel → LogLevel → Bool
is_in levels level = any (λ l. same_level l level) levels

-- The filters, each added if its parameter is given.
abbrev pub of_number : Option ℕ → ℕ → Bool
of_number none n = true
of_number (some m) n = n == m

abbrev pub of_level : Option LogLevel → LogLevel → Bool
of_level none level = true
of_level (some min_level) level = is_in (levels_at_least min_level) level

abbrev pub not_before : Option ℕ → ℕ → Bool
not_before none time = true
not_before (some from) time = leb from time

abbrev pub not_after : Option ℕ → ℕ → Bool
not_after none time = true
not_after (some to) time = leb time to

abbrev pub device_log_filter : Option ℕ → Option LogLevel → Option ℕ → Option ℕ → DeviceLog → Bool
device_log_filter device min_level from to row =
    of_number device row.device_id
    && (of_level min_level row.level && (not_before from row.time && not_after to row.time))

abbrev pub application_log_filter :
    Option ℕ → Option ℕ → Option LogLevel → Option ℕ → Option ℕ → ApplicationLog → Bool
application_log_filter device application min_level from to row =
    of_number device row.device_id
    && (of_number application row.application_id
        && (of_level min_level row.level && (not_before from row.time && not_after to row.time)))

unfoldable pub list_device_logs :
    (t : LogTable DeviceLog)
    → Option ℕ
    → Option LogLevel
    → Option ℕ
    → Option ℕ
    → (page page_size : ℕ) → Db (LogTable.Conn t) (List DeviceLog × ℕ)
list_device_logs t device min_level from to page page_size =
    let query = device_log_filter device min_level from to in
    do
      total_items ← read (t.num_items query)
      entries ← read (t.fetch_page (λ r. r.time) query page_size page)
      pure (entries, total_items)

unfoldable pub list_application_logs :
    (t : LogTable ApplicationLog)
    → Option ℕ
    → Option ℕ
    → Option LogLevel
    → Option ℕ
    → Option ℕ
    → (page page_size : ℕ) → Db (LogTable.Conn t) (List ApplicationLog × ℕ)
list_application_logs t device application min_level from to page page_size =
    let query = application_log_filter device application min_level from to in
    do
      total_items ← read (t.num_items query)
      entries ← read (t.fetch_page (λ r. r.time) query page_size page)
      pure (entries, total_items)

abbrev pub paged : {A : Type 0} → PageParams → Result DbErr (List A × ℕ) → Response (Page A)
paged page (ok (entries, total)) = answer success (new_page entries page.page page.page_size total)
paged page (err e) = db_err e

abbrev pub if_valid : {A : Type 0} → Result Str (Unit {0}) → Response A → Response A
if_valid (ok u) r = r
if_valid (err e) r = pagination_err e

-- GET /logs/devices and GET /logs/applications
unfoldable pub get_device_logs :
    (t : LogTable DeviceLog) → PageParams → LogQuery → LogTable.Conn t → Response (Page DeviceLog)
unfolding list_device_logs validate
get_device_logs t page params c = if_valid (validate page) (
    paged page
      (list_device_logs t params.device_id params.level params.from params.to (to_db_page page)
        page.page_size c).0)

unfoldable pub get_application_logs :
    (t : LogTable ApplicationLog)
    → PageParams
    → LogQuery
    → LogTable.Conn t
    → Response (Page ApplicationLog)
unfolding list_application_logs validate
get_application_logs t page params c = if_valid (validate page) (
    paged page
      (list_application_logs t params.device_id params.application_id params.level params.from
        params.to (to_db_page page) page.page_size c).0)
