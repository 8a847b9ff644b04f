-- ===== src/Examples/LogApi.antt =====
-- Logs that are filtered, posted and listed.
use amos2026ss01_zero_downti.Prelude.{
  if◌then◌else◌, ap, arith, ltb, ◌*◌, ◌-◌, ℕ, suc, ◌≡◌, ◌≤◌, ◌↔◌, refl, true, false, some, none,
  List, [], ◌∷◌, length, Memᴰ, ok, err, take, drop,
}
use amos2026ss01_zero_downti.Prelude.Text.{codes}
use amos2026ss01_zero_downti.Logs.{LogLevel, info, warn, error, PostBodyItem}
use amos2026ss01_zero_downti.Logs.Events.{DeviceLog, ApplicationLog, LogQuery, LogKind, of_device}
use amos2026ss01_zero_downti.Routes.{
  page_too_low, StatusCode, answer, success, Page, new_page, validate,
}
use amos2026ss01_zero_downti.LogApi.{matches}
use amos2026ss01_zero_downti.LogApi.Filter.{IfGiven}
use amos2026ss01_zero_downti.LogApi.Store.{LogTable}
use amos2026ss01_zero_downti.LogApi.Publish.{World, post, IsAnswered, post-IsAnswered}
use amos2026ss01_zero_downti.LogApi.History.{
  if_valid, get_device_logs, list_device_logs, levels_at_least, device_log_filter,
}
use amos2026ss01_zero_downti.LogApi.History.Agrees.{device_log_filter-matches}
use amos2026ss01_zero_downti.LogApi.History.Walk.{query, entries_of, get_device_logs-walk}
use amos2026ss01_zero_downti.Examples.LogTable.{log_table}

abbrev entry : ℕ → LogLevel → DeviceLog
entry time level = record {
  id = 100;
  time = time;
  device_id = 7;
  level = level;
  message = codes "disk";
  source = none;
}

abbrev of_nginx : ApplicationLog
of_nginx = record {
  id = 101;
  time = 20;
  device_id = 7;
  application_id = 3;
  level = error;
  message = codes "down";
  source = none;
}

device_log_filter-matches_example :
    (device_log_filter (some 7) (some warn) (some 10) none (entry 20 error) ≡ true) ↔ (
      (matches (of_device (entry 20 error)) (some 7) none (some warn) (some LogKind.device) ≡ true)
      × IfGiven (some 10) (λ t. t ≤ 20)
      × IfGiven none (λ t. 20 ≤ t))
device_log_filter-matches_example =
    device_log_filter-matches (some 7) (some warn) (some 10) none (entry 20 error)

abbrev item : PostBodyItem
item = record { time = some 20; level = warn; message = codes "disk"; source = none }

abbrev nothing_yet : World log_table log_table
nothing_yet = record { device_logs = []; application_logs = []; published = [] }

abbrev posted : StatusCode × World log_table log_table
posted = post (λ i. i) (λ i. 50) log_table log_table 7 none (item ∷ item ∷ []) nothing_yet

post-IsAnswered_example :
    IsAnswered log_table log_table 7 none (item ∷ item ∷ []) nothing_yet posted.0 posted.1
post-IsAnswered_example =
    post-IsAnswered (λ i. i) (λ i. 50) log_table log_table 7 none (item ∷ item ∷ []) nothing_yet

abbrev table : LogTable DeviceLog
table = log_table

abbrev three_rows : List DeviceLog
three_rows = entry 20 warn ∷ entry 30 error ∷ entry 40 info ∷ entry 50 warn ∷ []

abbrev severe : LogQuery
severe = record {
  device_id = some 7;
  application_id = none;
  level = some warn;
  from = none;
  to = none;
}

abbrev answers : ℕ → Page DeviceLog
answers i =
    new_page (take 2 (drop ((suc i - 1) * 2) (entry 50 warn ∷ entry 30 error ∷ entry 20 warn ∷ [])))
      (suc i) 2 3

answered :
    (i : ℕ)
    → get_device_logs table (record { page = suc i; page_size = 2 }) severe three_rows
      ≡ answer success (answers i)
unfolding get_device_logs list_device_logs levels_at_least new_page validate
answered i =
    let e : ltb (suc i) 1 ≡ false = ground arith in
    ap (λ b. if_valid (if b then err page_too_low else ok tt) (answer success (answers i))) e

get_device_logs-walk_example :
    (length (entries_of answers (answers 0).total_pages) ≡ (answers 0).total_items)
    × ((x : DeviceLog)
        → Memᴰ x (entries_of answers (answers 0).total_pages)
          ↔ (Memᴰ x three_rows × (query table severe three_rows x ≡ true)))
get_device_logs-walk_example =
    get_device_logs-walk table severe three_rows 2 answers answered (λ i. refl)
