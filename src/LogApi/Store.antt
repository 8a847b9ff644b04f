-- ===== src/LogApi/Store.antt =====
-- The TimescaleDB tables of the logs: the table as SeaORM presents it, and the insertion of a
-- device's entries (api-server/src/api_v1/ts_db/device_logs.rs and application_logs.rs).
use amos2026ss01_zero_downti.Prelude.{
  ℕ, suc, ◌*◌, ◌≡◌, ◌↔◌, Bool, true, Option, some, none, List, [], ◌∷◌, ◌++◌, filter, length, take,
  drop, Memᴰ, Result, ok, err,
}
use amos2026ss01_zero_downti.Prelude.Text.{Str}
use amos2026ss01_zero_downti.Logs.{LogLevel}
use amos2026ss01_zero_downti.Logs.Events.{DeviceLog, ApplicationLog}
use amos2026ss01_zero_downti.Db.Table.{DbErr, Db}

-- `fetch_page` cuts its page from `ordered`, which lists the selected rows by descending time. Rows
-- of one time may stand differently in it from page to page. A statement that fails changes
-- nothing.
pub record LogTable (Row : Type 0) : Type 1 where
  pub Conn : Type 0
  pub rows : Conn → List Row
  pub insert_many : List Row → Conn → Result DbErr Conn
  pub num_items : (Row → Bool) → Conn → Result DbErr ℕ
  pub fetch_page :
      (time : Row → ℕ) (p : Row → Bool) (page_size page : ℕ) → Conn → Result DbErr (List Row)
  pub ordered : (time : Row → ℕ) (p : Row → Bool) (page_size page : ℕ) → Conn → List Row
  pub insert_many_rows :
      {rs : List Row} {c c' : Conn} → insert_many rs c ≡ ok c' → rows c' ≡ rows c ++ rs
  pub num_items_length :
      {p : Row → Bool} {c : Conn} {n : ℕ} → num_items p c ≡ ok n → n ≡ length (filter p (rows c))
  pub fetch_page_ordered :
      {time : Row → ℕ} {p : Row → Bool} {page_size page : ℕ} {c : Conn} {rs : List Row}
      → fetch_page time p page_size page c ≡ ok rs
      → rs ≡ take page_size (drop (page * page_size) (ordered time p page_size page c))
  pub ordered_length :
      (time : Row → ℕ) (p : Row → Bool) (page_size page : ℕ) (c : Conn)
      → length (ordered time p page_size page c) ≡ length (filter p (rows c))
  pub ordered_mem :
      (time : Row → ℕ) (p : Row → Bool) (page_size page : ℕ) (c : Conn) (x : Row)
      → Memᴰ x (ordered time p page_size page c) ↔ (Memᴰ x (rows c) × (p x ≡ true))

pub record CreateEntry : Type 0 where
  pub time : Option ℕ
  pub level : LogLevel
  pub message : Str
  pub source : Option Str

abbrev pub unwrap_or : Option ℕ → ℕ → ℕ
unwrap_or none n = n
unwrap_or (some t) n = t

-- `now_v7 i` and `now i` are the UUID and the time of the clock made for the entry of number `i`.
module _ (now_v7 now : ℕ → ℕ) where
  abbrev pub device_models : ℕ → ℕ → List CreateEntry → List DeviceLog
  device_models i device_id [] = []
  device_models i device_id (entry ∷ entries) =
      record {
        id = now_v7 i;
        time = unwrap_or entry.time (now i);
        device_id = device_id;
        level = entry.level;
        message = entry.message;
        source = entry.source;
      }
      ∷ device_models (suc i) device_id entries

  abbrev pub application_models : ℕ → ℕ → ℕ → List CreateEntry → List ApplicationLog
  application_models i device_id application_id [] = []
  application_models i device_id application_id (entry ∷ entries) =
      record {
        id = now_v7 i;
        time = unwrap_or entry.time (now i);
        device_id = device_id;
        application_id = application_id;
        level = entry.level;
        message = entry.message;
        source = entry.source;
      }
      ∷ application_models (suc i) device_id application_id entries

  module _ {Row : Type 0} (t : LogTable Row) where
    open t use {Conn, insert_many}

    abbrev pub stored : List Row → Conn → Result DbErr Conn → Result DbErr (List Row) × Conn
    stored models c (ok c') = (ok models, c')
    stored models c (err e) = (err e, c)

  unfoldable pub insert_device_log_entries :
      (t : LogTable DeviceLog) → ℕ → List CreateEntry → Db (LogTable.Conn t) (List DeviceLog)
  insert_device_log_entries t device_id entries c =
      let models = device_models 0 device_id entries in stored t models c (t.insert_many models c)

  unfoldable pub insert_application_log_entries :
      (t : LogTable ApplicationLog)
      → ℕ
      → ℕ
      → List CreateEntry
      → Db (LogTable.Conn t) (List ApplicationLog)
  insert_application_log_entries t device_id application_id entries c =
      let models = application_models 0 device_id application_id entries in
      stored t models c (t.insert_many models c)
