-- ===== src/LogApi/Publish.antt =====
-- POST /device/logs (api-server/src/api_v1/routes/device/logs.rs) and the events that it publishes
-- (api-server/src/api_v1/log_stream.rs).
use amos2026ss01_zero_downti.Prelude.{
  map-append, append_assoc, append-nil, subst, ℕ, suc, ◌≡◌, refl, sym, ap, ◌∙◌, ◌⊎◌, inl, inr,
  Option, some, none, List, [], ◌∷◌, ◌++◌, map, Result, ok, err,
}
use amos2026ss01_zero_downti.Prelude.Text.{Str}
use amos2026ss01_zero_downti.Logs.{PostBodyItem}
use amos2026ss01_zero_downti.Logs.Events.{
  DeviceLog, ApplicationLog, LogEvent, of_device, of_application, device_id, application_id, level,
}
use amos2026ss01_zero_downti.Db.Table.{DbErr}
use amos2026ss01_zero_downti.Routes.{StatusCode, created, internal_server_error}
use amos2026ss01_zero_downti.LogApi.Filter.{IfGiven}
use amos2026ss01_zero_downti.LogApi.Store.{
  LogTable, CreateEntry, device_models, application_models, stored, insert_device_log_entries,
  insert_application_log_entries, unwrap_or,
}

abbrev pub create_entries : List PostBodyItem → List CreateEntry
create_entries [] = []
create_entries (item ∷ items) =
    record { time = item.time; level = item.level; message = item.message; source = item.source }
    ∷ create_entries items

-- The two tables, and what was sent on the broadcast channel.
pub record World (devices : LogTable DeviceLog) (applications : LogTable ApplicationLog)
    : Type 0 where
  pub device_logs : LogTable.Conn devices
  pub application_logs : LogTable.Conn applications
  pub published : List LogEvent

module _ {devices : LogTable DeviceLog} {applications : LogTable ApplicationLog} where
  -- `for row in rows { publish(row) }`
  abbrev pub publish : List LogEvent → World devices applications → World devices applications
  publish [] w = w
  publish (event ∷ events) w = publish events (record w { published = w.published ++ event ∷ [] })

  abbrev pub device_result :
      Result DbErr (List DeviceLog) × LogTable.Conn devices
      → World devices applications
      → StatusCode × World devices applications
  device_result (ok rows, c) w =
      (created, publish (map of_device rows) (record w { device_logs = c }))
  device_result (err e, c) w = (internal_server_error, record w { device_logs = c })

  abbrev pub application_result :
      Result DbErr (List ApplicationLog) × LogTable.Conn applications
      → World devices applications
      → StatusCode × World devices applications
  application_result (ok rows, c) w =
      (created, publish (map of_application rows) (record w { application_logs = c }))
  application_result (err e, c) w = (internal_server_error, record w { application_logs = c })

-- The device is the one that the request's token names.
module _ (now_v7 now : ℕ → ℕ) (devices : LogTable DeviceLog)
    (applications : LogTable ApplicationLog) where
  unfoldable pub post :
      ℕ
      → Option ℕ
      → List PostBodyItem
      → World devices applications
      → StatusCode × World devices applications
  unfolding insert_device_log_entries insert_application_log_entries
  post device (some app_id) body w =
      application_result
        (insert_application_log_entries now_v7 now applications device app_id (create_entries body)
          w.application_logs)
        w
  post device none body w =
      device_result
        (insert_device_log_entries now_v7 now devices device (create_entries body) w.device_logs) w

-- An event that tells of the item, with the device of the token and the application of the query.
abbrev pub message_of : LogEvent → Str
message_of (of_device m) = m.message
message_of (of_application m) = m.message

abbrev pub source_of : LogEvent → Option Str
source_of (of_device m) = m.source
source_of (of_application m) = m.source

abbrev pub time_of : LogEvent → ℕ
time_of (of_device m) = m.time
time_of (of_application m) = m.time

abbrev pub Tells : ℕ → Option ℕ → PostBodyItem → LogEvent → Type 0
Tells device application item e =
    (device_id e ≡ device)
    × (application_id e ≡ application)
    × (level e ≡ item.level)
    × (message_of e ≡ item.message)
    × (source_of e ≡ item.source)
    × IfGiven item.time (λ t. time_of e ≡ t)

abbrev pub AllTell : ℕ → Option ℕ → List PostBodyItem → List LogEvent → Type 0
AllTell device application [] [] = Unit
AllTell device application (item ∷ items) (e ∷ events) =
    Tells device application item e × AllTell device application items events
AllTell device application _ _ = ⊥

module _ (devices : LogTable DeviceLog) (applications : LogTable ApplicationLog) where
  -- What a history of the logs would show.
  abbrev pub device_events : World devices applications → List LogEvent
  device_events w = map of_device (devices.rows w.device_logs)

  abbrev pub application_events : World devices applications → List LogEvent
  application_events w = map of_application (applications.rows w.application_logs)

  abbrev pub HasStored :
      Option ℕ → List LogEvent → World devices applications → World devices applications → Type 0
  HasStored none events w w' =
      (device_events w' ≡ device_events w ++ events) × (w'.application_logs ≡ w.application_logs)
  HasStored (some a) events w w' =
      (application_events w' ≡ application_events w ++ events) × (w'.device_logs ≡ w.device_logs)

  -- Stored and published, or neither.
  abbrev pub IsAnswered :
      ℕ
      → Option ℕ
      → List PostBodyItem
      → World devices applications
      → StatusCode
      → World devices applications
      → Type 0
  IsAnswered device application body w status w' =
      ((status ≡ created)
        × ((events : List LogEvent) × AllTell device application body events
            × HasStored application events w w'
            × (w'.published ≡ w.published ++ events)))
      ⊎ ((status ≡ internal_server_error) × (w' ≡ w))

  publish-published :
      (events : List LogEvent) (w : World devices applications)
      → publish events w ≡ record w { published = w.published ++ events }
  publish-published [] w = λ i. record w { published = sym (append-nil w.published) i }
  publish-published (e ∷ events) w =
      publish-published events (record w { published = w.published ++ e ∷ [] })
      ∙ (λ i. record w { published = append_assoc w.published (e ∷ []) events i })

module _ (now_v7 now : ℕ → ℕ) where
  device_models-AllTell :
      (i device : ℕ) (body : List PostBodyItem)
      → AllTell device none body
          (map of_device (device_models now_v7 now i device (create_entries body)))
  device_models-AllTell i device [] = tt
  device_models-AllTell i device (item ∷ items) =
      ((refl, refl, refl, refl, refl, given item.time), device_models-AllTell (suc i) device items)
    where
      given : (time : Option ℕ) → IfGiven time (λ t. unwrap_or time (now i) ≡ t)
      given none = tt
      given (some t) = refl

  application_models-AllTell :
      (i device app_id : ℕ) (body : List PostBodyItem)
      → AllTell device
          (some app_id)
          body
          (map of_application (application_models now_v7 now i device app_id (create_entries body)))
  application_models-AllTell i device app_id [] = tt
  application_models-AllTell i device app_id (item ∷ items) = (
    (refl, refl, refl, refl, refl, given item.time),
    application_models-AllTell (suc i) device app_id items,
  )
    where
      given : (time : Option ℕ) → IfGiven time (λ t. unwrap_or time (now i) ≡ t)
      given none = tt
      given (some t) = refl

module _ (now_v7 now : ℕ → ℕ) (devices : LogTable DeviceLog)
    (applications : LogTable ApplicationLog) where
  device_result-IsAnswered :
      (device : ℕ) (body : List PostBodyItem) (w : World devices applications)
      (r : Result DbErr (LogTable.Conn devices))
      → devices.insert_many (device_models now_v7 now 0 device (create_entries body)) w.device_logs
        ≡ r
      → let a =
          device_result {applications = applications}
            (stored now_v7 now devices
              (device_models now_v7 now 0 device (create_entries body))
              w.device_logs
              r)
            w in
        IsAnswered devices applications device none body w a.0 a.1
  device_result-IsAnswered device body w (err e) h = inr (refl, refl)
  device_result-IsAnswered device body w (ok c) h =
      let models = device_models now_v7 now 0 device (create_entries body) in
      let events = map of_device models in
      let w' = record w { device_logs = c } in
      let all_stored =
        ap (map of_device) (devices.insert_many_rows h)
        ∙ map-append of_device (devices.rows w.device_logs) models in
      let (has_stored, sent) =
        subst
          (λ x.
            HasStored devices applications none events w x × (x.published ≡ w.published ++ events))
          (sym (publish-published devices applications events w')) ((all_stored, refl), refl) in
      inl (refl, (events, device_models-AllTell now_v7 now 0 device body, has_stored, sent))

  application_result-IsAnswered :
      (device app_id : ℕ) (body : List PostBodyItem) (w : World devices applications)
      (r : Result DbErr (LogTable.Conn applications))
      → applications.insert_many
          (application_models now_v7 now 0 device app_id (create_entries body))
          w.application_logs
        ≡ r
      → let a =
          application_result {devices = devices}
            (stored now_v7 now applications
              (application_models now_v7 now 0 device app_id (create_entries body))
              w.application_logs
              r)
            w in
        IsAnswered devices applications device (some app_id) body w a.0 a.1
  application_result-IsAnswered device app_id body w (err e) h = inr (refl, refl)
  application_result-IsAnswered device app_id body w (ok c) h =
      let models = application_models now_v7 now 0 device app_id (create_entries body) in
      let events = map of_application models in
      let w' = record w { application_logs = c } in
      let all_stored =
        ap (map of_application) (applications.insert_many_rows h)
        ∙ map-append of_application (applications.rows w.application_logs) models in
      let (has_stored, sent) =
        subst
          (λ x.
            HasStored devices applications (some app_id) events w x
            × (x.published ≡ w.published ++ events))
          (sym (publish-published devices applications events w')) ((all_stored, refl), refl) in
      inl (
        refl,
        (events, application_models-AllTell now_v7 now 0 device app_id body, has_stored, sent),
      )

  -- A device's request for logs either stores one row for each item of the body, in their order,
  -- with the device of the token and the application of the query, changes no other table and
  -- publishes exactly these rows, and is answered with 201, or it changes and publishes nothing
  -- and is answered with 500.
  pub post-IsAnswered :
      (device : ℕ) (application : Option ℕ) (body : List PostBodyItem)
      (w : World devices applications)
      → let r = post now_v7 now devices applications device application body w in
        IsAnswered devices applications device application body w r.0 r.1
  unfolding post
  post-IsAnswered device none body w =
      device_result-IsAnswered device body w
        (devices.insert_many (device_models now_v7 now 0 device (create_entries body))
          w.device_logs)
        refl
  post-IsAnswered device (some app_id) body w =
      application_result-IsAnswered device app_id body w
        (applications.insert_many
          (application_models now_v7 now 0 device app_id (create_entries body)) w.application_logs)
        refl
