-- ===== src/LogApi/History/Agrees.antt =====
-- The historic listings of api-server/src/api_v1/ts_db/ select what the live stream of
-- routes/logs.rs selects.
use amos2026ss01_zero_downti.Prelude.{
  ℕ, ◌≡◌, ◌≤◌, ◌↔◌, refl, Bool, true, false, ◌&&◌, Option, some, none, arith,
}
use amos2026ss01_zero_downti.Logs.{LogLevel, trace, debug, info, warn, error, fatal}
use amos2026ss01_zero_downti.Logs.Events.{
  DeviceLog, ApplicationLog, LogKind, of_device, of_application, severity,
}
use amos2026ss01_zero_downti.LogApi.{matches}
use amos2026ss01_zero_downti.LogApi.Filter.{IfGiven, matches_iff}
use amos2026ss01_zero_downti.LogApi.History.{
  levels_at_least, is_in, of_number, of_level, not_before, not_after, device_log_filter,
  application_log_filter,
}

severity_max : (l : LogLevel) → severity l ≤ 5
severity_max trace = omega arith
severity_max debug = omega arith
severity_max info = omega arith
severity_max warn = omega arith
severity_max error = omega arith
severity_max fatal = omega arith

-- The listed levels are those of at least the given severity.
levels_at_least_iff :
    (min l : LogLevel) → (is_in (levels_at_least min) l ≡ true) ↔ (severity min ≤ severity l)
unfolding levels_at_least
levels_at_least_iff trace l = ground (arith, severity_max l)
levels_at_least_iff debug l = ground (arith, severity_max l)
levels_at_least_iff info l = ground (arith, severity_max l)
levels_at_least_iff warn l = ground (arith, severity_max l)
levels_at_least_iff error l = ground (arith, severity_max l)
levels_at_least_iff fatal l = ground (arith, severity_max l)

of_number_iff : (o : Option ℕ) (n : ℕ) → (of_number o n ≡ true) ↔ IfGiven o (λ m. n ≡ m)
of_number_iff none n = ground arith
of_number_iff (some m) n = ground arith

of_level_iff :
    (o : Option LogLevel) (l : LogLevel)
    → (of_level o l ≡ true) ↔ IfGiven o (λ m. severity m ≤ severity l)
of_level_iff none l = ground arith
of_level_iff (some m) l = levels_at_least_iff m l

not_before_iff : (o : Option ℕ) (n : ℕ) → (not_before o n ≡ true) ↔ IfGiven o (λ t. t ≤ n)
not_before_iff none n = ground arith
not_before_iff (some m) n = ground arith

not_after_iff : (o : Option ℕ) (n : ℕ) → (not_after o n ≡ true) ↔ IfGiven o (λ t. n ≤ t)
not_after_iff none n = ground arith
not_after_iff (some m) n = ground arith

and_iff :
    {P Q : Type 0} (a b : Bool) → (a ≡ true) ↔ P → (b ≡ true) ↔ Q → ((a && b) ≡ true) ↔ (P × Q)
and_iff true b (p, p') (q, q') = (λ h. (p refl, q h), λ (x, y). q' y)
and_iff false b (p, p') (q, q') = (λ h. absurd (cc), λ (x, y). p' x)

some_iff : (o : Option ℕ) (n : ℕ) → IfGiven o (λ m. n ≡ m) ↔ IfGiven o (λ m. some n ≡ some m)
some_iff none n = ground arith
some_iff (some m) n = (λ h. cc, λ h. cc)

-- A device's log that is stored is listed for the given parameters exactly when the live stream
-- would have sent it for the same device, the same least severity and the kind `device`, and its
-- time is within the given range.
pub device_log_filter-matches :
    (device : Option ℕ) (min_level : Option LogLevel) (from to : Option ℕ) (row : DeviceLog)
    → (device_log_filter device min_level from to row ≡ true) ↔ (
        (matches (of_device row) device none min_level (some LogKind.device) ≡ true)
        × IfGiven from (λ t. t ≤ row.time)
        × IfGiven to (λ t. row.time ≤ t))
device_log_filter-matches device min_level from to row =
    let (into, out) = and_iff _ _ (of_number_iff device row.device_id) (
      and_iff _ _ (of_level_iff min_level row.level)
        (and_iff _ _ (not_before_iff from row.time) (not_after_iff to row.time))) in
    let (sent, is_sent) = matches_iff (of_device row) device none min_level (some LogKind.device) in
    (
      λ h. let (d, (l, (f, t))) = into h in (is_sent (refl, d, tt, l), f, t),
      λ (h, f, t). let (k, d, a, l) = sent h in out (d, (l, (f, t))),
    )

-- The same of an application's log, with the application as a parameter more.
pub application_log_filter-matches :
    (device application : Option ℕ) (min_level : Option LogLevel) (from to : Option ℕ)
    (row : ApplicationLog)
    → (application_log_filter device application min_level from to row ≡ true) ↔ (
        (matches (of_application row) device application min_level (some LogKind.application)
          ≡ true)
        × IfGiven from (λ t. t ≤ row.time)
        × IfGiven to (λ t. row.time ≤ t))
application_log_filter-matches device application min_level from to row =
    let (into, out) = and_iff _ _ (of_number_iff device row.device_id) (
      and_iff _ _ (of_number_iff application row.application_id) (
        and_iff _ _ (of_level_iff min_level row.level)
          (and_iff _ _ (not_before_iff from row.time) (not_after_iff to row.time)))) in
    let (sent, is_sent) =
      matches_iff (of_application row) device application min_level (some LogKind.application) in
    let (named, is_named) = some_iff application row.application_id in
    (
      λ h. let (d, (a, (l, (f, t)))) = into h in (is_sent (refl, d, named a, l), f, t),
      λ (h, f, t). let (k, d, a, l) = sent h in out (d, (is_named a, (l, (f, t)))),
    )
