-- ===== src/LogApi/Filter.antt =====
-- The filter of routes/logs.rs (api-server/src/api_v1/) against the conditions that it stands for.
use amos2026ss01_zero_downti.Prelude.{ℕ, ◌≡◌, ◌≤◌, ◌↔◌, true, false, Option, some, none, arith}
use amos2026ss01_zero_downti.Logs.{LogLevel}
use amos2026ss01_zero_downti.Logs.Events.{
  LogKind, LogEvent, of_device, of_application, device_id, application_id, level, severity,
}
use amos2026ss01_zero_downti.LogApi.{
  kind_of, other_kind, other_device, other_application, too_low, matches,
}

-- A filter that is given has the property.
abbrev pub IfGiven : {A : Type 0} → Option A → (A → Type 0) → Type 0
IfGiven none P = Unit
IfGiven (some a) P = P a

-- What the query parameters ask for.
abbrev pub IsSelected : LogEvent → Option ℕ → Option ℕ → Option LogLevel → Option LogKind → Type 0
IsSelected e device application min_level kind =
    IfGiven kind (λ k. kind_of e ≡ k)
    × IfGiven device (λ d. device_id e ≡ d)
    × IfGiven application (λ a. application_id e ≡ some a)
    × IfGiven min_level (λ m. severity m ≤ severity (level e))

other_kind_iff :
    (e : LogEvent) (kind : Option LogKind)
    → (other_kind e kind ≡ false) ↔ IfGiven kind (λ k. kind_of e ≡ k)
other_kind_iff e none = ground arith
other_kind_iff (of_device m) (some LogKind.device) = ground arith
other_kind_iff (of_device m) (some LogKind.application) = ground arith
other_kind_iff (of_application m) (some LogKind.device) = ground arith
other_kind_iff (of_application m) (some LogKind.application) = ground arith

other_device_iff :
    (e : LogEvent) (device : Option ℕ)
    → (other_device e device ≡ false) ↔ IfGiven device (λ d. device_id e ≡ d)
other_device_iff e none = ground arith
other_device_iff e (some d) = ground arith

other_application_iff :
    (e : LogEvent) (application : Option ℕ)
    → (other_application e application ≡ false)
      ↔ IfGiven application (λ a. application_id e ≡ some a)
other_application_iff e none = ground arith
other_application_iff (of_device m) (some a) = ground arith
other_application_iff (of_application m) (some a) = ground arith

too_low_iff :
    (e : LogEvent) (min_level : Option LogLevel)
    → (too_low e min_level ≡ false) ↔ IfGiven min_level (λ m. severity m ≤ severity (level e))
too_low_iff e none = ground arith
too_low_iff e (some m) = ground arith

-- An event passes the filter of the stream exactly when it is of the given kind, of the given
-- device, of the given application and of at least the given severity, each as far as it is given.
pub matches_iff :
    (e : LogEvent) (device application : Option ℕ) (min_level : Option LogLevel)
    (kind : Option LogKind)
    → (matches e device application min_level kind ≡ true)
      ↔ IsSelected e device application min_level kind
unfolding matches
matches_iff e device application min_level kind =
    let (k1, k2) = other_kind_iff e kind in
    let (d1, d2) = other_device_iff e device in
    let (a1, a2) = other_application_iff e application in
    let (m1, m2) = too_low_iff e min_level in
    (
      λ h. (k1 (ground arith), d1 (ground arith), a1 (ground arith), m1 (ground arith)),
      λ (k, d, a, m).
          let k' = k2 k in let d' = d2 d in let a' = a2 a in let m' = m2 m in ground arith,
    )
