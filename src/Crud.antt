-- ===== src/Crud.antt =====
-- What the handlers of api-server/src/api_v1/routes/ share: the checks before a call to the database,
-- and the answers to what it returns.
pub mod Laws
pub mod OsAssignments
pub mod AppAssignments
pub mod AppConfigs
pub mod OsVersions
pub mod Devices
pub mod Applications
pub mod Groups
pub mod Tenants
pub mod Pending
pub mod Summaries
use amos2026ss01_zero_downti.Prelude.{
  ℕ, Bool, true, false, ◌&&◌, Option, some, none, List, Result, ok, err, ◌==◌, if◌then◌else◌,
}
use amos2026ss01_zero_downti.Prelude.Text.{Str, codes}
use amos2026ss01_zero_downti.Routes.{
  no_device_uuid, StatusCode, Response, answer, failure, message, success, created, no_content,
  unprocessable_entity, no_such, db_err, pagination_err, PageParams, to_db_page, validate, Page,
  new_page,
}
use amos2026ss01_zero_downti.Db.Table.{DbErr, Db}
use amos2026ss01_zero_downti.Db.Devices.{Device}
use amos2026ss01_zero_downti.Registration.{is_blank}

-- A handler over a connection.
abbrev pub Handler : Type 0 → Type 0 → Type 0
Handler C A = C → Response A × C

module _ {A : Type 0} where
  -- GET by the key.
  abbrev pub fetched : Str → ℕ → Result DbErr (Option A) → Response A
  fetched resource id (ok (some a)) = answer success a
  fetched resource id (ok none) = no_such resource id
  fetched resource id (err e) = db_err e

  -- POST.
  abbrev pub made : Result DbErr A → Response A
  made (ok a) = answer created a
  made (err e) = db_err e

  -- PUT.
  abbrev pub changed : Result DbErr A → Response A
  changed (ok a) = answer success a
  changed (err e) = db_err e

  -- GET of a page.
  abbrev pub paged : PageParams → Result DbErr (List A × ℕ) → Response (Page A)
  paged p (ok (rows, total)) = answer success (new_page rows p.page p.page_size total)
  paged p (err e) = db_err e

-- DELETE.
abbrev pub removed : Str → ℕ → Result DbErr ℕ → Response (Unit {0})
removed resource id (ok n) = if n == 0 then no_such resource id else answer no_content tt
removed resource id (err e) = db_err e

module _ {C A B : Type 0} where
  abbrev pub answered : (Result DbErr A → Response B) → Result DbErr A × C → Response B × C
  answered f (r, c) = (f r, c)

  abbrev pub respond : (Result DbErr A → Response B) → Db C A → Handler C B
  respond f m c = answered f (m c)

module _ {C A : Type 0} where
  abbrev pub refuse : Str → Handler C A
  refuse msg c = (failure unprocessable_entity (message msg), c)

  -- The checks of a body, which stop at the first message.
  abbrev pub unless : Option Str → Handler C A → Handler C A
  unless none h = h
  unless (some msg) h = refuse msg

  abbrev pub when_valid : Result Str (Unit {0}) → Handler C A → Handler C A
  when_valid (ok u) h = h
  when_valid (err msg) h = λ c. (pagination_err msg, c)

module _ {C A : Type 0} where
  abbrev pub list_page : PageParams → (ℕ → ℕ → Db C (List A × ℕ)) → Handler C (Page A)
  list_page p listed =
      when_valid (validate p) (respond (paged p) (listed (to_db_page p) p.page_size))

-- The checks on the target of an assignment or a config.
abbrev pub neither : Str
neither = codes "Either device_id or group_id must be set"

abbrev pub not_both : Str
not_both = codes "Only one of device_id or group_id may be set, not both"

abbrev pub target_msg : Option ℕ → Option ℕ → Option Str
target_msg none none = some neither
target_msg (some d) (some g) = some not_both
target_msg none (some g) = none
target_msg (some d) none = none

-- A listing for the device of a uuid.
module _ {C A : Type 0} where
  abbrev pub for_found : Str → Result DbErr (Option Device) → (Device → Handler C A) → Handler C A
  for_found uuid (ok (some d)) listed = listed d
  for_found uuid (ok none) listed = λ c. (failure StatusCode.not_found (no_device_uuid uuid), c)
  for_found uuid (err e) listed = λ c. (db_err e, c)

-- The text that a check calls empty.
abbrev pub blank_msg : Str → Str → Option Str
blank_msg text msg = if is_blank text then some msg else none

-- The first message of two checks.
abbrev pub or_then : Option Str → Option Str → Option Str
or_then (some msg) next = some msg
or_then none next = next
