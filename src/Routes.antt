-- ===== src/Routes.antt =====
-- What the API server's handlers answer (api-server/src/api_v1/routes/mod.rs and pagination.rs,
-- common/src/lib.rs).
pub mod Pagination
use amos2026ss01_zero_downti.Prelude.{
  ℕ, ◌+◌, ◌-◌, ◌/◌, Bool, true, false, List, Result, ok, err, ltb, ◌==◌, if◌then◌else◌,
}
use amos2026ss01_zero_downti.Prelude.Text.{Str, codes}
use amos2026ss01_zero_downti.Db.Table.{DbErr}

pub data StatusCode : Type 0 where
  success created no_content bad_request unauthorized im_a_teapot not_found unprocessable_entity :
      StatusCode
  internal_server_error : StatusCode

-- The texts of an `ErrorResponse`: "{} with id {} not found", "Database error: {}",
-- "No device with uuid {} found", "No device with id {} found", or as given.
pub data Message : Type 0 where
  no_resource : Str → ℕ → Message
  database_error : DbErr → Message
  no_device_uuid : Str → Message
  no_device_id : ℕ → Message
  message : Str → Message

-- The status and the body of an answer.
pub data Response (A : Type 0) : Type 0 where
  answer : StatusCode → A → Response A
  failure : StatusCode → Message → Response A

module _ {A : Type 0} where
  abbrev pub no_such : Str → ℕ → Response A
  no_such resource id = failure StatusCode.not_found (no_resource resource id)

  abbrev pub db_err : DbErr → Response A
  db_err e = failure StatusCode.internal_server_error (database_error e)

  abbrev pub pagination_err : Str → Response A
  pagination_err msg = failure StatusCode.unprocessable_entity (message msg)

pub record PageParams : Type 0 where
  pub page : ℕ
  pub page_size : ℕ

-- `self.page - 1`, which `validate` has kept from going below zero.
abbrev pub to_db_page : PageParams → ℕ
to_db_page p = p.page - 1

abbrev pub page_too_low : Str
page_too_low = codes "page must be >= 1"

abbrev pub page_size_zero : Str
page_size_zero = codes "page_size must be > 0"

abbrev pub page_size_too_large : Str
page_size_too_large = codes "page_size must be <= 200"

unfoldable pub validate : PageParams → Result Str (Unit {0})
validate p =
    if ltb p.page 1
    then err page_too_low
    else if p.page_size == 0
    then err page_size_zero
    else if ltb 200 p.page_size
    then err page_size_too_large
    else ok tt

-- `n.div_ceil(d)` for a positive `d`.
abbrev pub div_ceil : ℕ → ℕ → ℕ
div_ceil n d = (n + (d - 1)) / d

-- `max(1)`
abbrev pub at_least_1 : ℕ → ℕ
at_least_1 n = if ltb n 1 then 1 else n

pub record Page (A : Type 0) : Type 0 where
  pub page : ℕ
  pub page_size : ℕ
  pub total_items : ℕ
  pub total_pages : ℕ
  pub entries : List A

unfoldable pub new_page : {A : Type 0} → List A → ℕ → ℕ → ℕ → Page A
new_page entries page page_size total_items = record {
  page = page;
  page_size = page_size;
  total_items = total_items;
  total_pages = div_ceil total_items (at_least_1 page_size);
  entries = entries;
}
