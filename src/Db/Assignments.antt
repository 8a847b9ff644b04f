-- ===== src/Db/Assignments.antt =====
-- What the assignment tables of api-server/src/api_v1/db/ share: the tests of their queries, and
-- the hooks of api-server/src/dtos/.
use amos2026ss01_zero_downti.Prelude.{
  ℕ, Bool, true, false, not, ◌&&◌, ◌||◌, Option, some, none, is_num, Result, ok, err, if◌then◌else◌,
  ltb, ◌==◌,
}
use amos2026ss01_zero_downti.Prelude.Text.{Str, codes}
use amos2026ss01_zero_downti.Db.Table.{DbErr}

abbrev pub neither_set : Str
neither_set = codes "Either device_id or group_id must be set"

abbrev both_set : Str
both_set = codes "Only one of device_id or group_id may be set, not both"

-- `Column.is_null()`
abbrev pub is_null : Option ℕ → Bool
is_null none = true
is_null (some n) = false

-- `Some(_)` in an active value.
abbrev pub is_set : Option ℕ → Bool
is_set o = not (is_null o)

-- A filter that is only added when the request gives a value.
abbrev pub matches : Option ℕ → Option ℕ → Bool
matches none column = true
matches (some n) column = is_num column n

-- The filter of `add_…`: by the device if there is one, else by the group if there is one.
abbrev pub targets : Option ℕ → Option ℕ → Option ℕ → Option ℕ → Bool
targets (some d) group device_column group_column = is_num device_column d
targets none group device_column group_column = matches group group_column

-- `Condition::any()` over the device and, if there is one, its group.
abbrev pub applies_to : ℕ → Option ℕ → Option ℕ → Option ℕ → Bool
applies_to d none device_column group_column = is_num device_column d
applies_to d (some g) device_column group_column = is_num device_column d || is_num group_column g

-- `ORDER BY device_id DESC, id ASC`. Where the rows without a device come is the engine's choice:
-- `nulls_first` holds of PostgreSQL, and not of SQLite.
unfoldable pub stands_before : Bool → Option ℕ → ℕ → Option ℕ → ℕ → Bool
stands_before nulls_first none i none j = ltb i j
stands_before nulls_first none i (some e) j = nulls_first
stands_before nulls_first (some d) i none j = not nulls_first
stands_before nulls_first (some d) i (some e) j = ltb e d || (d == e && ltb i j)

-- The hook of an application assignment.
unfoldable pub needs_target : Option ℕ → Option ℕ → Result DbErr (Unit {0})
needs_target device group =
    if not (is_set device) && not (is_set group) then err (DbErr.custom neither_set) else ok tt

-- The hook of an OS assignment.
unfoldable pub needs_one_target : Option ℕ → Option ℕ → Result DbErr (Unit {0})
needs_one_target device group =
    if not (is_set device) && not (is_set group)
    then err (DbErr.custom neither_set)
    else if is_set device && is_set group
    then err (DbErr.custom both_set)
    else ok tt
