-- ===== src/Db/OsAssignments.antt =====
-- The OS assignments (api-server/src/api_v1/db/os_assignments.rs and dtos/os_assignment.rs).
pub mod Supersede
pub mod Add
pub mod Delete
pub mod WellFormed
pub mod Precedence
use amos2026ss01_zero_downti.Prelude.{
  ℕ, ◌≡◌, Bool, true, false, ◌&&◌, Option, some, none, List, [], ◌∷◌, Result, ok, err, ◌==◌,
}
use amos2026ss01_zero_downti.Prelude.Text.{codes}
use amos2026ss01_zero_downti.Db.Table.{
  DbErr, Table, Db, ◌>>=◌, ◌>>◌, pure, raise, read, write, transaction, find_one, update_each,
}
use amos2026ss01_zero_downti.Db.Assignments.{
  is_null, matches, targets, applies_to, stands_before, needs_one_target,
}

-- A row of `os_assignments`; a time is a number.
pub record OsAssignment : Type 0 where
  pub id : ℕ
  pub os_version_id : ℕ
  pub device_id : Option ℕ
  pub group_id : Option ℕ
  pub immediate : Bool
  pub deleted_at : Option ℕ
  pub superseded_by : Option ℕ

-- The columns that the code sets in a row to insert; `immediate` may be `NotSet`.
pub record ActiveModel : Type 0 where
  pub os_version_id : ℕ
  pub device_id : Option ℕ
  pub group_id : Option ℕ
  pub immediate : Option Bool

abbrev pub HasImmediate : Option Bool → Bool → Type 0
HasImmediate none b = Unit
HasImmediate (some a) b = b ≡ a

-- A column that is not set gets the default of the table, which is NULL for the nullable ones.
abbrev pub Stores : ActiveModel → OsAssignment → Type 0
Stores a r =
    ActiveModel.os_version_id a ≡ r.os_version_id
    × ActiveModel.device_id a ≡ r.device_id
    × ActiveModel.group_id a ≡ r.group_id
    × HasImmediate (ActiveModel.immediate a) r.immediate
    × r.deleted_at ≡ none
    × r.superseded_by ≡ none

abbrev pub id_of : OsAssignment → ℕ
id_of r = r.id

abbrev pub is_active : OsAssignment → Bool
is_active r = is_null r.deleted_at && is_null r.superseded_by

abbrev pub before_save : OsAssignment → Result DbErr (Unit {0})
before_save r = needs_one_target r.device_id r.group_id

abbrev pub supersede : ℕ → OsAssignment → OsAssignment
supersede by r = record r { superseded_by = some by }

abbrev pub mark_deleted : ℕ → OsAssignment → OsAssignment
mark_deleted now r = record r { deleted_at = some now }

-- `unwrap_or(false)`
abbrev pub or_false : Option Bool → Bool
or_false none = false
or_false (some b) = b

abbrev pub OsAssignments : Type 1
OsAssignments = Table OsAssignment ActiveModel id_of Stores

abbrev pub replaced : Option ℕ → Option ℕ → OsAssignment → Bool
replaced device group r = is_active r && targets device group r.device_id r.group_id

abbrev pub is_current : ℕ → OsAssignment → Bool
is_current i r = is_active r && (r.id == i)

abbrev pub for_device : ℕ → Option ℕ → Option ℕ → OsAssignment → Bool
for_device device group version r =
    is_active r
    && (applies_to device group r.device_id r.group_id && matches version (some r.os_version_id))

abbrev pub ordered : Bool → OsAssignment → OsAssignment → Bool
ordered nulls_first r s = stands_before nulls_first r.device_id r.id s.device_id s.id

abbrev pub winner : List OsAssignment → List OsAssignment × ℕ
winner [] = ([], 0)
winner (r ∷ rs) = (r ∷ [], 1)

module _ (t : OsAssignments) where
  open t use {Conn, select, select_by, insert, update}

  unfoldable pub insert_checked : ActiveModel → Db Conn OsAssignment
  insert_checked a = do read (λ _. needs_one_target a.device_id a.group_id); write (insert a)

  unfoldable pub update_checked :
      OsAssignment → (OsAssignment → OsAssignment) → Db Conn OsAssignment
  update_checked r f = do read (λ _. before_save r); write (update r.id f)

  unfoldable pub supersede_with : ℕ → Option ℕ → Option ℕ → Option Bool → Db Conn OsAssignment
  supersede_with version device group immediate = do
    existing ← read (select (replaced device group))
    new ← insert_checked (record {
      os_version_id = version;
      device_id = device;
      group_id = group;
      immediate = some (or_false immediate);
    })
    update_each t before_save (supersede new.id) existing
    pure new

  unfoldable pub add_os_assignment : ℕ → Option ℕ → Option ℕ → Option Bool → Db Conn OsAssignment
  add_os_assignment version device group immediate =
      transaction t (supersede_with version device group immediate)

  abbrev pub found : Option OsAssignment → Db Conn OsAssignment
  found none = raise (DbErr.record_not_found (codes "OsAssignment not found"))
  found (some r) = pure r

  unfoldable pub get_os_assignment : ℕ → Db Conn (Option OsAssignment)
  get_os_assignment i = find_one t (is_current i)

  unfoldable pub update_os_assignment :
      ℕ → ℕ → Option ℕ → Option ℕ → Option Bool → Db Conn OsAssignment
  update_os_assignment i version device group immediate = do
    row ← find_one t (is_current i)
    current ← found row
    new ← insert_checked (record {
      os_version_id = version;
      device_id = device;
      group_id = group;
      immediate = immediate;
    })
    update_checked current (supersede new.id)
    pure new

  abbrev pub delete_found : ℕ → Option OsAssignment → Db Conn ℕ
  delete_found now none = pure 0
  delete_found now (some r) = do update_checked r (mark_deleted now); pure 1

  unfoldable pub delete_os_assignment : ℕ → ℕ → Db Conn ℕ
  delete_os_assignment now i = do row ← find_one t (is_current i); delete_found now row

  unfoldable pub list_os_assignments_for_device :
      Bool → ℕ → Option ℕ → Option ℕ → Db Conn (List OsAssignment × ℕ)
  list_os_assignments_for_device nulls_first device group version = do
    rows ← read (select_by (ordered nulls_first) (for_device device group version))
    pure (winner rows)
