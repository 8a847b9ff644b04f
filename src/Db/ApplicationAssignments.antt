-- ===== src/Db/ApplicationAssignments.antt =====
-- The application assignments (api-server/src/api_v1/db/application_assignments.rs and
-- dtos/application_assignment.rs).
pub mod Distinct
use amos2026ss01_zero_downti.Prelude.{
  ℕ, ◌*◌, ◌%◌, ◌^◌, ◌≡◌, Bool, true, false, ◌&&◌, ◌||◌, Option, some, none, List, [], ◌∷◌, map, any,
  Result, ◌==◌, if◌then◌else◌, length, take, drop,
}
use amos2026ss01_zero_downti.Prelude.Text.{codes}
use amos2026ss01_zero_downti.Db.Table.{
  DbErr, Table, Db, ◌>>=◌, ◌>>◌, pure, raise, read, write, transaction, find_one, update_each,
}
use amos2026ss01_zero_downti.Db.Assignments.{
  is_null, matches, targets, applies_to, stands_before, needs_target,
}

pub record ApplicationAssignment : Type 0 where
  pub id : ℕ
  pub application_config_id : ℕ
  pub device_id : Option ℕ
  pub group_id : Option ℕ
  pub deleted_at : Option ℕ
  pub superseded_by : Option ℕ

pub record ActiveModel : Type 0 where
  pub application_config_id : ℕ
  pub device_id : Option ℕ
  pub group_id : Option ℕ

-- The columns of an `application_configs` row that the listing reads.
pub record ConfigRow : Type 0 where
  pub id : ℕ
  pub application_id : ℕ
  pub deleted_at : Option ℕ
  pub superseded_by : Option ℕ

abbrev pub Stores : ActiveModel → ApplicationAssignment → Type 0
Stores a r =
    ActiveModel.application_config_id a ≡ r.application_config_id
    × ActiveModel.device_id a ≡ r.device_id
    × ActiveModel.group_id a ≡ r.group_id
    × r.deleted_at ≡ none
    × r.superseded_by ≡ none

abbrev pub id_of : ApplicationAssignment → ℕ
id_of r = r.id

abbrev pub is_active : ApplicationAssignment → Bool
is_active r = is_null r.deleted_at && is_null r.superseded_by

abbrev pub before_save : ApplicationAssignment → Result DbErr (Unit {0})
before_save r = needs_target r.device_id r.group_id

abbrev pub supersede : ℕ → ApplicationAssignment → ApplicationAssignment
supersede by r = record r { superseded_by = some by }

abbrev pub mark_deleted : ℕ → ApplicationAssignment → ApplicationAssignment
mark_deleted now r = record r { deleted_at = some now }

abbrev pub replaced : ℕ → Option ℕ → Option ℕ → ApplicationAssignment → Bool
replaced config device group r =
    (r.application_config_id == config)
    && is_active r
    && targets device group r.device_id r.group_id

abbrev pub is_current : ℕ → ApplicationAssignment → Bool
is_current i r = is_active r && (r.id == i)

abbrev pub for_device : ℕ → Option ℕ → Option ℕ → ApplicationAssignment → Bool
for_device device group config r =
    is_active r
    && (applies_to device group r.device_id r.group_id
        && matches config (some r.application_config_id))

abbrev pub ordered : Bool → ApplicationAssignment → ApplicationAssignment → Bool
ordered nulls_first r s = stands_before nulls_first r.device_id r.id s.device_id s.id

-- `config_id_to_app_id.get(&k)`: of two rows with a key, `collect` keeps the later one.
unfoldable pub application_of : List ConfigRow → ℕ → Option ℕ
application_of [] k = none
application_of (c ∷ cs) k =
    let later = application_of cs k in
    let here = if c.id == k then some c.application_id else none in
    elim later [ some a ↦ some a | none ↦ here ]

-- `Column::Id.is_in(app_config_ids)` among the active configs.
abbrev pub is_wanted : List ApplicationAssignment → ConfigRow → Bool
is_wanted all c =
    any (λ (m : ApplicationAssignment). c.id == m.application_config_id) all
    && (is_null c.deleted_at && is_null c.superseded_by)

-- One row of `filter` with the set of applications seen before it.
abbrev pub keep_if_new :
    Option ℕ
    → (ℕ → Bool)
    → List ApplicationAssignment
    → (ℕ → List ApplicationAssignment)
    → List ApplicationAssignment
keep_if_new none is_seen skipped kept = skipped
keep_if_new (some a) is_seen skipped kept = if is_seen a then skipped else kept a

unfoldable pub deduplicate :
    (ℕ → Option ℕ) → List ℕ → List ApplicationAssignment → List ApplicationAssignment
deduplicate app seen [] = []
deduplicate app seen (m ∷ ms) =
    keep_if_new (app m.application_config_id) (λ a. any (λ b. b == a) seen)
      (deduplicate app seen ms) (λ a. m ∷ deduplicate app (a ∷ seen) ms)

-- The manual pagination, in 64 bits.
unfoldable pub paginate : ℕ → ℕ → List ApplicationAssignment → List ApplicationAssignment × ℕ
paginate page page_size rows =
    (take page_size (drop ((page * page_size) % 2 ^ 64) rows), length rows)

abbrev pub ApplicationAssignments : Type 1
ApplicationAssignments = Table ApplicationAssignment ActiveModel id_of Stores

module _ (t : ApplicationAssignments) where
  open t use {Conn, select, select_by, insert, update}

  unfoldable pub insert_checked : ActiveModel → Db Conn ApplicationAssignment
  insert_checked a = do read (λ _. needs_target a.device_id a.group_id); write (insert a)

  unfoldable pub update_checked :
      ApplicationAssignment
      → (ApplicationAssignment → ApplicationAssignment)
      → Db Conn ApplicationAssignment
  update_checked r f = do read (λ _. before_save r); write (update r.id f)

  unfoldable pub supersede_with : ℕ → Option ℕ → Option ℕ → Db Conn ApplicationAssignment
  supersede_with config device group = do
    existing ← read (select (replaced config device group))
    new ←
        insert_checked
          (record { application_config_id = config; device_id = device; group_id = group })
    update_each t before_save (supersede new.id) existing
    pure new

  unfoldable pub add_application_assignment :
      ℕ → Option ℕ → Option ℕ → Db Conn ApplicationAssignment
  add_application_assignment config device group =
      transaction t (supersede_with config device group)

  unfoldable pub add_application_assignment_to_device : ℕ → ℕ → Db Conn ApplicationAssignment
  unfolding add_application_assignment
  add_application_assignment_to_device config device =
      add_application_assignment config (some device) none

  unfoldable pub add_application_assignment_to_group : ℕ → ℕ → Db Conn ApplicationAssignment
  unfolding add_application_assignment
  add_application_assignment_to_group config group =
      add_application_assignment config none (some group)

  abbrev pub found : Option ApplicationAssignment → Db Conn ApplicationAssignment
  found none = raise (DbErr.record_not_found (codes "ApplicationAssignment not found"))
  found (some r) = pure r

  unfoldable pub get_application_assignment : ℕ → Db Conn (Option ApplicationAssignment)
  get_application_assignment i = find_one t (is_current i)

  unfoldable pub update_application_assignment :
      ℕ → ℕ → Option ℕ → Option ℕ → Db Conn ApplicationAssignment
  update_application_assignment i config device group = do
    row ← find_one t (is_current i)
    current ← found row
    new ←
        insert_checked
          (record { application_config_id = config; device_id = device; group_id = group })
    update_checked current (supersede new.id)
    pure new

  abbrev pub delete_found : ℕ → Option ApplicationAssignment → Db Conn ℕ
  delete_found now none = pure 0
  delete_found now (some r) = do update_checked r (mark_deleted now); pure 1

  unfoldable pub delete_application_assignment : ℕ → ℕ → Db Conn ℕ
  delete_application_assignment now i = do row ← find_one t (is_current i); delete_found now row

  -- `configs` is the selection of `application_configs` over the same connection.
  unfoldable pub list_application_assignments_for_device :
      ((ConfigRow → Bool) → Conn → Result DbErr (List ConfigRow))
      → Bool
      → ℕ
      → Option ℕ
      → Option ℕ
      → ℕ
      → ℕ
      → Db Conn (List ApplicationAssignment × ℕ)
  list_application_assignments_for_device configs nulls_first device group config page page_size =
      do
        all ← read (select_by (ordered nulls_first) (for_device device group config))
        app_configs ← read (configs (is_wanted all))
        pure (paginate page page_size (deduplicate (application_of app_configs) [] all))
