-- ===== src/Db/ApplicationConfigs.antt =====
-- The application configs (api-server/src/api_v1/db/application_configs.rs and
-- dtos/application_config.rs). The text of a config is what `serde_json` makes of it, a parameter.
mod ByApplication
mod Members
pub mod Effective
use Prim.Native.Nat.{compare, max}
use amos2026ss01_zero_downti.Prelude.{
  ℕ, ◌+◌, ◌%◌, ◌^◌, ◌≡◌, Bool, true, false, ◌&&◌, ◌||◌, Option, some, none, List, [], ◌∷◌, map,
  filter, Result, ok, err, is_num, ◌==◌, if◌then◌else◌, ltb,
}
use amos2026ss01_zero_downti.Prelude.Text.{Str, codes}
use amos2026ss01_zero_downti.Logs.Registry.{insert}
use amos2026ss01_zero_downti.Reconcile.Vec.{sort_by}
use amos2026ss01_zero_downti.Db.Table.{
  DbErr, Table, Db, ◌>>=◌, ◌>>◌, pure, raise, read, write, transaction, find_one, update_each,
}
use amos2026ss01_zero_downti.Db.Assignments.{is_null, is_set, targets, applies_to, needs_one_target}

pub record ApplicationConfig : Type 0 where
  pub id : ℕ
  pub device_id : Option ℕ
  pub group_id : Option ℕ
  pub application_id : ℕ
  pub image : Str
  pub config_version : ℕ
  pub config : Option Str
  pub version : ℕ
  pub deleted_at : Option ℕ
  pub superseded_by : Option ℕ

pub record ActiveModel : Type 0 where
  pub device_id : Option ℕ
  pub group_id : Option ℕ
  pub application_id : ℕ
  pub image : Str
  pub config_version : ℕ
  pub config : Option Str
  pub version : ℕ

abbrev pub Stores : ActiveModel → ApplicationConfig → Type 0
Stores a r =
    ActiveModel.device_id a ≡ r.device_id
    × ActiveModel.group_id a ≡ r.group_id
    × ActiveModel.application_id a ≡ r.application_id
    × ActiveModel.image a ≡ r.image
    × ActiveModel.config_version a ≡ r.config_version
    × ActiveModel.config a ≡ r.config
    × ActiveModel.version a ≡ r.version
    × r.deleted_at ≡ none
    × r.superseded_by ≡ none

abbrev pub id_of : ApplicationConfig → ℕ
id_of r = r.id

abbrev pub is_active : ApplicationConfig → Bool
is_active r = is_null r.deleted_at && is_null r.superseded_by

-- The hook lets a row pass whose device and group are unchanged, which is every row updated here.
abbrev pub before_save : ApplicationConfig → Result DbErr (Unit {0})
before_save r = ok tt

abbrev pub supersede : ℕ → ApplicationConfig → ApplicationConfig
supersede by r = record r { superseded_by = some by }

abbrev pub mark_deleted : ℕ → ApplicationConfig → ApplicationConfig
mark_deleted now r = record r { deleted_at = some now }

abbrev pub replaced : ℕ → Option ℕ → Option ℕ → ApplicationConfig → Bool
replaced application device group r =
    (r.application_id == application) && is_active r && targets device group r.device_id r.group_id

abbrev pub is_current : ℕ → ApplicationConfig → Bool
is_current i r = is_active r && (r.id == i)

-- `+ 1` on an `i32`, as the number that its 32 bits write.
unfoldable pub succ_i32 : ℕ → ℕ
succ_i32 v = (v + 1) % 2 ^ 32

-- `.first().map(|c| c.config_version).unwrap_or(1)`
unfoldable pub next_config_version : List ApplicationConfig → ℕ
next_config_version [] = 1
next_config_version (c ∷ cs) = c.config_version

-- `.map(|c| c.version).max().unwrap_or(0)`; versions are not negative.
unfoldable pub last_version : List ApplicationConfig → ℕ
last_version [] = 0
last_version (c ∷ cs) = max c.version (last_version cs)

unfoldable pub next_version : List ApplicationConfig → ℕ
unfolding last_version succ_i32
next_version existing = succ_i32 (last_version existing)

abbrev pub has_group : ApplicationConfig → Bool
has_group c = is_set c.group_id

abbrev pub of_device : ℕ → ApplicationConfig → Bool
of_device d c = is_num c.device_id d

-- `for config in … { by_application.insert(config.application_id, config.clone()); }`
unfoldable pub insert_all :
    List ApplicationConfig → List (ℕ × ApplicationConfig) → List (ℕ × ApplicationConfig)
unfolding insert
insert_all [] m = m
insert_all (c ∷ cs) m = insert_all cs (insert c.application_id c m)

abbrev pub values : List (ℕ × ApplicationConfig) → List ApplicationConfig
values m = map (λ (e : ℕ × ApplicationConfig). e.1) m

-- The configs of a device's group, then those of the device over them, by application; the result is
-- sorted by id.
unfoldable pub effective : ℕ → List ApplicationConfig → List ApplicationConfig
unfolding insert_all
effective d configs =
    sort_by (λ (a b : ApplicationConfig). compare a.id b.id)
      (values
        (insert_all (filter (of_device d) configs) (insert_all (filter has_group configs) [])))

abbrev pub ApplicationConfigs : Type 1
ApplicationConfigs = Table ApplicationConfig ActiveModel id_of Stores

module _ {ContainerConfig : Type 0} (to_string : ContainerConfig → Result Str Str)
    (t : ApplicationConfigs) where
  open t use {Conn, select, select_by, insert, update}

  -- `config.map(…to_string).transpose().map_err(…)?`
  abbrev pub serialized : Option ContainerConfig → Result DbErr (Option Str)
  serialized none = ok none
  serialized (some c) = elim (to_string c) [
    | ok s ↦ ok (some s)
    | err e ↦ err (DbErr.custom (codes "Failed to serialize config"))
  ]

  unfoldable pub insert_checked : ActiveModel → Db Conn ApplicationConfig
  insert_checked a = do read (λ _. needs_one_target a.device_id a.group_id); write (insert a)

  unfoldable pub supersede_with :
      Option ℕ → Option ℕ → ℕ → Str → Option ContainerConfig → Db Conn ApplicationConfig
  supersede_with device group application image config = do
    existing ← read (select (replaced application device group))
    config_json ← read (λ _. serialized config)
    new ← insert_checked (record {
      device_id = device;
      group_id = group;
      application_id = application;
      image = image;
      config_version = next_config_version existing;
      config = config_json;
      version = next_version existing;
    })
    update_each t before_save (supersede new.id) existing
    pure new

  unfoldable pub add_application_config :
      Option ℕ → Option ℕ → ℕ → Str → Option ContainerConfig → Db Conn ApplicationConfig
  add_application_config device group application image config =
      transaction t (supersede_with device group application image config)

  abbrev pub found : Option ApplicationConfig → Db Conn ApplicationConfig
  found none = raise (DbErr.record_not_found (codes "ApplicationConfig not found"))
  found (some r) = pure r

  unfoldable pub update_application_config :
      ℕ → Option ℕ → Option ℕ → ℕ → Str → Option ContainerConfig → Db Conn ApplicationConfig
  update_application_config i device group application image config = do
    row ← find_one t (is_current i)
    current ← found row
    config_json ← read (λ _. serialized config)
    new ← insert_checked (record {
      device_id = device;
      group_id = group;
      application_id = application;
      image = image;
      config_version = current.config_version;
      config = config_json;
      version = succ_i32 current.version;
    })
    write (update current.id (supersede new.id))
    pure new

module _ (t : ApplicationConfigs) where
  open t use {Conn, select_by, update}

  unfoldable pub get_application_config : ℕ → Db Conn (Option ApplicationConfig)
  get_application_config i = find_one t (is_current i)

  abbrev pub delete_found : ℕ → Option ApplicationConfig → Db Conn ℕ
  delete_found now none = pure 0
  delete_found now (some r) = do write (update r.id (mark_deleted now)); pure 1

  unfoldable pub delete_application_config : ℕ → ℕ → Db Conn ℕ
  delete_application_config now i = do row ← find_one t (is_current i); delete_found now row

  -- `group_of` reads the device's group over the same connection.
  unfoldable pub list_application_configs_for_device :
      (ℕ → Conn → Result DbErr (Option ℕ)) → ℕ → Db Conn (List ApplicationConfig)
  list_application_configs_for_device group_of d = do
    group ← read (group_of d)
    configs ← read (
        select_by (λ (a b : ApplicationConfig). ltb a.id b.id)
          (λ (c : ApplicationConfig). applies_to d group c.device_id c.group_id))
    pure (effective d configs)
