-- ===== src/Db/OsVersions.antt =====
-- The OS versions (api-server/src/api_v1/db/os_versions.rs). An update is not a transaction.
pub mod Supersedes
use amos2026ss01_zero_downti.Prelude.{ℕ, ◌≡◌, Bool, ◌&&◌, Option, some, none, Result, ◌==◌}
use amos2026ss01_zero_downti.Prelude.Text.{Str, codes}
use amos2026ss01_zero_downti.Db.Table.{
  DbErr, record_not_found, Table, Db, ◌>>=◌, ◌>>◌, pure, raise, write, find_one,
}
use amos2026ss01_zero_downti.Db.Assignments.{is_null}

pub record OsVersion : Type 0 where
  pub id : ℕ
  pub commit_hash : Str
  pub orchestrator_version : Str
  pub description : Option Str
  pub deleted_at : Option ℕ
  pub superseded_by : Option ℕ

pub record ActiveModel : Type 0 where
  pub commit_hash : Str
  pub orchestrator_version : Str
  pub description : Option Str

abbrev pub Stores : ActiveModel → OsVersion → Type 0
Stores a r =
    ActiveModel.commit_hash a ≡ r.commit_hash
    × ActiveModel.orchestrator_version a ≡ r.orchestrator_version
    × ActiveModel.description a ≡ r.description
    × r.deleted_at ≡ none
    × r.superseded_by ≡ none

abbrev pub id_of : OsVersion → ℕ
id_of r = r.id

abbrev pub OsVersions : Type 1
OsVersions = Table OsVersion ActiveModel id_of Stores

abbrev pub is_active : OsVersion → Bool
is_active r = is_null r.deleted_at && is_null r.superseded_by

abbrev pub is_current : ℕ → OsVersion → Bool
is_current i r = is_active r && (r.id == i)

abbrev pub supersede : ℕ → OsVersion → OsVersion
supersede by r = record r { superseded_by = some by }

abbrev pub mark_deleted : ℕ → OsVersion → OsVersion
mark_deleted now r = record r { deleted_at = some now }

module _ (t : OsVersions) where
  open t use {Conn, insert, update}

  unfoldable pub get_os_version : ℕ → Db Conn (Option OsVersion)
  get_os_version i = find_one t (is_current i)

  unfoldable pub add_os_version : ActiveModel → Db Conn OsVersion
  add_os_version a = write (insert a)

  abbrev pub update_found : ActiveModel → Option OsVersion → Db Conn OsVersion
  update_found a none = raise (record_not_found (codes "OsVersion not found"))
  update_found a (some current) = do
    new ← write (insert a)
    write (update current.id (supersede new.id))
    pure new

  unfoldable pub update_os_version : ℕ → ActiveModel → Db Conn OsVersion
  update_os_version i a = do current ← find_one t (is_current i); update_found a current

  abbrev pub delete_found : ℕ → Option OsVersion → Db Conn ℕ
  delete_found now none = pure 0
  delete_found now (some r) = do write (update r.id (mark_deleted now)); pure 1

  unfoldable pub delete_os_version : ℕ → ℕ → Db Conn ℕ
  delete_os_version now i = do row ← find_one t (is_current i); delete_found now row
