-- ===== src/Crud/Groups.antt =====
-- The groups (api-server/src/api_v1/db/groups.rs and api-server/src/api_v1/routes/groups.rs).
use amos2026ss01_zero_downti.Prelude.{ℕ, Bool, ◌≡◌, Option, List}
use amos2026ss01_zero_downti.Prelude.Text.{Str, codes}
use amos2026ss01_zero_downti.Routes.{PageParams, Page, validate}
use amos2026ss01_zero_downti.Db.Table.{Table, Db}
use amos2026ss01_zero_downti.Db.Keyed.{paginated, find_by_id, add, update_by_id, delete_by_id}
use amos2026ss01_zero_downti.Crud.Devices.{is_like}
use amos2026ss01_zero_downti.Crud.{
  Handler, fetched, made, changed, removed, respond, unless, list_page, blank_msg,
}

pub record Group : Type 0 where
  pub id : ℕ
  pub name : Str

pub record GroupCreate : Type 0 where
  pub name : Str

abbrev pub Stores : GroupCreate → Group → Type 0
Stores a r = a.name ≡ r.name

abbrev pub with_columns : GroupCreate → Group → Group
with_columns a r = record r { name = a.name }

abbrev pub id_of : Group → ℕ
id_of r = r.id

abbrev pub Groups : Type 1
Groups = Table Group GroupCreate id_of Stores

abbrev resource : Str
resource = codes "Group"

-- The check of the body of POST and PUT.
abbrev pub name_msg : GroupCreate → Option Str
name_msg body = blank_msg body.name (codes "Group name cannot be empty")

module _ (t : Groups) where
  open t use {Conn}

  -- `like text s` is the database's `text LIKE '%s%'`.
  unfoldable pub list_groups : (Str → Str → Bool) → Option Str → ℕ → ℕ → Db Conn (List Group × ℕ)
  list_groups like name = paginated t (λ r. is_like like name r.name)

  unfoldable pub get_group : ℕ → Db Conn (Option Group)
  unfolding find_by_id
  get_group = find_by_id t

  unfoldable pub add_group : GroupCreate → Db Conn Group
  unfolding add
  add_group = add t

  unfoldable pub update_group : ℕ → GroupCreate → Db Conn Group
  unfolding update_by_id
  update_group id body = update_by_id t (codes "Group not found") id (with_columns body)

  unfoldable pub delete_group : ℕ → Db Conn ℕ
  unfolding delete_by_id
  delete_group = delete_by_id t

  unfoldable pub list_groups_route :
      (Str → Str → Bool) → PageParams → Option Str → Handler Conn (Page Group)
  unfolding list_groups validate
  list_groups_route like p name = list_page p (list_groups like name)

  unfoldable pub get_group_route : ℕ → Handler Conn Group
  unfolding get_group
  get_group_route id = respond (fetched resource id) (get_group id)

  unfoldable pub create_group : GroupCreate → Handler Conn Group
  unfolding add_group
  create_group body = unless (name_msg body) (respond made (add_group body))

  unfoldable pub update_group_route : ℕ → GroupCreate → Handler Conn Group
  unfolding update_group
  update_group_route id body = unless (name_msg body) (respond changed (update_group id body))

  unfoldable pub delete_group_route : ℕ → Handler Conn (Unit {0})
  unfolding delete_group
  delete_group_route id = respond (removed resource id) (delete_group id)
