-- ===== src/Crud/Applications.antt =====
-- The applications (api-server/src/api_v1/db/applications.rs and api-server/src/api_v1/routes/applications.rs).
use amos2026ss01_zero_downti.Prelude.{ℕ, Bool, ◌≡◌, Option, List}
use amos2026ss01_zero_downti.Prelude.Text.{Str, codes}
use amos2026ss01_zero_downti.Routes.{PageParams, Page, validate}
use amos2026ss01_zero_downti.Db.Table.{Table, Db}
use amos2026ss01_zero_downti.Db.Keyed.{paginated, find_by_id, add, update_by_id, delete_by_id}
use amos2026ss01_zero_downti.Crud.Devices.{is_like}
use amos2026ss01_zero_downti.Crud.{
  Handler, fetched, made, changed, removed, respond, unless, list_page, blank_msg,
}

pub record Application : Type 0 where
  pub id : ℕ
  pub name : Str
  pub description : Str

pub record ApplicationCreate : Type 0 where
  pub name : Str
  pub description : Str

abbrev pub Stores : ApplicationCreate → Application → Type 0
Stores a r = (a.name ≡ r.name) × (a.description ≡ r.description)

abbrev pub with_columns : ApplicationCreate → Application → Application
with_columns a r = record r { name = a.name; description = a.description }

abbrev pub id_of : Application → ℕ
id_of r = r.id

abbrev pub Applications : Type 1
Applications = Table Application ApplicationCreate id_of Stores

abbrev resource : Str
resource = codes "Application"

-- The check of the body of POST and PUT.
abbrev pub name_msg : ApplicationCreate → Option Str
name_msg body = blank_msg body.name (codes "Application name cannot be empty")

module _ (t : Applications) where
  open t use {Conn}

  -- `like text s` is the database's `text LIKE '%s%'`.
  unfoldable pub list_applications :
      (Str → Str → Bool) → Option Str → ℕ → ℕ → Db Conn (List Application × ℕ)
  list_applications like name = paginated t (λ r. is_like like name r.name)

  unfoldable pub get_application : ℕ → Db Conn (Option Application)
  unfolding find_by_id
  get_application = find_by_id t

  unfoldable pub add_application : ApplicationCreate → Db Conn Application
  unfolding add
  add_application = add t

  unfoldable pub update_application : ℕ → ApplicationCreate → Db Conn Application
  unfolding update_by_id
  update_application id body = update_by_id t (codes "Application not found") id (with_columns body)

  unfoldable pub delete_application : ℕ → Db Conn ℕ
  unfolding delete_by_id
  delete_application = delete_by_id t

  unfoldable pub list_applications_route :
      (Str → Str → Bool) → PageParams → Option Str → Handler Conn (Page Application)
  unfolding list_applications validate
  list_applications_route like p name = list_page p (list_applications like name)

  unfoldable pub get_application_route : ℕ → Handler Conn Application
  unfolding get_application
  get_application_route id = respond (fetched resource id) (get_application id)

  unfoldable pub create_application : ApplicationCreate → Handler Conn Application
  unfolding add_application
  create_application body = unless (name_msg body) (respond made (add_application body))

  unfoldable pub update_application_route : ℕ → ApplicationCreate → Handler Conn Application
  unfolding update_application
  update_application_route id body =
      unless (name_msg body) (respond changed (update_application id body))

  unfoldable pub delete_application_route : ℕ → Handler Conn (Unit {0})
  unfolding delete_application
  delete_application_route id = respond (removed resource id) (delete_application id)
