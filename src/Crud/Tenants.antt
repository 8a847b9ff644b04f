-- ===== src/Crud/Tenants.antt =====
-- The tenants (api-server/src/api_v1/db/tenants.rs and api-server/src/api_v1/routes/tenants.rs).
use amos2026ss01_zero_downti.Prelude.{ℕ, Bool, ◌≡◌, Option, List}
use amos2026ss01_zero_downti.Prelude.Text.{Str, codes}
use amos2026ss01_zero_downti.Routes.{PageParams, Page, validate}
use amos2026ss01_zero_downti.Db.Table.{Table, Db}
use amos2026ss01_zero_downti.Db.Keyed.{paginated, find_by_id, add, update_by_id, delete_by_id}
use amos2026ss01_zero_downti.Crud.Devices.{is_like}
use amos2026ss01_zero_downti.Crud.{
  Handler, fetched, made, changed, removed, respond, unless, list_page, blank_msg,
}

pub record Tenant : Type 0 where
  pub id : ℕ
  pub name : Str
  pub description : Option Str

pub record TenantCreate : Type 0 where
  pub name : Str
  pub description : Option Str

abbrev pub Stores : TenantCreate → Tenant → Type 0
Stores a r = (a.name ≡ r.name) × (a.description ≡ r.description)

abbrev pub with_columns : TenantCreate → Tenant → Tenant
with_columns a r = record r { name = a.name; description = a.description }

abbrev pub id_of : Tenant → ℕ
id_of r = r.id

abbrev pub Tenants : Type 1
Tenants = Table Tenant TenantCreate id_of Stores

abbrev resource : Str
resource = codes "Tenant"

-- The check of the body of POST and PUT.
abbrev pub name_msg : TenantCreate → Option Str
name_msg body = blank_msg body.name (codes "Tenant name cannot be empty")

module _ (t : Tenants) where
  open t use {Conn}

  -- `like text s` is the database's `text LIKE '%s%'`.
  unfoldable pub list_tenants : (Str → Str → Bool) → Option Str → ℕ → ℕ → Db Conn (List Tenant × ℕ)
  list_tenants like name = paginated t (λ r. is_like like name r.name)

  unfoldable pub get_tenant : ℕ → Db Conn (Option Tenant)
  unfolding find_by_id
  get_tenant = find_by_id t

  unfoldable pub add_tenant : TenantCreate → Db Conn Tenant
  unfolding add
  add_tenant = add t

  unfoldable pub update_tenant : ℕ → TenantCreate → Db Conn Tenant
  unfolding update_by_id
  update_tenant id body = update_by_id t (codes "Tenant not found") id (with_columns body)

  unfoldable pub delete_tenant : ℕ → Db Conn ℕ
  unfolding delete_by_id
  delete_tenant = delete_by_id t

  unfoldable pub list_tenants_route :
      (Str → Str → Bool) → PageParams → Option Str → Handler Conn (Page Tenant)
  unfolding list_tenants validate
  list_tenants_route like p name = list_page p (list_tenants like name)

  unfoldable pub get_tenant_route : ℕ → Handler Conn Tenant
  unfolding get_tenant
  get_tenant_route id = respond (fetched resource id) (get_tenant id)

  unfoldable pub create_tenant : TenantCreate → Handler Conn Tenant
  unfolding add_tenant
  create_tenant body = unless (name_msg body) (respond made (add_tenant body))

  unfoldable pub update_tenant_route : ℕ → TenantCreate → Handler Conn Tenant
  unfolding update_tenant
  update_tenant_route id body = unless (name_msg body) (respond changed (update_tenant id body))

  unfoldable pub delete_tenant_route : ℕ → Handler Conn (Unit {0})
  unfolding delete_tenant
  delete_tenant_route id = respond (removed resource id) (delete_tenant id)
