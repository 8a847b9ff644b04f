-- ===== src/Crud/Summaries.antt =====
-- The summaries of devices (api-server/src/api_v1/db/device_summaries.rs and their handlers in
-- api-server/src/api_v1/routes/devices.rs): what each device of a page has reported.
pub mod Described
use amos2026ss01_zero_downti.Prelude.{
  ℕ, ◌≡◌, Bool, true, false, ◌&&◌, Option, some, none, List, [], ◌∷◌, ◌++◌, map, any, reverse,
  Result, ok, err, ◌==◌, if◌then◌else◌,
}
use amos2026ss01_zero_downti.Prelude.Text.{Str, codes}
use amos2026ss01_zero_downti.Routes.{PageParams, Page, validate}
use amos2026ss01_zero_downti.Db.Table.{DbErr, Table, Db, ◌>>=◌, pure, read, first_row}
use amos2026ss01_zero_downti.Db.Assignments.{matches}
use amos2026ss01_zero_downti.Db.Keyed.{paginated}
use amos2026ss01_zero_downti.Db.Devices.{Devices, Device}
use amos2026ss01_zero_downti.Db.OsVersions.{OsVersion}
use amos2026ss01_zero_downti.Db.ApplicationConfigs.{ApplicationConfig}
use amos2026ss01_zero_downti.Db.ReportedAssignments.{Report}
use amos2026ss01_zero_downti.Crud.{Handler, fetched, respond, list_page}
use amos2026ss01_zero_downti.Crud.Applications.{Application}
use amos2026ss01_zero_downti.Crud.Tenants.{Tenant}
use amos2026ss01_zero_downti.Crud.Devices.{DeviceQuery, is_listed}

pub record OsReport : Type 0 where
  pub reported_assignment_id : ℕ
  pub updated_at : ℕ
  pub commit_hash : Str
  pub orchestrator_version : Str
  pub description : Option Str

pub record AppReport : Type 0 where
  pub reported_assignment_id : ℕ
  pub updated_at : ℕ
  pub application_name : Option Str
  pub application_description : Option Str
  pub config : Option (Option Str)
  pub image : Option Str
  pub version : Option ℕ

pub record Summary : Type 0 where
  pub device : Device
  pub tenant : Option Tenant
  pub os_versions : List OsReport
  pub applications : List AppReport

-- A `HashMap` of lists, where a missing key stands for the empty list.
abbrev pub Grouped : Type 0 → Type 0
Grouped A = ℕ → List A

-- `entry(key).or_default().push(a)`
abbrev pub push_to : {A : Type 0} → ℕ → A → Grouped A → Grouped A
push_to key a m k = if k == key then m k ++ a ∷ [] else m k

-- `remove(&key)`, which leaves the others.
abbrev pub without : {A : Type 0} → ℕ → Grouped A → Grouped A
without key m k = if k == key then [] else m k

-- A `HashMap` collected from rows: of two with a key, the later one stays.
abbrev pub by_key : {A : Type 0} → (A → ℕ) → List A → ℕ → Option A
by_key key_of [] k = none
by_key key_of (a ∷ rest) k = elim (by_key key_of rest k) [
  | some later ↦ some later
  | none ↦ if key_of a == k then some a else none
]

abbrev pub os_report : Report → OsVersion → OsReport
os_report a v = record {
  reported_assignment_id = a.id;
  updated_at = a.updated_at;
  commit_hash = v.commit_hash;
  orchestrator_version = v.orchestrator_version;
  description = v.description;
}

-- The loop over the reported OS versions: those that are gone are left out.
unfoldable pub group_os : List (Report × Option OsVersion) → Grouped OsReport → Grouped OsReport
group_os [] m = m
group_os ((a, none) ∷ rows) m = group_os rows m
group_os ((a, some v) ∷ rows) m = group_os rows (push_to a.device_id (os_report a v) m)

abbrev pub application_for : List Application → Option ApplicationConfig → Option Application
application_for apps none = none
application_for apps (some c) = by_key (λ (p : Application). p.id) apps c.application_id

abbrev pub name_of : Option Application → Option Str
name_of none = none
name_of (some p) = some p.name

abbrev pub description_of : Option Application → Option Str
description_of none = none
description_of (some p) = some p.description

abbrev pub mapped : {A B : Type 0} → (A → B) → Option A → Option B
mapped f none = none
mapped f (some a) = some (f a)

abbrev pub app_report : List Application → Report → Option ApplicationConfig → AppReport
app_report apps a config = record {
  reported_assignment_id = a.id;
  updated_at = a.updated_at;
  application_name = name_of (application_for apps config);
  application_description = description_of (application_for apps config);
  config = mapped (λ (c : ApplicationConfig). c.config) config;
  image = mapped (λ (c : ApplicationConfig). c.image) config;
  version = mapped (λ (c : ApplicationConfig). c.version) config;
}

-- The loop over the reported configs.
unfoldable pub group_apps :
    List Application
    → List (Report × Option ApplicationConfig)
    → Grouped AppReport
    → Grouped AppReport
group_apps apps [] m = m
group_apps apps ((a, config) ∷ rows) m =
    group_apps apps rows (push_to a.device_id (app_report apps a config) m)

-- The closure over the devices, which takes the lists out of the maps.
unfoldable pub summaries :
    List Tenant → Grouped OsReport → Grouped AppReport → List Device → List Summary
summaries tenants os apps [] = []
summaries tenants os apps (d ∷ devices) =
    record {
      device = d;
      tenant = by_key (λ (n : Tenant). n.id) tenants d.tenant_id;
      os_versions = os d.id;
      applications = apps d.id;
    }
    ∷ summaries tenants (without d.id os) (without d.id apps) devices

abbrev pub config_application : Report × Option ApplicationConfig → ℕ → Bool
config_application (a, none) id = false
config_application (a, some c) id = c.application_id == id

-- The other tables, read over the connection of the devices: the reports of the devices that pass the
-- test with what they name, and the rows whose key passes it.
pub record Related (Conn : Type 0) : Type 0 where
  pub reported_os : (ℕ → Bool) → Conn → Result DbErr (List (Report × Option OsVersion))
  pub reported_apps : (ℕ → Bool) → Conn → Result DbErr (List (Report × Option ApplicationConfig))
  pub applications : (ℕ → Bool) → Conn → Result DbErr (List Application)
  pub tenants : (ℕ → Bool) → Conn → Result DbErr (List Tenant)

module _ (t : Devices) (like : Str → Str → Bool) (others : Related (Table.Conn t)) where
  open t use {Conn}

  abbrev pub among : List Device → ℕ → Bool
  among devices i = any (λ (d : Device). d.id == i) devices

  abbrev pub described_page : List Device → ℕ → Db Conn (List Summary × ℕ)
  described_page [] total = pure ([], total)
  described_page (d ∷ devices) total = do
    os_rows ← read (others.reported_os (among (d ∷ devices)))
    app_rows ← read (others.reported_apps (among (d ∷ devices)))
    apps ← read (others.applications (λ i. any (λ r. config_application r i) app_rows))
    tenants ← read (others.tenants (λ i. any (λ (e : Device). e.tenant_id == i) (d ∷ devices)))
    pure (
      summaries tenants (group_os os_rows (λ k. [])) (group_apps apps app_rows (λ k. []))
          (d ∷ devices),
      total,
    )

  unfoldable pub assemble_device_summary :
      Option ℕ → DeviceQuery → ℕ → ℕ → Db Conn (List Summary × ℕ)
  unfolding paginated summaries group_os group_apps
  assemble_device_summary id q page page_size = do
    selected ← paginated t (λ d. matches id (some d.id) && is_listed like q d) page page_size
    described_page selected.0 selected.1

  unfoldable pub list_device_summaries : DeviceQuery → ℕ → ℕ → Db Conn (List Summary × ℕ)
  unfolding assemble_device_summary
  list_device_summaries q = assemble_device_summary none q

  abbrev any_device : DeviceQuery
  any_device = record { group_id = none; tenant_id = none; uuid = none; serial_number = none }

  -- `res.0.pop()`
  unfoldable pub get_device_summary : ℕ → Db Conn (Option Summary)
  unfolding assemble_device_summary
  get_device_summary id = do
    found ← assemble_device_summary (some id) any_device 0 1
    pure (first_row (reverse found.0))

  unfoldable pub list_device_summaries_route :
      PageParams → DeviceQuery → Handler Conn (Page Summary)
  unfolding list_device_summaries validate
  list_device_summaries_route p q = list_page p (list_device_summaries q)

  unfoldable pub get_device_summary_route : ℕ → Handler Conn Summary
  unfolding get_device_summary
  get_device_summary_route id = respond (fetched (codes "Device") id) (get_device_summary id)
