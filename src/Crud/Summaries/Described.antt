-- ===== src/Crud/Summaries/Described.antt =====
-- A summary has what its own device has reported.
use amos2026ss01_zero_downti.Prelude.{
  ℕ, ◌≡◌, refl, sym, ap, ◌∙◌, Bool, true, false, ◌&&◌, Option, some, none, List, [], ◌∷◌, ◌++◌, map,
  any, All, ok, ◌==◌, if◌then◌else◌, append_assoc, append-nil,
}
use amos2026ss01_zero_downti.Prelude.Text.{Str}
use amos2026ss01_zero_downti.Db.Table.{go_on, Table}
use amos2026ss01_zero_downti.Db.Assignments.{matches}
use amos2026ss01_zero_downti.Db.Table.{go_on}
use amos2026ss01_zero_downti.Db.Keyed.{paginated}
use amos2026ss01_zero_downti.Db.Keyed.Laws.{paginated-conn}
use amos2026ss01_zero_downti.Db.Devices.{Devices, Device}
use amos2026ss01_zero_downti.Db.OsVersions.{OsVersion}
use amos2026ss01_zero_downti.Db.ApplicationConfigs.{ApplicationConfig}
use amos2026ss01_zero_downti.Db.ReportedAssignments.{Report}
use amos2026ss01_zero_downti.Crud.Applications.{Application}
use amos2026ss01_zero_downti.Crud.Tenants.{Tenant}
use amos2026ss01_zero_downti.Crud.Devices.{DeviceQuery, is_listed}
use amos2026ss01_zero_downti.Crud.Summaries.{
  OsReport, AppReport, Summary, Grouped, push_to, without, by_key, os_report, app_report, group_os,
  group_apps, summaries, config_application, Related, among, described_page,
  assemble_device_summary,
}

-- What a device has reported, in the order of the rows.
abbrev pub os_of : List (Report × Option OsVersion) → ℕ → List OsReport
os_of [] k = []
os_of ((a, none) ∷ rows) k = os_of rows k
os_of ((a, some v) ∷ rows) k =
    if k == a.device_id then os_report a v ∷ os_of rows k else os_of rows k

abbrev pub apps_of :
    List Application → List (Report × Option ApplicationConfig) → ℕ → List AppReport
apps_of apps [] k = []
apps_of apps ((a, config) ∷ rows) k =
    if k == a.device_id then app_report apps a config ∷ apps_of apps rows k else apps_of apps rows k

abbrev pub described :
    List (Report × Option OsVersion)
    → List (Report × Option ApplicationConfig)
    → List Application
    → List Tenant
    → Device
    → Summary
described os_rows app_rows apps tenants d = record {
  device = d;
  tenant = by_key (λ (n : Tenant). n.id) tenants d.tenant_id;
  os_versions = os_of os_rows d.id;
  applications = apps_of apps app_rows d.id;
}

push_then :
    {A : Type 0} (b : Bool) (front : List A) (a : A) (rest : List A)
    → (if b then front ++ a ∷ [] else front) ++ rest ≡ front ++ (if b then a ∷ rest else rest)
push_then true front a rest = append_assoc front (a ∷ []) rest
push_then false front a rest = refl

group_os-of :
    (rows : List (Report × Option OsVersion)) (m : Grouped OsReport) (k : ℕ)
    → group_os rows m k ≡ m k ++ os_of rows k
unfolding group_os
group_os-of [] m k = sym (append-nil (m k))
group_os-of ((a, none) ∷ rows) m k = group_os-of rows m k
group_os-of ((a, some v) ∷ rows) m k =
    group_os-of rows (push_to a.device_id (os_report a v) m) k
    ∙ push_then (k == a.device_id) (m k) (os_report a v) (os_of rows k)

group_apps-of :
    (apps : List Application) (rows : List (Report × Option ApplicationConfig))
    (m : Grouped AppReport) (k : ℕ)
    → group_apps apps rows m k ≡ m k ++ apps_of apps rows k
unfolding group_apps
group_apps-of apps [] m k = sym (append-nil (m k))
group_apps-of apps ((a, config) ∷ rows) m k =
    group_apps-of apps rows (push_to a.device_id (app_report apps a config) m) k
    ∙ push_then (k == a.device_id) (m k) (app_report apps a config) (apps_of apps rows k)

-- No two devices have one key.
abbrev pub IsDistinct : List Device → Type 0
IsDistinct [] = Unit
IsDistinct (d ∷ devices) = All (λ (e : Device). (e.id == d.id) ≡ false) devices × IsDistinct devices

-- The maps agree with the reports on the devices that are still to come.
abbrev Agrees : {A : Type 0} → Grouped A → Grouped A → List Device → Type 0
Agrees m n devices = All (λ (e : Device). m e.id ≡ n e.id) devices

without-Agrees :
    {A : Type 0} (k : ℕ) (m n : Grouped A) (devices : List Device)
    → All (λ (e : Device). (e.id == k) ≡ false) devices
    → Agrees m n devices
    → Agrees (without k m) n devices
without-Agrees k m n [] other same = tt
without-Agrees k m n (e ∷ devices) (o, other) (s, same) =
    (rw o s, without-Agrees k m n devices other same)

summaries-described :
    (os_rows : List (Report × Option OsVersion))
    (app_rows : List (Report × Option ApplicationConfig)) (apps : List Application)
    (tenants : List Tenant) (os : Grouped OsReport) (applications : Grouped AppReport)
    (devices : List Device)
    → IsDistinct devices
    → Agrees os (os_of os_rows) devices
    → Agrees applications (apps_of apps app_rows) devices
    → summaries tenants os applications devices
      ≡ map (described os_rows app_rows apps tenants) devices
unfolding summaries
summaries-described os_rows app_rows apps tenants os applications [] distinct same_os same_apps =
    refl
summaries-described os_rows app_rows apps tenants os applications (d ∷ devices) (other, distinct)
      (s, same_os) (a, same_apps) =
    let rest =
      summaries-described os_rows app_rows apps tenants (without d.id os)
        (without d.id applications) devices distinct
        (without-Agrees d.id os (os_of os_rows) devices other same_os)
        (without-Agrees d.id applications (apps_of apps app_rows) devices other same_apps) in
    λ i.
      record {
        device = d;
        tenant = by_key (λ (n : Tenant). n.id) tenants d.tenant_id;
        os_versions = s i;
        applications = a i;
      }
      ∷ rest i

module _ (t : Devices) (like : Str → Str → Bool) (others : Related (Table.Conn t)) where
  open t use {Conn, select, select_by}

  page-described :
      (devices : List Device) (total : ℕ) (c : Conn) (os_rows : List (Report × Option OsVersion))
      (app_rows : List (Report × Option ApplicationConfig)) (apps : List Application)
      (tenants : List Tenant)
      → IsDistinct devices
      → others.reported_os (among t like others devices) c ≡ ok os_rows
      → others.reported_apps (among t like others devices) c ≡ ok app_rows
      → others.applications (λ i. any (λ r. config_application r i) app_rows) c ≡ ok apps
      → others.tenants (λ i. any (λ (e : Device). e.tenant_id == i) devices) c ≡ ok tenants
      → (described_page t like others devices total c).0
        ≡ ok (map (described os_rows app_rows apps tenants) devices, total)
  page-described [] total c os_rows app_rows apps tenants distinct os reported app tenant = refl
  page-described (d ∷ devices) total c os_rows app_rows apps tenants distinct os reported app
        tenant =
      rw (os, reported, app, tenant)
        (ap (λ x. ok (x, total))
          (summaries-described os_rows app_rows apps tenants (group_os os_rows (λ k. []))
            (group_apps apps app_rows (λ k. [])) (d ∷ devices) distinct (agree_os (d ∷ devices))
            (agree_apps (d ∷ devices))))
    where
      agree_os : (es : List Device) → Agrees (group_os os_rows (λ k. [])) (os_of os_rows) es
      agree_os [] = tt
      agree_os (e ∷ es) = (group_os-of os_rows (λ k. []) e.id, agree_os es)

      agree_apps :
          (es : List Device)
          → Agrees (group_apps apps app_rows (λ k. [])) (apps_of apps app_rows) es
      agree_apps [] = tt
      agree_apps (e ∷ es) = (group_apps-of apps app_rows (λ k. []) e.id, agree_apps es)

  -- If the paginator finds devices with distinct keys, and the reports on them, what these name and
  -- the tenants can be read, then the summaries of the page are those devices, in order, each with its
  -- tenant and with exactly what is reported of that device, in the order of the reports.
  pub assemble_device_summary-described :
      (id : Option ℕ) (q : DeviceQuery) (page page_size total : ℕ) (c : Conn)
      (devices : List Device) (os_rows : List (Report × Option OsVersion))
      (app_rows : List (Report × Option ApplicationConfig)) (apps : List Application)
      (tenants : List Tenant)
      → (paginated t (λ d. matches id (some d.id) && is_listed like q d) page page_size c).0
        ≡ ok (devices, total)
      → IsDistinct devices
      → others.reported_os (among t like others devices) c ≡ ok os_rows
      → others.reported_apps (among t like others devices) c ≡ ok app_rows
      → others.applications (λ i. any (λ r. config_application r i) app_rows) c ≡ ok apps
      → others.tenants (λ i. any (λ (e : Device). e.tenant_id == i) devices) c ≡ ok tenants
      → (assemble_device_summary t like others id q page page_size c).0
        ≡ ok (map (described os_rows app_rows apps tenants) devices, total)
  unfolding assemble_device_summary
  assemble_device_summary-described id q page page_size total c devices os_rows app_rows apps
        tenants found distinct os reported app tenant =
      let run = paginated t (λ d. matches id (some d.id) && is_listed like q d) page page_size c in
      let same : run.1 ≡ c =
        paginated-conn t (λ d. matches id (some d.id) && is_listed like q d) page page_size c in
      let whole : run ≡ (ok (devices, total), c) = λ i. (found i, same i) in
      ap (λ r. (go_on r (λ s. described_page t like others s.0 s.1)).0) whole
      ∙ page-described devices total c os_rows app_rows apps tenants distinct os reported app tenant
