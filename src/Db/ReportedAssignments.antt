-- ===== src/Db/ReportedAssignments.antt =====
-- What devices report (api-server/src/api_v1/db/reported_os_assignments.rs and
-- reported_application_assignments.rs): one row for a device and what it runs, with the time of the
-- last report.
pub mod Reports
use amos2026ss01_zero_downti.Prelude.{
  ℕ, ◌≡◌, refl, sym, ap, ◌∙◌, subst, Bool, true, false, ◌&&◌, ◌||◌, List, [], ◌∷◌, ◌++◌, map, any,
  Result, ok, err, ◌==◌, ==_iff, if◌then◌else◌, both, Bool-cases, inl, inr, arith,
}
use amos2026ss01_zero_downti.Db.Table.{DbErr, Db, ◌>>=◌, ◌>>◌, pure}

-- `reported_id` is an OS version or an application config.
pub record Report : Type 0 where
  pub id : ℕ
  pub device_id : ℕ
  pub reported_id : ℕ
  pub updated_at : ℕ

abbrev pub same_report : ℕ → ℕ → Report → Bool
same_report device reported r = (r.device_id == device) && (r.reported_id == reported)

abbrev pub touch : ℕ → ℕ → ℕ → List Report → List Report
touch device reported now rows =
    map (λ r. if same_report device reported r then record r { updated_at = now } else r) rows

-- `upsert d i now` is INSERT … ON CONFLICT (device_id, reported) DO UPDATE SET updated_at.
pub record ReportTable : Type 1 where
  pub Conn : Type 0
  pub rows : Conn → List Report
  pub upsert : ℕ → ℕ → ℕ → Conn → Result DbErr Conn
  pub upsert_rows :
      {device reported now : ℕ} {c c' : Conn}
      → upsert device reported now c ≡ ok c'
      → (i : ℕ) × (rows c' ≡ (
          if any (same_report device reported) (rows c)
          then touch device reported now (rows c)
          else rows c
            ++ record { id = i; device_id = device; reported_id = reported; updated_at = now }
              ∷ []))

module _ (t : ReportTable) where
  open t use {Conn, rows, upsert, upsert_rows}

  abbrev pub reported : Conn → Result DbErr Conn → Result DbErr (Unit {0}) × Conn
  reported c (ok c') = (ok tt, c')
  reported c (err e) = (err e, c)

  -- `add_reported_os_assignment` and `add_reported_application_assignment`; `now` is the clock.
  unfoldable pub add_reported : ℕ → ℕ → ℕ → Db Conn (Unit {0})
  add_reported now device reported_id c = reported c (upsert device reported_id now c)

  -- `apps_put_report`: the clock is read for each report.
  unfoldable pub apps_put_report : (ℕ → ℕ) → ℕ → List ℕ → Db Conn (Unit {0})
  unfolding add_reported
  apps_put_report now device [] = pure tt
  apps_put_report now device (id ∷ ids) = do
    add_reported (now id) device id
    apps_put_report now device ids

  -- Whether the device has reported this.
  abbrev pub has_reported : ℕ → ℕ → Conn → Bool
  has_reported device reported_id c = any (same_report device reported_id) (rows c)
