-- ===== src/Examples/ReportedAssignments.antt =====
-- Reports in a table held in memory.
use amos2026ss01_zero_downti.Prelude.{
  ℕ, suc, ◌≡◌, refl, sym, ◌&&◌, ◌||◌, List, [], ◌∷◌, ◌++◌, any, length, ok, ◌==◌, if◌then◌else◌,
}
use amos2026ss01_zero_downti.Db.ReportedAssignments.{
  Report, same_report, touch, ReportTable, add_reported, apps_put_report, has_reported,
}
use amos2026ss01_zero_downti.Db.ReportedAssignments.Reports.{apps_put_report-has}
use amos2026ss01_zero_downti.Examples.LogTable.{ok_inj}

abbrev upserted : ℕ → ℕ → ℕ → List Report → List Report
upserted device rep now c =
    if any (same_report device rep) c
    then touch device rep now c
    else c
      ++ record { id = suc (length c); device_id = device; reported_id = rep; updated_at = now }
        ∷ []

abbrev in_memory : ReportTable
in_memory = record {
  Conn = List Report;
  rows = λ c. c;
  upsert = λ device rep now c. ok (upserted device rep now c);
  upsert_rows = λ {c = c} h. (suc (length c), sym (ok_inj h));
}

abbrev before : List Report
before = record { id = 1; device_id = 7; reported_id = 20; updated_at = 5 } ∷ []

abbrev after : List Report
after =
    record { id = 1; device_id = 7; reported_id = 20; updated_at = 9 }
    ∷ record { id = 2; device_id = 7; reported_id = 21; updated_at = 9 }
    ∷ []

run : apps_put_report in_memory (λ id. 9) 7 (20 ∷ 21 ∷ []) before ≡ (ok tt, after)
unfolding apps_put_report add_reported
run = refl

apps_put_report-has_example :
    has_reported in_memory 7 21 after
    ≡ (has_reported in_memory 7 21 before || ((7 == 7) && any (λ id. id == 21) (20 ∷ 21 ∷ [])))
apps_put_report-has_example =
    apps_put_report-has in_memory (λ id. 9) 7 (20 ∷ 21 ∷ []) before after tt run 7 21
