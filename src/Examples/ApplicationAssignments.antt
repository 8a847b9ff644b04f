-- ===== src/Examples/ApplicationAssignments.antt =====
-- The listing of a device's application assignments, over a table that is only read.
use amos2026ss01_zero_downti.Prelude.{
  ℕ, ◌*◌, ◌%◌, ◌^◌, ◌≡◌, refl, Bool, true, false, Option, some, none, List, [], ◌∷◌, Memᴰ, filter,
  Result, ok, length, take, drop,
}
use amos2026ss01_zero_downti.Db.Table.{DbErr}
use amos2026ss01_zero_downti.Db.Assignments.{stands_before}
use amos2026ss01_zero_downti.Db.ApplicationAssignments.{
  ApplicationAssignment, ActiveModel, Stores, id_of, ApplicationAssignments, ConfigRow, for_device,
  application_of, is_wanted, deduplicate, paginate, list_application_assignments_for_device,
}
use amos2026ss01_zero_downti.Examples.Memory.{memory}
use amos2026ss01_zero_downti.Db.ApplicationAssignments.Distinct.{
  IsDistinct, IsCovered, list_application_assignments_for_device-IsDistinct,
}

abbrev pub row : ℕ → ℕ → Option ℕ → Option ℕ → ApplicationAssignment
row i config device group = record {
  id = i;
  application_config_id = config;
  device_id = device;
  group_id = group;
  deleted_at = none;
  superseded_by = none;
}

-- Config 20 and config 21 are of application 5.
abbrev config_row : ℕ → ConfigRow
config_row i = record { id = i; application_id = 5; deleted_at = none; superseded_by = none }

abbrev pub configs : (ConfigRow → Bool) → List ApplicationAssignment → Result DbErr (List ConfigRow)
configs p c = ok (filter p (config_row 20 ∷ config_row 21 ∷ []))

abbrev pub inserted : ActiveModel → ℕ → ApplicationAssignment
inserted a i = record {
  id = i;
  application_config_id = a.application_config_id;
  device_id = a.device_id;
  group_id = a.group_id;
  deleted_at = none;
  superseded_by = none;
}

abbrev pub table : ApplicationAssignments
table =
    memory Stores id_of inserted (λ a i. refl) (λ a i. (refl, refl, refl, refl, refl))
      (λ a c. false)

-- Device 7 has config 20 of application 5 itself, and config 21 of it from its group.
abbrev pub assigned : List ApplicationAssignment
assigned = row 1 20 (some 7) none ∷ row 2 21 none (some 3) ∷ []

abbrev first_page : List ApplicationAssignment
first_page = row 1 20 (some 7) none ∷ []

abbrev one : ℕ
one = 1

listed :
    list_application_assignments_for_device table configs false 7 (some 3) none 0 10 assigned
    ≡ (ok (first_page, one), assigned)
unfolding list_application_assignments_for_device stands_before deduplicate application_of paginate
listed = refl

list_application_assignments_for_device-IsDistinct_example :
    (all : List ApplicationAssignment) × (app_configs : List ConfigRow) × (full : List
      ApplicationAssignment)
    × (configs (is_wanted all) assigned ≡ ok app_configs)
    × (first_page ≡ take 10 (drop ((0 * 10) % 2 ^ 64) full))
    × (one ≡ length full)
    × (IsDistinct (application_of app_configs) [] full)
    × ((x : ApplicationAssignment)
        → Memᴰ x full
        → Memᴰ x assigned × (for_device 7 (some 3) none x ≡ true))
    × ((x : ApplicationAssignment)
        → Memᴰ x assigned
        → for_device 7 (some 3) none x ≡ true
        → Memᴰ x all × IsCovered (application_of app_configs) [] full x)
list_application_assignments_for_device-IsDistinct_example =
    list_application_assignments_for_device-IsDistinct table configs false 7 (some 3) none 0 10
      assigned assigned first_page one listed
