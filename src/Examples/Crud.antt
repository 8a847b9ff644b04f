-- ===== src/Examples/Crud.antt =====
-- The handlers that a user calls.
use amos2026ss01_zero_downti.Prelude.{inr, true, ◌≡◌, refl, none, [], ◌∷◌, ok}
use amos2026ss01_zero_downti.Routes.{
  answer, failure, message, success, created, unprocessable_entity,
}
use amos2026ss01_zero_downti.Db.Table.{transaction, update_each}
use amos2026ss01_zero_downti.Db.Assignments.{needs_one_target, stands_before}
use amos2026ss01_zero_downti.Db.Devices.{Device, Columns, columns_of, add_device}
use amos2026ss01_zero_downti.Db.OsAssignments.{
  add_os_assignment, supersede_with, insert_checked, or_false, list_os_assignments_for_device,
}
use amos2026ss01_zero_downti.Db.OsVersions.{get_os_version}
use amos2026ss01_zero_downti.DeviceRoutes.{versioned, os_response, or_500, get_os}
use amos2026ss01_zero_downti.Registration.{is_blank, is_blank_from}
use amos2026ss01_zero_downti.Crud.{neither}
use amos2026ss01_zero_downti.Crud.Laws.{IsOrFails}
use amos2026ss01_zero_downti.Crud.Devices.{device_msg, create_device, get_device_route}
use amos2026ss01_zero_downti.Crud.Devices.RoundTrip.{create_device-get}
use amos2026ss01_zero_downti.Crud.OsAssignments.{create_os_assignment}
use amos2026ss01_zero_downti.Crud.OsAssignments.Told.{for_the_device, create_os_assignment-told}
use amos2026ss01_zero_downti.Examples.Auth.{in_memory, pump}
use amos2026ss01_zero_downti.Examples.OsAssignments.{
  plain, two_rows, added, three_rows, two_rows-IsKeyed, two_rows-IsTargeted,
}
use amos2026ss01_zero_downti.Examples.DeviceRoutes.{versions, version_70}

abbrev body : Columns
body = columns_of pump

abbrev first : Device
first = record {
  id = 1;
  uuid = body.uuid;
  public_key = body.public_key;
  serial_number = body.serial_number;
  tenant_id = body.tenant_id;
  group_id = body.group_id;
}

created_run : create_device in_memory body [] ≡ (answer created first, first ∷ [])
unfolding create_device add_device is_blank is_blank_from
created_run = refl

create_device-get_example :
    (device_msg body ≡ none)
    × (columns_of first ≡ body)
    × IsOrFails (get_device_route in_memory 1 (first ∷ [])).0 (answer success first)
create_device-get_example = create_device-get in_memory body [] (first ∷ []) first created_run

posted_run :
    create_os_assignment plain (for_the_device 90 7 none) two_rows
    ≡ (answer created added, three_rows)
unfolding create_os_assignment add_os_assignment transaction supersede_with insert_checked
    update_each needs_one_target
posted_run = refl

listed_run :
    (list_os_assignments_for_device plain true 7 none none three_rows).0 ≡ ok (added ∷ [], 1)
unfolding list_os_assignments_for_device stands_before
listed_run = refl

create_os_assignment-told_example :
    (added ∷ [] ≡ added ∷ [])
    × (added.os_version_id ≡ 90)
    × (added.immediate ≡ or_false none)
    × (get_os versions plain true 7 none three_rows (version_70 ∷ [])
        ≡ or_500 (
            os_response versions plain true
              (versioned versions added (get_os_version versions 90 (version_70 ∷ [])).0)))
create_os_assignment-told_example =
    create_os_assignment-told plain versions true 90 7 none none two_rows three_rows added
      (added ∷ []) 1 (version_70 ∷ []) two_rows-IsKeyed two_rows-IsTargeted
      (inr (λ x m active. refl)) posted_run listed_run

refused :
    create_os_assignment plain
      (record { os_version_id = 90; device_id = none; group_id = none; immediate = none })
      two_rows
    ≡ (failure unprocessable_entity (message neither), two_rows)
unfolding create_os_assignment
refused = refl
