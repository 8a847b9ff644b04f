-- ===== src/Examples/OsAssignments.antt =====
-- Assignments in a table held in memory.
use amos2026ss01_zero_downti.Prelude.{
  sym, ◌∙◌, ℕ, ◌≡◌, refl, Bool, true, false, ◌&&◌, Option, some, none, List, [], ◌∷◌, ◌++◌, map,
  filter, any, Memᴰ, ok, err, ◌==◌, ap,
}
use amos2026ss01_zero_downti.Db.Table.{DbErr, transaction, find_one, update_each}
use amos2026ss01_zero_downti.Db.Assignments.{stands_before, neither_set, needs_one_target}
use amos2026ss01_zero_downti.Db.OsAssignments.{
  OsAssignment, ActiveModel, OsAssignments, Stores, id_of, HasImmediate, or_false, is_active,
  replaced, for_device, add_os_assignment, supersede_with, insert_checked, update_checked,
  delete_os_assignment, get_os_assignment, list_os_assignments_for_device,
}
use amos2026ss01_zero_downti.Db.OsAssignments.Supersede.{IsKeyed, All-mem, after, requested}
use amos2026ss01_zero_downti.Db.OsAssignments.Add.{
  add_os_assignment-replaces, add_os_assignment-conflict, shares, IsIndexed,
}
use amos2026ss01_zero_downti.Db.OsAssignments.WellFormed.{
  IsSingle, IsWellFormed, add_os_assignment-IsWellFormed,
}
use amos2026ss01_zero_downti.Db.OsAssignments.Precedence.{
  IsTargeted, is_preferred, list_os_assignments_for_device-kind,
}
use amos2026ss01_zero_downti.Examples.Memory.{memory, insert_into-rows, unbeaten}

abbrev pub row : ℕ → Option ℕ → Option ℕ → OsAssignment
row i device group = record {
  id = i;
  os_version_id = 70;
  device_id = device;
  group_id = group;
  immediate = false;
  deleted_at = none;
  superseded_by = none;
}

abbrev pub inserted : ActiveModel → ℕ → OsAssignment
inserted a i = record {
  id = i;
  os_version_id = a.os_version_id;
  device_id = a.device_id;
  group_id = a.group_id;
  immediate = or_false a.immediate;
  deleted_at = none;
  superseded_by = none;
}

pub stores : (a : ActiveModel) (i : ℕ) → Stores a (inserted a i)
stores a i = (refl, refl, refl, kept a.immediate, refl, refl)
  where
    kept : (b : Option Bool) → HasImmediate b (or_false b)
    kept none = tt
    kept (some b) = refl

-- Device 7 has an assignment of its own and one of its group, 3.
abbrev pub two_rows : List OsAssignment
two_rows = row 1 (some 7) none ∷ row 2 none (some 3) ∷ []

abbrev one : ℕ
one = 1

abbrev pub plain : OsAssignments
plain = memory Stores id_of inserted (λ a i. refl) stores (λ a c. false)

abbrev indexed : OsAssignments
indexed =
    memory Stores id_of inserted (λ a i. refl) stores
      (λ a c. any (λ x. is_active x && shares a.device_id a.group_id x) c)

pub two_rows-IsKeyed : IsKeyed two_rows
two_rows-IsKeyed x y (Memᴰ.head e) (Memᴰ.head f) h = cc
two_rows-IsKeyed x y (Memᴰ.head e) (Memᴰ.tail (Memᴰ.head f)) h =
    let no : (x.id == y.id) ≡ false = rw (ap id_of e, ap id_of f) refl in cc
two_rows-IsKeyed x y (Memᴰ.head e) (Memᴰ.tail (Memᴰ.tail n)) h = elim n [ ]
two_rows-IsKeyed x y (Memᴰ.tail (Memᴰ.head e)) (Memᴰ.head f) h =
    let no : (x.id == y.id) ≡ false = rw (ap id_of e, ap id_of f) refl in cc
two_rows-IsKeyed x y (Memᴰ.tail (Memᴰ.head e)) (Memᴰ.tail (Memᴰ.head f)) h = cc
two_rows-IsKeyed x y (Memᴰ.tail (Memᴰ.head e)) (Memᴰ.tail (Memᴰ.tail n)) h = elim n [ ]
two_rows-IsKeyed x y (Memᴰ.tail (Memᴰ.tail m)) n h = elim m [ ]

pub two_rows-IsTargeted : IsTargeted two_rows
unfolding needs_one_target
two_rows-IsTargeted x (Memᴰ.head e) = rw e refl
two_rows-IsTargeted x (Memᴰ.tail (Memᴰ.head e)) = rw e refl
two_rows-IsTargeted x (Memᴰ.tail (Memᴰ.tail m)) = elim m [ ]

abbrev pub added : OsAssignment
added = record {
  id = 4;
  os_version_id = 90;
  device_id = some 7;
  group_id = none;
  immediate = false;
  deleted_at = none;
  superseded_by = none;
}

abbrev pub three_rows : List OsAssignment
three_rows = map (after 4 (some 7) none) two_rows ++ added ∷ []

pub added_run : add_os_assignment plain 90 (some 7) none none two_rows ≡ (ok added, three_rows)
unfolding add_os_assignment transaction supersede_with insert_checked update_each needs_one_target
added_run = refl

add_os_assignment-replaces_example :
    (three_rows ≡ map (after 4 (some 7) none) two_rows ++ added ∷ [])
    × (Stores (requested 90 (some 7) none none) added)
    × (filter (replaced (some 7) none) three_rows ≡ added ∷ [])
add_os_assignment-replaces_example =
    add_os_assignment-replaces plain 90 (some 7) none none two_rows three_rows added
      two_rows-IsKeyed added_run

two_rows-IsSingle : IsSingle two_rows
two_rows-IsSingle x y (Memᴰ.head e) (Memᴰ.head f) ax ay d g = e ∙ sym f
two_rows-IsSingle x y (Memᴰ.head e) (Memᴰ.tail (Memᴰ.head f)) ax ay d g = absurd cc
two_rows-IsSingle x y (Memᴰ.head e) (Memᴰ.tail (Memᴰ.tail n)) ax ay d g = elim n [ ]
two_rows-IsSingle x y (Memᴰ.tail (Memᴰ.head e)) (Memᴰ.head f) ax ay d g = absurd cc
two_rows-IsSingle x y (Memᴰ.tail (Memᴰ.head e)) (Memᴰ.tail (Memᴰ.head f)) ax ay d g = e ∙ sym f
two_rows-IsSingle x y (Memᴰ.tail (Memᴰ.head e)) (Memᴰ.tail (Memᴰ.tail n)) ax ay d g = elim n [ ]
two_rows-IsSingle x y (Memᴰ.tail (Memᴰ.tail m)) n ax ay d g = elim m [ ]

add_os_assignment-IsWellFormed_example : IsWellFormed three_rows
add_os_assignment-IsWellFormed_example =
    add_os_assignment-IsWellFormed plain 90 (some 7) none none two_rows three_rows added
      (two_rows-IsKeyed, two_rows-IsTargeted, two_rows-IsSingle) added_run

refused_run :
    (add_os_assignment plain 90 none none none two_rows).0 ≡ err (DbErr.custom neither_set)
unfolding add_os_assignment transaction supersede_with insert_checked needs_one_target
refused_run = refl

indexed-IsIndexed : IsIndexed indexed
indexed-IsIndexed a c c' r h x m =
    let (free, _, _, _) =
      insert_into-rows Stores id_of inserted (λ a i. refl) stores
        (λ a c. any (λ x. is_active x && shares a.device_id a.group_id x) c) a c c' r h in
    All-mem (λ x. (is_active x && shares a.device_id a.group_id x) ≡ false) c x
      (unbeaten (λ x. is_active x && shares a.device_id a.group_id x) c free) m

add_os_assignment-conflict_example :
    (e : DbErr) × (add_os_assignment indexed 90 (some 7) none none two_rows ≡ (err e, two_rows))
add_os_assignment-conflict_example =
    add_os_assignment-conflict indexed 90 (some 7) none none two_rows (row 1 (some 7) none)
      indexed-IsIndexed (Memᴰ.head refl) refl

abbrev one_deleted : List OsAssignment
one_deleted =
    record {
      id = 1;
      os_version_id = 70;
      device_id = some 7;
      group_id = none;
      immediate = false;
      deleted_at = some 500;
      superseded_by = none;
    }
    ∷ row 2 none (some 3)
    ∷ []

deleted_run : delete_os_assignment plain 500 1 two_rows ≡ (ok 1, one_deleted)
unfolding delete_os_assignment find_one update_checked needs_one_target
deleted_run = refl

got_run : get_os_assignment plain 1 one_deleted ≡ (ok none, one_deleted)
unfolding get_os_assignment find_one
got_run = refl

listed_run :
    list_os_assignments_for_device plain false 7 (some 3) none two_rows
    ≡ (ok (row 1 (some 7) none ∷ [], 1), two_rows)
unfolding list_os_assignments_for_device stands_before
listed_run = refl

-- The same rows as PostgreSQL lists them.
abbrev group_first : List OsAssignment
group_first = row 2 none (some 3) ∷ row 1 (some 7) none ∷ []

group_run :
    list_os_assignments_for_device plain true 7 (some 3) none group_first
    ≡ (ok (row 2 none (some 3) ∷ [], 1), group_first)
unfolding list_os_assignments_for_device stands_before
group_run = refl

list_os_assignments_for_device-kind_example :
    (w : OsAssignment) × (row 2 none (some 3) ∷ [] ≡ w ∷ [])
    × (one ≡ one)
    × (Memᴰ w group_first)
    × (for_device 7 (some 3) none w ≡ true)
    × (is_preferred true w ≡ true)
list_os_assignments_for_device-kind_example =
    list_os_assignments_for_device-kind plain true 7 (some 3) none group_first group_first
      (row 2 none (some 3) ∷ []) one (row 2 none (some 3)) group_run (Memᴰ.head refl) refl refl
