-- ===== src/Examples/Registration.antt =====
-- A device that registers.
use amos2026ss01_zero_downti.Prelude.{ℕ, ◌≡◌, refl, true, false, [], ◌∷◌}
use amos2026ss01_zero_downti.Prelude.Text.{codes}
use amos2026ss01_zero_downti.Db.PendingRegistrations.{
  PendingRegistrations, PendingRegistration, NewRegistration, Stores, id_of,
}
use amos2026ss01_zero_downti.Registration.{PostBody, Tables, is_blank, post}
use amos2026ss01_zero_downti.Registration.Outcomes.{IsConcluded, post-IsConcluded}
use amos2026ss01_zero_downti.Examples.Memory.{memory}
use amos2026ss01_zero_downti.Examples.Auth.{in_memory}

abbrev inserted : NewRegistration → ℕ → PendingRegistration
inserted a i = record {
  id = i;
  serial_number = a.serial_number;
  endorsement_public_key = a.endorsement_public_key;
}

abbrev expected : PendingRegistrations
expected = memory Stores id_of inserted (λ a i. refl) (λ a i. (refl, refl)) (λ a c. false)

abbrev body : PostBody
body = record {
  uuid = codes "u1";
  serial_number = codes "s1";
  endorsement_public_key = codes "e1";
  signing_public_key = codes "k1";
}

abbrev one_pending : Tables in_memory expected
one_pending = record {
  device_rows = [];
  pending_rows =
      record { id = 3; serial_number = codes "s1"; endorsement_public_key = codes "e1" } ∷ [];
}

-- A space, a no-break space and an ideographic space.
blank : is_blank (32 ∷ 194 ∷ 160 ∷ 227 ∷ 128 ∷ 128 ∷ []) ≡ true
unfolding is_blank
blank = refl

not_blank : is_blank (32 ∷ 194 ∷ 161 ∷ []) ≡ false
unfolding is_blank
not_blank = refl

post-IsConcluded_example :
    let r = post in_memory expected body one_pending in
    IsConcluded in_memory expected body one_pending r.0 r.1
post-IsConcluded_example = post-IsConcluded in_memory expected body one_pending
