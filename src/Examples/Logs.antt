-- ===== src/Examples/Logs.antt =====
-- The shippers on a few entries, with a cloud that refuses the first request.
use amos2026ss01_zero_downti.Prelude.{
  ℕ, ◌≡◌, refl, Bool, some, none, List, [], ◌∷◌, ◌++◌, is_empty, not, ok, inl, arith,
}
use amos2026ss01_zero_downti.Prelude.Text.{Str, codes}
use mathlib.Core.List.{Sublistᴰ}
use amos2026ss01_zero_downti.Logs.{PostBodyItem, Attempt, info, cap_buffer}
use amos2026ss01_zero_downti.Logs.Shipper.{
  Shipper, Event, received, tick, entry, flush, handle, run,
}
use amos2026ss01_zero_downti.Logs.Registry
use amos2026ss01_zero_downti.Logs.Registry.{
  Registry, AppAttempt, LogChunk, stdout, yielded, entry_of,
}
use amos2026ss01_zero_downti.Logs.Registry.Isolation.{IsSeparated, Owned, handle-IsSeparated}
use amos2026ss01_zero_downti.Logs.Shipper.Bounds.{IsBounded, run-IsBounded}
use amos2026ss01_zero_downti.Logs.Shipper.Delivery.{account, HasRoom, account-run, entries}
use amos2026ss01_zero_downti.Logs.Shipper.Order.{run-Sublistᴰ}

abbrev item : Str → PostBodyItem
item m = record { time = some 5; level = info; message = m; source = none }

abbrev fresh : Shipper
fresh = record { buffer = []; attempts = [] }

-- The cloud refuses the first request and takes all later ones.
abbrev cloud : List Attempt → List PostBodyItem → Bool
cloud attempts batch = not (is_empty attempts)

abbrev events : List Event
events =
    received (some (entry (item (codes "a"))))
    ∷ received (some (entry (item (codes "b"))))
    ∷ tick
    ∷ received (some (entry (item (codes "c"))))
    ∷ received none
    ∷ []

run-IsBounded_example : IsBounded 2 3 (run cloud 2 3 events fresh)
run-IsBounded_example = run-IsBounded cloud 2 3 events fresh (inl (omega arith))

-- The two entries that the cloud refused at first are gone when the third one comes.
events_fit : HasRoom cloud 2 2 events fresh
unfolding handle flush cap_buffer
events_fit = (omega arith, (omega arith, (omega arith, (omega arith, (omega arith, tt)))))

account-run_example : account (run cloud 2 2 events fresh) ≡ account fresh ++ entries events
account-run_example = account-run cloud 2 2 events fresh events_fit

run-Sublistᴰ_example :
    Sublistᴰ (account (run cloud 2 1 events fresh)) (account fresh ++ entries events)
run-Sublistᴰ_example = run-Sublistᴰ cloud 2 1 events fresh

-- Application 4 writes a 4 in each of its messages.
abbrev Marked : ℕ → PostBodyItem → Type 0
Marked id e = e.message ≡ id ∷ []

abbrev app_cloud : List AppAttempt → ℕ → List PostBodyItem → Bool
app_cloud attempts id batch = not (is_empty attempts)

abbrev registry : Registry
registry = record {
  streams = (4, tt) ∷ [];
  buffers = (4, record { time = none; level = info; message = 4 ∷ []; source = none } ∷ []) ∷ [];
  names = [];
  attempts = [];
}

abbrev chunk_event : Registry.Event
chunk_event = yielded 4 (ok (record { stream = stdout; time = none; message = 4 ∷ [] })) 9

chunk-Owned : Owned app_cloud 2 3 Marked chunk_event
unfolding entry_of
chunk-Owned name = refl

registry-IsSeparated : IsSeparated Marked registry
registry-IsSeparated = record { held = ((refl, tt), tt); posted = tt }

handle-IsSeparated_example :
    IsSeparated Marked (Registry.handle app_cloud 2 3 chunk_event registry).0
handle-IsSeparated_example =
    handle-IsSeparated app_cloud 2 3 Marked chunk_event registry chunk-Owned registry-IsSeparated
