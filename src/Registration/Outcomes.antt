-- ===== src/Registration/Outcomes.antt =====
-- What the registration of api-server/src/api_v1/routes/register.rs leaves behind on every path.
use amos2026ss01_zero_downti.Prelude.{
  both, ℕ, ◌≡◌, ◌≢◌, ◌⊎◌, inl, inr, refl, sym, ap, ◌∙◌, subst, true, not, Option, some, none, [],
  ◌∷◌, ◌++◌, filter, Memᴰ, Result, ok, err, ◌==◌,
}
use amos2026ss01_zero_downti.Prelude.Text.{Str, str_eq_iff}
use amos2026ss01_zero_downti.Routes.{StatusCode, created}
use amos2026ss01_zero_downti.Db.Table.{
  DbErr, record_not_found, custom, database, Table, find_one, wrote,
}
use amos2026ss01_zero_downti.Db.Table.Laws.{find_one-some, find_one-conn}
use amos2026ss01_zero_downti.Db.Devices.{Devices, Device, columns_of, add_device}
use amos2026ss01_zero_downti.Db.PendingRegistrations.{
  PendingRegistrations, PendingRegistration, is_pending, search_pending_device_registration,
}
use amos2026ss01_zero_downti.Registration.{
  PostBody, err_msg, new_device, Tables, deleted, added, searched, register_device, status_of,
  checked, post,
}

module _ (devices : Devices) (pending : PendingRegistrations) where
  -- The pending row is gone, or its deletion failed.
  abbrev pub IsSettled :
      PendingRegistration → Tables devices pending → Tables devices pending → Type 0
  IsSettled active w w' =
      (pending.rows w'.pending_rows
        ≡ filter (λ r. not (r.id == active.id)) (pending.rows w.pending_rows))
      ⊎ (w'.pending_rows ≡ w.pending_rows)

  -- One device was added for a pending registration.
  abbrev pub HasRegistered : PostBody → Tables devices pending → Tables devices pending → Type 0
  HasRegistered body w w' =
      (active : PendingRegistration) × (device : Device) × Memᴰ active (pending.rows w.pending_rows)
      × (active.serial_number ≡ body.serial_number)
      × (active.endorsement_public_key ≡ body.endorsement_public_key)
      × (columns_of device ≡ new_device body)
      × (devices.rows w'.device_rows ≡ devices.rows w.device_rows ++ device ∷ [])
      × IsSettled active w w'

  abbrev pub EndsIn :
      PostBody → Tables devices pending → Result DbErr (Unit {0}) × Tables devices pending → Type 0
  EndsIn body w (ok u, w') = HasRegistered body w w'
  EndsIn body w (err e, w') = w' ≡ w

  deleted-rows :
      (w : Tables devices pending) (r : Result DbErr (ℕ × Table.Conn pending))
      → (deleted devices pending w r).device_rows ≡ w.device_rows
  deleted-rows w (ok (n, c)) = refl
  deleted-rows w (err e) = refl

  deleted-IsSettled :
      (active : PendingRegistration) (w : Tables devices pending)
      (r : Result DbErr (ℕ × Table.Conn pending))
      → pending.delete active.id w.pending_rows ≡ r
      → IsSettled active w (deleted devices pending w r)
  deleted-IsSettled active w (ok (n, c)) h = inl (pending.delete_rows h).0
  deleted-IsSettled active w (err e) h = inr refl

  added-EndsIn :
      (body : PostBody) (w : Tables devices pending) (active : PendingRegistration)
      (r : Result DbErr (Device × Table.Conn devices))
      → Memᴰ active (pending.rows w.pending_rows)
      → is_pending body.serial_number body.endorsement_public_key active ≡ true
      → devices.insert (new_device body) w.device_rows ≡ r
      → EndsIn body w (added devices pending active w (wrote r w.device_rows))
  added-EndsIn body w active (ok (device, c)) m p h =
      let w1 = record w { device_rows = c } in
      let gone = pending.delete active.id w.pending_rows in
      let (serial, key) = both _ _ p in
      let (stored, appended, _) = devices.insert_rows h in
      (
        active,
        device,
        m,
        (str_eq_iff _ _).0 serial,
        (str_eq_iff _ _).0 key,
        stored,
        ap devices.rows (deleted-rows w1 gone) ∙ appended,
        deleted-IsSettled active w1 gone refl,
      )
  added-EndsIn body w active (err e) m p h = refl

  searched-EndsIn :
      (body : PostBody) (w : Tables devices pending) (r : Result DbErr (Option PendingRegistration))
      → (find_one pending
          (is_pending body.serial_number body.endorsement_public_key)
          w.pending_rows).0
        ≡ r
      → EndsIn body w (searched devices pending body w (r, w.pending_rows))
  unfolding add_device
  searched-EndsIn body w (ok none) h = refl
  searched-EndsIn body w (err e) h = refl
  searched-EndsIn body w (ok (some active)) h =
      let (m, p) =
        find_one-some pending (is_pending body.serial_number body.endorsement_public_key)
          w.pending_rows active h in
      added-EndsIn body w active (devices.insert (new_device body) w.device_rows) m p refl

  register_device-EndsIn :
      (body : PostBody) (w : Tables devices pending)
      → EndsIn body w (register_device devices pending body w)
  unfolding register_device search_pending_device_registration
  register_device-EndsIn body w =
      let p = is_pending body.serial_number body.endorsement_public_key in
      let run = find_one pending p w.pending_rows in
      subst (λ c. EndsIn body w (searched devices pending body w (run.0, c)))
        (sym (find_one-conn pending p w.pending_rows)) (searched-EndsIn body w run.0 refl)

  -- The answer of a registration.
  abbrev pub IsConcluded :
      PostBody → Tables devices pending → StatusCode → Tables devices pending → Type 0
  IsConcluded body w status w' =
      ((status ≡ created) × HasRegistered body w w') ⊎ ((status ≢ created) × (w' ≡ w))

  status_of-IsConcluded :
      (body : PostBody) (w : Tables devices pending)
      (r : Result DbErr (Unit {0}) × Tables devices pending)
      → EndsIn body w r
      → IsConcluded body w (status_of devices pending r.0) r.1
  status_of-IsConcluded body w (ok u, w') h = inl (refl, h)
  status_of-IsConcluded body w (err (record_not_found m), w') h = inr (λ e. cc, h)
  status_of-IsConcluded body w (err (custom m), w') h = inr (λ e. cc, h)
  status_of-IsConcluded body w (err (database n), w') h = inr (λ e. cc, h)

  checked-IsConcluded :
      (body : PostBody) (w : Tables devices pending) (o : Option Str)
      → let r = checked devices pending body w o in IsConcluded body w r.0 r.1
  checked-IsConcluded body w none =
      status_of-IsConcluded body w (register_device devices pending body w)
        (register_device-EndsIn body w)
  checked-IsConcluded body w (some msg) = inr (λ e. cc, refl)

  -- A registration is answered with 201 only after one device was added, with the texts of the
  -- body, the first tenant and no group, for a pending registration of the same serial number and
  -- endorsement key, which was then deleted, or not if the deletion failed; every other answer
  -- leaves both tables as they were.
  pub post-IsConcluded :
      (body : PostBody) (w : Tables devices pending)
      → let r = post devices pending body w in IsConcluded body w r.0 r.1
  unfolding post
  post-IsConcluded body w = checked-IsConcluded body w (err_msg body)
