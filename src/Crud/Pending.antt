-- ===== src/Crud/Pending.antt =====
-- api-server/src/api_v1/routes/pending_device_registrations.rs
use amos2026ss01_zero_downti.Prelude.{ℕ, true, List}
use amos2026ss01_zero_downti.Prelude.Text.{codes}
use amos2026ss01_zero_downti.Routes.{PageParams, Page, validate}
use amos2026ss01_zero_downti.Db.Table.{Db}
use amos2026ss01_zero_downti.Db.Keyed.{paginated}
use amos2026ss01_zero_downti.Db.PendingRegistrations.{
  PendingRegistration, NewRegistration, PendingRegistrations, add_pending_device_registration,
  delete_pending_device_registration,
}
use amos2026ss01_zero_downti.Crud.{Handler, made, removed, respond, list_page}

module _ (t : PendingRegistrations) where
  open t use {Conn}

  unfoldable pub list_pending_device_registrations : ℕ → ℕ → Db Conn (List PendingRegistration × ℕ)
  list_pending_device_registrations = paginated t (λ r. true)

  unfoldable pub list_pending_device_registrations_route :
      PageParams → Handler Conn (Page PendingRegistration)
  unfolding list_pending_device_registrations validate
  list_pending_device_registrations_route p = list_page p list_pending_device_registrations

  unfoldable pub create_pending_device_registration :
      NewRegistration → Handler Conn PendingRegistration
  unfolding add_pending_device_registration
  create_pending_device_registration body = respond made (add_pending_device_registration t body)

  unfoldable pub delete_pending_device_registration_route : ℕ → Handler Conn (Unit {0})
  unfolding delete_pending_device_registration
  delete_pending_device_registration_route id =
      respond (removed (codes "PendingDeviceRegistration") id)
        (delete_pending_device_registration t id)
