-- ===== src/Crud/Devices/RoundTrip.antt =====
-- A device that was created and one that was deleted, as GET /devices/{id} shows them.
use amos2026ss01_zero_downti.Prelude.{ℕ, ◌≡◌, some, none}
use amos2026ss01_zero_downti.Prelude.Text.{codes}
use amos2026ss01_zero_downti.Routes.{answer, success, created, no_content, no_such}
use amos2026ss01_zero_downti.Db.Keyed.{add, find_by_id, delete_by_id}
use amos2026ss01_zero_downti.Db.Keyed.Laws.{add-stores, find_by_id-added, find_by_id-deleted}
use amos2026ss01_zero_downti.Db.Devices.{
  Devices, Device, Columns, columns_of, get_device, add_device, delete_device,
}
use amos2026ss01_zero_downti.Crud.Laws.{unless-created, respond-gone, IsOrFails, fetched-IsOrFails}
use amos2026ss01_zero_downti.Crud.Devices.{
  device_msg, get_device_route, create_device, delete_device_route,
}

module _ (t : Devices) where
  open t use {Conn}

  -- A device that POST /devices answers with 201 has the columns of the body, which passed the
  -- checks, and GET /devices/{id} under its id answers with that device, or with 500 if the database
  -- fails.
  pub create_device-get :
      (body : Columns) (c c' : Conn) (d : Device)
      → create_device t body c ≡ (answer created d, c')
      → (device_msg body ≡ none)
        × (columns_of d ≡ body)
        × IsOrFails (get_device_route t d.id c').0 (answer success d)
  unfolding create_device get_device_route add_device get_device add find_by_id
  create_device-get body c c' d h =
      let (passes, ran) = unless-created (device_msg body) (add_device t body) c c' d h in
      (
        passes,
        add-stores t body c c' d ran,
        fetched-IsOrFails (codes "Device") d.id (get_device t d.id c').0 (some d)
            (λ o found. find_by_id-added t body c c' d o ran found),
      )

  -- Once DELETE /devices/{id} has answered 204, GET answers with 404, or with 500 if the database
  -- fails.
  pub delete_device-get :
      (id : ℕ) (c c' : Conn)
      → delete_device_route t id c ≡ (answer no_content tt, c')
      → IsOrFails (get_device_route t id c').0 (no_such (codes "Device") id)
  unfolding delete_device_route get_device_route delete_device get_device delete_by_id find_by_id
  delete_device-get id c c' h =
      let (n, ran) = respond-gone (codes "Device") id (delete_device t id) c c' h in
      fetched-IsOrFails (codes "Device") id (get_device t id c').0 none
        (λ o found. find_by_id-deleted t id n c c' o ran found)
