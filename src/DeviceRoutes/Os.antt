-- ===== src/DeviceRoutes/Os.antt =====
-- What GET /device/os answers (api-server/src/api_v1/routes/device/os.rs).
use amos2026ss01_zero_downti.Prelude.{
  both, ℕ, ◌≡◌, ◌≢◌, refl, sym, ap, ◌∙◌, Bool, true, Option, some, none, List, [], ◌∷◌, Memᴰ,
  Result, ok, err, ==_iff,
}
use amos2026ss01_zero_downti.Routes.{internal_server_error}
use amos2026ss01_zero_downti.Db.Table.{DbErr, Table, read}
use amos2026ss01_zero_downti.Db.Table.Laws.{>>=-ok, read-ok, find_one-some}
use amos2026ss01_zero_downti.Db.OsAssignments.{
  OsAssignment, OsAssignments, for_device, ordered, winner, list_os_assignments_for_device,
}
use amos2026ss01_zero_downti.Db.OsVersions.{
  OsVersion, OsVersions, ActiveModel, is_active, is_current, get_os_version, update_os_version,
}
use amos2026ss01_zero_downti.Db.OsVersions.Supersedes.{update_os_version-get}
use amos2026ss01_zero_downti.DeviceRoutes.{
  OsResponse, versioned, first_version, os_response, or_500, os_get_assigned, get_os,
}

winner-mem :
    (rs : List OsAssignment) (a : OsAssignment) (rest : List OsAssignment) (n : ℕ)
    → winner rs ≡ (a ∷ rest, n)
    → Memᴰ a rs
winner-mem [] a rest n h = let no : [] ≡ a ∷ rest = ap (λ (x : List OsAssignment × ℕ). x.0) h in cc
winner-mem (r ∷ rs) a rest n h =
    let yes : r ∷ [] ≡ a ∷ rest = ap (λ (x : List OsAssignment × ℕ). x.0) h in Memᴰ.head (cc)

module _ (assignments : OsAssignments) where
  open assignments use {Conn, rows, select_by, select_by_mem}

  listed-mem :
      (nulls_first : Bool) (device : ℕ) (group : Option ℕ) (c : Conn) (a : OsAssignment)
      (rest : List OsAssignment) (n : ℕ)
      → (list_os_assignments_for_device assignments nulls_first device group none c).0
        ≡ ok (a ∷ rest, n)
      → Memᴰ a (rows c) × (for_device device group none a ≡ true)
  unfolding list_os_assignments_for_device
  listed-mem nulls_first device group c a rest n h =
      let query = select_by (ordered nulls_first) (for_device device group none) in
      let run = list_os_assignments_for_device assignments nulls_first device group none c in
      let whole : run ≡ (ok (a ∷ rest, n), run.1) = λ i. (h i, run.1) in
      let (rs, c1, selected, h1) = >>=-ok (read query) _ whole in
      let (selected', c1_is) = read-ok query selected in
      let won : winner rs ≡ (a ∷ rest, n) = cc in
      (select_by_mem selected' a).0 (winner-mem rs a rest n won)

module _ (versions : OsVersions) where
  versioned-ok :
      (a : OsAssignment) (r : Result DbErr (Option OsVersion)) (os : OsVersion) (b : Bool)
      → versioned versions a r ≡ ok (os, b)
      → (r ≡ ok (some os)) × (b ≡ a.immediate)
  versioned-ok a (ok (some ver)) os b h =
      let same : (ver, a.immediate) ≡ (os, b) = cc in
      (
        ap (λ (x : OsVersion × Bool). ok (some x.0)) same,
        sym (ap (λ (x : OsVersion × Bool). x.1) same),
      )
  versioned-ok a (ok none) os b h = cc
  versioned-ok a (err e) os b h = cc

  first_version-ok :
      (c : Table.Conn versions) (r : Result DbErr (List OsAssignment × ℕ)) (os : OsVersion)
      (b : Bool)
      → first_version versions c r ≡ ok (os, b)
      → (a : OsAssignment) × (rest : List OsAssignment) × (n : ℕ) × (r ≡ ok (a ∷ rest, n))
        × ((get_os_version versions a.os_version_id c).0 ≡ ok (some os))
        × (b ≡ a.immediate)
  first_version-ok c (err e) os b h = cc
  first_version-ok c (ok ([], n)) os b h = cc
  first_version-ok c (ok (a ∷ rest, n)) os b h =
      let (v, i) = versioned-ok a (get_os_version versions a.os_version_id c).0 os b h in
      (a, rest, n, refl, v, i)

module _ (versions : OsVersions) (assignments : OsAssignments) (nulls_first : Bool) where
  response-ok :
      (r : Result DbErr (OsVersion × Bool)) (resp : OsResponse)
      → or_500 (os_response versions assignments nulls_first r) ≡ ok resp
      → (os : OsVersion) × (b : Bool) × (r ≡ ok (os, b))
        × (resp ≡ record { id = os.id; commit_hash = os.commit_hash; immediate = b })
  response-ok (ok (os, b)) resp h = (os, b, refl, cc)
  response-ok (err e) resp h = cc

  -- What a device is told to run is the id and the commit of an active version, which an active
  -- assignment of the device or its group names, and `immediate` is that assignment's.
  pub get_os-assigned :
      (device : ℕ) (group : Option ℕ) (ca : Table.Conn assignments) (cv : Table.Conn versions)
      (resp : OsResponse)
      → get_os versions assignments nulls_first device group ca cv ≡ ok resp
      → (a : OsAssignment) × (os : OsVersion) × Memᴰ a (assignments.rows ca)
        × (for_device device group none a ≡ true)
        × Memᴰ os (versions.rows cv)
        × (is_active os ≡ true)
        × (os.id ≡ a.os_version_id)
        × (resp ≡ record { id = os.id; commit_hash = os.commit_hash; immediate = a.immediate })
  unfolding get_os os_get_assigned get_os_version
  get_os-assigned device group ca cv resp h =
      let (os, b, assigned, resp_is) =
        response-ok (os_get_assigned versions assignments nulls_first device group ca cv) resp h in
      let (a, rest, n, listed, got, b_is) = first_version-ok versions cv _ os b assigned in
      let (m, applies) = listed-mem assignments nulls_first device group ca a rest n listed in
      let (mv, current) = find_one-some versions (is_current a.os_version_id) cv os got in
      let (active, named) = both _ _ current in
      (
        a,
        os,
        m,
        applies,
        mv,
        active,
        (==_iff os.id a.os_version_id).0 named,
        resp_is ∙ ap (λ i. record { id = os.id; commit_hash = os.commit_hash; immediate = i }) b_is,
      )

  no_version-500 :
      (a : OsAssignment) (r : Result DbErr (Option OsVersion))
      → ((v : OsVersion) → r ≢ ok (some v))
      → or_500 (os_response versions assignments nulls_first (versioned versions a r))
        ≡ err internal_server_error
  no_version-500 a (ok (some v)) h = absurd (h v refl)
  no_version-500 a (ok none) h = refl
  no_version-500 a (err e) h = refl

  -- Once the OS version that a device's assignment names has been updated, the device is answered
  -- with 500: the assignment still names the superseded row, which is not found any more.
  pub get_os-superseded :
      (device : ℕ) (group : Option ℕ) (ca : Table.Conn assignments) (cv cv' : Table.Conn versions)
      (a : OsAssignment) (rest : List OsAssignment) (n : ℕ) (columns : ActiveModel)
      (new : OsVersion)
      → (list_os_assignments_for_device assignments nulls_first device group none ca).0
        ≡ ok (a ∷ rest, n)
      → update_os_version versions a.os_version_id columns cv ≡ (ok new, cv')
      → get_os versions assignments nulls_first device group ca cv' ≡ err internal_server_error
  unfolding get_os os_get_assigned
  get_os-superseded device group ca cv cv' a rest n columns new listed updated =
      ap (λ r. or_500 (os_response versions assignments nulls_first (first_version versions cv' r)))
        listed
      ∙ no_version-500 a (get_os_version versions a.os_version_id cv').0
          (λ v. update_os_version-get versions a.os_version_id columns cv cv' new v updated)
