-- ===== src/Db/OsVersions/Supersedes.antt =====
-- What an update of an OS version does to later reads of it.
use amos2026ss01_zero_downti.Prelude.{
  mem-map, both, ℕ, ◌≡◌, ◌≢◌, refl, sym, ap, ◌∙◌, subst, Bool, true, false, ◌&&◌, Option, some,
  none, [], ◌∷◌, ◌++◌, map, Memᴰ, Result, ok, ◌==◌, ==_iff, if◌then◌else◌, Bool-cases, inl, inr,
  arith,
}
use amos2026ss01_zero_downti.Db.Table.{DbErr, find_one, write}
use amos2026ss01_zero_downti.Db.Table.Laws.{>>=-ok, write-ok, find_one-some}
use amos2026ss01_zero_downti.Db.OsVersions.{
  OsVersion, ActiveModel, OsVersions, is_active, is_current, supersede, update_found,
  update_os_version, get_os_version,
}

abbrev superseded_at : ℕ → ℕ → OsVersion → OsVersion
superseded_at by i x = if x.id == i then supersede by x else x

never : (b : Bool) → (b && false) ≡ false
never true = refl
never false = refl

not_current : (by i : ℕ) (x : OsVersion) → is_current i (superseded_at by i x) ≡ false
not_current by i x = elim (Bool-cases (x.id == i)) [
  | inl e ↦ rw e (ground arith)
  | inr e ↦ rw (e, e) (never (is_active x))
]

module _ (t : OsVersions) where
  open t use {Conn, rows, insert, update, insert_rows, update_rows}

  update_found-rows :
      (a : ActiveModel) (o : Option OsVersion) (c c' : Conn) (new : OsVersion)
      → update_found t a o c ≡ (ok new, c')
      → (current : OsVersion) × (o ≡ some current)
        × (rows c' ≡ map (superseded_at new.id current.id) (rows c ++ new ∷ []))
  update_found-rows a none c c' new h = cc
  update_found-rows a (some current) c c' new h =
      let (r, c1, inserted, h1) = >>=-ok (write (insert a)) _ h in
      let (u, c2, updated, h2) = >>=-ok (write (update current.id (supersede r.id))) _ h1 in
      let appended = (insert_rows (write-ok (insert a) inserted)).1 in
      let written = update_rows (write-ok (update current.id (supersede r.id)) updated) in
      let r_is : r ≡ new = cc in
      let c_is : c2 ≡ c' = cc in
      (
        current,
        refl,
        ap rows (sym c_is)
            ∙ written
            ∙ ap (map (superseded_at r.id current.id)) appended
            ∙ ap (λ (x : OsVersion). map (superseded_at x.id current.id) (rows c ++ x ∷ [])) r_is,
      )

  -- After an update of an OS version that succeeded, no version is found under its id.
  pub update_os_version-get :
      (i : ℕ) (a : ActiveModel) (c c' : Conn) (new v : OsVersion)
      → update_os_version t i a c ≡ (ok new, c')
      → (get_os_version t i c').0 ≢ ok (some v)
  unfolding update_os_version get_os_version
  update_os_version-get i a c c' new v h g =
      let (o, c1, found, h1) = >>=-ok (find_one t (is_current i)) _ h in
      let (current, o_is, rows_is) = update_found-rows a o c1 c' new h1 in
      let first : (find_one t (is_current i) c).0 ≡ ok (some current) =
        ap (λ (r : Result DbErr (Option OsVersion) × Conn). r.0) found ∙ ap ok o_is in
      let id_is : current.id ≡ i =
        (==_iff current.id i).0 (both _ _ (find_one-some t (is_current i) c current first).1).1 in
      let (m, current_v) = find_one-some t (is_current i) c' v g in
      let (x, v_is) =
        mem-map (superseded_at new.id current.id) (rows c1 ++ new ∷ []) v
          (subst (λ l. Memᴰ v l) rows_is m) in
      let stale : is_current i v ≡ false =
        ap (is_current i) (v_is ∙ ap (λ k. superseded_at new.id k x) id_is)
        ∙ not_current new.id i x in
      cc
