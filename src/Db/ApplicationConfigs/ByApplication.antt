-- ===== src/Db/ApplicationConfigs/ByApplication.antt =====
-- What the map `by_application` of `list_application_configs_for_device` holds.
use amos2026ss01_zero_downti.Prelude.{
  ℕ, ◌≡◌, refl, sym, ap, ◌∙◌, true, false, some, List, [], ◌∷◌, any, Memᴰ, ◌==◌, ==_iff,
  if◌then◌else◌, Bool-cases, inl, inr,
}
use amos2026ss01_zero_downti.Logs.Registry.{get, insert, remove}
use amos2026ss01_zero_downti.Db.ApplicationConfigs.{ApplicationConfig, insert_all, values}

get-remove :
    (k j : ℕ) (m : List (ℕ × ApplicationConfig)) → (k == j) ≡ false → get j (remove k m) ≡ get j m
unfolding get remove
get-remove k j [] h = refl
get-remove k j ((i, w) ∷ m) h = elim (Bool-cases (i == k)) [
  | inl e ↦
      let i_is : i ≡ k = (==_iff i k).0 e in
      let apart : (i == j) ≡ false = ap (λ n. n == j) i_is ∙ h in rw (e, apart) (get-remove k j m h)
  | inr e ↦ rw e (ap (λ o. if i == j then some w else o) (get-remove k j m h))
]

get-insert :
    (k j : ℕ) (v : ApplicationConfig) (m : List (ℕ × ApplicationConfig))
    → get j (insert k v m) ≡ (if k == j then some v else get j m)
unfolding get insert
get-insert k j v m = elim (Bool-cases (k == j)) [
  | inl e ↦ rw e refl
  | inr e ↦ rw e (get-remove k j m e)
]

pub get-mem :
    (k : ℕ) (v : ApplicationConfig) (m : List (ℕ × ApplicationConfig))
    → get k m ≡ some v
    → Memᴰ v (values m)
unfolding get
get-mem k v [] h = cc
get-mem k v ((j, w) ∷ m) h = elim (Bool-cases (j == k)) [
  | inl e ↦ Memᴰ.head (let w_is : some w ≡ some v = rw e at h in cc)
  | inr e ↦ Memᴰ.tail (get-mem k v m (rw e at h))
]

any-mem :
    (cs : List ApplicationConfig) (k : ℕ)
    → any (λ (y : ApplicationConfig). y.application_id == k) cs ≡ true
    → (y : ApplicationConfig) × Memᴰ y cs × (y.application_id ≡ k)
any-mem [] k h = cc
any-mem (c ∷ cs) k h = elim (Bool-cases (c.application_id == k)) [
  | inl e ↦ (c, Memᴰ.head refl, (==_iff c.application_id k).0 e)
  | inr e ↦ let (y, m, same) = any-mem cs k (rw e at h) in (y, Memᴰ.tail m, same)
]

insert_all-absent :
    (cs : List ApplicationConfig) (k : ℕ) (m : List (ℕ × ApplicationConfig))
    → any (λ (y : ApplicationConfig). y.application_id == k) cs ≡ false
    → get k (insert_all cs m) ≡ get k m
unfolding insert_all
insert_all-absent [] k m h = refl
insert_all-absent (c ∷ cs) k m h = elim (Bool-cases (c.application_id == k)) [
  | inl e ↦ let no : true ≡ false = rw e at h in cc
  | inr e ↦
      insert_all-absent cs k (insert c.application_id c m) (rw e at h)
      ∙ get-insert c.application_id k c m
      ∙ ap (λ b. if b then some c else get k m) e
]

-- The map that is left has, for every application of the inserted rows, one of these rows.
pub insert_all-get :
    (cs : List ApplicationConfig) (m : List (ℕ × ApplicationConfig)) (x : ApplicationConfig)
    → Memᴰ x cs
    → (w : ApplicationConfig) × (get x.application_id (insert_all cs m) ≡ some w)
      × Memᴰ w cs
      × (w.application_id ≡ x.application_id)
unfolding insert_all
insert_all-get [] m x n = elim n [ ]
insert_all-get (c ∷ cs) m x (Memᴰ.tail n) =
    let (w, g, i, e) = insert_all-get cs (insert c.application_id c m) x n in (w, g, Memᴰ.tail i, e)
insert_all-get (c ∷ cs) m x (Memᴰ.head q) =
    elim (Bool-cases (any (λ (y : ApplicationConfig). y.application_id == x.application_id) cs)) [
      | inl e ↦
          let (y, n, same) = any-mem cs x.application_id e in
          let (w, g, i, f) = insert_all-get cs (insert c.application_id c m) y n in
          (
            w,
            ap (λ k. get k (insert_all cs (insert c.application_id c m))) (sym same) ∙ g,
            Memᴰ.tail i,
            f ∙ same,
          )
      | inr e ↦
          let same : c.application_id ≡ x.application_id =
            ap (λ (z : ApplicationConfig). z.application_id) (sym q) in
          (
            c,
            insert_all-absent cs x.application_id (insert c.application_id c m) e
                ∙ get-insert c.application_id x.application_id c m
                ∙ ap (λ b. if b then some c else get x.application_id m)
                    ((==_iff c.application_id x.application_id).1 same),
            Memᴰ.head refl,
            same,
          )
    ]
