-- ===== src/Db/ApplicationConfigs/Members.antt =====
-- What is in a sorted or filtered list of configs.
use Prim.Native.Nat.{Ordering}
use amos2026ss01_zero_downti.Prelude.{
  ◌≡◌, ap, ◌∙◌, Bool, true, false, List, [], ◌∷◌, filter, Memᴰ, Bool-cases, inl, inr,
  Ordering-cases,
}
use amos2026ss01_zero_downti.Reconcile.Vec.{sort_by, insert_by}
use amos2026ss01_zero_downti.Db.ApplicationConfigs.{ApplicationConfig}

passed :
    (x y : ApplicationConfig) (ys zs : List ApplicationConfig) (w : ApplicationConfig)
    → (Memᴰ w (x ∷ ys) → Memᴰ w zs)
    → Memᴰ w (x ∷ y ∷ ys)
    → Memᴰ w (y ∷ zs)
passed x y ys zs w rest (Memᴰ.head q) = Memᴰ.tail (rest (Memᴰ.head q))
passed x y ys zs w rest (Memᴰ.tail (Memᴰ.head q)) = Memᴰ.head q
passed x y ys zs w rest (Memᴰ.tail (Memᴰ.tail m)) = Memᴰ.tail (rest (Memᴰ.tail m))

mem-insert_by :
    (cmp : ApplicationConfig → ApplicationConfig → Ordering) (x : ApplicationConfig)
    (ys : List ApplicationConfig) (w : ApplicationConfig)
    → Memᴰ w (x ∷ ys)
    → Memᴰ w (insert_by cmp x ys)
unfolding insert_by
mem-insert_by cmp x [] w m = m
mem-insert_by cmp x (y ∷ ys) w m = elim (Ordering-cases (cmp x y)) [
  | inl e ↦ rw (e, insert_by) m
  | inr (inl e) ↦ rw (e, insert_by) m
  | inr (inr e) ↦
      rw (e, insert_by) (passed x y ys (insert_by cmp x ys) w (mem-insert_by cmp x ys w) m)
]

pub mem-sort_by :
    (cmp : ApplicationConfig → ApplicationConfig → Ordering) (xs : List ApplicationConfig)
    (w : ApplicationConfig)
    → Memᴰ w xs
    → Memᴰ w (sort_by cmp xs)
unfolding sort_by
mem-sort_by cmp [] w m = m
mem-sort_by cmp (x ∷ xs) w (Memᴰ.head q) = mem-insert_by cmp x (sort_by cmp xs) w (Memᴰ.head q)
mem-sort_by cmp (x ∷ xs) w (Memᴰ.tail m) =
    mem-insert_by cmp x (sort_by cmp xs) w (Memᴰ.tail (mem-sort_by cmp xs w m))

abbrev pub IsFiltered :
    (ApplicationConfig → Bool)
    → List ApplicationConfig
    → List ApplicationConfig
    → ApplicationConfig
    → Type 0
IsFiltered p cs fs x = (Memᴰ x cs → p x ≡ true → Memᴰ x fs) × (Memᴰ x fs → p x ≡ true)

kept :
    (p : ApplicationConfig → Bool) (cs : List ApplicationConfig) (x y : ApplicationConfig)
    → p y ≡ true
    → IsFiltered p cs (filter p cs) x
    → IsFiltered p (y ∷ cs) (y ∷ filter p cs) x
kept p cs x y e (into, out) = (into_all, out_all)
  where
    into_all : Memᴰ x (y ∷ cs) → p x ≡ true → Memᴰ x (y ∷ filter p cs)
    into_all (Memᴰ.head q) h = Memᴰ.head q
    into_all (Memᴰ.tail m) h = Memᴰ.tail (into m h)

    out_all : Memᴰ x (y ∷ filter p cs) → p x ≡ true
    out_all (Memᴰ.head q) = ap p q ∙ e
    out_all (Memᴰ.tail m) = out m

dropped :
    (p : ApplicationConfig → Bool) (cs : List ApplicationConfig) (x y : ApplicationConfig)
    → p y ≡ false
    → IsFiltered p cs (filter p cs) x
    → IsFiltered p (y ∷ cs) (filter p cs) x
dropped p cs x y e (into, out) = (into_all, out)
  where
    into_all : Memᴰ x (y ∷ cs) → p x ≡ true → Memᴰ x (filter p cs)
    into_all (Memᴰ.head q) h = let same : p x ≡ p y = ap p q in cc
    into_all (Memᴰ.tail m) h = into m h

pub filter-mem :
    (p : ApplicationConfig → Bool) (cs : List ApplicationConfig) (x : ApplicationConfig)
    → IsFiltered p cs (filter p cs) x
filter-mem p [] x = (λ m h. m, λ m. elim m [ ])
filter-mem p (y ∷ cs) x = elim (Bool-cases (p y)) [
  | inl e ↦ rw e (kept p cs x y e (filter-mem p cs x))
  | inr e ↦ rw e (dropped p cs x y e (filter-mem p cs x))
]
