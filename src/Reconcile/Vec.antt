-- ===== src/Reconcile/Vec.antt =====
-- `Vec::swap_remove` and the stable `sort_by` of the standard library, on lists.
use Prim.Native.Nat.{Ordering}
use amos2026ss01_zero_downti.Prelude.{
  ℕ, zero, suc, ◌≡◌, refl, ap, ◌∙◌, Option, some, none, List, [], ◌∷◌, ◌++◌, length, Ordering-cases,
  inl, inr,
}
use mathlib.Core.List.{Perm, perm_append_comm}
use mathlib.Core.List.Perm

module _ {ℓ} {A : Type ℓ} where
  unfoldable pub last_of : A → List A → A
  last_of x [] = x
  last_of x (y ∷ ys) = last_of y ys

  unfoldable pub all_but_last : A → List A → List A
  all_but_last x [] = []
  all_but_last x (y ∷ ys) = x ∷ all_but_last y ys

  -- What stands behind a removed element once the last element has taken its place.
  unfoldable pub last_first : List A → List A
  unfolding last_of all_but_last
  last_first [] = []
  last_first (x ∷ xs) = last_of x xs ∷ all_but_last x xs

  abbrev pub put_back : A → Option (A × List A) → Option (A × List A)
  put_back x none = none
  put_back x (some (a, rest)) = some (a, x ∷ rest)

  -- `none` is the panic at an index out of range.
  unfoldable pub swap_remove : List A → ℕ → Option (A × List A)
  unfolding last_first
  swap_remove [] i = none
  swap_remove (x ∷ xs) zero = some (x, last_first xs)
  swap_remove (x ∷ xs) (suc i) = put_back x (swap_remove xs i)

  unfoldable pub insert_by : (A → A → Ordering) → A → List A → List A
  insert_by cmp x [] = x ∷ []
  insert_by cmp x (y ∷ ys) =
      let rest = insert_by cmp x ys in elim (cmp x y) [ Ordering.gt ↦ y ∷ rest | _ ↦ x ∷ y ∷ ys ]

  unfoldable pub sort_by : (A → A → Ordering) → List A → List A
  unfolding insert_by
  sort_by cmp [] = []
  sort_by cmp (x ∷ xs) = insert_by cmp x (sort_by cmp xs)

  last-append : (x : A) (xs : List A) → all_but_last x xs ++ last_of x xs ∷ [] ≡ x ∷ xs
  unfolding last_of all_but_last
  last-append x [] = refl
  last-append x (y ∷ ys) = ap (◌∷◌ x) (last-append y ys)

  pub last_first-perm : (xs : List A) → Perm (last_first xs) xs
  unfolding last_first
  last_first-perm [] = Perm.refl []
  last_first-perm (x ∷ xs) =
      rw (last-append x xs) at (perm_append_comm (last_of x xs ∷ []) (all_but_last x xs))

  -- Removing at an index leaves what stands before it, and keeps the elements behind it.
  pub swap_remove-middle :
      (p : List A) (a : A) (t : List A)
      → swap_remove (p ++ a ∷ t) (length p) ≡ some (a, p ++ last_first t)
  unfolding swap_remove
  swap_remove-middle [] a t = refl
  swap_remove-middle (x ∷ p) a t = rw (swap_remove-middle p a t)

  insert_by-perm :
      (cmp : A → A → Ordering) (x : A) (xs : List A) → Perm (insert_by cmp x xs) (x ∷ xs)
  unfolding insert_by
  insert_by-perm cmp x [] = Perm.refl _
  insert_by-perm cmp x (y ∷ ys) = elim (Ordering-cases (cmp x y)) [
    | inl e ↦ rw (e, insert_by) (Perm.refl _)
    | inr (inl e) ↦ rw (e, insert_by) (Perm.refl _)
    | inr (inr e) ↦
        rw (e, insert_by) (Perm.trans (Perm.cons y (insert_by-perm cmp x ys)) (Perm.swap x y ys))
  ]

  pub sort_by-perm : (cmp : A → A → Ordering) (xs : List A) → Perm (sort_by cmp xs) xs
  unfolding sort_by
  sort_by-perm cmp [] = Perm.refl _
  sort_by-perm cmp (x ∷ xs) =
      Perm.trans (insert_by-perm cmp x (sort_by cmp xs)) (Perm.cons x (sort_by-perm cmp xs))

  length-insert_by :
      (cmp : A → A → Ordering) (x : A) (xs : List A) → length (insert_by cmp x xs) ≡ suc (length xs)
  unfolding insert_by
  length-insert_by cmp x [] = refl
  length-insert_by cmp x (y ∷ ys) = elim (Ordering-cases (cmp x y)) [
    | inl e ↦ rw (e, insert_by)
    | inr (inl e) ↦ rw (e, insert_by)
    | inr (inr e) ↦ rw (e, insert_by) (ap suc (length-insert_by cmp x ys))
  ]

  pub length-sort_by : (cmp : A → A → Ordering) (xs : List A) → length (sort_by cmp xs) ≡ length xs
  unfolding sort_by
  length-sort_by cmp [] = refl
  length-sort_by cmp (x ∷ xs) =
      length-insert_by cmp x (sort_by cmp xs) ∙ ap suc (length-sort_by cmp xs)
