-- ===== src/Reconcile/Fuel.antt =====
-- The loop of `try_update` (orchestrator/src/loop_apps.rs) ends by itself: its fuel does not matter.
use amos2026ss01_zero_downti.Prelude.{
  ℕ, zero, suc, ◌+◌, ◌≤◌, ◌<◌, ◌≡◌, refl, sym, ap, Option, some, List, [], ◌∷◌, length,
  Ordering-cases, Option-cases, Bool-cases, inl, inr, arith,
}
use amos2026ss01_zero_downti.Prelude.Text.{Str, str_cmp}
use amos2026ss01_zero_downti.Reconcile.{
  TargetApp, CurrentAppEntry, ReconcileAction, create, update, remove, ReconcileIterator,
  is_changed, next,
}
use amos2026ss01_zero_downti.Reconcile.Update.{World, State, ◌>>◌, perform, reconcile}

-- The elements that the iterator still has.
abbrev pub left : ReconcileIterator → ℕ
left it = length it.0 + length it.1

rest_of :
    (a : ReconcileAction) (r : ReconcileIterator) (action : ReconcileAction)
    (rest : ReconcileIterator)
    → ◌≡◌ {A = Option (ReconcileAction × ReconcileIterator)} (some (a, r)) (some (action, rest))
    → r ≡ rest
rest_of a r action rest h =
    let same : ◌≡◌ {A = ReconcileAction × ReconcileIterator} (a, r) (action, rest) = cc in
    ap (λ (x : ReconcileAction × ReconcileIterator). x.1) same

next-smaller :
    (cs : List CurrentAppEntry) (ts : List (Str × TargetApp)) (action : ReconcileAction)
    (rest : ReconcileIterator)
    → next cs ts ≡ some (action, rest)
    → left rest < length cs + length ts
unfolding next
next-smaller [] [] action rest h = cc
next-smaller [] ((k, t) ∷ ts) action rest h =
    let size : left rest ≡ left ([], ts) = sym (ap left (rest_of (create t) _ action rest h)) in
    omega (arith, size)
next-smaller (c ∷ cs) [] action rest h =
    let size : left rest ≡ left (cs, []) =
      sym (ap left (rest_of (remove c.application_index) _ action rest h)) in
    omega (arith, size)
next-smaller (c ∷ cs) ((k, t) ∷ ts) action rest h = elim (Ordering-cases (str_cmp c.reference k)) [
  | inl lt ↦
      let size = ap left (rest_of (create t) (c ∷ cs, ts) action rest (rw (lt, next) at h)) in
      omega (arith, size)
  | inr (inl eq) ↦ elim (Bool-cases (is_changed c t)) [
    | inl changed ↦
        let size = ap left (
          rest_of (update c.application_index t) (cs, ts) action rest
            (rw (eq, next, changed) at h)) in
        omega (arith, size)
    | inr same ↦
        let smaller = next-smaller cs ts action rest (rw (eq, next, same) at h) in
        omega (arith, smaller)
  ]
  | inr (inr gt) ↦
      let size =
        ap left (
          rest_of (remove c.application_index) (cs, (k, t) ∷ ts) action rest
            (rw (gt, next) at h)) in
      omega (arith, size)
]

module _ (w : World) where
  -- From any state and with any iterator, the loop gives the same result, with the same calls, for
  -- all amounts of fuel that are at least the number of elements that the iterator has.
  pub reconcile-fuel :
      (f g : ℕ) (it : ReconcileIterator) (s : State)
      → left it ≤ f
      → left it ≤ g
      → reconcile w f it s ≡ reconcile w g it s
  unfolding reconcile
  reconcile-fuel zero zero it s hf hg = refl
  reconcile-fuel zero (suc g) it s hf hg = elim (Option-cases (next it.0 it.1)) [
    | inl e ↦ rw (e, reconcile) refl
    | inr ((action, rest), e) ↦
        let smaller = next-smaller it.0 it.1 action rest e in absurd (omega (arith, smaller, hf))
  ]
  reconcile-fuel (suc f) zero it s hf hg = elim (Option-cases (next it.0 it.1)) [
    | inl e ↦ rw (e, reconcile) refl
    | inr ((action, rest), e) ↦
        let smaller = next-smaller it.0 it.1 action rest e in absurd (omega (arith, smaller, hg))
  ]
  reconcile-fuel (suc f) (suc g) it s hf hg = elim (Option-cases (next it.0 it.1)) [
    | inl e ↦ rw (e, reconcile) refl
    | inr ((action, rest), e) ↦
        let smaller = next-smaller it.0 it.1 action rest e in
        let hf' : left rest ≤ f = omega (arith, smaller, hf) in
        let hg' : left rest ≤ g = omega (arith, smaller, hg) in
        rw (e, reconcile)
          (λ i. (perform w action >> (λ s'. reconcile-fuel f g rest s' hf' hg' i)) s)
  ]
