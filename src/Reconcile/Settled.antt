-- ===== src/Reconcile/Settled.antt =====
-- A merge of orchestrator/src/loop_apps.rs with nothing to do.
use Prim.Native.Nat.{Ordering}
use mathlib.Core.List.{reverse-cons, map-append}
use amos2026ss01_zero_downti.Prelude.{
  ℕ, zero, suc, ◌≡◌, refl, sym, ap, ◌∙◌, false, none, List, [], ◌∷◌, ◌++◌, map, reverse, length, ok,
  arith,
}
use amos2026ss01_zero_downti.Prelude.Text.{str_cmp, str_eq_iff, str_cmp-eq_iff}
use amos2026ss01_zero_downti.Reconcile.{
  Application, TargetApp, ReconcileIterator, without_tag, target_entry, new, next, is_changed,
}
use amos2026ss01_zero_downti.Reconcile.Update.{
  World, State, reconcile, sort_apps, sort_targets, merge_into_apps,
}
use amos2026ss01_zero_downti.Reconcile.Converge.{
  Info, app_info, target_info, entry_at, entries_back,
}
use amos2026ss01_zero_downti.Reconcile.Merge.{new_lem}

same_reference :
    (a : Application) (t : TargetApp)
    → app_info a ≡ target_info t
    → str_cmp (without_tag a.image_reference) (without_tag t.image.reference) ≡ Ordering.eq
same_reference a t h = (str_cmp-eq_iff _ _).1 (ap (λ (x : Info). x.0) h)

unchanged :
    (i : ℕ) (a : Application) (t : TargetApp)
    → app_info a ≡ target_info t
    → is_changed (entry_at i a) t ≡ false
unfolding is_changed
unchanged i a t h = ground (
  arith,
  str_eq_iff a.image_digest t.image.digest,
  ap (λ (x : Info). x.1) h,
  ap (λ (x : Info). x.2) h,
)

next-none :
    (r : List Application) (tl : List TargetApp)
    → map app_info r ≡ map target_info tl
    → next (entries_back r) (map target_entry tl) ≡ none
unfolding next target_entry
next-none [] [] h = refl
next-none [] (t ∷ tl) h = cc
next-none (a ∷ r) [] h = cc
next-none (a ∷ r) (t ∷ tl) h =
    let here : app_info a ≡ target_info t = cc in
    let later : map app_info r ≡ map target_info tl = cc in
    rw (same_reference a t here, unchanged (length r) a t here, next) (next-none r tl later)

reconcile_done :
    (w : World) (f : ℕ) (it : ReconcileIterator) (s : State)
    → next it.0 it.1 ≡ none
    → reconcile w f it s ≡ (ok tt, s)
unfolding reconcile
reconcile_done w zero it s h = rw (h, reconcile)
reconcile_done w (suc f) it s h = rw (h, reconcile)

map-reverse : {A B : Type 0} (f : A → B) (xs : List A) → map f (reverse xs) ≡ reverse (map f xs)
map-reverse f [] = refl
map-reverse f (x ∷ xs) =
    ap (map f) (reverse-cons x xs)
    ∙ map-append f (reverse xs) (x ∷ [])
    ∙ ap (λ l. l ++ f x ∷ []) (map-reverse f xs)
    ∙ sym (reverse-cons (f x) (map f xs))

-- When the running applications are the targets already, in image, digest and config, the merge
-- sends no request to Podman or the log registry and touches no application: it only sorts the
-- list.
pub merge_into_apps_settled :
    (w : World) (target : List TargetApp) (s : State)
    → map app_info (sort_apps s.apps) ≡ map target_info (sort_targets target)
    → merge_into_apps w target s ≡ (ok tt, record s { apps = sort_apps s.apps })
unfolding merge_into_apps
merge_into_apps_settled w target s h =
    reconcile_done w _ (new (sort_apps s.apps) (sort_targets target))
      (record s { apps = sort_apps s.apps })
      (rw (new_lem (sort_apps s.apps) (sort_targets target)) (
        next-none (reverse (sort_apps s.apps)) (reverse (sort_targets target)) (
          map-reverse app_info (sort_apps s.apps)
          ∙ ap reverse h
          ∙ sym (map-reverse target_info (sort_targets target)))))
