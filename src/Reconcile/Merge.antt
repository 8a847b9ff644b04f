-- ===== src/Reconcile/Merge.antt =====
-- The whole merge of orchestrator/src/loop_apps.rs, from the lists as they come to the `Vec` that
-- is left.
use mathlib.Core.List.{Perm, reverse-cons, reverse-reverse, map-append, reverse_perm}
use mathlib.Core.List.Perm
use amos2026ss01_zero_downti.Prelude.{
  ◌+◌, ◌≤◌, ◌≡◌, refl, sym, ap, ◌∙◌, List, [], ◌∷◌, ◌++◌, map, reverse, length, append-nil, arith,
}
use amos2026ss01_zero_downti.Reconcile.{
  Application, TargetApp, target_entry, enumerate_entries, new,
}
use amos2026ss01_zero_downti.Reconcile.Vec.{sort_by-perm, length-sort_by}
use amos2026ss01_zero_downti.Reconcile.Ends.{Ends}
use amos2026ss01_zero_downti.Reconcile.Update.{
  World, State, reconcile, sort_apps, sort_targets, merge_into_apps,
}
use amos2026ss01_zero_downti.Reconcile.Converge.{
  app_info, target_info, entries_back, Ends-perm, reverse-cons-append, length-reverse_ℕ,
  reconcile-Reaches,
}

entries_back-reverse :
    (apps r : List Application)
    → reverse (enumerate_entries (length r) apps) ++ entries_back r
      ≡ entries_back (reverse apps ++ r)
unfolding enumerate_entries
entries_back-reverse [] r = refl
entries_back-reverse (a ∷ apps) r =
    rw (reverse-cons-append, reverse-cons-append) (entries_back-reverse apps (a ∷ r))

map-reverse_entry :
    (tl : List TargetApp) → reverse (map target_entry tl) ≡ map target_entry (reverse tl)
map-reverse_entry [] = refl
map-reverse_entry (t ∷ tl) =
    reverse-cons (target_entry t) (map target_entry tl)
    ∙ ap (λ l. l ++ target_entry t ∷ []) (map-reverse_entry tl)
    ∙ sym (map-append target_entry (reverse tl) (t ∷ []))
    ∙ ap (map target_entry) (sym (reverse-cons t tl))

pub new_lem :
    (apps : List Application) (tl : List TargetApp)
    → new apps tl ≡ (entries_back (reverse apps), map target_entry (reverse tl))
unfolding new
new_lem apps tl = λ i. (
  (sym (append-nil _) ∙ entries_back-reverse apps [] ∙ ap entries_back (append-nil (reverse apps)))
      i,
  map-reverse_entry tl i,
)

sort_targets-perm : (tl : List TargetApp) → Perm (sort_targets tl) tl
unfolding sort_targets
sort_targets-perm tl = sort_by-perm _ tl

length-sort_targets : (tl : List TargetApp) → length (sort_targets tl) ≡ length tl
unfolding sort_targets
length-sort_targets tl = length-sort_by _ tl

module _ (w : World) (target : List TargetApp) (s : State) where
  -- When every answer that it awaits arrives, the end of a removed lifecycle task included, the merge
  -- ends with exactly the target applications running, each with the image without its tag, the
  -- digest and the config that were asked for, in some order; or with the error of some answer. It
  -- does not panic.
  pub merge_into_apps-converges :
      Ends w
        (merge_into_apps w target)
        s
        (λ _ apps. Perm (map app_info apps) (map target_info target))
  unfolding merge_into_apps
  merge_into_apps-converges =
      let apps = sort_apps s.apps in
      let tl = reverse (sort_targets target) in
      let s' : State = record s { apps = apps } in
      rw (new_lem apps (sort_targets target)) (
        Ends-perm w
          (reconcile w (length apps + length target)
            (entries_back (reverse apps), map target_entry tl))
          s' asked
          (reconcile-Reaches w (length apps + length target) (reverse apps) tl [] s' fuel
            (sym (ap (λ l. l ++ []) (reverse-reverse apps) ∙ append-nil apps))))
    where
      asked : Perm (map target_info (reverse (sort_targets target)) ++ []) (map target_info target)
      asked = rw append-nil (
          Perm.map target_info
            (Perm.trans (reverse_perm (sort_targets target)) (sort_targets-perm target)))

      fuel :
          length (reverse (sort_apps s.apps)) + length (reverse (sort_targets target))
          ≤ length (sort_apps s.apps) + length target
      fuel = omega (
        arith,
        length-reverse_ℕ (sort_apps s.apps),
        length-reverse_ℕ (sort_targets target),
        length-sort_targets target,
      )
