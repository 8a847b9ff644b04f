-- ===== src/Reconcile/Converge.antt =====
-- How the merge of orchestrator/src/loop_apps.rs reaches its target. The running applications are
-- taken apart from the end, as the iterator does.
use mathlib.Core.List.{
  Perm, reverse-append, perm_append_comm, perm_middle, perm-append_left_iff, map-append,
}
use mathlib.Core.List.Perm
use amos2026ss01_zero_downti.Prelude.{
  ℕ, zero, suc, ◌+◌, ◌≤◌, ◌≡◌, inl, inr, refl, ap, ◌∙◌, false, Option, some, List, [], ◌∷◌, ◌++◌,
  map, reverse, length, length-append, append_assoc, Bool-cases, Ordering-cases, arith,
}
use amos2026ss01_zero_downti.Prelude.Text.{Str, str_cmp, str_eq_iff, str_cmp-eq_iff}
use amos2026ss01_zero_downti.Reconcile.{
  Application, TargetApp, CurrentAppEntry, create, update, remove, without_tag, target_entry,
  is_changed, next,
}
use amos2026ss01_zero_downti.Reconcile.Vec.{last_first, last_first-perm}
use amos2026ss01_zero_downti.Reconcile.Ends.{
  Ends, Ends-bind, launched, perform-create-Ends, perform-remove-Ends, perform-update-Ends,
}
use amos2026ss01_zero_downti.Reconcile.Update.{World, State, Update, ◌>>◌, perform, reconcile}

-- What the merge compares: the image without its tag, its digest and the config.
abbrev pub Info : Type 0
Info = Str × Str × Option ℕ

abbrev pub app_info : Application → Info
app_info a = (without_tag a.image_reference, a.image_digest, a.application_config_id)

abbrev pub target_info : TargetApp → Info
target_info t = (without_tag t.image.reference, t.image.digest, some t.application_config_id)

abbrev pub entry_at : ℕ → Application → CurrentAppEntry
entry_at i a = record {
  reference = without_tag a.image_reference;
  digest = a.image_digest;
  application_config_id = a.application_config_id;
  application_index = i;
}

-- The entries of `new`, for the applications in reverse order.
abbrev pub entries_back : List Application → List CurrentAppEntry
entries_back [] = []
entries_back (a ∷ r) = entry_at (length r) a ∷ entries_back r

not_changed :
    (i : ℕ) (a : Application) (t : TargetApp)
    → without_tag a.image_reference ≡ without_tag t.image.reference
    → is_changed (entry_at i a) t ≡ false
    → app_info a ≡ target_info t
unfolding is_changed
not_changed i a t k h = ground (arith, str_eq_iff a.image_digest t.image.digest)

pub reverse-cons-append :
    {A : Type 0} (a : A) (r post : List A) → reverse (a ∷ r) ++ post ≡ reverse r ++ a ∷ post
reverse-cons-append a r post =
    ap (λ l. l ++ post) (reverse-append (a ∷ []) r) ∙ append_assoc (reverse r) (a ∷ []) post

pub length-reverse_ℕ : {A : Type 0} (r : List A) → length (reverse r) ≡ length r
length-reverse_ℕ [] = refl
length-reverse_ℕ (a ∷ r) =
    ap length (reverse-append (a ∷ []) r)
    ∙ omega (arith, length-append (reverse r) (a ∷ []), length-reverse_ℕ r)

-- A pushed application counts as an element in front.
pushed-perm :
    (ts : List Info) (post : List Application) (a : Application)
    → Perm (ts ++ map app_info (post ++ a ∷ [])) (app_info a ∷ ts ++ map app_info post)
pushed-perm ts post a =
    rw (map-append app_info post (a ∷ []), ← append_assoc ts (map app_info post) (app_info a ∷ []))
      (perm_append_comm (ts ++ map app_info post) (app_info a ∷ []))

last_first-info :
    (ts : List Info) (post : List Application)
    → Perm (ts ++ map app_info (last_first post)) (ts ++ map app_info post)
last_first-info ts post = (perm-append_left_iff ts).1 (Perm.map app_info (last_first-perm post))

kept_perm :
    (ts : List Info) (post : List Application) (a : Application) (t : TargetApp)
    → app_info a ≡ target_info t
    → Perm (ts ++ map app_info (a ∷ post)) (target_info t ∷ ts ++ map app_info post)
kept_perm ts post a t e = rw (← e) (perm_middle ts (map app_info post))

module _ (w : World) where
  abbrev pub Reaches : ℕ → List Application → List TargetApp → List Application → State → Type 0
  Reaches f r tl post s =
      Ends w (reconcile w f (entries_back r, map target_entry tl)) s
        (λ _ apps. Perm (map app_info apps) (map target_info tl ++ map app_info post))

  pub Ends-perm :
      (m : Update (Unit {0})) (s : State) {xs ys : List Info}
      → Perm xs ys
      → Ends w m s (λ _ apps. Perm (map app_info apps) xs)
      → Ends w m s (λ _ apps. Perm (map app_info apps) ys)
  Ends-perm m s e (inl (u, s', q, p)) = inl (u, s', q, Perm.trans p e)
  Ends-perm m s e (inr failed) = inr failed

  -- One action and the turns after it, of which it is known where they lead.
  module _ (f : ℕ) (r : List Application) (tl : List TargetApp) (post : List Application)
      (s : State)
      (later : (post' : List Application) (s' : State)
        → s'.apps ≡ reverse r ++ post'
        → Reaches f r tl post' s') where
    abbrev Goal : Update (Unit {0}) → List Info → Type 0
    Goal m xs =
        Ends w (m >> reconcile w f (entries_back r, map target_entry tl)) s
          (λ _ apps. Perm (map app_info apps) xs)

    create_then :
        (t : TargetApp)
        → s.apps ≡ reverse r ++ post
        → Goal (perform w (create t)) (target_info t ∷ map target_info tl ++ map app_info post)
    create_then t h =
        Ends-bind w (perform w (create t)) _ s (λ _ apps. apps ≡ s.apps ++ launched t ∷ []) _
          (perform-create-Ends w t s)
          λ _ s' e.
            Ends-perm (reconcile w f (entries_back r, map target_entry tl)) s'
              (pushed-perm (map target_info tl) post (launched t))
              (later (post ++ launched t ∷ []) s' (
                e
                ∙ ap (λ l. l ++ launched t ∷ []) h
                ∙ append_assoc (reverse r) post (launched t ∷ [])))

    module _ (a : Application) (h : s.apps ≡ reverse (a ∷ r) ++ post) where
      split_at : s.apps ≡ reverse r ++ a ∷ post
      split_at = h ∙ reverse-cons-append a r post

      remove_then : Goal (perform w (remove (length r))) (map target_info tl ++ map app_info post)
      remove_then = rw (← length-reverse_ℕ r) (
          Ends-bind w (perform w (remove (length (reverse r)))) _ s
            (λ _ apps. apps ≡ reverse r ++ last_first post) _
            (perform-remove-Ends w (reverse r) post a s split_at)
            λ _ s' e.
              Ends-perm (reconcile w f (entries_back r, map target_entry tl)) s'
                (last_first-info (map target_info tl) post) (later (last_first post) s' e))

      update_then :
          (t : TargetApp)
          → Goal
              (perform w (update (length r) t))
              (target_info t ∷ map target_info tl ++ map app_info post)
      update_then t = rw (← length-reverse_ℕ r) (
          Ends-bind w (perform w (update (length (reverse r)) t)) _ s
            (λ _ apps. apps ≡ (reverse r ++ last_first post) ++ launched t ∷ []) _
            (perform-update-Ends w (reverse r) post a s split_at t)
            λ _ s' e.
              Ends-perm (reconcile w f (entries_back r, map target_entry tl)) s'
                (Perm.trans (pushed-perm (map target_info tl) (last_first post) (launched t))
                  (Perm.cons (target_info t) (last_first-info (map target_info tl) post)))
                (later (last_first post ++ launched t ∷ []) s'
                  (e ∙ append_assoc (reverse r) (last_first post) (launched t ∷ []))))

  -- `r` is still ahead of the iterator, from the end, and `post` is behind it.
  pub reconcile-Reaches :
      (f : ℕ) (r : List Application) (tl : List TargetApp) (post : List Application) (s : State)
      → length r + length tl ≤ f
      → s.apps ≡ reverse r ++ post
      → Reaches f r tl post s
  unfolding reconcile next target_entry
  reconcile-Reaches zero [] [] post s n h = inl (tt, s, refl, rw h (Perm.refl _))
  reconcile-Reaches (suc f) [] [] post s n h = inl (tt, s, refl, rw h (Perm.refl _))
  reconcile-Reaches zero [] (t ∷ tl) post s n h = absurd (omega arith)
  reconcile-Reaches zero (a ∷ r) tl post s n h = absurd (omega arith)
  reconcile-Reaches (suc f) [] (t ∷ tl) post s n h =
      create_then f [] tl post s (λ post' s'. reconcile-Reaches f [] tl post' s' (omega arith)) t h
  reconcile-Reaches (suc f) (a ∷ r) [] post s n h =
      remove_then f r [] post s (λ post' s'. reconcile-Reaches f r [] post' s' (omega arith)) a h
  reconcile-Reaches (suc f) (a ∷ r) (t ∷ tl) post s n h =
      elim (Ordering-cases
        (str_cmp (without_tag a.image_reference) (without_tag t.image.reference))) [
          | inl e ↦
              rw (e, reconcile, next)
                (create_then f (a ∷ r) tl post s
                  (λ post' s'. reconcile-Reaches f (a ∷ r) tl post' s' (omega arith)) t h)
          | inr (inl e) ↦ elim (Bool-cases (is_changed (entry_at (length r) a) t)) [
            | inl b ↦
                rw (e, b, reconcile, next)
                  (update_then f r tl post s
                    (λ post' s'. reconcile-Reaches f r tl post' s' (omega arith)) a h t)
            | inr b ↦
                rw (e, b, reconcile, next)
                  (Ends-perm (reconcile w (suc f) (entries_back r, map target_entry tl)) s
                    (kept_perm (map target_info tl) post a t
                      (not_changed (length r) a t ((str_cmp-eq_iff _ _).0 e) b))
                    (reconcile-Reaches (suc f) r tl (a ∷ post) s (omega arith)
                      (h ∙ reverse-cons-append a r post)))
          ]
          | inr (inr e) ↦
              rw (e, reconcile, next)
                (remove_then f r (t ∷ tl) post s
                  (λ post' s'. reconcile-Reaches f r (t ∷ tl) post' s' (omega arith)) a h)
        ]
