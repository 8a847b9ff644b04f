-- ===== src/Reconcile/Ends.antt =====
-- How the parts of `try_update` (orchestrator/src/loop_apps.rs) end: with what in the `Vec` of
-- applications, or with the error of an answer.
use amos2026ss01_zero_downti.Prelude.{
  ◌≡◌, ◌⊎◌, inl, inr, refl, ap, ◌∙◌, some, List, [], ◌∷◌, ◌++◌, length, Result, ok, err,
}
use amos2026ss01_zero_downti.Prelude.Text.{Str}
use amos2026ss01_zero_downti.Reconcile.{Application, TargetApp, create, update, remove}
use amos2026ss01_zero_downti.Reconcile.Vec.{swap_remove, swap_remove-middle, last_first}
use amos2026ss01_zero_downti.Reconcile.Update.{
  Call, World, error, State, Update, ◌>>=◌, ◌>>◌, pure, env_pairs, label_app_id,
  label_app_config_id, create_container, join_lifecycle, registry_remove, push, take_out, ask,
  record_call, launch_from_image, remove_application, perform,
}

-- The run returns in a state whose applications satisfy `P`, or with an error that some answer was.
-- So it neither panics nor runs out of fuel.
abbrev pub Ends : {A : Type 0} → World → Update A → State → (A → List Application → Type 0) → Type 0
Ends {A} w m s P =
    ((a : A) × (s' : State) × (m s ≡ (ok a, s')) × P a s'.apps)
    ⊎ ((e : Str) × (s' : State) × (h : List Call) × (c : Call) × (m s ≡ (err (error e), s'))
        × (w.answer h c ≡ err e))

abbrev pub launched : TargetApp → Application
launched t = record {
  image_reference = t.image.reference;
  image_digest = t.image.digest;
  application_id = t.application_id;
  application_config_id = some t.application_config_id;
}

pub Ends-bind :
    {A B : Type 0} (w : World) (m : Update A) (f : A → Update B) (s : State)
    (P : A → List Application → Type 0) (Q : B → List Application → Type 0)
    → Ends w m s P
    → ((a : A) (s' : State) → P a s'.apps → Ends w (f a) s' Q)
    → Ends w (m >>= f) s Q
Ends-bind w m f s P Q (inl (a, s', e, p)) k = rw e (k a s' p)
Ends-bind w m f s P Q (inr (e, s', h, c, q, r)) k = inr (e, s', h, c, rw q, r)

Ends-to :
    {A : Type 0} (w : World) (m : Update A) (s : State) {l l' : List Application}
    → l ≡ l'
    → Ends w m s (λ _ apps. apps ≡ l)
    → Ends w m s (λ _ apps. apps ≡ l')
Ends-to w m s e (inl (a, s', q, p)) = inl (a, s', q, p ∙ e)
Ends-to w m s e (inr r) = inr r

abbrev creation : TargetApp → Call
creation t =
    create_container t.name t.image.id (env_pairs t.config)
      ((label_app_id, t.application_id) ∷ (label_app_config_id, t.application_config_id) ∷ [])

pub Result-cases {ℓ κ} :
    {E : Type ℓ} {A : Type κ} (r : Result E A) → ((a : A) × (r ≡ ok a)) ⊎ ((e : E) × (r ≡ err e))
Result-cases (ok a) = inl (a, refl)
Result-cases (err e) = inr (e, refl)

module _ (w : World) where
  ask-Ends : (c : Call) (s : State) → Ends w (ask w c) s (λ _ apps. apps ≡ s.apps)
  unfolding ask
  ask-Ends c s =
      let after : State = record s { calls = s.calls ++ c ∷ [] } in
      elim (Result-cases (w.answer s.calls c)) [
        | inl (u, q) ↦ inl (tt, after, rw q, refl)
        | inr (e, q) ↦ inr (e, after, s.calls, c, rw q, q)
      ]

  launch-Ends :
      (t : TargetApp) (s : State)
      → Ends w (launch_from_image w t) s (λ a apps. (a ≡ launched t) × (apps ≡ s.apps))
  unfolding launch_from_image
  launch-Ends t s =
      Ends-bind w (ask w (creation t)) (λ _. pure (launched t)) s (λ _ apps. apps ≡ s.apps)
        (λ a apps. (a ≡ launched t) × (apps ≡ s.apps)) (ask-Ends (creation t) s)
        λ _ s' same. inl (launched t, s', refl, (refl, same))

  remove_application-Ends :
      (a : Application) (s : State) → Ends w (remove_application w a) s (λ _ apps. apps ≡ s.apps)
  unfolding remove_application record_call
  remove_application-Ends a s =
      ask-Ends (join_lifecycle a.application_id)
        (record s { calls = s.calls ++ registry_remove a.application_id ∷ [] })

  take_out-Ends :
      (p q : List Application) (a : Application) (s : State)
      → s.apps ≡ p ++ a ∷ q
      → Ends w (take_out (length p)) s (λ b apps. (b ≡ a) × (apps ≡ p ++ last_first q))
  unfolding take_out
  take_out-Ends p q a s h =
      let found : swap_remove s.apps (length p) ≡ some (a, p ++ last_first q) =
        rw h (swap_remove-middle p a q) in
      inl (a, record s { apps = p ++ last_first q }, rw (found, take_out), (refl, refl))

  pub perform-create-Ends :
      (t : TargetApp) (s : State)
      → Ends w (perform w (create t)) s (λ _ apps. apps ≡ s.apps ++ launched t ∷ [])
  unfolding perform
  perform-create-Ends t s =
      Ends-bind w (launch_from_image w t) push s (λ a apps. (a ≡ launched t) × (apps ≡ s.apps))
        (λ _ apps. apps ≡ s.apps ++ launched t ∷ []) (launch-Ends t s)
        λ a s' h. inl (tt, record s' { apps = s'.apps ++ a ∷ [] }, refl, rw (h.0, h.1))

  module _ (p q : List Application) (a : Application) (s : State) (h : s.apps ≡ p ++ a ∷ q) where
    pub perform-remove-Ends :
        Ends w (perform w (remove (length p))) s (λ _ apps. apps ≡ p ++ last_first q)
    unfolding perform
    perform-remove-Ends =
        Ends-bind w (take_out (length p)) (remove_application w) s
          (λ b apps. (b ≡ a) × (apps ≡ p ++ last_first q)) (λ _ apps. apps ≡ p ++ last_first q)
          (take_out-Ends p q a s h)
          λ b s' k. Ends-to w (remove_application w b) s' k.1 (remove_application-Ends b s')

    pub perform-update-Ends :
        (t : TargetApp)
        → Ends w
            (perform w (update (length p) t))
            s
            (λ _ apps. apps ≡ (p ++ last_first q) ++ launched t ∷ [])
    unfolding perform
    perform-update-Ends t =
        Ends-bind w (take_out (length p)) (λ old. remove_application w old >> create_step) s
          (λ b apps. (b ≡ a) × (apps ≡ p ++ last_first q))
          (λ _ apps. apps ≡ (p ++ last_first q) ++ launched t ∷ []) (take_out-Ends p q a s h)
          λ b s' k.
            Ends-bind w (remove_application w b) (λ _. create_step) s' (λ _ apps. apps ≡ s'.apps)
              (λ _ apps. apps ≡ (p ++ last_first q) ++ launched t ∷ [])
              (remove_application-Ends b s')
              λ _ s'' same.
                Ends-to w create_step s'' (ap (λ l. l ++ launched t ∷ []) (same ∙ k.1))
                  (perform-create-Ends t s'')
      where
        create_step : Update (Unit {0})
        create_step = perform w (create t)
