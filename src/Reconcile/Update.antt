-- ===== src/Reconcile/Update.antt =====
-- `try_update` of orchestrator/src/loop_apps.rs, with `Application::launch_from_image`, `wrap` and
-- `remove` (orchestrator/src/application.rs) and the wrapper's `create_container`
-- (orchestrator/src/podman/wrapper.rs). What Podman, the API and the joined task answer is a
-- parameter, a function of all requests so far.
use Prim.Native.Nat.{Ordering}
use amos2026ss01_zero_downti.Prelude.{
  ℕ, zero, suc, ◌+◌, Option, some, none, List, [], ◌∷◌, ◌++◌, map, length, Result, ok, err, Bool,
  if◌then◌else◌,
}
use amos2026ss01_zero_downti.Prelude.Text.{Str, str_cmp, split_first, codes}
use amos2026ss01_zero_downti.Reconcile.{
  ContainerConfig, Application, Image, TargetApp, ReconcileAction, create, update, remove,
  ReconcileIterator, new, next,
}
use amos2026ss01_zero_downti.Reconcile.Vec.{swap_remove, sort_by}

pub record GetResponseItem : Type 0 where
  pub id : ℕ
  pub application_id : ℕ
  pub image : Str
  pub config : Option ContainerConfig

-- The requests to the API, to Podman and to the log registry. A label's number is printed in
-- decimal.
pub data Call : Type 0 where
  get_targets : Call
  pull : Str → Call
  create_container : (name image_id : Str) (env : List (Str × Str)) (labels : List (Str × ℕ)) → Call
  registry_remove : ℕ → Call
  join_lifecycle : ℕ → Call
  report : List ℕ → Call
  prune : Call

-- The answers: `Err` carries its message.
pub record World : Type 0 where
  pub targets : List Call → Result Str (List GetResponseItem)
  pub image : List Call → Str → Result Str (Option Image)
  pub answer : List Call → Call → Result Str (Unit {0})

-- `panicked` is `swap_remove` out of range; `out_of_fuel` is no behaviour of the code.
pub data Failure : Type 0 where
  error : Str → Failure
  panicked out_of_fuel : Failure

pub record State : Type 0 where
  pub apps : List Application
  pub calls : List Call

abbrev pub Update : Type 0 → Type 0
Update A = State → Result Failure A × State

abbrev pub go_on :
    {A B : Type 0} → Result Failure A × State → (A → Update B) → Result Failure B × State
go_on (ok a, s) f = f a s
go_on (err e, s) f = (err e, s)

infixl 5 ◌>>=◌ ◌>>◌
abbrev pub ◌>>=◌ : {A B : Type 0} → Update A → (A → Update B) → Update B
◌>>=◌ m f s = go_on (m s) f

abbrev pub ◌>>◌ : {A B : Type 0} → Update A → Update B → Update B
m >> k = m >>= λ _. k

abbrev pub pure : {A : Type 0} → A → Update A
pure a s = (ok a, s)

abbrev pub fail : {A : Type 0} → Failure → Update A
fail e s = (err e, s)

-- `apps.push(app)`
unfoldable pub push : Application → Update (Unit {0})
push app s = (ok tt, record s { apps = s.apps ++ app ∷ [] })

-- `apps.swap_remove(application_index)`
unfoldable pub take_out : ℕ → Update Application
take_out i s = elim (swap_remove s.apps i) [
  | none ↦ (err panicked, s)
  | some (a, rest) ↦ (ok a, record s { apps = rest })
]

unfoldable pub env_pairs : Option ContainerConfig → List (Str × Str)
env_pairs none = []
env_pairs (some cfg) = elim cfg.environment [ none ↦ [] | some env ↦ env ]

abbrev pub label_app_id : Str
label_app_id = codes "org.amos.application_id"

abbrev pub label_app_config_id : Str
label_app_config_id = codes "org.amos.application_config_id"

-- `.split('/').next_back()`: what stands behind the last `/`.
unfoldable pub last_segment : Str → Str → Str
last_segment seen [] = seen
last_segment seen (c ∷ s) = elim (str_cmp (c ∷ []) (codes "/")) [
  | Ordering.eq ↦ last_segment [] s
  | _ ↦ last_segment (seen ++ c ∷ []) s
]

-- The `name` of `TargetApp::from_config`.
unfoldable pub container_name : Str → Str
unfolding last_segment split_first
container_name image = split_first b':' (last_segment [] image)

abbrev pub from_answer : {A : Type 0} → Result Str A → Result Failure A
from_answer (ok a) = ok a
from_answer (err e) = err (error e)

-- `order_reference` on the running applications and on the targets.
unfoldable pub sort_apps : List Application → List Application
sort_apps = sort_by (λ a b. str_cmp a.image_reference b.image_reference)

unfoldable pub sort_targets : List TargetApp → List TargetApp
sort_targets = sort_by (λ a b. str_cmp a.image.reference b.image.reference)

module _ (w : World) where
  unfoldable pub ask : Call → Update (Unit {0})
  ask c s =
      let s' = record s { calls = s.calls ++ c ∷ [] } in (from_answer (w.answer s.calls c), s')

  -- A message to the log registry is never refused.
  unfoldable pub record_call : Call → Update (Unit {0})
  record_call c s = (ok tt, record s { calls = s.calls ++ c ∷ [] })

  unfoldable pub fetch_targets : Update (List GetResponseItem)
  fetch_targets s =
      let s' = record s { calls = s.calls ++ get_targets ∷ [] } in
      (from_answer (w.targets s.calls), s')

  unfoldable pub from_config : GetResponseItem → Update TargetApp
  from_config cfg s =
      let s' = record s { calls = s.calls ++ pull cfg.image ∷ [] } in
      elim (w.image s.calls cfg.image) [
        | err e ↦ (err (error e), s')
        | ok none ↦ (err (error (codes "Could not pull image")), s')
        | ok (some image) ↦ (
          ok (record {
            image = image;
            name = container_name cfg.image;
            config = cfg.config;
            application_id = cfg.application_id;
            application_config_id = cfg.id;
          }),
          s',
        )
      ]

  -- `join_all` starts every pull, and the first error in the order of the list is returned.
  unfoldable pub from_configs : List GetResponseItem → Update (List TargetApp)
  from_configs [] s = (ok [], s)
  from_configs (c ∷ cs) s =
      let (first, s') = from_config c s in
      let (rest, s'') = from_configs cs s' in
      (elim first [ err e ↦ err e | ok t ↦ elim rest [ err e ↦ err e | ok ts ↦ ok (t ∷ ts) ] ], s'')

  -- The container carries the image's reference and digest and both ids, and `wrap` reads them
  -- back; `unwrap_or(0)` finds an id here.
  unfoldable pub launch_from_image : TargetApp → Update Application
  launch_from_image t = do
    ask (
        create_container t.name t.image.id (env_pairs t.config)
          ((label_app_id, t.application_id) ∷ (label_app_config_id, t.application_config_id) ∷ []))
    pure (record {
      image_reference = t.image.reference;
      image_digest = t.image.digest;
      application_id = t.application_id;
      application_config_id = some t.application_config_id;
    })

  -- `Application::remove`: the log stream is dropped, the lifecycle task stops and destroys the
  -- container, and the task is joined. Its end is an answer that arrives: a task that never ends
  -- (see Lifecycle/Removal) would block here.
  unfoldable pub remove_application : Application → Update (Unit {0})
  remove_application a = do
    record_call (registry_remove a.application_id)
    ask (join_lifecycle a.application_id)

  -- One turn of the `for` loop.
  unfoldable pub perform : ReconcileAction → Update (Unit {0})
  unfolding push take_out launch_from_image remove_application ask record_call
  perform (create t) = do app ← launch_from_image t; push app
  perform (update i t) = do
    old ← take_out i
    remove_application old
    app ← launch_from_image t
    push app
  perform (remove i) = do old ← take_out i; remove_application old

  -- The `for` loop, with fuel for its turns.
  unfoldable pub reconcile : ℕ → ReconcileIterator → Update (Unit {0})
  reconcile zero it = elim (next it.0 it.1) [ none ↦ pure tt | some _ ↦ fail out_of_fuel ]
  reconcile (suc f) it = elim (next it.0 it.1) [
    | none ↦ pure tt
    | some (action, rest) ↦ perform action >> reconcile f rest
  ]

  -- Each turn takes an element of one of the iterators, so their lengths are fuel enough.
  unfoldable pub merge_into_apps : List TargetApp → Update (Unit {0})
  unfolding reconcile
  merge_into_apps target s =
      let apps = sort_apps s.apps in
      reconcile (length apps + length target) (new apps (sort_targets target))
        (record s { apps = apps })

  unfoldable pub try_update : Update (Unit {0})
  unfolding fetch_targets from_configs merge_into_apps
  try_update = do
    target_app_configs ← fetch_targets
    target ← from_configs target_app_configs
    merge_into_apps target
    ask (report (map (λ c. c.id) target_app_configs))
    ask prune

  -- One tick of `run_apps_main_loop`: frozen during an OS upgrade, and an error is only logged.
  unfoldable pub tick : Bool → State → State
  unfolding try_update
  tick os_upgrade_in_progress s = if os_upgrade_in_progress then s else (try_update s).1
