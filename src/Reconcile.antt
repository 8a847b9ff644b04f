-- ===== src/Reconcile.antt =====
-- orchestrator/src/loop_apps.rs: the merge of the target applications into the running ones.
-- `ReconcileIterator` is the pair of lists that are left of its two peekable iterators.
pub mod Vec
pub mod Update
pub mod Ends
pub mod Converge
pub mod Merge
pub mod Settled
pub mod Fuel
use Prim.Native.Nat.{Ordering}
use amos2026ss01_zero_downti.Prelude.{
  ℕ, suc, ◌==◌, ◌||◌, Bool, true, false, not, Option, some, none, List, [], ◌∷◌, map, reverse,
  is_num, if◌then◌else◌,
}
use amos2026ss01_zero_downti.Prelude.Text.{Str, str_eq, str_cmp, split_first}

-- `ContainerConfigV1`
pub record ContainerConfig : Type 0 where
  pub environment : Option (List (Str × Str))

-- The fields of an `Application` that do not belong to its lifecycle task.
pub record Application : Type 0 where
  pub image_reference : Str
  pub image_digest : Str
  pub application_id : ℕ
  pub application_config_id : Option ℕ

-- `PodmanWrapperImage`
pub record Image : Type 0 where
  pub id : Str
  pub reference : Str
  pub digest : Str

pub record TargetApp : Type 0 where
  pub image : Image
  pub name : Str
  pub config : Option ContainerConfig
  pub application_id : ℕ
  pub application_config_id : ℕ

pub record CurrentAppEntry : Type 0 where
  pub reference : Str
  pub digest : Str
  pub application_config_id : Option ℕ
  pub application_index : ℕ

pub data ReconcileAction : Type 0 where
  create : TargetApp → ReconcileAction
  update : ℕ → TargetApp → ReconcileAction
  remove : ℕ → ReconcileAction

-- `reference().split(':').next()`
unfoldable pub without_tag : Str → Str
unfolding split_first
without_tag = split_first b':'

-- `apps.iter().enumerate()` from an index on, each with the entry made of it.
unfoldable pub enumerate_entries : ℕ → List Application → List CurrentAppEntry
enumerate_entries i [] = []
enumerate_entries i (a ∷ apps) =
    record {
      reference = without_tag a.image_reference;
      digest = a.image_digest;
      application_config_id = a.application_config_id;
      application_index = i;
    }
    ∷ enumerate_entries (suc i) apps

unfoldable pub target_entry : TargetApp → Str × TargetApp
target_entry t = (without_tag t.image.reference, t)

abbrev pub ReconcileIterator : Type 0
ReconcileIterator = List CurrentAppEntry × List (Str × TargetApp)

unfoldable pub new : List Application → List TargetApp → ReconcileIterator
new apps target_imgs = (reverse (enumerate_entries 0 apps), reverse (map target_entry target_imgs))

-- The image or the config changed.
unfoldable pub is_changed : CurrentAppEntry → TargetApp → Bool
is_changed c t =
    not (str_eq c.digest t.image.digest)
    || not (is_num c.application_config_id t.application_config_id)

-- What `next` returns, with the iterator that it leaves.
unfoldable pub next :
    List CurrentAppEntry → List (Str × TargetApp) → Option (ReconcileAction × ReconcileIterator)
next [] [] = none
next [] ((k, t) ∷ ts) = some (create t, ([], ts))
next (c ∷ cs) [] = some (remove c.application_index, (cs, []))
next (c ∷ cs) ((k, t) ∷ ts) = elim (str_cmp c.reference k) [
  | Ordering.lt ↦ some (create t, (c ∷ cs, ts))
  | Ordering.gt ↦ some (remove c.application_index, (cs, (k, t) ∷ ts))
  | Ordering.eq ↦ elim (is_changed c t) [
    | true ↦ some (update c.application_index t, (cs, ts))
    | false ↦ next cs ts
  ]
]
