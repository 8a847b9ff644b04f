-- ===== src/Podman/ImagesTold.antt =====
-- When `PodmanWrapper::image` of orchestrator/src/podman/wrapper.rs answers without an error.
use amos2026ss01_zero_downti.Prelude.{
  subst, ℕ, ◌≡◌, refl, Bool, true, false, ◌&&◌, Option, some, none, List, [], ◌∷◌, Result, ok, err,
  both, Bool-cases, inl, inr,
}
use amos2026ss01_zero_downti.Prelude.Text.{Str}
use amos2026ss01_zero_downti.Reconcile.{Image}
use amos2026ss01_zero_downti.Podman.Images.{
  PodmanPullBehaviour, PullPolicy, policy_of, is_never, PullReport, ImageData, ends_with,
  image_not_known, Pulled, images, not_there, failed, pulled_error, pulled_report, pulled, has_more,
  last_name, or_else, read_digest, inspected, one_image, concluded, image,
}

-- The pull's first item says that the image is not known.
abbrev pub SaysUnknown : List (Result Str PullReport) → Type 0
SaysUnknown events =
    (r : PullReport) × (later : List (Result Str PullReport)) × (e : Str) × (events ≡ ok r ∷ later)
    × (r.images ≡ none)
    × (r.error ≡ some e)
    × (ends_with image_not_known e ≡ true)

-- The pull's only item names the image alone.
abbrev pub NamesAlone : List (Result Str PullReport) → Str → Type 0
NamesAlone events id = (r : PullReport) × (events ≡ ok r ∷ []) × (r.images ≡ some (id ∷ []))

error-not_there :
    (behaviour : PodmanPullBehaviour) (o : Option Str)
    → pulled_error behaviour o ≡ not_there
    → (is_never behaviour ≡ true)
      × ((e : Str) × (o ≡ some e) × (ends_with image_not_known e ≡ true))
error-not_there behaviour none h = cc
error-not_there behaviour (some e) h =
    elim (Bool-cases (is_never behaviour && ends_with image_not_known e)) [
      | inl holds ↦ let (n, u) = both _ _ holds in (n, (e, refl, u))
      | inr fails ↦ let wrong : failed e ≡ not_there = rw fails at h in cc
    ]

error-images :
    (behaviour : PodmanPullBehaviour) (o : Option Str) (imgs : List Str)
    → ¬ (pulled_error behaviour o ≡ images imgs)
error-images behaviour none imgs h = cc
error-images behaviour (some e) imgs h =
    elim (Bool-cases (is_never behaviour && ends_with image_not_known e)) [
      | inl holds ↦ let wrong : not_there ≡ images imgs = rw holds at h in cc
      | inr fails ↦ let wrong : failed e ≡ images imgs = rw fails at h in cc
    ]

report-not_there :
    (behaviour : PodmanPullBehaviour) (r : PullReport) (o : Option (List Str))
    → pulled_report behaviour r o ≡ not_there
    → (o ≡ none) × (pulled_error behaviour r.error ≡ not_there)
report-not_there behaviour r none h = (refl, h)
report-not_there behaviour r (some imgs) h = cc

report-images :
    (behaviour : PodmanPullBehaviour) (r : PullReport) (o : Option (List Str)) (imgs : List Str)
    → pulled_report behaviour r o ≡ images imgs
    → o ≡ some imgs
report-images behaviour r none imgs h = elim (error-images behaviour r.error imgs h) [ ]
report-images behaviour r (some others) imgs h = cc

pulled-not_there :
    (behaviour : PodmanPullBehaviour) (events : List (Result Str PullReport))
    → pulled behaviour events ≡ not_there
    → (is_never behaviour ≡ true) × SaysUnknown events
pulled-not_there behaviour [] h = cc
pulled-not_there behaviour (err e ∷ later) h = cc
pulled-not_there behaviour (ok r ∷ later) h =
    let (no_images, no_such) = report-not_there behaviour r r.images h in
    let (never, (e, is_e, known)) = error-not_there behaviour r.error no_such in
    (never, (r, later, e, refl, no_images, is_e, known))

pulled-images :
    (behaviour : PodmanPullBehaviour) (events : List (Result Str PullReport)) (id : Str)
    → pulled behaviour events ≡ images (id ∷ [])
    → has_more events ≡ false
    → NamesAlone events id
pulled-images behaviour [] id h alone = cc
pulled-images behaviour (err e ∷ later) id h alone = cc
pulled-images behaviour (ok r ∷ []) id h alone =
    (r, refl, report-images behaviour r r.images (id ∷ []) h)
pulled-images behaviour (ok r ∷ e ∷ later) id h alone = cc

-- What Podman told of the answer: with `none`, that the image is not known to a pull that never
-- fetches, and with an image, its id and its digest.
abbrev pub IsTold :
    (PullPolicy → Str → List (Result Str PullReport))
    → (Str → Result Str ImageData)
    → Str
    → PodmanPullBehaviour
    → Option Image
    → Type 0
IsTold pull inspect reference behaviour none =
    (is_never behaviour ≡ true) × SaysUnknown (pull (policy_of behaviour) reference)
IsTold pull inspect reference behaviour (some i) =
    NamesAlone (pull (policy_of behaviour) reference) i.id
    × ((image_data : ImageData) × (inspect i.id ≡ ok image_data)
        × (image_data.digest ≡ some i.digest)
        × (i.reference ≡ or_else (last_name image_data.names_history) reference))

-- The inspection of the image of an id made the answer.
abbrev IsInspected : Str → Str → Result Str ImageData → Option Image → Type 0
IsInspected id reference r o =
    (i : Image) × (o ≡ some i)
    × (i.id ≡ id)
    × ((image_data : ImageData) × (r ≡ ok image_data)
        × (image_data.digest ≡ some i.digest)
        × (i.reference ≡ or_else (last_name image_data.names_history) reference))

read_digest-ok :
    (id reference : Str) (image_data : ImageData) (d : Option Str) (o : Option Image)
    → read_digest id reference image_data d ≡ ok o
    → (i : Image) × (o ≡ some i)
      × (i.id ≡ id)
      × (d ≡ some i.digest)
      × (i.reference ≡ or_else (last_name image_data.names_history) reference)
read_digest-ok id reference image_data none o h = cc
read_digest-ok id reference image_data (some digest) o h = (_, cc, refl, refl, refl)

inspected-IsInspected :
    (id reference : Str) (r : Result Str ImageData) (o : Option Image)
    → inspected id reference r ≡ ok o
    → IsInspected id reference r o
inspected-IsInspected id reference (err e) o h = cc
inspected-IsInspected id reference (ok image_data) o h =
    let (i, is_i, same, is_digest, named) =
      read_digest-ok id reference image_data image_data.digest o h in
    (i, is_i, same, (image_data, refl, is_digest, named))

module _ (pull : PullPolicy → Str → List (Result Str PullReport))
    (inspect : Str → Result Str ImageData) (weird : ℕ → Str) where
  one-IsInspected :
      (reference : Str) (imgs : List Str) (o : Option Image)
      → one_image pull inspect weird reference imgs ≡ ok o
      → (id : Str) × (imgs ≡ id ∷ []) × IsInspected id reference (inspect id) o
  one-IsInspected reference [] o h = cc
  one-IsInspected reference (id ∷ []) o h =
      (id, refl, inspected-IsInspected id reference (inspect id) o h)
  one-IsInspected reference (a ∷ b ∷ rest) o h = cc

  concluded-IsTold :
      (reference : Str) (behaviour : PodmanPullBehaviour) (more : Bool) (p : Pulled)
      (o : Option Image)
      → has_more (pull (policy_of behaviour) reference) ≡ more
      → pulled behaviour (pull (policy_of behaviour) reference) ≡ p
      → concluded pull inspect weird reference more p ≡ ok o
      → IsTold pull inspect reference behaviour o
  concluded-IsTold reference behaviour more not_there none has is h =
      pulled-not_there behaviour (pull (policy_of behaviour) reference) is
  concluded-IsTold reference behaviour more not_there (some i) has is h = cc
  concluded-IsTold reference behaviour more (failed e) o has is h = cc
  concluded-IsTold reference behaviour true (images imgs) o has is h = cc
  concluded-IsTold reference behaviour false (images imgs) none has is h =
      let (id, single, (i, no_image, same, asked)) = one-IsInspected reference imgs none h in cc
  concluded-IsTold reference behaviour false (images imgs) (some j) has is h =
      let (id, single, (i, is_i, same, (image_data, told, is_digest, named))) =
        one-IsInspected reference imgs (some j) h in
      let i-j : i ≡ j = cc in
      let alone : pulled behaviour (pull (policy_of behaviour) reference) ≡ images (i.id ∷ []) =
        cc in
      let asked : inspect i.id ≡ ok image_data = cc in
      subst (λ k. IsTold pull inspect reference behaviour (some k)) i-j
        (
          pulled-images behaviour (pull (policy_of behaviour) reference) i.id alone has,
          (image_data, asked, is_digest, named),
        )

  -- When `image` answers without an image, the pull was told never to fetch and Podman's first item
  -- says that the image is not known. When it answers with an image, the pull's only item names that
  -- image alone, its digest is the one that inspecting it gave, and its reference is the last of its
  -- former names, or the requested reference if there is none.
  pub image-IsTold :
      (reference : Str) (behaviour : PodmanPullBehaviour) (o : Option Image)
      → image pull inspect weird reference behaviour ≡ ok o
      → IsTold pull inspect reference behaviour o
  image-IsTold reference behaviour o h = concluded-IsTold reference behaviour _ _ o refl refl h
