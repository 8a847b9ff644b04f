-- ===== src/Podman/Images.antt =====
-- `PodmanWrapper::image` of orchestrator/src/podman/wrapper.rs. What the pull's stream yields and
-- what inspecting an image answers are Podman's.
use amos2026ss01_zero_downti.Prelude.{
  length, ℕ, Bool, true, false, ◌&&◌, Option, some, none, List, [], ◌∷◌, reverse, is_empty, Result,
  ok, err, if◌then◌else◌,
}
use amos2026ss01_zero_downti.Prelude.Text.{Str, str_eq, codes}
use amos2026ss01_zero_downti.Reconcile.{Image}

pub data PodmanPullBehaviour : Type 0 where
  always_pull pull_if_missing_or_newer pull_if_missing never_pull : PodmanPullBehaviour

pub data PullPolicy : Type 0 where
  always newer missing never : PullPolicy

abbrev pub policy_of : PodmanPullBehaviour → PullPolicy
policy_of always_pull = always
policy_of pull_if_missing_or_newer = newer
policy_of pull_if_missing = missing
policy_of never_pull = never

abbrev pub is_never : PodmanPullBehaviour → Bool
is_never never_pull = true
is_never _ = false

-- `LibpodImagesPullReport`, as far as the code reads it.
pub record PullReport : Type 0 where
  pub images : Option (List Str)
  pub error : Option Str

-- The inspected image.
pub record ImageData : Type 0 where
  pub names_history : Option (List Str)
  pub digest : Option Str

-- `e.ends_with(s)`: some rest of the text is `s`.
unfoldable pub ends_with : Str → Str → Bool
ends_with s [] = is_empty s
ends_with s (c ∷ e) = let rest = ends_with s e in if str_eq s (c ∷ e) then true else rest

abbrev pub image_not_known : Str
image_not_known = codes "image not known"

-- How the first item of the pull ends the call, or the pulled images.
pub data Pulled : Type 0 where
  images : List Str → Pulled
  not_there : Pulled
  failed : Str → Pulled

abbrev pub pulled_error : PodmanPullBehaviour → Option Str → Pulled
pulled_error behaviour none = failed (codes "Invalid response")
pulled_error behaviour (some e) =
    if is_never behaviour && ends_with image_not_known e then not_there else failed e

abbrev pub pulled_report : PodmanPullBehaviour → PullReport → Option (List Str) → Pulled
pulled_report behaviour r (some imgs) = images imgs
pulled_report behaviour r none = pulled_error behaviour r.error

abbrev pub pulled : PodmanPullBehaviour → List (Result Str PullReport) → Pulled
pulled behaviour [] = failed (codes "Invalid response")
pulled behaviour (ok r ∷ events) = pulled_report behaviour r r.images
pulled behaviour (err e ∷ events) = failed e

abbrev pub not_empty : List (Result Str PullReport) → Bool
not_empty [] = false
not_empty (x ∷ xs) = true

abbrev pub has_more : List (Result Str PullReport) → Bool
has_more [] = false
has_more (e ∷ events) = not_empty events

-- `names_history.and_then(|mut h| h.pop())`: the last name.
abbrev pub last_name : Option (List Str) → Option Str
last_name none = none
last_name (some names) = elim (reverse names) [ [] ↦ none | n ∷ rest ↦ some n ]

abbrev pub or_else : Option Str → Str → Str
or_else none s = s
or_else (some t) s = t

abbrev pub read_digest : Str → Str → ImageData → Option Str → Result Str (Option Image)
read_digest id reference image_data none = err (codes "Could not read image digest")
read_digest id reference image_data (some digest) = ok (
    some (record {
      id = id;
      reference = or_else (last_name image_data.names_history) reference;
      digest = digest;
    }))

abbrev pub inspected : Str → Str → Result Str ImageData → Result Str (Option Image)
inspected id reference (err e) = err e
inspected id reference (ok image_data) = read_digest id reference image_data image_data.digest

module _ (pull : PullPolicy → Str → List (Result Str PullReport))
    (inspect : Str → Result Str ImageData) (weird : ℕ → Str) where
  -- `weird n` is the text "Pulled {n} images, which is weird".
  abbrev pub one_image : Str → List Str → Result Str (Option Image)
  one_image reference [] = err (weird 0)
  one_image reference (id ∷ []) = inspected id reference (inspect id)
  one_image reference (a ∷ b ∷ rest) = err (weird (length (a ∷ b ∷ rest)))

  abbrev pub concluded : Str → Bool → Pulled → Result Str (Option Image)
  concluded reference more not_there = ok none
  concluded reference more (failed e) = err e
  concluded reference more (images imgs) =
      if more then err (codes "Too many response entries") else one_image reference imgs

  abbrev pub image : Str → PodmanPullBehaviour → Result Str (Option Image)
  image reference behaviour =
      let events = pull (policy_of behaviour) reference in
      concluded reference (has_more events) (pulled behaviour events)
