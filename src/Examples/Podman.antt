-- ===== src/Examples/Podman.antt =====
-- A line of a container's log, and pulled images.
use amos2026ss01_zero_downti.Prelude.{
  arith, ok, err, Result, ℕ, ◌≡◌, refl, Option, some, none, List, [], ◌∷◌, ◌++◌,
}
use amos2026ss01_zero_downti.Prelude.Text.{Str, str_eq, codes}
use amos2026ss01_zero_downti.Logs.Registry.{stdout}
use amos2026ss01_zero_downti.Podman.{trim_end, parse_log_line}
use amos2026ss01_zero_downti.Podman.Images.{
  pull_if_missing, never_pull, PullPolicy, PullReport, ImageData, ends_with, image,
}
use amos2026ss01_zero_downti.Podman.ImagesTold.{IsTold, image-IsTold}
use amos2026ss01_zero_downti.Reconcile.{ContainerConfig, Image}
use amos2026ss01_zero_downti.Podman.Decimal.{pos, negsuc, to_string, parse, print, scan}
use amos2026ss01_zero_downti.Podman.Containers.{
  Container, ListContainer, labels_of, create_container, Lists, nothing, listed, list_containers,
  list_containers-recovers,
}
use amos2026ss01_zero_downti.Podman.Lines.{parse_log_line-stamped}

abbrev same_text : List ℕ → Str
same_text bytes = bytes

-- A clock that reads every word as the time 9.
abbrev clock : Str → Option ℕ
clock [] = none
clock (c ∷ s) = some 9

abbrev line : List ℕ
line = codes "2026Z up now" ++ b'\n' ∷ []

trimmed : trim_end (codes "up now") ≡ codes "up now"
unfolding trim_end
trimmed = refl

parse_log_line-stamped_example :
    parse_log_line same_text clock stdout line
    ≡ record { stream = stdout; time = some 9; message = codes "up now" }
parse_log_line-stamped_example =
    parse_log_line-stamped same_text clock stdout line (codes "2026Z") (codes "up now") (b'\n' ∷ [])
      9 refl refl (refl, (refl, (refl, (refl, (refl, tt))))) trimmed (refl, tt)

-- A pull that finds the image with the id "9f".
abbrev pull_found : PullPolicy → Str → List (Result Str PullReport)
pull_found policy reference = ok (record { images = some (codes "9f" ∷ []); error = none }) ∷ []

abbrev inspect_alpine : Str → Result Str ImageData
inspect_alpine id = ok (record {
  names_history = some (codes "alpine" ∷ codes "docker.io/library/alpine:latest" ∷ []);
  digest = some (codes "sha256:1");
})

abbrev no_text : ℕ → Str
no_text n = []

abbrev alpine : Image
alpine = record {
  id = codes "9f";
  reference = codes "docker.io/library/alpine:latest";
  digest = codes "sha256:1";
}

image-IsTold_example :
    IsTold pull_found inspect_alpine (codes "alpine") pull_if_missing (some alpine)
image-IsTold_example =
    image-IsTold pull_found inspect_alpine no_text (codes "alpine") pull_if_missing (some alpine)
      refl

-- A pull of an image that is not there.
abbrev pull_unknown : PullPolicy → Str → List (Result Str PullReport)
pull_unknown policy reference =
    ok (record { images = none; error = some (codes "a: image not known") }) ∷ []

not_fetched : image pull_unknown inspect_alpine no_text (codes "a") never_pull ≡ ok none
unfolding ends_with str_eq
not_fetched = refl

missing_fails :
    image pull_unknown inspect_alpine no_text (codes "a") pull_if_missing
    ≡ err (codes "a: image not known")
missing_fails = refl

-- Podman names every new container "c1".
abbrev name_c1 : Str → Str → List (Str × Str) → List (Str × Str) → Result Str Str
name_c1 name image env labels = ok (codes "c1")

abbrev in_berlin : ContainerConfig
in_berlin = record { environment = some ((codes "TZ", codes "Europe/Berlin") ∷ []) }

abbrev kept : Container
kept = record {
  id = codes "c1";
  name = codes "pump";
  image_ref = codes "docker.io/library/alpine:latest";
  image_digest = codes "sha256:1";
  application_id = some (pos 12);
  application_config_id = some (pos 345);
}

abbrev listed_c1 : ListContainer
listed_c1 = record {
  image_id = some (codes "9f");
  names = some (codes "pump" ∷ []);
  labels = some (labels_of (pos 12) (pos 345));
  id = some (codes "c1");
}

created_run :
    create_container name_c1 alpine (codes "pump") (some in_berlin) (pos 12) (pos 345) ≡ ok kept
unfolding create_container
created_run = refl

listing : Lists inspect_alpine name_c1 (listed_c1 ∷ []) (kept ∷ [])
listing =
    listed
      (
        codes "9f",
        _,
        labels_of (pos 12) (pos 345),
        alpine,
        codes "pump",
        some in_berlin,
        pos 12,
        pos 345,
        created_run,
        refl,
        refl,
        refl,
        refl,
        refl,
        refl,
        refl,
        refl,
        refl,
        omega arith,
        omega arith,
      )
      nothing

list_containers-recovers_example :
    list_containers inspect_alpine (ok (listed_c1 ∷ [])) ≡ ok (kept ∷ [])
list_containers-recovers_example =
    list_containers-recovers inspect_alpine name_c1 (listed_c1 ∷ []) (kept ∷ []) listing

printed : (to_string (pos 345) ≡ codes "345") × (to_string (negsuc 6) ≡ codes "-7")
unfolding to_string print
printed = (refl, refl)

too_large :
    (parse (codes "2147483648") ≡ none)
    × (parse (codes "") ≡ none)
    × (parse (codes "12 ") ≡ none)
    × (parse (codes "-") ≡ none)
unfolding parse scan
too_large = (refl, refl, refl, refl)
