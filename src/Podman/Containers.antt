-- ===== src/Podman/Containers.antt =====
-- `list_containers` and `create_container` of orchestrator/src/podman/wrapper.rs: a container carries
-- the ids of its application and config in labels, from which they are read after a restart.
use amos2026ss01_zero_downti.Prelude.{
  ◌≡◌, refl, sym, ap, ◌∙◌, Option, some, none, List, [], ◌∷◌, map, Result, ok, err, if◌then◌else◌,
}
use amos2026ss01_zero_downti.Prelude.Text.{Str, str_eq}
use amos2026ss01_zero_downti.Podman.Decimal.{ℤ, IsI32, to_string, parse, parse-to_string}
use amos2026ss01_zero_downti.Podman.Images.{ImageData, last_name}
use amos2026ss01_zero_downti.Reconcile.{Image, ContainerConfig}
use amos2026ss01_zero_downti.Reconcile.Update.{env_pairs, label_app_id, label_app_config_id}

-- `id` is the one of the container and its log handle.
pub record Container : Type 0 where
  pub id : Str
  pub name : Str
  pub image_ref : Str
  pub image_digest : Str
  pub application_id : Option ℤ
  pub application_config_id : Option ℤ

-- The fields of Podman's listing that the code reads.
pub record ListContainer : Type 0 where
  pub image_id : Option Str
  pub names : Option (List Str)
  pub labels : Option (List (Str × Str))
  pub id : Option Str

abbrev pub labels_of : ℤ → ℤ → List (Str × Str)
labels_of application_id application_config_id =
    (label_app_id, to_string application_id)
    ∷ (label_app_config_id, to_string application_config_id)
    ∷ []

abbrev pub created : Image → Str → ℤ → ℤ → Str → Container
created image name application_id application_config_id id = record {
  id = id;
  name = name;
  image_ref = image.reference;
  image_digest = image.digest;
  application_id = some application_id;
  application_config_id = some application_config_id;
}

abbrev pub created_answer : Image → Str → ℤ → ℤ → Result Str Str → Result Str Container
created_answer image name application_id application_config_id (err e) = err e
created_answer image name application_id application_config_id (ok id) =
    ok (created image name application_id application_config_id id)

-- `create name image env labels` is what Podman answers, the id of the new container.
unfoldable pub create_container :
    (Str → Str → List (Str × Str) → List (Str × Str) → Result Str Str)
    → Image
    → Str
    → Option ContainerConfig
    → ℤ
    → ℤ
    → Result Str Container
unfolding env_pairs
create_container create image name config application_id application_config_id =
    created_answer image name application_id application_config_id
      (create name image.id (env_pairs config) (labels_of application_id application_config_id))

unfoldable pub get_label : Str → List (Str × Str) → Option Str
get_label key [] = none
get_label key ((k, v) ∷ labels) =
    let rest = get_label key labels in if str_eq k key then some v else rest

infixl 5 ◌>>=◌
abbrev ◌>>=◌ : {A B : Type 0} → Option A → (A → Option B) → Option B
none >>= f = none
some a >>= f = f a

-- `.ok()`
abbrev succeeded : {A : Type 0} → Result Str A → Option A
succeeded (ok a) = some a
succeeded (err e) = none

abbrev pub parsed_label : Str → Option (List (Str × Str)) → Option ℤ
parsed_label key labels = do l ← labels; v ← get_label key l; parse v

-- `flatten` on the options.
abbrev pub flatten : {A : Type 0} → List (Option A) → List A
flatten [] = []
flatten (none ∷ os) = flatten os
flatten (some a ∷ os) = a ∷ flatten os

module _ (inspect : Str → Result Str ImageData) where
  -- A container that lacks something is left out.
  unfoldable pub to_container : ListContainer → Option Container
  unfolding get_label parse
  to_container c = do
    image_id ← c.image_id
    image ← succeeded (inspect image_id)
    name ← last_name c.names
    id ← c.id
    image_ref ← last_name image.names_history
    image_digest ← image.digest
    some (record {
      id = id;
      name = name;
      image_ref = image_ref;
      image_digest = image_digest;
      application_id = parsed_label label_app_id c.labels;
      application_config_id = parsed_label label_app_config_id c.labels;
    })

  abbrev listed_all : List ListContainer → List Container
  listed_all cs = flatten (map to_container cs)

  -- The argument is Podman's listing of all containers.
  unfoldable pub list_containers : Result Str (List ListContainer) → Result Str (List Container)
  unfolding to_container
  list_containers (err e) = err e
  list_containers (ok cs) = ok (listed_all cs)

  -- Podman lists as `c` the container `k` that was made by `create_container`: with its id and name,
  -- its image, and the labels that it was created with.
  abbrev pub IsListed :
      (Str → Str → List (Str × Str) → List (Str × Str) → Result Str Str)
      → ListContainer
      → Container
      → Type 0
  IsListed create c k =
      (image_id : Str) × (shown : ImageData) × (l : List (Str × Str)) × (image : Image)
      × (name : Str) × (config : Option ContainerConfig) × (a : ℤ) × (g : ℤ) × (create_container
            create image name config a g
          ≡ ok k)
      × (c.image_id ≡ some image_id)
      × (inspect image_id ≡ ok shown)
      × (last_name c.names ≡ some name)
      × (c.id ≡ some k.id)
      × (last_name shown.names_history ≡ some image.reference)
      × (shown.digest ≡ some image.digest)
      × (c.labels ≡ some l)
      × (get_label label_app_id l ≡ get_label label_app_id (labels_of a g))
      × (get_label label_app_config_id l ≡ get_label label_app_config_id (labels_of a g))
      × IsI32 a
      × IsI32 g

  created-is :
      (image : Image) (name : Str) (a g : ℤ) (r : Result Str Str) (k : Container)
      → created_answer image name a g r ≡ ok k
      → created image name a g k.id ≡ k
  created-is image name a g (ok id) k h =
      let same : created image name a g id ≡ k = cc in
      ap (λ (k : Container). created image name a g k.id) (sym same) ∙ same
  created-is image name a g (err e) k h = cc

  to_container-listed :
      (create : Str → Str → List (Str × Str) → List (Str × Str) → Result Str Str)
      (c : ListContainer) (k : Container)
      → IsListed create c k
      → to_container c ≡ some k
  unfolding to_container create_container get_label str_eq
  to_container-listed create c k
        (
          image_id, shown, l, image, name, asked, a, g, made, has_image, inspected, is_name, id,
          ref, digest, labels, app, config, small_app, small_config,
        ) =
      rw
        (
          has_image,
          inspected,
          is_name,
          id,
          ref,
          digest,
          labels,
          app,
          config,
          parse-to_string a small_app,
          parse-to_string g small_config,
        )
        (ap some (
          created-is image name a g (create name image.id (env_pairs asked) (labels_of a g)) k
            made))

  module _ (create : Str → Str → List (Str × Str) → List (Str × Str) → Result Str Str) where
    -- The listing has the containers, and others whose image cannot be inspected.
    pub data Lists : List ListContainer → List Container → Type 0 where
      nothing : Lists [] []
      listed :
          {c : ListContainer} {k : Container} {cs : List ListContainer} {ks : List Container}
          → IsListed create c k
          → Lists cs ks
          → Lists (c ∷ cs) (k ∷ ks)
      foreign :
          {c : ListContainer} {image_id e : Str} {cs : List ListContainer} {ks : List Container}
          → c.image_id ≡ some image_id
          → inspect image_id ≡ err e
          → Lists cs ks
          → Lists (c ∷ cs) ks

    foreign-left_out :
        (c : ListContainer) (image_id e : Str)
        → c.image_id ≡ some image_id
        → inspect image_id ≡ err e
        → to_container c ≡ none
    unfolding to_container
    foreign-left_out c image_id e has_image fails = rw (has_image, fails) refl

    listed_all-Lists :
        {cs : List ListContainer} {ks : List Container} → Lists cs ks → listed_all cs ≡ ks
    listed_all-Lists nothing = refl
    listed_all-Lists (listed {c = c} {k = k} d more) =
        rw (to_container-listed create c k d) (ap (◌∷◌ k) (listed_all-Lists more))
    listed_all-Lists (foreign {c = c} {image_id = image_id} {e = e} has_image fails more) =
        rw (foreign-left_out c image_id e has_image fails) (listed_all-Lists more)

    -- After a restart the containers are found again as they were: if each was made by
    -- create_container with ids that are an `i32`, and Podman lists them with the id, name, image and
    -- labels that they were made with, and beside them only containers whose image cannot be
    -- inspected, then list_containers answers with exactly these containers, in order.
    pub list_containers-recovers :
        (cs : List ListContainer) (ks : List Container)
        → Lists cs ks
        → list_containers (ok cs) ≡ ok ks
    unfolding list_containers
    list_containers-recovers cs ks more = ap ok (listed_all-Lists more)
