-- ===== src/Connector/Mount/Laws.antt =====
-- Mounting once is enough, and what is mounted is there.
use kogito_operator.Common.{
  String, ◌≡◌, refl, Bool, true, ◌||◌, none, if◌then◌else◌, some, List, [], ◌∷◌, ◌++◌, ◌==◌, any,
  ok, next, panic, arith, eq_refl, ◌∙◌, Bool-cases, inl, inr,
}
use mathlib.Core.Option.{or_else}
use kogito_operator.Common.Dict.{Dict}
use kogito_operator.Client.{Reader, fetch_with_key}
use kogito_operator.Api.Workloads.{
  VolumeReference, Deployment, Container, EnvFromSource, config_map_ref, Volume, VolumeMount,
  ConfigMap, config_map_source,
}
use kogito_operator.Connector.Mount.{
  is_config_map, add_volume, default_mode, add_env_from, on_first, mount_as_env_from,
  mount_as_volume, append_config_map_volume, mount_all, with_files,
  append_volume_mount_into_deployment,
}
use kogito_operator.Connector.Mount.Paths.{mount_at, file_at, mount_at-mount_files}

abbrev pub first_mounts : List Container → List VolumeMount
first_mounts [] = []
first_mounts (c ∷ _) = c.volume_mounts

abbrev pub first_env_from : List Container → List EnvFromSource
first_env_from [] = []
first_env_from (c ∷ _) = c.env_from

-- The deployment's first container takes its environment from the config map.
abbrev pub HasEnvFrom : String → Deployment → Type 0
HasEnvFrom cm_name d = any (is_config_map cm_name) (first_env_from d.containers) ≡ true

any-append {ℓ} :
    {A : Type ℓ} (p : A → Bool) (xs ys : List A) → any p (xs ++ ys) ≡ (any p xs || any p ys)
any-append p [] ys = refl
any-append p (x ∷ xs) ys = ground (arith, any-append p xs ys)

any-add_env_from :
    (cm_name : String) (c : Container)
    → any
        (is_config_map cm_name)
        (add_env_from (is_config_map cm_name) (config_map_ref cm_name) c).env_from
      ≡ true
unfolding add_env_from
any-add_env_from cm_name c = elim (Bool-cases (any (is_config_map cm_name) c.env_from)) [
  | inl e ↦ rw e e
  | inr e ↦ rw e (
      any-append (is_config_map cm_name) c.env_from (config_map_ref cm_name ∷ []) ∙ rw (e, eq_refl))
]

on_first_lem :
    (f : Container → Container) (cs : List Container) (d d' : Deployment)
    → on_first f cs d ≡ next d'
    → (c : Container) × (rest : List Container) × (cs ≡ c ∷ rest)
      × (d' ≡ record d { containers = f c ∷ rest })
unfolding on_first
on_first_lem f [] d d' h = cc
on_first_lem f (c ∷ rest) d d' h = (c, rest, refl, cc)

add_env_from_idem :
    (cm_name : String) (c : Container)
    → let add = add_env_from (is_config_map cm_name) (config_map_ref cm_name) in add (add c) ≡ add c
add_env_from_idem cm_name c =
    let add : Container → Container =
      add_env_from (is_config_map cm_name) (config_map_ref cm_name) in
    idem (add c) (any-add_env_from cm_name c)
  where
    idem :
        (c' : Container)
        → any (is_config_map cm_name) c'.env_from ≡ true
        → add_env_from (is_config_map cm_name) (config_map_ref cm_name) c' ≡ c'
    idem c' e = unfold add_env_from in rw e

-- A config map that is mounted as environment stands in the first container, and mounting it again
-- changes nothing.
pub mount_as_env_from_idem :
    (cm_name : String) (d d' : Deployment)
    → mount_as_env_from cm_name d ≡ next d'
    → HasEnvFrom cm_name d' × (mount_as_env_from cm_name d' ≡ next d')
unfolding mount_as_env_from
mount_as_env_from_idem cm_name d d' h =
    let (c, rest, e, e') = on_first_lem _ d.containers d d' h in
    (
      rw e' (any-add_env_from cm_name c),
      rw e' (unfold on_first in rw (add_env_from_idem cm_name c)),
    )

-- What the volume of a reference is appended to.
abbrev pub with_volume : VolumeReference → List Volume → List Volume
with_volume r volumes =
    if any (λ (v : Volume). v.name == r.name) volumes
    then volumes
    else volumes
      ++ (record {
        name = r.name;
        source = config_map_source r.name (default_mode r.file_mode) r.optional;
      }
          ∷ [])

module _ (path_join : String → String → String) where
  append_config_map_volume_lem :
      (r : VolumeReference) (d : Deployment)
      → let d' = append_config_map_volume r d in
        (d'.volumes ≡ with_volume r d.volumes)
        × (d'.namespace ≡ d.namespace)
        × (d'.containers ≡ d.containers)
  unfolding append_config_map_volume add_volume
  append_config_map_volume_lem r d =
      elim (Bool-cases (any (λ (v : Volume). v.name == r.name) d.volumes)) [
        | inl e ↦ (rw e refl, rw e refl, rw e refl)
        | inr e ↦ (rw e refl, rw e refl, rw e refl)
      ]

  mount_all_lem :
      (r : VolumeReference) (files : Dict String) (d : Deployment) (first : Container)
      (rest : List Container)
      → d.containers ≡ first ∷ rest
      → mount_all path_join r files d
        ≡ next (record d { containers = with_files path_join r files first ∷ rest })
  unfolding mount_all
  mount_all_lem r [] d first rest h = λ i. next (record d { containers = h i })
  mount_all_lem r (x ∷ files) d first rest h = rw (h, on_first)

  fetch_appended :
      (c : Reader ConfigMap) (r : VolumeReference) (d : Deployment)
      → fetch_with_key c
          (record { namespace = (append_config_map_volume r d).namespace; name = r.name })
        ≡ fetch_with_key c (record { namespace = d.namespace; name = r.name })
  fetch_appended c r d =
      let same = (append_config_map_volume_lem r d).1 in
      λ i. fetch_with_key c (record { namespace = same i; name = r.name })

  -- A config map that can be read, mounted as a volume on a pod that has a container: a volume of the
  -- config map, with the mode and the option of the reference, is behind the pod's volumes unless one
  -- has the name already; and the first mount of the first container at a path is the one that it had
  -- there, or else that of the first file of the config map that goes to the path, which mounts just
  -- that file.
  pub mount_as_volume_lem :
      (c : Reader ConfigMap) (r : VolumeReference) (d : Deployment) (cm : ConfigMap)
      (first : Container) (rest : List Container) (p : String)
      → fetch_with_key c (record { namespace = d.namespace; name = r.name }) ≡ ok (some cm)
      → d.containers ≡ first ∷ rest
      → (d' : Deployment) × (mount_as_volume path_join c r d ≡ next d')
        × (d'.volumes ≡ with_volume r d.volumes)
        × (mount_at p (first_mounts d'.containers)
            ≡ or_else (mount_at p first.volume_mounts) (file_at path_join r p cm.file_data))
  unfolding mount_as_volume
  mount_as_volume_lem c r d cm first rest p f h =
      let (there, same_ns, same) = append_config_map_volume_lem r d in
      let d1 = append_config_map_volume r d in
      (
        record d1 { containers = with_files path_join r cm.file_data first ∷ rest },
        unfold append_volume_mount_into_deployment in
            rw (fetch_appended c r d ∙ f) (mount_all_lem r cm.file_data d1 first rest (same ∙ h)),
        there,
        mount_at-mount_files path_join r cm.file_data p first.volume_mounts,
      )

  -- A config map that does not exist makes the mount panic, whatever the reference says of being
  -- optional.
  pub mount_as_volume_missing :
      (c : Reader ConfigMap) (r : VolumeReference) (d : Deployment)
      → fetch_with_key c (record { namespace = d.namespace; name = r.name }) ≡ ok none
      → mount_as_volume path_join c r d ≡ panic
  unfolding mount_as_volume
  mount_as_volume_missing c r d h =
      unfold append_volume_mount_into_deployment in rw (fetch_appended c r d ∙ h)
