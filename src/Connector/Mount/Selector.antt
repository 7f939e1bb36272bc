-- ===== src/Connector/Mount/Selector.antt =====
-- Mounts leave the selector of a deployment as it is.
use kogito_operator.Common.{
  String, ◌≡◌, refl, sym, ap, ◌∙◌, Bool, true, false, Option, none, some, List, [], ◌∷◌, ◌++◌,
  if◌then◌else◌, any, ◌==◌, Result, ok, err, Step, next, next_injective,
}
use kogito_operator.Common.Dict.{Dict}
use kogito_operator.Client.{Reader}
use kogito_operator.Reconciliation.{GoError}
use kogito_operator.Api.Workloads.{
  VolumeReference, Deployment, Container, Volume, VolumeSource, ConfigMap,
}
use kogito_operator.Connector.Mount.{
  on_first, mount_as_env_from, mount_secret_as_env_from, add_volume, append_config_map_volume,
  append_secret_volume, mount_all, mounts_step, append_volume_mount_into_deployment,
  mount_as_volume, mount_secret_as_volume,
}

abbrev pub KeepsSelector : (Deployment → Step GoError Deployment) → Type 0
KeepsSelector f = (d e : Deployment) → f d ≡ next e → e.match_labels ≡ d.match_labels

pub on_first-KeepsSelector :
    (f : Container → Container) (containers : List Container) (d e : Deployment)
    → on_first f containers d ≡ next e
    → e.match_labels ≡ d.match_labels
unfolding on_first
on_first-KeepsSelector f [] d e h = cc
on_first-KeepsSelector f (c ∷ containers) d e h = sym (ap (λ x. x.match_labels) (next_injective h))

pub mount_as_env_from-KeepsSelector : (name : String) → KeepsSelector (mount_as_env_from name)
unfolding mount_as_env_from
mount_as_env_from-KeepsSelector name d e h = on_first-KeepsSelector _ d.containers d e h

pub mount_secret_as_env_from-KeepsSelector :
    (name : String) → KeepsSelector (mount_secret_as_env_from name)
unfolding mount_secret_as_env_from
mount_secret_as_env_from-KeepsSelector name d e h = on_first-KeepsSelector _ d.containers d e h

match_labels-add_volume :
    (name : String) (source : VolumeSource) (d : Deployment)
    → (add_volume name source d).match_labels ≡ d.match_labels
unfolding add_volume
match_labels-add_volume name source d = tested (any (λ (v : Volume). v.name == name) d.volumes)
  where
    tested :
        (b : Bool)
        → (if b then d else record d {
          volumes = d.volumes ++ (record { name = name; source = source } ∷ []);
        }).match_labels
          ≡ d.match_labels
    tested true = refl
    tested false = refl

module _ (path_join : String → String → String) where
  mount_all-KeepsSelector :
      (r : VolumeReference) (files : Dict String) → KeepsSelector (mount_all path_join r files)
  unfolding mount_all
  mount_all-KeepsSelector r [] d e h = sym (ap (λ x. x.match_labels) (next_injective h))
  mount_all-KeepsSelector r (file ∷ files) d e h = on_first-KeepsSelector _ d.containers d e h

  mounts_step-KeepsSelector :
      (r : VolumeReference) (x : Result GoError (Option ConfigMap))
      → KeepsSelector (mounts_step path_join r x)
  unfolding mounts_step
  mounts_step-KeepsSelector r (err e) d y h = cc
  mounts_step-KeepsSelector r (ok none) d y h = cc
  mounts_step-KeepsSelector r (ok (some cm)) d y h = mount_all-KeepsSelector r cm.file_data d y h

  append-KeepsSelector :
      (c : Reader ConfigMap) (r : VolumeReference)
      → KeepsSelector (append_volume_mount_into_deployment path_join c r)
  unfolding append_volume_mount_into_deployment
  append-KeepsSelector c r d e h = mounts_step-KeepsSelector r _ d e h

  pub mount_as_volume-KeepsSelector :
      (c : Reader ConfigMap) (r : VolumeReference) → KeepsSelector (mount_as_volume path_join c r)
  unfolding mount_as_volume append_config_map_volume
  mount_as_volume-KeepsSelector c r d e h =
      append-KeepsSelector c r (append_config_map_volume r d) e h
      ∙ match_labels-add_volume r.name _ d

  pub mount_secret_as_volume-KeepsSelector :
      (c : Reader ConfigMap) (r : VolumeReference)
      → KeepsSelector (mount_secret_as_volume path_join c r)
  unfolding mount_secret_as_volume append_secret_volume
  mount_secret_as_volume-KeepsSelector c r d e h =
      append-KeepsSelector c r (append_secret_volume r d) e h ∙ match_labels-add_volume r.name _ d
