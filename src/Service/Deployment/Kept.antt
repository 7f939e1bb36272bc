-- ===== src/Service/Deployment/Kept.antt =====
-- What mounting leaves of a deployment.
use kogito_operator.Common.{
  ◌≡◌, sym, ap, ◌∙◌, List, [], ◌∷◌, Step, next, fail, panic, >>=-eq-next, next_injective,
}
use kogito_operator.Reconciliation.{GoError}
use kogito_operator.Api.Workloads.{Deployment}
use kogito_operator.Connector.Mount.{
  mount_as_env_from, mount_secret_as_env_from, mount_as_volume, mount_secret_as_volume,
}
use kogito_operator.Connector.Mount.Selector.{
  KeepsSelector, on_first-KeepsSelector, mount_as_env_from-KeepsSelector,
  mount_secret_as_env_from-KeepsSelector, mount_as_volume-KeepsSelector,
  mount_secret_as_volume-KeepsSelector,
}
use kogito_operator.Service.Instance.{KogitoService}
use kogito_operator.Service.Draft.{Draft}
use kogito_operator.Service.Dependencies.{ServiceDefinition}
use kogito_operator.Service.Creation.{DeploymentCluster}
use kogito_operator.Service.Deployment.{
  each, mount_envs, mount_config_map_references, mount_secret_references, on_base,
  mount_on_deployment,
}

each-KeepsSelector :
    {A : Type 0} (c : DeploymentCluster) (i : KogitoService) (d : ServiceDefinition)
    (f : A → Deployment → Step GoError Deployment)
    → ((a : A) → KeepsSelector (f a))
    → (items : List A) → KeepsSelector (each c i d f items)
unfolding each
each-KeepsSelector c i d f keeps [] x y h = sym (ap (λ z. z.match_labels) (next_injective h))
each-KeepsSelector c i d f keeps (a ∷ items) x y h =
    let (z, h1, h2) = >>=-eq-next (f a x) (each c i d f items) h in
    each-KeepsSelector c i d f keeps items z y h2 ∙ keeps a x z h1

module _ (c : DeploymentCluster) (i : KogitoService) (d : ServiceDefinition) where
  mount_config_map_references-KeepsSelector : KeepsSelector (mount_config_map_references c i d)
  unfolding mount_config_map_references
  mount_config_map_references-KeepsSelector x y h =
      let (z, h1, h2) =
        >>=-eq-next (each c i d mount_as_env_from d.config_map_env_from x)
          (each c i d (mount_as_volume c.path_join c.config_maps) d.config_map_volumes) h in
      each-KeepsSelector c i d (mount_as_volume c.path_join c.config_maps)
        (mount_as_volume-KeepsSelector c.path_join c.config_maps) d.config_map_volumes z y h2
      ∙ each-KeepsSelector c i d mount_as_env_from mount_as_env_from-KeepsSelector
          d.config_map_env_from x z h1

  mount_secret_references-KeepsSelector : KeepsSelector (mount_secret_references c i d)
  unfolding mount_secret_references
  mount_secret_references-KeepsSelector x y h =
      let (z, h1, h2) =
        >>=-eq-next (each c i d mount_secret_as_env_from d.secret_env_from x)
          (each c i d (mount_secret_as_volume c.path_join c.secrets) d.secret_volumes) h in
      each-KeepsSelector c i d (mount_secret_as_volume c.path_join c.secrets)
        (mount_secret_as_volume-KeepsSelector c.path_join c.secrets) d.secret_volumes z y h2
      ∙ each-KeepsSelector c i d mount_secret_as_env_from mount_secret_as_env_from-KeepsSelector
          d.secret_env_from x z h1

  mount_envs-KeepsSelector : KeepsSelector (mount_envs c i d)
  unfolding mount_envs
  mount_envs-KeepsSelector x y h = on_first-KeepsSelector _ x.containers x y h

  -- What mounting does not touch of a draft.
  abbrev pub IsKept : Draft → Draft → Type 0
  IsKept x y =
      (y.base.match_labels ≡ x.base.match_labels)
      × (y.shared_labels ≡ x.shared_labels)
      × (y.shared_annotations ≡ x.shared_annotations)
      × (y.own_annotations ≡ x.own_annotations)

  on_base-IsKept :
      (x y : Draft) (b : Step GoError Deployment)
      → on_base c i d x b ≡ next y
      → (b ≡ next y.base)
        × (y.shared_labels ≡ x.shared_labels)
        × (y.shared_annotations ≡ x.shared_annotations)
        × (y.own_annotations ≡ x.own_annotations)
  unfolding on_base
  on_base-IsKept x y panic h = cc
  on_base-IsKept x y (fail b e) h = cc
  on_base-IsKept x y (next b) h =
      let q = sym (next_injective h) in
      (
        sym (ap (λ z. next z.base) q),
        ap (λ z. z.shared_labels) q,
        ap (λ z. z.shared_annotations) q,
        ap (λ z. z.own_annotations) q,
      )

  pub mount_on_deployment-IsKept : (x y : Draft) → mount_on_deployment c i d x ≡ next y → IsKept x y
  unfolding mount_on_deployment
  mount_on_deployment-IsKept x y h =
      let (b, l, a, o) = on_base-IsKept x y _ h in
      let (v, h1, k1) = >>=-eq-next (mount_envs c i d x.base) _ b in
      let (w, h2, h3) = >>=-eq-next (mount_config_map_references c i d v) _ k1 in
      (
        mount_secret_references-KeepsSelector w y.base h3
            ∙ mount_config_map_references-KeepsSelector v w h2
            ∙ mount_envs-KeepsSelector x.base v h1,
        l,
        a,
        o,
      )
