-- ===== src/Service/Deployment.antt =====
-- core/kogitoservice/deployment_reconciler.go: bringing a service's deployment to what it should be.
pub mod Kept
pub mod Laws
use kogito_operator.Common.{
  String, ◌<>◌, ℕ, Bool, true, false, Option, none, some, List, [], ◌∷◌, ◌++◌, if◌then◌else◌, ltb,
  leb, is_empty, Result, ok, err, Step, next, fail, panic, ◌>>=◌,
}
use kogito_operator.Common.Dict.{Dict, insert}
use kogito_operator.Api.{NamespacedName}
use kogito_operator.Api.Workloads.{
  Deployment, Container, ConfigMap, VolumeReference, EnvVar, ContainerPort, Probe,
}
use kogito_operator.Client.{Reader}
use kogito_operator.Reconciliation.{GoError, error_for_image_not_found}
use kogito_operator.Delta.{DeltaState}
use kogito_operator.Framework.EnvVar.{env_override, create_env_var}
use kogito_operator.Framework.Collections.{append_to_string_map}
use kogito_operator.Processing.{kogito_operator_version_annotation}
use kogito_operator.Connector.Mount.{
  on_first, mount_as_env_from, mount_secret_as_env_from, mount_as_volume, mount_secret_as_volume,
}
use kogito_operator.Images.Names.{ImageHandler, resolve_image_stream_trigger_annotation}
use kogito_operator.Service.Instance.{KogitoService}
use kogito_operator.Service.Probes.{get_probe_for_kogito_service, default_exposed_port}
use kogito_operator.Service.Draft.{Draft, built}
use kogito_operator.Service.Dependencies.{ServiceDefinition}
use kogito_operator.Service.Creation.{DeploymentCluster, create_deployment}
use kogito_operator.Service.Configs.{OneCluster, reconcile_one}

module _ (c : DeploymentCluster) (i : KogitoService) (d : ServiceDefinition) where
  custom : Option (Draft → Step GoError Draft) → Draft → Step GoError Draft
  custom none x = next x
  custom (some f) x = f x

  -- On OpenShift the deployment gets a new map with the trigger alone.
  unfoldable pub on_deployment_create : ImageHandler → Draft → Step GoError Draft
  unfolding custom
  on_deployment_create h x = custom d.on_deployment_create (
      if c.is_openshift
      then record x {
        own_annotations = some (resolve_image_stream_trigger_annotation h i.name ∷ []);
      }
      else x)

  -- The map that the deployment's annotations are.
  unfoldable pub add_deployment_identifier : Draft → Draft
  add_deployment_identifier x = elim x.own_annotations [
    | none ↦ record x {
      shared_annotations = insert c.deployment_identifier "true" x.shared_annotations;
    }
    | some own ↦ record x { own_annotations = some (insert c.deployment_identifier "true" own) }
  ]

  abbrev service_envs : List EnvVar → List EnvVar
  service_envs env =
      env_override (env_override env (create_env_var "RUNTIME_TYPE" i.runtime ∷ []))
        d.definition_envs

  mount_envs : Deployment → Step GoError Deployment
  mount_envs x = on_first (λ (k : Container). record k { env = service_envs k.env }) x.containers x

  each :
      {A : Type 0}
      → (A → Deployment → Step GoError Deployment)
      → List A
      → Deployment
      → Step GoError Deployment
  each f [] x = next x
  each f (a ∷ items) x = f a x >>= each f items

  unfoldable pub mount_config_map_references : Deployment → Step GoError Deployment
  unfolding each
  mount_config_map_references x = do
    y ← each mount_as_env_from d.config_map_env_from x
    each (mount_as_volume c.path_join c.config_maps) d.config_map_volumes y

  unfoldable pub mount_secret_references : Deployment → Step GoError Deployment
  unfolding each
  mount_secret_references x = do
    y ← each mount_secret_as_env_from d.secret_env_from x
    each (mount_secret_as_volume c.path_join c.secrets) d.secret_volumes y

  on_base : Draft → Step GoError Deployment → Step GoError Draft
  on_base x panic = panic
  on_base x (fail b e) = fail (record x { base = b }) e
  on_base x (next b) = next (record x { base = b })

  -- `mountEnvsOnDeployment` and the mounts of the references.
  unfoldable pub mount_on_deployment : Draft → Step GoError Draft
  unfolding on_base mount_envs
  mount_on_deployment x =
      on_base x
        do y ← mount_envs x.base; z ← mount_config_map_references y; mount_secret_references z

  -- The template's labels are the shared map.
  unfoldable pub mount_metering_labels : Draft → Draft
  mount_metering_labels x = record x {
    shared_labels = append_to_string_map c.labels x.shared_labels;
  }

  -- `createRequiredResources` up to `SetOwner`, whose error `reconcile_one` takes.
  unfoldable pub create_required_deployment : ImageHandler → String → Step GoError Draft
  create_required_deployment h image = do
    x ← create_deployment c i d image
    y ← on_deployment_create h x
    z ← mount_on_deployment (add_deployment_identifier y)
    next (mount_metering_labels z)

  requested_deployment :
      DeltaState Deployment → Step GoError Draft → Step GoError (DeltaState Deployment)
  requested_deployment s panic = panic
  requested_deployment s (fail x e) = fail s e
  requested_deployment s (next x) =
      reconcile_one c.deployments (built x) (record { namespace = i.namespace; name = i.name }) s

  -- `deploymentReconciler.Reconcile` with the answer of `ResolveImage`.
  unfoldable pub reconcile_deployment :
      ImageHandler
      → Result GoError String
      → DeltaState Deployment
      → Step GoError (DeltaState Deployment)
  unfolding requested_deployment
  reconcile_deployment h image s = elim image [
    | err e ↦ fail s e
    | ok name ↦
        if is_empty name
        then fail s error_for_image_not_found
        else requested_deployment s (create_required_deployment h name)
  ]
