-- ===== src/Service/Deployer/Parts.antt =====
-- core/kogitoservice/deployer.go: the state of a deployment, its defaults and its image.
use kogito_operator.Common.{
  String, ℕ, ◌||◌, not, Option, none, some, if◌then◌else◌, is_empty, Step, next, fail, panic,
}
use kogito_operator.Client.{Reader}
use kogito_operator.Api.{Image}
use kogito_operator.Api.Conditions.{ConditionApi}
use kogito_operator.Api.Workloads.{Deployment, ConfigMap}
use kogito_operator.Reconciliation.{GoError}
use kogito_operator.Delta.{DeltaState}
use kogito_operator.Framework.Owner.{Owner}
use kogito_operator.Manager.Infra.{InfraHandler}
use kogito_operator.Images.Names.{ImageHandler, convert_image_tag_to_image}
use kogito_operator.Images.Streams.{ImageStreamTag}
use kogito_operator.Images.Reconcile.{StreamCluster, StreamState}
use kogito_operator.Service.Instance.{KogitoService}
use kogito_operator.Service.Dependencies.{ServiceDefinition}
use kogito_operator.Service.Configs.{OneCluster}
use kogito_operator.Service.Creation.{DeploymentCluster}
use kogito_operator.Service.Exposure.{ClusterService, RequestedRoute}

-- The cluster and the library calls of a deployment. The last four are the answers of Prometheus,
-- Grafana, Kafka and Knative.
pub record DeployCluster : Type 0 where
  pub conditions : ConditionApi
  pub getenv : String → String
  pub errorf : String → GoError
  pub find_submatch : String → String × String × String
  pub owner : Owner
  pub config_maps : OneCluster ConfigMap
  pub infra : InfraHandler
  pub streams : StreamCluster
  pub stream_tags : Reader ImageStreamTag
  pub deployment : DeploymentCluster
  pub services : OneCluster ClusterService
  pub routes : OneCluster RequestedRoute
  pub configure_prometheus : KogitoService → Option GoError
  pub configure_grafana_dashboards : KogitoService → Option GoError
  pub kafka_resources : KogitoService → Option GoError
  pub knative_resources : KogitoService → Option GoError

-- `replicas` is that of the instance's spec, which the deployment of a single replica lowers.
pub record DeployState : Type 0 where
  pub replicas : Option ℕ
  pub definition : ServiceDefinition
  pub config_maps : DeltaState ConfigMap
  pub streams : StreamState
  pub deployments : DeltaState Deployment
  pub services : DeltaState ClusterService
  pub routes : DeltaState RequestedRoute

-- A step on one part of the state.
unfoldable pub lift : {A : Type 0} → (A → DeployState) → Step GoError A → Step GoError DeployState
lift put panic = panic
lift put (fail a e) = fail (put a) e
lift put (next a) = next (put a)

-- A call that answers with an error, which is wrapped.
unfoldable pub asked : (GoError → GoError) → Option GoError → DeployState → Step GoError DeployState
asked wrap none s = next s
asked wrap (some e) s = fail s (wrap e)

-- An error that is only logged.
unfoldable pub logged : Step GoError DeployState → Step GoError DeployState
logged panic = panic
logged (fail s e) = next s
logged (next s) = next s

abbrev pub or_one : Option ℕ → Option ℕ
or_one none = some 1
or_one (some n) = some n

-- The defaults that `Deploy` sets first.
unfoldable pub with_default_replicas : KogitoService → KogitoService
with_default_replicas i = record i { replicas = or_one i.replicas }

unfoldable pub with_default_image : KogitoService → ServiceDefinition → ServiceDefinition
with_default_image i d = record d {
  default_image_name =
      if is_empty d.default_image_name then d.request_name else d.default_image_name;
  definition_envs = i.envs;
}

module _ (c : DeployCluster) (i : KogitoService) where
  unfoldable pub resolve_image : ServiceDefinition → Image
  resolve_image d =
      if is_empty i.image
      then record { domain = ""; name = d.default_image_name; tag = d.default_image_tag }
      else convert_image_tag_to_image c.find_submatch i.image

  unfoldable pub new_image_handler : ServiceDefinition → ImageHandler
  new_image_handler d = record {
    image = resolve_image d;
    default_image_name = d.default_image_name;
    image_stream_name = (resolve_image d).name;
    namespace = i.namespace;
    add_from_reference = not (is_empty i.image) || not d.custom_service;
    insecure_image_registry = i.insecure_image_registry;
    version = c.deployment.version;
  }
