-- ===== src/Service/Creation.antt =====
-- core/kogitoservice/kogito_deployment.go: the deployment that a service starts from.
use kogito_operator.Common.{
  String, ℕ, Bool, false, Option, none, some, [], ◌∷◌, if◌then◌else◌, ltb, leb, Result, ok, err,
  Step, next, panic,
}
use kogito_operator.Common.Dict.{Dict, insert}
use kogito_operator.Api.Workloads.{Deployment, Container, ConfigMap}
use kogito_operator.Client.{Reader}
use kogito_operator.Reconciliation.{GoError}
use kogito_operator.Processing.{kogito_operator_version_annotation}
use kogito_operator.Service.Instance.{KogitoService}
use kogito_operator.Service.Probes.{get_probe_for_kogito_service, default_exposed_port}
use kogito_operator.Service.Draft.{Draft}
use kogito_operator.Service.Dependencies.{ServiceDefinition}
use kogito_operator.Service.Configs.{OneCluster}

-- framework.LabelAppKey
abbrev pub app_label : String
app_label = "app"

-- What the reconciler uses of the operator and the cluster: the operator's version, labels and
-- deployment identifier, the server's minor version (`none` where it is not a number; where the call
-- for it fails, the nil pointer behind it is dereferenced), the objects that are mounted,
-- `path.Join`, and the cluster's deployments.
pub record DeploymentCluster : Type 0 where
  pub version : String
  pub labels : Dict String
  pub deployment_identifier : String
  pub is_openshift : Bool
  pub server_minor_version : Result GoError (Option ℕ)
  pub config_maps : Reader ConfigMap
  pub secrets : Reader ConfigMap
  pub path_join : String → String → String
  pub deployments : OneCluster Deployment

-- `*service.GetSpec().GetReplicas()`, which `Deploy` has set: at most one for a single replica.
abbrev pub replicas_for : Bool → Option ℕ → Option ℕ
replicas_for single none = none
replicas_for single (some n) = if single then (if ltb 1 n then some 1 else some n) else some n

abbrev pub or_new : Option (Dict String) → Dict String
or_new none = []
or_new (some labels) = labels

service_container : KogitoService → String → Container
service_container i image =
    let probes = get_probe_for_kogito_service i in
    record {
      name = i.name;
      image = image;
      env = [];
      env_from = [];
      volume_mounts = [];
      security_context = none;
      ports = record { name = "http"; container_port = default_exposed_port } ∷ [];
      liveness_probe = some probes.liveness;
      readiness_probe = some probes.readiness;
      startup_probe = none;
    }

-- Kubernetes 1.18 has startup probes.
unfoldable pub supports_startup : Option ℕ → Bool
supports_startup none = false
supports_startup (some minor) = leb 18 minor

with_startup : KogitoService → Bool → Container → Container
with_startup i supported k =
    if supported
    then record k { startup_probe = some (get_probe_for_kogito_service i).startup }
    else k

module _ (c : DeploymentCluster) (i : KogitoService) (d : ServiceDefinition) where
  -- The container with or without its startup probe.
  unfoldable pub draft_with : String → Bool → Draft
  unfolding service_container with_startup
  draft_with image supported = record {
    base = record {
      name = i.name;
      namespace = i.namespace;
      owner_uids = [];
      labels = [];
      replicas = replicas_for d.single_replica i.replicas;
      match_labels = (app_label, i.name) ∷ [];
      annotations = none;
      template_annotations = none;
      template_labels = [];
      volumes = [];
      containers = with_startup i supported (service_container i image) ∷ [];
      pod_security_context = none;
      available_replicas = 0;
      conditions = [];
    };
    shared_labels = insert app_label i.name (or_new i.deployment_labels);
    shared_annotations = (kogito_operator_version_annotation, c.version) ∷ [];
    own_annotations = none;
  }

  -- `CreateDeployment`, with `addStartupProbe`.
  unfoldable pub create_deployment : String → Step GoError Draft
  unfolding draft_with supports_startup
  create_deployment image = elim c.server_minor_version [
    | err _ ↦ panic
    | ok minor ↦ next (draft_with image (supports_startup minor))
  ]
