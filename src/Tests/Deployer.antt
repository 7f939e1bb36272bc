-- ===== src/Tests/Deployer.antt =====
-- Runs of the deployment of a service.
use kogito_operator.Common.{
  String, negsuc, ◌≡◌, refl, ◌↔◌, true, false, none, some, [], ◌∷◌, ◌<>◌, ok, err,
}
use kogito_operator.Common.Dict.{Dict, lookup}
use kogito_operator.Client.{fetch_with_key, fetch_ready_replicas}
use kogito_operator.Api.Conditions.{listed, listed-IsDocumented}
use kogito_operator.Api.Workloads.{ConfigMap, Probe}
use kogito_operator.Reconciliation.{plain}
use kogito_operator.Delta.{DeltaClient, DeltaState, ResourceDelta}
use kogito_operator.Processing.{kogito_operator_version_annotation}
use kogito_operator.Images.Names.{ImageHandler}
use kogito_operator.Images.Reconcile.{StreamCluster, StreamState}
use kogito_operator.Service.Instance.{KogitoService}
use kogito_operator.Service.Dependencies.{ServiceDefinition}
use kogito_operator.Service.Probes.{liveness_probe_type, get_probe, is_probe_handler_empty}
use kogito_operator.Service.Probes.Laws.{HasNumbers, get_probe_lem}
use kogito_operator.Service.TrustStore.{trust_store_secret_file_key, reconcile_trust_store}
use kogito_operator.Service.TrustStore.Laws.{IsMounted, reconcile_trust_store-IsMounted}
use kogito_operator.Service.Draft.{Draft, built}
use kogito_operator.Service.Configs.{OneCluster}
use kogito_operator.Service.Creation.{DeploymentCluster, app_label}
use kogito_operator.Service.Deployment.{create_required_deployment}
use kogito_operator.Service.Deployment.Laws.{create_required_deployment-IsSelected}
use kogito_operator.Service.Status.{StatusClient, StatusState}
use kogito_operator.Service.Status.Conditions.{IsFailed}
use kogito_operator.Service.Status.Outcome.{conditions_of}
use kogito_operator.Service.Deployer.Parts.{DeployCluster, DeployState}
use kogito_operator.Service.Deployer.{deploy, deploy_status}
use kogito_operator.Service.Deployer.Laws.{HasFailed, deploy_status-IsFailed}
use kogito_operator.Tests.Fixtures.{
  ended, reading, refusing, env_var, app_deployment, app_service, unset_probe,
}

abbrev negative_probe : Probe
negative_probe = record unset_probe { period_seconds = negsuc 4 }

get_probe_lem_example :
    HasNumbers liveness_probe_type negative_probe
      (get_probe "springboot" liveness_probe_type negative_probe)
    × (is_probe_handler_empty (get_probe "springboot" liveness_probe_type negative_probe).handler
        ≡ false)
    × (get_probe "springboot" liveness_probe_type
          (get_probe "springboot" liveness_probe_type negative_probe)
        ≡ get_probe "springboot" liveness_probe_type negative_probe)
    × ((get_probe "springboot" liveness_probe_type negative_probe).handler.grpc ≡ none)
unfolding is_probe_handler_empty
get_probe_lem_example = get_probe_lem "springboot" liveness_probe_type negative_probe

abbrev plain_definition : ServiceDefinition
plain_definition = record {
  request_name = "app";
  default_image_name = "";
  default_image_tag = "1.40";
  single_replica = true;
  custom_service = true;
  on_deployment_create = none;
  definition_envs = env_var "A" "1" ∷ [];
  config_map_env_from = [];
  config_map_volumes = [];
  secret_env_from = [];
  secret_volumes = [];
}

abbrev certificates : ConfigMap
certificates = record {
  name = "store";
  namespace = "apps";
  labels = [];
  file_data = (trust_store_secret_file_key, "data") ∷ (("keyStorePassword", "secret") ∷ []);
}

abbrev trusting : KogitoService
trusting = record app_service { trust_store_secret = "store" }

abbrev trusted_definition : ServiceDefinition
trusted_definition =
    ended plain_definition
      (reconcile_trust_store (reading "store" certificates) trusting plain_definition)

reconcile_trust_store-IsMounted_example :
    (secret : ConfigMap) × (cert : String) × (fetch_with_key
        (reading "store" certificates)
        (record { namespace = "apps"; name = "store" })
      ≡ ok (some secret))
    × (lookup trust_store_secret_file_key secret.file_data ≡ some cert)
    × IsMounted plain_definition secret trusted_definition "A"
unfolding reconcile_trust_store fetch_with_key
    kogito_operator.Service.TrustStore.mount_trust_store_file lookup
reconcile_trust_store-IsMounted_example =
    reconcile_trust_store-IsMounted (reading "store" certificates) trusting plain_definition
      trusted_definition "A" (λ e. cc) (λ e. cc) (λ e. cc) refl

abbrev accepting : {O : Type 0} → DeltaClient O
accepting = record {
  has_changes = λ d. true;
  create_resources = λ os. none;
  update_resources = λ os. none;
  delete_resources = λ os. none;
}

abbrev creating : {O : Type 0} → OneCluster O
creating = record {
  set_owner = none;
  objects = record { get = λ key. err (plain "not found"); is_not_found = λ e. true };
  compare = λ requested deployed.
      record { resource_type = "v1"; added = requested; updated = []; removed = [] } ∷ [];
  delta_client = accepting;
}

abbrev deployment_cluster : DeploymentCluster
deployment_cluster = record {
  version = "1.40.0";
  labels = ("metering", "on") ∷ [];
  deployment_identifier = "kogito.kie.org/runtime";
  is_openshift = false;
  server_minor_version = ok (some 21);
  config_maps = refusing;
  secrets = reading "store" certificates;
  path_join = λ a b. a <> ("/" <> b);
  deployments = creating;
}

abbrev app_handler : ImageHandler
app_handler = record {
  image = record { domain = ""; name = ""; tag = "" };
  default_image_name = "app";
  image_stream_name = "app";
  namespace = "apps";
  add_from_reference = true;
  insecure_image_registry = false;
  version = "1.40.0";
}

abbrev empty_draft : Draft
empty_draft = record {
  base = app_deployment;
  shared_labels = [];
  shared_annotations = [];
  own_annotations = none;
}

abbrev app_draft : Draft
app_draft = ended empty_draft (
    create_required_deployment deployment_cluster app_service plain_definition app_handler
      "quay.io/kiegroup/app:1.0")

create_required_deployment-IsSelected_example :
    ((built app_draft).match_labels ≡ (app_label, "app") ∷ [])
    × (lookup app_label (built app_draft).template_labels ≡ some "app")
    × ((built app_draft).labels ≡ (built app_draft).template_labels)
    × (annotations : Dict String) × ((built app_draft).annotations ≡ some annotations)
    × (lookup "kogito.kie.org/runtime" annotations ≡ some "true")
    × (lookup kogito_operator_version_annotation annotations ≡ some "1.40.0")
unfolding lookup create_required_deployment kogito_operator.Service.Creation.create_deployment
    kogito_operator.Service.Deployment.on_deployment_create
    kogito_operator.Service.Deployment.mount_on_deployment kogito_operator.Connector.Mount.on_first
    kogito_operator.Service.Deployment.add_deployment_identifier
    kogito_operator.Service.Deployment.mount_config_map_references
    kogito_operator.Service.Deployment.mount_secret_references
create_required_deployment-IsSelected_example =
    create_required_deployment-IsSelected deployment_cluster app_service plain_definition
      app_handler "quay.io/kiegroup/app:1.0" app_draft refl (refl, tt) refl (λ e. cc) refl

abbrev deploy_cluster : DeployCluster
deploy_cluster = record {
  conditions = listed;
  getenv = λ name. "";
  errorf = plain;
  find_submatch = λ s. ("", s, "");
  owner = record { name = "app"; uid = "uid-1" };
  config_maps = creating;
  infra = λ key. ok none;
  streams = record {
    streams = refusing;
    owned = ok [];
    gvk = err (plain "no kind");
    compare = λ requested deployed. [];
    delta_client = accepting;
  };
  stream_tags = refusing;
  deployment = deployment_cluster;
  services = creating;
  routes = creating;
  configure_prometheus = λ i. none;
  configure_grafana_dashboards = λ i. none;
  kafka_resources = λ i. some (plain "no brokers");
  knative_resources = λ i. none;
}

abbrev idle : {O : Type 0} → DeltaState O
idle = record { writes = []; is_delta_processed = false }

abbrev deploy_start : DeployState
deploy_start = record {
  replicas = none;
  definition = plain_definition;
  config_maps = idle;
  streams = record { shared = []; delta = idle };
  deployments = idle;
  services = idle;
  routes = idle;
}

abbrev status_client : StatusClient
status_client = record {
  is_openshift = false;
  deployments = reading "app" app_deployment;
  routes = refusing;
  errorf = plain;
  update_status = λ i. none;
}

abbrev reported_status : StatusState
reported_status =
    ended (record { instance_state = app_service; written = none })
      (deploy_status listed status_client app_service
        (deploy deploy_cluster app_service deploy_start))

-- Everything is deployed, and Kafka has no brokers.
deploy_status-IsFailed_example :
    (IsFailed listed (conditions_of reported_status)
      ↔ HasFailed (deploy deploy_cluster app_service deploy_start))
    × (reported_status.written ≡ some reported_status.instance_state)
unfolding fetch_ready_replicas fetch_with_key deploy_status deploy
    kogito_operator.Service.Deployer.run_steps kogito_operator.Service.Deployer.deploy_steps
    kogito_operator.Service.Configs.reconcile_config kogito_operator.Service.Configs.reconcile_one
    kogito_operator.Delta.process_delta
    kogito_operator.Service.Configs.reconcile_properties_config_map
    kogito_operator.Service.Deployer.Parts.with_default_replicas reconcile_trust_store
    kogito_operator.Service.Dependencies.reconcile_infra_of_service
    kogito_operator.Service.Dependencies.reconcile_dependencies
    kogito_operator.Images.Reconcile.reconcile_image_stream
    kogito_operator.Service.Deployment.reconcile_deployment
    kogito_operator.Images.Reconcile.resolve_handled_image
    kogito_operator.Images.Names.resolve_registry_image
    kogito_operator.Service.Deployer.Parts.new_image_handler
    kogito_operator.Service.Deployer.Parts.resolve_image create_required_deployment
    kogito_operator.Service.Creation.create_deployment
    kogito_operator.Service.Deployment.on_deployment_create
    kogito_operator.Service.Deployment.mount_on_deployment kogito_operator.Connector.Mount.on_first
    kogito_operator.Service.Deployment.add_deployment_identifier
    kogito_operator.Service.Deployment.mount_config_map_references
    kogito_operator.Service.Deployment.mount_secret_references
    kogito_operator.Connector.Mount.mount_as_env_from
    kogito_operator.Service.Exposure.reconcile_service
    kogito_operator.Service.Exposure.reconcile_route
    kogito_operator.Service.Status.ensure_resources_status_changes
    kogito_operator.Service.Status.set_failed_conditions
    kogito_operator.Service.Status.update_status_step
    kogito_operator.Service.Deployer.Parts.with_default_image
    kogito_operator.Images.Names.resolve_tag
deploy_status-IsFailed_example =
    deploy_status-IsFailed listed listed-IsDocumented deploy_cluster app_service deploy_start
      status_client reported_status 1 refl refl
