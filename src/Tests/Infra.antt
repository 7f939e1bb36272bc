-- ===== src/Tests/Infra.antt =====
-- Runs of the reconciliation of KogitoInfra resources and of the services that use them.
use kogito_operator.Common.{
  ◌≡◌, refl, ◌⊎◌, true, false, Option, none, some, List, [], ◌∷◌, ◌++◌, All, ok, ◌==◌,
  if◌then◌else◌,
}
use kogito_operator.Api.{NamespacedName}
use kogito_operator.Api.Conditions.{Condition, condition_true, listed, listed-IsDocumented}
use kogito_operator.Api.Workloads.{VolumeReference, ConfigMap}
use kogito_operator.Client.{Reader, fetch_with_key}
use kogito_operator.Manager.Infra.{
  KogitoInfra, InfraHandler, is_kogito_infra_ready, get_kogito_infra_failure_condition_reason,
}
use kogito_operator.Infra.Errors.{InfraError, error_for_resource_not_found}
use kogito_operator.Infra.References.{InfraSpec, reconcile_config_map_references}
use kogito_operator.Infra.References.Laws.{
  Exists, VolumeExists, reconcile_config_map_references_lem,
}
use kogito_operator.Infra.Status.{
  InfraClient, InfraOutcome, update_base_status, update_base_status-is_kogito_infra_ready,
}
use kogito_operator.Service.Instance.{KogitoService}
use kogito_operator.Service.Dependencies.{ServiceDefinition, reconcile_infra_of_service}
use kogito_operator.Service.Dependencies.Laws.{
  AllReady, HasTaken, reconcile_infra_of_service-HasTaken,
}
use kogito_operator.Tests.Fixtures.{ended, reading, env_var, endpoint_map, app_service}

abbrev configured_true : Condition
configured_true = record {
  kind = "Configured";
  status = condition_true;
  reason = "Ready";
  message = "";
}

abbrev kafka : KogitoInfra
kafka = record {
  name = "kafka";
  namespace = "apps";
  resource = none;
  conditions = some (configured_true ∷ []);
  config_map_env_from_references = "kafka-properties" ∷ [];
  config_map_volume_references = [];
  secret_env_from_references = [];
  secret_volume_references = [];
  envs = env_var "A" "kafka" ∷ [];
}

abbrev kafka_key : NamespacedName
kafka_key = record { namespace = "apps"; name = "kafka" }

abbrev handler : InfraHandler
handler key = if key.name == "kafka" then ok (some kafka) else ok none

-- A resource that does not exist, as the error of a reconciliation.
abbrev no_kafka : InfraError
no_kafka = error_for_resource_not_found "Kafka" "my-kafka" "apps"

abbrev infra_client : InfraClient
infra_client = record { deployed = handler; same_status = λ i d. false; update_status = λ i. none }

abbrev empty_outcome : InfraOutcome
empty_outcome = record { infra_state = kafka; infra_written = none }

abbrev some_or : {A : Type 0} → A → Option A → A
some_or a none = a
some_or a (some b) = b

abbrev after_status : InfraOutcome
after_status = some_or empty_outcome (update_base_status listed infra_client (some no_kafka) kafka)

abbrev updated : InfraHandler
updated key = ok (some after_status.infra_state)

update_base_status-is_kogito_infra_ready_example :
    (is_kogito_infra_ready listed updated kafka_key ≡ ok false)
    × (get_kogito_infra_failure_condition_reason listed updated kafka_key ≡ ok "ResourceNotFound")
    × ((after_status.infra_written ≡ none)
        ⊎ (after_status.infra_written ≡ some after_status.infra_state))
unfolding update_base_status error_for_resource_not_found
update_base_status-is_kogito_infra_ready_example =
    update_base_status-is_kogito_infra_ready listed listed-IsDocumented infra_client (some no_kafka)
      kafka after_status updated kafka_key refl refl

abbrev volume_reference : VolumeReference
volume_reference = record {
  name = "data-index-endpoint";
  mount_path = "";
  optional = none;
  file_mode = none;
}

abbrev infra_spec : InfraSpec
infra_spec = record {
  config_map_env_from = "data-index-endpoint" ∷ [];
  config_map_volumes = volume_reference ∷ [];
  secret_env_from = [];
  secret_volumes = [];
  spec_envs = [];
}

abbrev config_map_reader : Reader ConfigMap
config_map_reader = reading "data-index-endpoint" endpoint_map

abbrev referring : KogitoInfra
referring = ended kafka (reconcile_config_map_references config_map_reader infra_spec kafka)

reconcile_config_map_references_lem_example :
    (referring.config_map_env_from_references
      ≡ kafka.config_map_env_from_references ++ ("data-index-endpoint" ∷ []))
    × (referring.config_map_volume_references ≡ volume_reference ∷ [])
    × All (Exists config_map_reader "apps") infra_spec.config_map_env_from
    × All (VolumeExists config_map_reader "apps") infra_spec.config_map_volumes
    × (referring.secret_env_from_references ≡ [])
    × (referring.secret_volume_references ≡ [])
unfolding reconcile_config_map_references fetch_with_key
reconcile_config_map_references_lem_example =
    reconcile_config_map_references_lem config_map_reader infra_spec kafka referring refl

abbrev kafka_service : KogitoService
kafka_service = record app_service { infra = "kafka" ∷ [] }

abbrev no_definition : ServiceDefinition
no_definition = record {
  request_name = "app";
  default_image_name = "";
  default_image_tag = "";
  single_replica = false;
  custom_service = true;
  on_deployment_create = none;
  definition_envs = env_var "A" "1" ∷ [];
  config_map_env_from = [];
  config_map_volumes = [];
  secret_env_from = [];
  secret_volumes = [];
}

abbrev definition : ServiceDefinition
definition =
    ended no_definition (reconcile_infra_of_service listed handler kafka_service no_definition)

reconcile_infra_of_service-HasTaken_example :
    (infras : List KogitoInfra) × AllReady listed handler kafka_service infras ("kafka" ∷ [])
    × HasTaken no_definition infras definition
unfolding reconcile_infra_of_service kogito_operator.Service.Dependencies.reconcile_dependencies
    kogito_operator.Service.Dependencies.check_infra_dependencies is_kogito_infra_ready
    kogito_operator.Manager.Infra.must_fetch_kogito_infra_instance listed
reconcile_infra_of_service-HasTaken_example =
    reconcile_infra_of_service-HasTaken listed handler kafka_service no_definition definition refl
