-- ===== src/Tests/Deployments.antt =====
-- Runs of the injections into deployments and of the lookups behind them.
use kogito_operator.Common.{
  String, ◌<>◌, ◌≡◌, refl, true, none, some, List, [], ◌∷◌, All, ok, next, ◌==◌,
}
use kogito_operator.Api.{NamespacedName}
use kogito_operator.Api.Workloads.{VolumeReference, Deployment}
use kogito_operator.Client.{fetch_with_key}
use kogito_operator.Manager.SupportingService.{
  SupportingService, SupportingServiceReads, ensure_singleton_service,
  ensure_singleton_service_unique, fetch_kogito_supporting_service_for_service_type,
}
use kogito_operator.Manager.Runtime.{fetch_kogito_runtime_deployments}
use kogito_operator.Connector.{
  UrlClient, Written, fetch_end_point_config_map, inject_supporting_service_url_into_kogito_runtime,
}
use kogito_operator.Connector.Laws.{
  IsInjected, inject_supporting_service_url_into_kogito_runtime-IsInjected,
}
use kogito_operator.Connector.Mount.{mount_as_env_from, mount_as_volume, is_mounted}
use kogito_operator.Connector.Mount.Paths.{mount_at}
use kogito_operator.Connector.Mount.Laws.{
  HasEnvFrom, first_mounts, mount_as_env_from_idem, mount_as_volume_lem, with_volume,
}
use kogito_operator.Processing.{
  ProcessState, inject_kogito_annotations, inject_security_context_defaults, process,
  kogito_operator_version_annotation,
}
use kogito_operator.Processing.Laws.{security_of, process_written}
use kogito_operator.Tests.Fixtures.{ended, reading, app_container, app_deployment, endpoint_map}

abbrev data_index_service : SupportingService
data_index_service = record {
  name = "data-index";
  namespace = "apps";
  uid = "uid-1";
  service_type = "DataIndex";
  external_uri = "";
}

abbrev service_items : List SupportingService
service_items =
    record data_index_service { name = "jobs"; service_type = "JobsService" }
    ∷ (data_index_service ∷ [])

abbrev reads : SupportingServiceReads
reads = record {
  services = λ namespace. ok service_items;
  deployments = λ namespace. ok (app_deployment ∷ []);
}

abbrev url_client : UrlClient
url_client = record {
  services = reads;
  config_maps = reading "data-index-endpoint" endpoint_map;
  update = λ d. none;
}

ensure_singleton_service_unique_example :
    All (λ t. (t.service_type == "DataIndex") ≡ true → t ≡ data_index_service) service_items
unfolding ensure_singleton_service fetch_kogito_supporting_service_for_service_type
ensure_singleton_service_unique_example =
    ensure_singleton_service_unique reads "apps" "DataIndex" service_items data_index_service refl
      refl refl

abbrev service_key : NamespacedName
service_key = record { namespace = "apps"; name = "data-index" }

abbrev after_injection : Written
after_injection =
    ended [] (inject_supporting_service_url_into_kogito_runtime url_client service_key [])

inject_supporting_service_url_into_kogito_runtime-IsInjected_example :
    All (IsInjected endpoint_map.name after_injection) (app_deployment ∷ [])
unfolding inject_supporting_service_url_into_kogito_runtime fetch_kogito_runtime_deployments
    fetch_end_point_config_map fetch_with_key mount_as_env_from
    kogito_operator.Connector.update_deployment
inject_supporting_service_url_into_kogito_runtime-IsInjected_example =
    inject_supporting_service_url_into_kogito_runtime-IsInjected url_client service_key []
      after_injection (app_deployment ∷ []) endpoint_map refl refl refl

abbrev mounted : Deployment
mounted = ended app_deployment (mount_as_env_from "data-index-endpoint" app_deployment)

mount_as_env_from_idem_example :
    HasEnvFrom "data-index-endpoint" mounted
    × (mount_as_env_from "data-index-endpoint" mounted ≡ next mounted)
unfolding mount_as_env_from
mount_as_env_from_idem_example =
    mount_as_env_from_idem "data-index-endpoint" app_deployment mounted refl

abbrev slash : String → String → String
slash a b = a <> ("/" <> b)

abbrev reference : VolumeReference
reference = record {
  name = "data-index-endpoint";
  mount_path = "/etc/endpoint";
  optional = some true;
  file_mode = none;
}

mount_as_volume_lem_example :
    (d' : Deployment) × (mount_as_volume slash url_client.config_maps reference app_deployment
      ≡ next d')
    × (d'.volumes ≡ with_volume reference app_deployment.volumes)
    × (mount_at "/etc/endpoint/url" (first_mounts d'.containers)
        ≡ some (record {
          name = "data-index-endpoint";
          mount_path = "/etc/endpoint/url";
          sub_path = "url";
        }))
unfolding fetch_with_key mathlib.Core.Option.or_else mount_at
    kogito_operator.Connector.Mount.Paths.file_at
mount_as_volume_lem_example =
    mount_as_volume_lem slash url_client.config_maps reference app_deployment endpoint_map
      app_container [] "/etc/endpoint/url" refl refl

abbrev before_process : ProcessState
before_process = record { deployment = app_deployment; written = [] }

abbrev after_process : ProcessState
after_process = ended before_process (process url_client "1.0" before_process)

process_written_example :
    (d : Deployment) × (after_process.written ≡ d ∷ [])
    × (security_of d ≡ security_of app_deployment)
    × (d.annotations ≡ (inject_kogito_annotations "1.0" app_deployment).annotations)
    × (after_process.deployment ≡ inject_security_context_defaults d)
unfolding process kogito_operator.Processing.inject_supporting_service_endpoint_into_deployment
    kogito_operator.Processing.write_injected kogito_operator.Processing.inject_endpoints
    kogito_operator.Connector.inject_supporting_service_url_into_deployment
    fetch_kogito_supporting_service_for_service_type fetch_end_point_config_map fetch_with_key
    mount_as_env_from inject_kogito_annotations
process_written_example = process_written url_client "1.0" before_process after_process refl
