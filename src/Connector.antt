-- ===== src/Connector.antt =====
-- core/connector/url_handler.go and `MountAsEnvFrom` of core/infrastructure/configmap.go: handing
-- the endpoints of supporting services to the deployments that call them.
pub mod Mount
pub mod Laws
use kogito_operator.Common.{
  String, ◌<>◌, Option, none, some, List, [], ◌∷◌, ◌++◌, Result, ok, err, Step, next, fail, panic,
  ◌>>=◌,
}
use kogito_operator.Client.{Reader, fetch_with_key}
use kogito_operator.Api.{NamespacedName}
use kogito_operator.Api.Workloads.{Deployment, ConfigMap}
use kogito_operator.Manager.SupportingService.{
  SupportingService, SupportingServiceReads, fetch_kogito_supporting_service_for_service_type,
  fetch_kogito_supporting_service_deployment,
}
use kogito_operator.Manager.Runtime.{fetch_kogito_runtime_deployments}
use kogito_operator.Reconciliation.{GoError}
use kogito_operator.Connector.Mount.{mount_as_env_from}

-- api.DataIndex, api.JobsService and api.TrustyAI
abbrev pub data_index : String
data_index = "DataIndex"

abbrev pub jobs_service : String
jobs_service = "JobsService"

abbrev pub trusty_ai : String
trusty_ai = "TrustyAI"

-- `update` is the API server's answer to an update of a deployment.
pub record UrlClient : Type 0 where
  pub services : SupportingServiceReads
  pub config_maps : Reader ConfigMap
  pub update : Deployment → Option GoError

-- The deployments that the API server has accepted, the last one in front.
abbrev pub Written : Type 0
Written = List Deployment

-- core/infrastructure/endpoint_configmap.go
unfoldable pub fetch_end_point_config_map :
    Reader ConfigMap → NamespacedName → Result GoError (Option ConfigMap)
fetch_end_point_config_map c service_key =
    fetch_with_key c (record service_key { name = service_key.name <> "-endpoint" })

module _ (c : UrlClient) where
  -- `kubernetes.ResourceC(u.Client).Update`
  unfoldable pub update_deployment : Deployment → Written → Step GoError Written
  update_deployment d w = elim (c.update d) [ some e ↦ fail w e | none ↦ next (d ∷ w) ]

  -- Mount and update, the body of both loops.
  mounted_update : Step GoError Deployment → Written → Step GoError Written
  mounted_update (next d) w = update_deployment d w
  mounted_update (fail d e) w = fail w e
  mounted_update panic w = panic

  -- The loop over the runtimes' deployments.
  unfoldable pub mount_each : String → List Deployment → Written → Step GoError Written
  unfolding mounted_update
  mount_each cm_name [] w = next w
  mount_each cm_name (d ∷ deployments) w =
      mounted_update (mount_as_env_from cm_name d) w >>= mount_each cm_name deployments

  endpoint_of_runtimes :
      NamespacedName
      → List Deployment
      → Result GoError (Option ConfigMap)
      → Written
      → Step GoError Written
  unfolding mount_each
  endpoint_of_runtimes key deployments (err e) w = fail w e
  endpoint_of_runtimes key deployments (ok none) w = next w
  endpoint_of_runtimes key deployments (ok (some cm)) w = mount_each cm.name deployments w

  runtimes_step : NamespacedName → Result GoError (List Deployment) → Written → Step GoError Written
  unfolding endpoint_of_runtimes
  runtimes_step key (err e) w = fail w e
  runtimes_step key (ok []) w = next w
  runtimes_step key (ok (d ∷ deployments)) w =
      endpoint_of_runtimes key (d ∷ deployments) (fetch_end_point_config_map c.config_maps key) w

  unfoldable pub inject_supporting_service_url_into_kogito_runtime :
      NamespacedName → Written → Step GoError Written
  unfolding runtimes_step
  inject_supporting_service_url_into_kogito_runtime key w =
      runtimes_step key (fetch_kogito_runtime_deployments c.services.deployments key.namespace) w

  unfoldable pub endpoint_step :
      Deployment → Result GoError (Option ConfigMap) → Step GoError Deployment
  endpoint_step d (err e) = fail d e
  endpoint_step d (ok none) = next d
  endpoint_step d (ok (some cm)) = mount_as_env_from cm.name d

  unfoldable pub service_step :
      Deployment → Result GoError (Option SupportingService) → Step GoError Deployment
  unfolding endpoint_step
  service_step d (err e) = fail d e
  service_step d (ok none) = next d
  service_step d (ok (some s)) =
      endpoint_step d (
        fetch_end_point_config_map c.config_maps
          (record { namespace = s.namespace; name = s.name }))

  unfoldable pub inject_supporting_service_url_into_deployment :
      String → Deployment → Step GoError Deployment
  unfolding service_step
  inject_supporting_service_url_into_deployment resource_type d =
      service_step d
        (fetch_kogito_supporting_service_for_service_type c.services d.namespace resource_type)

  -- The loop of `InjectDataIndexURLIntoSupportingService`: a type without a deployment ends it.
  inject_types : String → String → List String → Written → Step GoError Written
  unfolding mounted_update
  inject_types namespace cm_name [] w = next w
  inject_types namespace cm_name (ty ∷ types) w =
      let rest = inject_types namespace cm_name types in
      elim (fetch_kogito_supporting_service_deployment c.services namespace ty) [
        | err e ↦ fail w e
        | ok none ↦ next w
        | ok (some d) ↦ mounted_update (mount_as_env_from cm_name d) w >>= rest
      ]

  data_index_step :
      String → List String → Result GoError (Option ConfigMap) → Written → Step GoError Written
  unfolding inject_types
  data_index_step namespace types (err e) w = fail w e
  data_index_step namespace types (ok none) w = next w
  data_index_step namespace types (ok (some cm)) w = inject_types namespace cm.name types w

  unfoldable pub inject_data_index_url_into_supporting_service :
      NamespacedName → List String → Written → Step GoError Written
  unfolding data_index_step
  inject_data_index_url_into_supporting_service key service_types w =
      data_index_step key.namespace service_types (fetch_end_point_config_map c.config_maps key) w
