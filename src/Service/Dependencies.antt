-- ===== src/Service/Dependencies.antt =====
-- core/kogitoservice/kogitoinfra_reconciler.go: the KogitoInfra resources that a service depends on
-- have to be ready, and hand their configuration to the service's definition.
pub mod Laws
use mathlib.Core.List.{append_assoc, append-nil}
use kogito_operator.Common.{
  String, ◌<>◌, ◌≡◌, refl, ◌∙◌, sym, ap, Bool, true, false, Option, none, some, List, [], ◌∷◌, ◌++◌,
  All, Result, ok, err, Step, next, fail, panic, ◌>>=◌, >>=-eq-next, next_injective,
}
use kogito_operator.Api.{NamespacedName}
use kogito_operator.Api.Conditions.{ConditionApi}
use kogito_operator.Api.Workloads.{EnvVar, VolumeReference}
use kogito_operator.Framework.EnvVar.{env_override}
use kogito_operator.Reconciliation.{GoError, plain, error_for_infra_not_ready}
use kogito_operator.Manager.Infra.{
  KogitoInfra, InfraHandler, is_kogito_infra_ready, get_kogito_infra_failure_condition_reason,
}
use kogito_operator.Service.Draft.{Draft}
use kogito_operator.Service.Instance.{KogitoService}

-- `ServiceDefinition` (core/kogitoservice/deployer.go) but for the request, whose name and namespace
-- are those of the instance, and the Kafka topics.
pub record ServiceDefinition : Type 0 where
  pub request_name : String  -- `Request.Name`
  pub default_image_name : String
  pub default_image_tag : String
  pub single_replica : Bool
  pub custom_service : Bool
  pub on_deployment_create : Option (Draft → Step GoError Draft)
  pub definition_envs : List EnvVar
  pub config_map_env_from : List String
  pub config_map_volumes : List VolumeReference
  pub secret_env_from : List String
  pub secret_volumes : List VolumeReference

-- The five appends behind the check.
unfoldable pub take_over : KogitoInfra → ServiceDefinition → ServiceDefinition
take_over infra d = record d {
  definition_envs = env_override d.definition_envs infra.envs;
  config_map_env_from = d.config_map_env_from ++ infra.config_map_env_from_references;
  config_map_volumes = d.config_map_volumes ++ infra.config_map_volume_references;
  secret_env_from = d.secret_env_from ++ infra.secret_env_from_references;
  secret_volumes = d.secret_volumes ++ infra.secret_volume_references;
}

abbrev pub infra_key : KogitoInfra → NamespacedName
infra_key infra = record { namespace = infra.namespace; name = infra.name }

module _ (m : ConditionApi) (fetch : InfraHandler) (i : KogitoService) where
  not_ready : KogitoInfra → Result GoError String → Option GoError
  not_ready infra (err e) = some e
  not_ready infra (ok reason) = some (error_for_infra_not_ready i.name infra.name reason)

  checked : KogitoInfra → Result GoError Bool → Option GoError
  unfolding not_ready
  checked infra (err e) = some e
  checked infra (ok true) = none
  checked infra (ok false) =
      not_ready infra (get_kogito_infra_failure_condition_reason m fetch (infra_key infra))

  unfoldable pub check_infra_dependencies : KogitoInfra → Option GoError
  unfolding checked
  check_infra_dependencies infra = checked infra (is_kogito_infra_ready m fetch (infra_key infra))

  infra_missing : String → GoError
  infra_missing n =
      plain ("KogitoInfra with name " <> (n <> (" not found in namespace " <> i.namespace)))

  taken : ServiceDefinition → KogitoInfra → Option GoError → Step GoError ServiceDefinition
  taken d infra (some e) = fail d e
  taken d infra none = next (take_over infra d)

  -- One round of the loop, behind the read.
  dependency_step :
      String
      → ServiceDefinition
      → Result GoError (Option KogitoInfra)
      → Step GoError ServiceDefinition
  unfolding taken infra_missing
  dependency_step n d (err e) = fail d e
  dependency_step n d (ok none) = fail d (infra_missing n)
  dependency_step n d (ok (some infra)) = taken d infra (check_infra_dependencies infra)

  unfoldable pub reconcile_dependencies :
      List String → ServiceDefinition → Step GoError ServiceDefinition
  unfolding dependency_step
  reconcile_dependencies [] d = next d
  reconcile_dependencies (n ∷ names) d =
      dependency_step n d (fetch (record { namespace = i.namespace; name = n }))
      >>= reconcile_dependencies names

  -- `kogitoInfraReconciler.Reconcile`
  unfoldable pub reconcile_infra_of_service : ServiceDefinition → Step GoError ServiceDefinition
  reconcile_infra_of_service d = reconcile_dependencies i.infra d
