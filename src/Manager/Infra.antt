-- ===== src/Manager/Infra.antt =====
-- core/manager/infra_manager.go: whether a KogitoInfra resource is ready.
use kogito_operator.Common.{
  String, ◌<>◌, ◌≡◌, Bool, true, false, Option, none, some, List, Result, ok, err, if◌then◌else◌,
  arith,
}
use kogito_operator.Api.{NamespacedName}
use kogito_operator.Api.Conditions.{
  Condition, ConditionApi, kogito_infra_configured, is_status_condition_true, is_false_status,
}
use kogito_operator.Api.Workloads.{EnvVar, VolumeReference}
use kogito_operator.Reconciliation.{GoError, plain}

-- The reference to a resource of a technology.
pub record InfraResource : Type 0 where
  pub api_version : String
  pub kind : String
  pub name : String
  pub namespace : String

-- What services read of a KogitoInfra (apis/kogitoinfra_types.go): its resource and its status.
pub record KogitoInfra : Type 0 where
  pub name : String
  pub namespace : String
  pub resource : Option InfraResource
  pub conditions : Option (List Condition)
  pub config_map_env_from_references : List String
  pub config_map_volume_references : List VolumeReference
  pub secret_env_from_references : List String
  pub secret_volume_references : List VolumeReference
  pub envs : List EnvVar

-- `FetchKogitoInfraInstance`; a nil instance is `none`.
abbrev pub InfraHandler : Type 0
InfraHandler = NamespacedName → Result GoError (Option KogitoInfra)

must_find : NamespacedName → Result GoError (Option KogitoInfra) → Result GoError KogitoInfra
must_find key (err e) = err e
must_find key (ok none) = err (
    plain (
      "kogito Infra resource with name "
      <> (key.name <> (" not found in namespace " <> key.namespace))))
must_find key (ok (some i)) = ok i

unfoldable pub must_fetch_kogito_infra_instance :
    InfraHandler → NamespacedName → Result GoError KogitoInfra
unfolding must_find
must_fetch_kogito_infra_instance fetch key = must_find key (fetch key)

module _ (m : ConditionApi) where
  configured : Option (List Condition) → Bool
  configured none = false
  configured (some cs) = is_status_condition_true m cs kogito_infra_configured

  unfoldable pub is_kogito_infra_ready : InfraHandler → NamespacedName → Result GoError Bool
  unfolding configured
  is_kogito_infra_ready fetch key = elim (must_fetch_kogito_infra_instance fetch key) [
    | err e ↦ err e
    | ok i ↦ ok (configured i.conditions)
  ]

  reason_of : Option Condition → String
  reason_of none = ""
  reason_of (some c) = if is_false_status c.status then c.reason else ""

  failure_reason : Option (List Condition) → String
  unfolding reason_of
  failure_reason none = ""
  failure_reason (some cs) = reason_of (m.find cs kogito_infra_configured)

  unfoldable pub get_kogito_infra_failure_condition_reason :
      InfraHandler → NamespacedName → Result GoError String
  unfolding failure_reason
  get_kogito_infra_failure_condition_reason fetch key =
      elim (must_fetch_kogito_infra_instance fetch key) [
        | err e ↦ err e
        | ok i ↦ ok (failure_reason i.conditions)
      ]

  -- What both lookups answer for an instance that is there and has conditions.
  pub configured_lem :
      (fetch : InfraHandler) (key : NamespacedName) (i : KogitoInfra) (cs : List Condition)
      → fetch key ≡ ok (some i)
      → i.conditions ≡ some cs
      → (is_kogito_infra_ready fetch key
          ≡ ok (is_status_condition_true m cs kogito_infra_configured))
        × (get_kogito_infra_failure_condition_reason fetch key
            ≡ ok (elim (m.find cs kogito_infra_configured) [
              | none ↦ ""
              | some c ↦ if is_false_status c.status then c.reason else ""
            ]))
  unfolding is_kogito_infra_ready get_kogito_infra_failure_condition_reason
      must_fetch_kogito_infra_instance
  configured_lem fetch key i cs f h = (ground arith, ground arith)

  -- An infra resource that is ready has no reason of failure.
  pub ready_no_reason :
      (fetch : InfraHandler) (key : NamespacedName)
      → is_kogito_infra_ready fetch key ≡ ok true
      → get_kogito_infra_failure_condition_reason fetch key ≡ ok ""
  unfolding is_kogito_infra_ready get_kogito_infra_failure_condition_reason
  ready_no_reason fetch key h = ground arith
