-- ===== src/Infra/Errors.antt =====
-- core/kogitoinfra/errors.go, and `GetReconcileResultFor` of core/kogitoinfra/reconciler.go.
use kogito_operator.Common.{String, ◌<>◌, ℕ, ◌*◌, Bool, true, false, Option, none, some}
use kogito_operator.Reconciliation.{
  GoError, plain, error_text, ReconcileResult, zero_result, second,
}

pub data InfraReason : Type 0 where
  reconciliation_failure resource_not_found resource_api_not_found : InfraReason
  unsupported_api_kind resource_not_ready resource_config_error : InfraReason
  resource_missing_resource_config resource_successfully_configured : InfraReason

abbrev pub infra_reason_string : InfraReason → String
infra_reason_string reconciliation_failure = "ReconciliationFailure"
infra_reason_string resource_not_found = "ResourceNotFound"
infra_reason_string resource_api_not_found = "ResourceAPINotFound"
infra_reason_string unsupported_api_kind = "UnsupportedAPIKind"
infra_reason_string resource_not_ready = "ResourceNotReady"
infra_reason_string resource_config_error = "ResourceConfigError"
infra_reason_string resource_missing_resource_config = "ResourceMissingConfig"
infra_reason_string resource_successfully_configured = "ResourceSuccessfullyConfigured"

-- The package's own `reconciliationError`, or an error of another package.
pub data InfraError : Type 0 where
  infra_error : InfraReason → GoError → InfraError
  other : GoError → InfraError

abbrev pub infra_error_text : InfraError → String
infra_error_text (infra_error r e) = error_text e
infra_error_text (other e) = error_text e

unfoldable pub error_for_resource_not_found : String → String → String → InfraError
error_for_resource_not_found kind name namespace =
    infra_error resource_not_found
      (plain (kind <> (" resource(" <> (name <> (") not found in namespace " <> namespace)))))

unfoldable pub error_for_resource_api_not_found : String → InfraError
error_for_resource_api_not_found api_version = infra_error resource_api_not_found (
    plain (
      api_version
      <> (" CRD is not available in the cluster, this feature is not available."
          <> " Please install the required Operator first. ")))

unfoldable pub error_for_missing_resource_config : String → String → InfraError
error_for_missing_resource_config name config_name = infra_error resource_missing_resource_config (
    plain (
      "Resource "
      <> (name <> (", configuration information (" <> (config_name <> ") is missing")))))

unfoldable pub error_for_resource_config_error : String → String → InfraError
error_for_resource_config_error name error_msg = infra_error resource_config_error (
    plain (
      "Error in configuration for the infrastructure resource "
      <> (name <> (". Error is: " <> error_msg))))

unfoldable pub error_for_resource_not_ready_error : GoError → InfraError
error_for_resource_not_ready_error e = infra_error resource_not_ready e

-- The reason "" of a nil error is `none`.
abbrev pub reason_for_error : Option InfraError → Option InfraReason
reason_for_error none = none
reason_for_error (some (infra_error r e)) = some r
reason_for_error (some (other e)) = some reconciliation_failure

abbrev pub reconciliation_standard_interval : ℕ
reconciliation_standard_interval = second * 30

abbrev inner : InfraError → GoError
inner (infra_error r e) = e
inner (other e) = e

-- An error that is returned is returned as a whole; here its text and causes are kept.
unfoldable pub infra_reconcile_result_for :
    Option InfraError → Bool → ReconcileResult × Option InfraError
infra_reconcile_result_for e requeue = elim (reason_for_error e) [
  | some reconciliation_failure ↦ (zero_result, e)
  | some resource_missing_resource_config ↦ (zero_result, none)
  | some resource_config_error ↦ (zero_result, none)
  | some _ ↦ (record zero_result { requeue_after = reconciliation_standard_interval }, none)
  | none ↦ elim requeue [
    | true ↦ (record zero_result { requeue_after = reconciliation_standard_interval }, none)
    | false ↦ (zero_result, none)
  ]
]
