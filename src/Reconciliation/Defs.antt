-- ===== src/Reconciliation/Defs.antt =====
-- core/infrastructure/reconciliation_error.go
use kogito_operator.Common.{String, ◌<>◌, ℕ, ◌*◌, Bool, true, false, Option, none, some}

-- The reasons of the service's conditions.
pub data ConditionReason : Type 0 where
  create_resource_failed_reason kogito_infra_not_ready_reason : ConditionReason
  service_reconciliation_failure messaging_integration_failure_reason : ConditionReason
  monitoring_integration_failure_reason internal_service_not_reachable : ConditionReason
  successful_deployed_reason failed_deployed_reason : ConditionReason
  provisioning_in_progress_reason failed_provisioning_reason : ConditionReason
  finished_provisioning_reason trust_store_mount_failure_reason : ConditionReason
  image_stream_not_ready_reason deployment_not_available : ConditionReason
  processing_image_stream_delta processing_proto_buf_config_map_delta : ConditionReason
  image_not_found route_processed route_creation_failure_reason : ConditionReason

-- `string(reason)`
abbrev pub reason_string : ConditionReason → String
reason_string create_resource_failed_reason = "CreateResourceFailed"
reason_string kogito_infra_not_ready_reason = "KogitoInfraNotReadyReason"
reason_string service_reconciliation_failure = "ReconciliationFailure"
reason_string messaging_integration_failure_reason = "MessagingProvisionFailure"
reason_string monitoring_integration_failure_reason = "MonitoringIntegrationFailure"
reason_string internal_service_not_reachable = "InternalServiceNotReachable"
reason_string successful_deployed_reason = "AtLeastOnePodAvailable"
reason_string failed_deployed_reason = "NoPodAvailable"
reason_string provisioning_in_progress_reason = "RequestedReplicasNotEqualToAvailableReplicas"
reason_string failed_provisioning_reason = "UnrecoverableError"
reason_string finished_provisioning_reason = "RequestedReplicasEqualToAvailableReplicas"
reason_string trust_store_mount_failure_reason = "TrustStoreMountFailure"
reason_string image_stream_not_ready_reason = "ImageStreamNotReadyReason"
reason_string deployment_not_available = "DeploymentNotAvailable"
reason_string processing_image_stream_delta = "ProcessingImageStreamDelta"
reason_string processing_proto_buf_config_map_delta = "ProcessingProtoBufConfigMapDelta"
reason_string image_not_found = "ImageNotFound"
reason_string route_processed = "RouteProcessed"
reason_string route_creation_failure_reason = "RouteCreationFailure"

-- `time.Duration` in nanoseconds.
abbrev pub second : ℕ
second = 1_000_000_000

abbrev pub reconciliation_after_three_minutes_duration : ℕ
reconciliation_after_three_minutes_duration = second * 60 * 3

abbrev pub reconciliation_after_thirty : ℕ
reconciliation_after_thirty = second * 30

abbrev pub reconciliation_after_ten : ℕ
reconciliation_after_ten = second * 10

abbrev pub reconciliation_after_five : ℕ
reconciliation_after_five = second * 5

abbrev pub reconciliation_after_one_minute_duration : ℕ
reconciliation_after_one_minute_duration = second * 60

-- Go's `error` as far as the operator tells errors apart by their dynamic type. `plain` stands for
-- every type of another package, `wrapped` for `fmt.Errorf` with `%w`.
pub data GoError : Type 0 where
  plain : String → GoError
  wrapped : String → GoError → GoError
  reconciliation : ConditionReason → ℕ → GoError → GoError

-- `err.Error()`
abbrev pub error_text : GoError → String
error_text (plain message) = message
error_text (wrapped message e) = message
error_text (reconciliation reason interval inner) = error_text inner

unfoldable pub error_for_infra_not_ready : String → String → String → GoError
error_for_infra_not_ready service_name infra_name condition_reason =
    reconciliation kogito_infra_not_ready_reason reconciliation_after_one_minute_duration (
      plain (
        "KogitoService '"
        <> (service_name
            <> ("' is waiting for infra dependency; skipping deployment; KogitoInfra not ready: "
                <> (infra_name <> ("; Status: " <> condition_reason))))))

unfoldable pub error_for_messaging : GoError → GoError
error_for_messaging err =
    reconciliation messaging_integration_failure_reason reconciliation_after_thirty err

unfoldable pub error_for_monitoring : GoError → GoError
error_for_monitoring err =
    reconciliation monitoring_integration_failure_reason reconciliation_after_ten err

unfoldable pub error_for_dashboards : GoError → GoError
error_for_dashboards err =
    reconciliation monitoring_integration_failure_reason reconciliation_after_thirty err

-- `status_code` is the number as `%d` prints it.
unfoldable pub error_for_service_not_reachable : String → String → String → GoError
error_for_service_not_reachable status_code request_url method =
    reconciliation internal_service_not_reachable reconciliation_after_three_minutes_duration (
      plain (
        "Received NOT expected status code "
        <> (status_code
            <> (" while making a " <> (method <> (" request to " <> (request_url <> " ")))))))

unfoldable pub error_for_trust_store_mount : String → GoError
error_for_trust_store_mount message =
    reconciliation trust_store_mount_failure_reason reconciliation_after_thirty (plain message)

unfoldable pub error_for_deployment_not_reachable : String → GoError
error_for_deployment_not_reachable instance_name =
    reconciliation deployment_not_available reconciliation_after_thirty
      (plain ("Deployment is not yet available for service instance " <> (instance_name <> " ")))

unfoldable pub error_for_processing_image_stream_delta : GoError
error_for_processing_image_stream_delta =
    reconciliation processing_image_stream_delta reconciliation_after_ten
      (plain "Processing Image stream ")

unfoldable pub error_for_processing_proto_buf_config_map_delta : GoError
error_for_processing_proto_buf_config_map_delta =
    reconciliation processing_proto_buf_config_map_delta reconciliation_after_five
      (plain "Processing Protobuf configmap ")

unfoldable pub error_for_image_not_found : GoError
error_for_image_not_found =
    reconciliation image_not_found reconciliation_after_ten (plain "Image not found ")

-- The struct literal leaves the interval at its zero value.
unfoldable pub error_for_route_creation : GoError → GoError
error_for_route_creation err = reconciliation route_creation_failure_reason 0 (
    wrapped
      (error_text err <> "; Note the option to disable routes and provide manual route if needed")
      err)

-- `ctrl.Result`
pub record ReconcileResult : Type 0 where
  pub requeue : Bool
  pub requeue_after : ℕ

abbrev pub zero_result : ReconcileResult
zero_result = record { requeue = false; requeue_after = 0 }

unfoldable pub is_reconciliation_error : GoError → Bool
is_reconciliation_error (plain message) = false
is_reconciliation_error (wrapped message e) = false
is_reconciliation_error (reconciliation reason interval inner) = true

-- A nil error is `none`.
unfoldable pub get_reconcile_result_for : Option GoError → ReconcileResult × Option GoError
get_reconcile_result_for none = (zero_result, none)
get_reconcile_result_for (some (plain message)) = (zero_result, some (plain message))
get_reconcile_result_for (some (wrapped message e)) = (zero_result, some (wrapped message e))
get_reconcile_result_for (some (reconciliation reason interval inner)) =
    (record zero_result { requeue_after = interval }, none)

-- The reason as the string that the conditions hold: "" for a nil error.
unfoldable pub get_reason_for_error : Option GoError → String
get_reason_for_error none = ""
get_reason_for_error (some (plain message)) = reason_string service_reconciliation_failure
get_reason_for_error (some (wrapped message e)) = reason_string service_reconciliation_failure
get_reason_for_error (some (reconciliation reason interval inner)) = reason_string reason
