-- ===== src/Reconciliation/Laws.antt =====
-- How errors meet the work queue (core/infrastructure/reconciliation_error.go).
use kogito_operator.Common.{String, ◌≤◌, ◌≡◌, refl, ◌↔◌, true, Option, none, some, arith}
use kogito_operator.Reconciliation.Defs.{
  GoError, plain, wrapped, reconciliation, ReconcileResult, zero_result, is_reconciliation_error,
  get_reconcile_result_for, get_reason_for_error, reconciliation_after_five,
  reconciliation_after_three_minutes_duration, error_for_infra_not_ready, error_for_messaging,
  error_for_monitoring, error_for_dashboards, error_for_service_not_reachable,
  error_for_trust_store_mount, error_for_deployment_not_reachable,
  error_for_processing_image_stream_delta, error_for_processing_proto_buf_config_map_delta,
  error_for_image_not_found, error_for_route_creation,
}

-- The errors of the package's constructors, but that for a failed route.
pub data IsTimed : GoError → Type 0 where
  infra_not_ready : (s i c : String) → IsTimed (error_for_infra_not_ready s i c)
  messaging : (e : GoError) → IsTimed (error_for_messaging e)
  monitoring : (e : GoError) → IsTimed (error_for_monitoring e)
  dashboards : (e : GoError) → IsTimed (error_for_dashboards e)
  not_reachable : (c u m : String) → IsTimed (error_for_service_not_reachable c u m)
  trust_store : (m : String) → IsTimed (error_for_trust_store_mount m)
  no_deployment : (i : String) → IsTimed (error_for_deployment_not_reachable i)
  image_stream : IsTimed error_for_processing_image_stream_delta
  proto_buf : IsTimed error_for_processing_proto_buf_config_map_delta
  no_image : IsTimed error_for_image_not_found

-- An error that one of the package's constructors makes, that for a failed route apart, is answered
-- with no error and a delay of five seconds at least and three minutes at most.
pub get_reconcile_result_for-IsTimed :
    {e : GoError}
    → IsTimed e
    → ((get_reconcile_result_for (some e)).1 ≡ none)
      × (reconciliation_after_five ≤ (get_reconcile_result_for (some e)).0.requeue_after)
      × ((get_reconcile_result_for (some e)).0.requeue_after
          ≤ reconciliation_after_three_minutes_duration)
unfolding get_reconcile_result_for error_for_infra_not_ready error_for_messaging
    error_for_monitoring error_for_dashboards error_for_service_not_reachable
    error_for_trust_store_mount error_for_deployment_not_reachable
    error_for_processing_image_stream_delta error_for_processing_proto_buf_config_map_delta
    error_for_image_not_found
get_reconcile_result_for-IsTimed (infra_not_ready s i c) = (refl, omega arith, omega arith)
get_reconcile_result_for-IsTimed (messaging e) = (refl, omega arith, omega arith)
get_reconcile_result_for-IsTimed (monitoring e) = (refl, omega arith, omega arith)
get_reconcile_result_for-IsTimed (dashboards e) = (refl, omega arith, omega arith)
get_reconcile_result_for-IsTimed (not_reachable c u m) = (refl, omega arith, omega arith)
get_reconcile_result_for-IsTimed (trust_store m) = (refl, omega arith, omega arith)
get_reconcile_result_for-IsTimed (no_deployment i) = (refl, omega arith, omega arith)
get_reconcile_result_for-IsTimed image_stream = (refl, omega arith, omega arith)
get_reconcile_result_for-IsTimed proto_buf = (refl, omega arith, omega arith)
get_reconcile_result_for-IsTimed no_image = (refl, omega arith, omega arith)

-- The answer to a nil error: do nothing, report nothing.
abbrev pub IsDropped : ReconcileResult × Option GoError → Type 0
IsDropped a = a ≡ (zero_result, none)

-- An error is answered like a nil error, neither returned nor scheduled again, exactly when it is a
-- reconciliation error whose interval is zero.
pub get_reconcile_result_for-IsDropped_iff :
    (e : GoError)
    → IsDropped (get_reconcile_result_for (some e)) ↔ (
        (is_reconciliation_error e ≡ true)
        × (get_reconcile_result_for (some e)).0.requeue_after ≡ 0)
unfolding get_reconcile_result_for is_reconciliation_error
get_reconcile_result_for-IsDropped_iff (plain m) = ground arith
get_reconcile_result_for-IsDropped_iff (wrapped m e) = ground arith
get_reconcile_result_for-IsDropped_iff (reconciliation r n e) = ground arith

-- The error for a route that could not be created is such an error: it is dropped, and its reason
-- is still reported as its own.
pub error_for_route_creation-IsDropped :
    (e : GoError)
    → IsDropped (get_reconcile_result_for (some (error_for_route_creation e)))
      × (get_reason_for_error (some (error_for_route_creation e)) ≡ "RouteCreationFailure")
unfolding get_reconcile_result_for error_for_route_creation get_reason_for_error
error_for_route_creation-IsDropped e = (refl, refl)
