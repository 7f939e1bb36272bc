-- ===== src/Tests/Services.antt =====
-- Runs of the status handler of a service and of what it reads.
use mathlib.Core.List.{flatten}
use kogito_operator.Common.{
  ℕ, ◌≤◌, ◌<◌, ◌≡◌, refl, ◌≢◌, ◌↔◌, ◌⊎◌, true, false, none, some, [], ◌∷◌, ok, err, fail,
}
use kogito_operator.Api.Conditions.{
  Condition, condition_true, listed, listed-IsDocumented, deployed_condition_type,
  provisioning_condition_type, failed_condition_type,
}
use kogito_operator.Client.{fetch_with_key, fetch_ready_replicas}
use kogito_operator.Reconciliation.{
  GoError, plain, error_for_image_not_found, is_reconciliation_error, get_reason_for_error,
  error_text,
}
use kogito_operator.Service.Route.{
  Route, validate_route_status, validate_route_status_lem, get_host_from_route,
}
use kogito_operator.Service.Status.{
  StatusClient, StatusState, or_empty, ensure_resources_status_changes, update_route_status,
  new_failed_condition, handle_condition_transition, set_failed_conditions, update_image_status,
  update_deployment_status, update_status_step,
}
use kogito_operator.Service.Status.Conditions.{IsDeployed, IsProvisioning, IsFailed}
use kogito_operator.Service.Status.Outcome.{
  conditions_of, ensure_resources_status_changes_success, ensure_resources_status_changes_failure,
  ensure_resources_status_changes_unread,
}
use kogito_operator.Service.Status.Routes.{RouteFailed, update_route_status-RouteFailed}
use kogito_operator.Tests.Fixtures.{
  ended, missing, reading, refusing, app_deployment, app_key, app_service,
}

abbrev admitted_condition : Condition
admitted_condition = record {
  kind = "Admitted";
  status = condition_true;
  reason = "";
  message = "";
}

abbrev app_route : Route
app_route = record { host = "app.example.com"; ingress = [] ∷ ((admitted_condition ∷ []) ∷ []) }

abbrev cluster : StatusClient
cluster = record {
  is_openshift = true;
  deployments = reading "app" app_deployment;
  routes = reading "app" app_route;
  errorf = plain;
  update_status = λ i. none;
}

abbrev start : StatusState
start = record { instance_state = app_service; written = none }

abbrev pods : ℕ
pods = 1

abbrev requested : ℕ
requested = 2

abbrev after_success : StatusState
after_success = ended start (ensure_resources_status_changes listed cluster none app_service)

ensure_resources_status_changes_success_example :
    (¬ IsFailed listed (conditions_of after_success))
    × (after_success.written ≡ some after_success.instance_state)
    × (((pods ≤ requested)
          × (IsDeployed listed (conditions_of after_success) ↔ ((pods ≡ requested) ⊎ (0 < pods)))
          × (IsProvisioning listed (conditions_of after_success) ↔ (pods ≢ requested)))
        ⊎ ((requested < pods)
            × (listed.find (conditions_of after_success) deployed_condition_type
                ≡ listed.find (or_empty app_service.conditions) deployed_condition_type)
            × (listed.find (conditions_of after_success) provisioning_condition_type
                ≡ listed.find (or_empty app_service.conditions) provisioning_condition_type)))
unfolding ensure_resources_status_changes fetch_ready_replicas fetch_with_key
    handle_condition_transition update_image_status update_route_status validate_route_status
    get_host_from_route update_deployment_status update_status_step
ensure_resources_status_changes_success_example =
    ensure_resources_status_changes_success listed listed-IsDocumented cluster app_service
      after_success requested pods refl refl refl

abbrev after_failure : StatusState
after_failure =
    ended start
      (ensure_resources_status_changes listed cluster (some error_for_image_not_found) app_service)

ensure_resources_status_changes_failure_example :
    (listed.find (conditions_of after_failure) failed_condition_type
      ≡ some (
          new_failed_condition condition_true
            (get_reason_for_error (some error_for_image_not_found))
            (error_text error_for_image_not_found)))
    × (IsProvisioning listed (conditions_of after_failure)
        ↔ (is_reconciliation_error error_for_image_not_found ≡ true))
    × (IsDeployed listed (conditions_of after_failure) ↔ (0 < pods))
    × (after_failure.written ≡ some after_failure.instance_state)
unfolding ensure_resources_status_changes fetch_ready_replicas fetch_with_key set_failed_conditions
    update_status_step
ensure_resources_status_changes_failure_example =
    ensure_resources_status_changes_failure listed listed-IsDocumented cluster
      error_for_image_not_found app_service after_failure pods refl refl

abbrev unreadable : StatusClient
unreadable = record cluster { deployments = refusing }

ensure_resources_status_changes_unread_example :
    (s : StatusState) × (ensure_resources_status_changes listed unreadable none app_service
      ≡ fail s missing)
    × (s.written ≡ none)
unfolding fetch_ready_replicas fetch_with_key
ensure_resources_status_changes_unread_example =
    ensure_resources_status_changes_unread listed unreadable none app_service refl

abbrev after_route : StatusState
after_route = ended start (update_route_status listed cluster start)

update_route_status-RouteFailed_example : RouteFailed listed after_route.instance_state ↔ (
    (app_service.disable_route ≡ false)
    × (((x : GoError) × (validate_route_status plain cluster.routes app_key ≡ err x))
        ⊎ ((validate_route_status plain cluster.routes app_key ≡ ok false)
            × RouteFailed listed app_service)))
unfolding update_route_status validate_route_status fetch_with_key get_host_from_route
update_route_status-RouteFailed_example =
    update_route_status-RouteFailed listed listed-IsDocumented cluster start after_route refl refl

validate_route_status_lem_example : validate_route_status plain cluster.routes app_key ≡ ok true
unfolding fetch_with_key kogito_operator.Service.Route.first_of_kind flatten
validate_route_status_lem_example =
    validate_route_status_lem plain cluster.routes app_key app_route refl
