-- ===== src/Service/Status.antt =====
-- core/kogitoservice/status.go: the status of a Kogito service after a reconciliation.
mod Setters
unfoldable pub use Setters.*
pub mod Conditions
pub mod Routes
pub mod Outcome
use kogito_operator.Common.{
  String, ◌<>◌, ℕ, Bool, true, false, ◌&&◌, Option, none, some, List, [], ◌∷◌, Result, ok, err,
  Step, next, fail, panic, ◌>>=◌, ltb, nat_eq, is_empty, if◌then◌else◌,
}
use kogito_operator.Client.{Reader, fetch_with_key, fetch_ready_replicas}
use kogito_operator.Api.Conditions.{
  Condition, ConditionApi, ConditionStatus, condition_true, condition_false, is_false_status,
  deployed_condition_type, provisioning_condition_type, failed_condition_type,
}
use kogito_operator.Api.Workloads.{Deployment}
use kogito_operator.Service.Instance.{KogitoService, key_of}
use kogito_operator.Service.Route.{Route, get_host_from_route, validate_route_status}
use kogito_operator.Reconciliation.{
  ConditionReason, successful_deployed_reason, failed_deployed_reason,
  provisioning_in_progress_reason, failed_provisioning_reason, finished_provisioning_reason,
  route_processed, reason_string, GoError, error_text, error_for_route_creation,
  is_reconciliation_error, get_reason_for_error,
}

-- What the handler reads and writes of the cluster. `errorf` is `fmt.Errorf` without
-- further arguments, `update_status` the API server's answer.
pub record StatusClient : Type 0 where
  pub is_openshift : Bool
  pub deployments : Reader Deployment
  pub routes : Reader Route
  pub errorf : String → GoError
  pub update_status : KogitoService → Option GoError

-- The instance in memory, and the status that the API server has accepted of it, if any.
pub record StatusState : Type 0 where
  pub instance_state : KogitoService
  pub written : Option KogitoService

abbrev with_conditions : StatusState → List Condition → StatusState
with_conditions s cs = record s {
  instance_state = record s.instance_state { conditions = some cs };
}

module _ (m : ConditionApi) (c : StatusClient) where
  unfoldable pub set_failed_conditions : GoError → StatusState → Step GoError StatusState
  set_failed_conditions e s =
      let cs = failed_and_provisioning m e (or_empty s.instance_state.conditions) in
      elim (fetch_ready_replicas c.deployments (key_of s.instance_state)) [
        | err x ↦ fail (with_conditions s cs) x
        | ok available ↦ next (with_conditions s (deployed_by_replicas m available cs))
      ]

  -- `*GetReplicas()` is a nil dereference where the instance has no replicas.
  replicas_step : Option ℕ → ℕ → StatusState → List Condition → Step GoError StatusState
  replicas_step none available s cs = panic
  replicas_step (some expected) available s cs =
      next (with_conditions s (replica_conditions m expected available cs))

  unfoldable pub handle_condition_transition : StatusState → Step GoError StatusState
  unfolding replicas_step
  handle_condition_transition s =
      let cs = invalidate_failed_condition m (or_empty s.instance_state.conditions) in
      elim (fetch_ready_replicas c.deployments (key_of s.instance_state)) [
        | err x ↦ fail (with_conditions s cs) x
        | ok available ↦ replicas_step s.instance_state.replicas available s cs
      ]

  first_image : Deployment → StatusState → StatusState
  first_image d s = elim d.containers [
    | [] ↦ s
    | container ∷ _ ↦ record s {
      instance_state = record s.instance_state { status_image = container.image };
    }
  ]

  unfoldable pub update_image_status : StatusState → Step GoError StatusState
  unfolding first_image
  update_image_status s = elim (fetch_with_key c.deployments (key_of s.instance_state)) [
    | err x ↦ fail s x
    | ok none ↦ next s
    | ok (some d) ↦ next (first_image d s)
  ]

  unfoldable pub update_deployment_status : StatusState → Step GoError StatusState
  update_deployment_status s = elim (fetch_with_key c.deployments (key_of s.instance_state)) [
    | err x ↦ fail s x
    | ok none ↦ next s
    | ok (some d) ↦ next (record s {
      instance_state = record s.instance_state { deployment_conditions = d.conditions };
    })
  ]

  set_route_condition : ConditionStatus → String → String → KogitoService → KogitoService
  unfolding new_failed_condition
  set_route_condition status reason message i = record i {
    route_conditions =
        some (m.set (or_empty i.route_conditions) (new_failed_condition status reason message));
  }

  set_uri : String → KogitoService → KogitoService
  set_uri host i = if is_empty host then i else record i { external_uri = "http://" <> host }

  -- The read of the host, behind the condition.
  host_step : KogitoService → Option KogitoService → Step GoError StatusState
  unfolding set_uri
  host_step i w = elim (get_host_from_route c.routes (key_of i)) [
    | err x ↦ fail (record { instance_state = i; written = w }) x
    | ok host ↦ next (record { instance_state = set_uri host i; written = w })
  ]

  route_step : KogitoService → Option KogitoService → Step GoError StatusState
  unfolding set_route_condition host_step
  route_step i w =
      if i.disable_route
      then next (record {
        instance_state =
            set_route_condition condition_false (reason_string route_processed)
              "Routes are disabled." i;
        written = w;
      })
      else elim (validate_route_status c.errorf c.routes (key_of i)) [
        | err x ↦
            let e = error_for_route_creation x in
            next (record {
              instance_state =
                  set_route_condition condition_true (get_reason_for_error (some e)) (error_text e)
                    i;
              written = w;
            })
        | ok is_admitted ↦
            host_step
              (if is_admitted
                then set_route_condition condition_false (reason_string route_processed)
                    "Route admitted." i
                else i)
              w
      ]

  unfoldable pub update_route_status : StatusState → Step GoError StatusState
  unfolding route_step
  update_route_status s =
      if c.is_openshift
      then route_step
          (record s.instance_state {
            route_conditions = some (or_empty s.instance_state.route_conditions);
          })
          s.written
      else next s

  unfoldable pub update_status_step : StatusState → Step GoError StatusState
  update_status_step s = elim (c.update_status s.instance_state) [
    | some x ↦ fail s x
    | none ↦ next (record s { written = some s.instance_state })
  ]

  -- `err_condition` is the error of the reconciliation, `none` for nil.
  unfoldable pub ensure_resources_status_changes :
      Option GoError → KogitoService → Step GoError StatusState
  ensure_resources_status_changes err_condition i =
      let s : StatusState = record {
        instance_state = record i { conditions = some (or_empty i.conditions) };
        written = none;
      } in
      elim err_condition [
        | some e ↦ set_failed_conditions e s >>= update_status_step
        | none ↦ do
          s1 ← handle_condition_transition s
          s2 ← update_image_status s1
          s3 ← update_route_status s2
          s4 ← update_deployment_status s3
          update_status_step s4
      ]
