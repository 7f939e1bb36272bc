-- ===== src/Processing.antt =====
-- core/deployment/deployment_processor.go: what the operator adds to the deployment of a runtime.
pub mod Laws
use kogito_operator.Common.{
  String, ◌<>◌, Bool, true, false, Option, none, some, List, [], ◌∷◌, map, Result, ok, err, Step,
  next, fail, panic, ◌>>=◌, is_empty, if◌then◌else◌,
}
use kogito_operator.Common.Dict.{Dict, insert}
use kogito_operator.Api.Workloads.{Deployment, Container, SecurityContext, PodSecurityContext}
use kogito_operator.Manager.Runtime.{or_empty_map}
use kogito_operator.Reconciliation.{GoError, ReconcileResult, zero_result, get_reconcile_result_for}
use kogito_operator.Client.{Reader, fetch_with_key}
use kogito_operator.Api.{NamespacedName}
use kogito_operator.Connector.{
  UrlClient, Written, update_deployment, inject_supporting_service_url_into_deployment, data_index,
  jobs_service, trusty_ai,
}

-- framework.KogitoOperatorVersionAnnotation
abbrev pub kogito_operator_version_annotation : String
kogito_operator_version_annotation = "kogito-operator.kiegroup.org/version"

-- The deployment in memory, and the deployments that the API server has accepted.
pub record ProcessState : Type 0 where
  pub deployment : Deployment
  pub written : Written

abbrev annotate : String → Option (Dict String) → Option (Dict String)
annotate version m = some (insert kogito_operator_version_annotation version (or_empty_map m))

unfoldable pub inject_kogito_annotations : String → Deployment → Deployment
inject_kogito_annotations version d = if is_empty version then d else record d {
  annotations = annotate version d.annotations;
  template_annotations = annotate version d.template_annotations;
}

abbrev pub hardened : SecurityContext
hardened = record {
  capabilities_drop = "ALL" ∷ [];
  privileged = false;
  run_as_non_root = true;
  allow_privilege_escalation = false;
}

abbrev harden : Container → Container
harden c = record c { security_context = some hardened }

unfoldable pub inject_security_context_defaults : Deployment → Deployment
inject_security_context_defaults d = record d {
  pod_security_context = some (record { run_as_non_root = true });
  containers = map harden d.containers;
}

module _ (c : UrlClient) where
  -- The three injections into the deployment in memory.
  unfoldable pub inject_endpoints : Deployment → Step GoError Deployment
  inject_endpoints d = do
    d1 ← inject_supporting_service_url_into_deployment c data_index d
    d2 ← inject_supporting_service_url_into_deployment c jobs_service d1
    inject_supporting_service_url_into_deployment c trusty_ai d2

  -- The update behind them.
  unfoldable pub write_injected : Written → Step GoError Deployment → Step GoError ProcessState
  write_injected w (fail d e) = fail (record { deployment = d; written = w }) e
  write_injected w panic = panic
  write_injected w (next d) = elim (c.update d) [
    | some e ↦ fail (record { deployment = d; written = w }) e
    | none ↦ next (record { deployment = d; written = d ∷ w })
  ]

  unfoldable pub inject_supporting_service_endpoint_into_deployment :
      ProcessState → Step GoError ProcessState
  inject_supporting_service_endpoint_into_deployment s =
      write_injected s.written (inject_endpoints s.deployment)

  unfoldable pub process : String → ProcessState → Step GoError ProcessState
  process version s = do
    s1 ←
        inject_supporting_service_endpoint_into_deployment
          (record s { deployment = inject_kogito_annotations version s.deployment })
    next (record s1 { deployment = inject_security_context_defaults s1.deployment })

  -- controllers/common/runtimedeployment_controller.go: `Reconcile`. The answer, and what was
  -- written; a panic has no answer.
  answer : Step GoError ProcessState → Option ((ReconcileResult × Option GoError) × Written)
  answer (next s) = some ((zero_result, none), s.written)
  answer (fail s e) = some (get_reconcile_result_for (some e), s.written)
  answer panic = none

  unfoldable pub reconcile :
      Reader Deployment
      → String
      → NamespacedName
      → Option ((ReconcileResult × Option GoError) × Written)
  unfolding answer
  reconcile deployments version key = elim (fetch_with_key deployments key) [
    | err e ↦ some ((zero_result, some e), [])
    | ok none ↦ some ((zero_result, none), [])
    | ok (some d) ↦ answer (process version (record { deployment = d; written = [] }))
  ]
