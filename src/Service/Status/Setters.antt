-- ===== src/Service/Status/Setters.antt =====
-- The conditions that core/kogitoservice/status.go sets, up to the reads and writes around them.
use kogito_operator.Common.{
  String, ℕ, ◌&&◌, Option, none, some, List, [], ltb, nat_eq, if◌then◌else◌,
}
use kogito_operator.Api.Conditions.{
  Condition, ConditionApi, ConditionStatus, condition_true, condition_false, is_false_status,
  deployed_condition_type, provisioning_condition_type, failed_condition_type,
}
use kogito_operator.Reconciliation.{
  ConditionReason, successful_deployed_reason, failed_deployed_reason,
  provisioning_in_progress_reason, failed_provisioning_reason, finished_provisioning_reason,
  reason_string, GoError, error_text, is_reconciliation_error, get_reason_for_error,
}

unfoldable pub new_deployed_condition : ConditionStatus → Condition
new_deployed_condition status = record {
  kind = deployed_condition_type;
  status = status;
  reason =
      if is_false_status status
      then reason_string failed_deployed_reason
      else reason_string successful_deployed_reason;
  message = "";
}

unfoldable pub new_provisioning_condition : ConditionStatus → ConditionReason → Condition
new_provisioning_condition status reason = record {
  kind = provisioning_condition_type;
  status = status;
  reason = reason_string reason;
  message = "";
}

-- The reason is a string, since `InvalidateFailedCondition` hands on the one that it finds.
unfoldable pub new_failed_condition : ConditionStatus → String → String → Condition
new_failed_condition status reason message = record {
  kind = failed_condition_type;
  status = status;
  reason = reason;
  message = message;
}

-- `if GetConditions() == nil { SetConditions(&[]metav1.Condition{}) }`
abbrev pub or_empty : Option (List Condition) → List Condition
or_empty none = []
or_empty (some cs) = cs

module _ (m : ConditionApi) where
  unfoldable pub set_provisioning :
      List Condition → ConditionStatus → ConditionReason → List Condition
  unfolding new_provisioning_condition
  set_provisioning cs status reason = m.set cs (new_provisioning_condition status reason)

  unfoldable pub set_deployed : List Condition → ConditionStatus → List Condition
  unfolding new_deployed_condition
  set_deployed cs status = m.set cs (new_deployed_condition status)

  unfoldable pub set_failed : List Condition → ConditionStatus → String → String → List Condition
  unfolding new_failed_condition
  set_failed cs status reason message = m.set cs (new_failed_condition status reason message)

  unfoldable pub invalidate_failed_condition : List Condition → List Condition
  unfolding set_failed
  invalidate_failed_condition cs = elim (m.find cs failed_condition_type) [
    | none ↦ cs
    | some c ↦ set_failed cs condition_false c.reason c.message
  ]

  -- The ladder of `handleConditionTransition`; no branch is for more replicas than requested.
  unfoldable pub replica_conditions : ℕ → ℕ → List Condition → List Condition
  unfolding set_deployed set_provisioning
  replica_conditions expected available cs =
      if nat_eq expected available
      then set_provisioning (set_deployed cs condition_true) condition_false
          finished_provisioning_reason
      else if ltb 0 available && ltb available expected
      then set_provisioning (set_deployed cs condition_true) condition_true
          provisioning_in_progress_reason
      else if nat_eq available 0
      then set_provisioning (set_deployed cs condition_false) condition_true
          provisioning_in_progress_reason
      else cs

  -- `setFailedConditions` up to the read of the replicas.
  unfoldable pub failed_and_provisioning : GoError → List Condition → List Condition
  unfolding set_failed set_provisioning
  failed_and_provisioning e cs =
      let failed = set_failed cs condition_true (get_reason_for_error (some e)) (error_text e) in
      if is_reconciliation_error e
      then set_provisioning failed condition_true provisioning_in_progress_reason
      else set_provisioning failed condition_false failed_provisioning_reason

  -- Its end.
  unfoldable pub deployed_by_replicas : ℕ → List Condition → List Condition
  unfolding set_deployed
  deployed_by_replicas available cs =
      if ltb 0 available then set_deployed cs condition_true else set_deployed cs condition_false
