-- ===== src/Service/Status/Conditions.antt =====
-- What the status handler makes of the three conditions of a service.
use kogito_operator.Common.{
  String, ℕ, ◌≤◌, ◌<◌, ◌≡◌, refl, ◌≢◌, ◌↔◌, ◌⊎◌, inl, inr, true, false, ◌&&◌, ◌||◌, some, List, ltb,
  nat_eq, ◌==◌, if◌then◌else◌, arith, ◌∙◌, Option-cases,
}
use kogito_operator.Api.Conditions.{
  Condition, ConditionApi, IsDocumented, ConditionStatus, condition_true, condition_false, holds,
  is_status_condition_true, deployed_condition_type, provisioning_condition_type,
  failed_condition_type,
}
use kogito_operator.Reconciliation.{
  ConditionReason, GoError, is_reconciliation_error, get_reason_for_error, error_text,
}
use kogito_operator.Service.Status.{
  new_deployed_condition, new_provisioning_condition, new_failed_condition, set_provisioning,
  set_deployed, set_failed, invalidate_failed_condition, replica_conditions,
  failed_and_provisioning, deployed_by_replicas,
}

abbrev pub IsDeployed : ConditionApi → List Condition → Type 0
IsDeployed m cs = is_status_condition_true m cs deployed_condition_type ≡ true

abbrev pub IsProvisioning : ConditionApi → List Condition → Type 0
IsProvisioning m cs = is_status_condition_true m cs provisioning_condition_type ≡ true

abbrev pub IsFailed : ConditionApi → List Condition → Type 0
IsFailed m cs = is_status_condition_true m cs failed_condition_type ≡ true

module _ (m : ConditionApi) (L : IsDocumented m) where
  find-set_deployed :
      (t : String) (cs : List Condition) (st : ConditionStatus)
      → m.find (set_deployed m cs st) t
        ≡ (if deployed_condition_type == t then some (new_deployed_condition st) else m.find cs t)
  unfolding set_deployed
  find-set_deployed t cs st = L.find-set cs _ t

  find-set_provisioning :
      (t : String) (cs : List Condition) (st : ConditionStatus) (r : ConditionReason)
      → m.find (set_provisioning m cs st r) t ≡ (
          if provisioning_condition_type == t
          then some (new_provisioning_condition st r)
          else m.find cs t)
  unfolding set_provisioning
  find-set_provisioning t cs st r = L.find-set cs _ t

  find-set_failed :
      (t : String) (cs : List Condition) (st : ConditionStatus) (r message : String)
      → m.find (set_failed m cs st r message) t ≡ (
          if failed_condition_type == t
          then some (new_failed_condition st r message)
          else m.find cs t)
  unfolding set_failed
  find-set_failed t cs st r message = L.find-set cs _ t

  -- Invalidating leaves no failure behind.
  pub invalidate_failed_condition-IsFailed :
      (cs : List Condition) → ¬ IsFailed m (invalidate_failed_condition m cs)
  unfolding invalidate_failed_condition new_failed_condition
  invalidate_failed_condition-IsFailed cs = elim (Option-cases (m.find cs failed_condition_type)) [
    | inl e ↦ rw (e, invalidate_failed_condition) (rw e (λ h. cc))
    | inr (c, e) ↦ rw (e, invalidate_failed_condition) (rw find-set_failed (λ h. cc))
  ]

  -- Every other condition is kept.
  pub find-invalidate_failed_condition :
      (t : String) (cs : List Condition)
      → (failed_condition_type == t) ≡ false
      → m.find (invalidate_failed_condition m cs) t ≡ m.find cs t
  unfolding invalidate_failed_condition
  find-invalidate_failed_condition t cs other =
      elim (Option-cases (m.find cs failed_condition_type)) [
        | inl e ↦ rw (e, invalidate_failed_condition)
        | inr (c, e) ↦ rw (e, invalidate_failed_condition) (rw find-set_failed (rw other))
      ]

  pub find-replica_conditions_failed :
      (expected available : ℕ) (cs : List Condition)
      → m.find (replica_conditions m expected available cs) failed_condition_type
        ≡ m.find cs failed_condition_type
  unfolding replica_conditions
  find-replica_conditions_failed expected available cs =
      grind (arith, find-set_deployed, find-set_provisioning)

  pub find-replica_conditions_deployed :
      (expected available : ℕ) (cs : List Condition)
      → m.find (replica_conditions m expected available cs) deployed_condition_type ≡ (
          if nat_eq expected available || (ltb 0 available && ltb available expected)
          then some (new_deployed_condition condition_true)
          else if nat_eq available 0
          then some (new_deployed_condition condition_false)
          else m.find cs deployed_condition_type)
  unfolding replica_conditions
  find-replica_conditions_deployed expected available cs =
      grind (arith, find-set_deployed, find-set_provisioning)

  pub find-replica_conditions_provisioning :
      (expected available : ℕ) (cs : List Condition)
      → holds (m.find (replica_conditions m expected available cs) provisioning_condition_type) ≡ (
          if nat_eq expected available
          then false
          else if ltb 0 available && ltb available expected
          then true
          else if nat_eq available 0
          then true
          else holds (m.find cs provisioning_condition_type))
  unfolding replica_conditions new_provisioning_condition
  find-replica_conditions_provisioning expected available cs =
      grind (arith, find-set_deployed, find-set_provisioning)

  -- More pods than requested, as while scaling down: nothing about them is reported.
  pub find-replica_conditions_surplus :
      (expected available : ℕ) (cs : List Condition) (t : String)
      → expected < available
      → m.find (replica_conditions m expected available cs) t ≡ m.find cs t
  unfolding replica_conditions
  find-replica_conditions_surplus expected available cs t h = ground arith

  pub find-failed_conditions :
      (e : GoError) (available : ℕ) (cs : List Condition)
      → let cs' = deployed_by_replicas m available (failed_and_provisioning m e cs) in
        (m.find cs' failed_condition_type
          ≡ some
              (new_failed_condition condition_true (get_reason_for_error (some e)) (error_text e)))
        × (holds (m.find cs' provisioning_condition_type) ≡ is_reconciliation_error e)
        × (holds (m.find cs' deployed_condition_type) ≡ ltb 0 available)
  unfolding failed_and_provisioning deployed_by_replicas new_provisioning_condition
      new_deployed_condition
  find-failed_conditions e available cs = (
    grind (arith, find-set_deployed, find-set_provisioning, find-set_failed),
    grind (arith, find-set_deployed, find-set_provisioning, find-set_failed),
    grind (arith, find-set_deployed, find-set_provisioning, find-set_failed),
  )

  -- The three conditions behind a reconciliation without error.
  pub replica_conditions_lem :
      (expected available : ℕ) (cs : List Condition)
      → let cs' = replica_conditions m expected available (invalidate_failed_condition m cs) in
        (¬ IsFailed m cs')
        × (available ≤ expected
            → (IsDeployed m cs' ↔ ((available ≡ expected) ⊎ (0 < available)))
              × (IsProvisioning m cs' ↔ (available ≢ expected)))
        × (expected < available
            → (m.find cs' deployed_condition_type ≡ m.find cs deployed_condition_type)
              × (m.find cs' provisioning_condition_type ≡ m.find cs provisioning_condition_type))
  unfolding new_deployed_condition
  replica_conditions_lem expected available cs =
      let cs0 = invalidate_failed_condition m cs in
      (
        rw find-replica_conditions_failed (invalidate_failed_condition-IsFailed cs),
        λ h. (
          ground (arith, find-replica_conditions_deployed expected available cs0),
          ground (arith, find-replica_conditions_provisioning expected available cs0),
        ),
        λ h. (
          find-replica_conditions_surplus expected available cs0 _ h
              ∙ find-invalidate_failed_condition deployed_condition_type cs refl,
          find-replica_conditions_surplus expected available cs0 _ h
              ∙ find-invalidate_failed_condition provisioning_condition_type cs refl,
        ),
      )
