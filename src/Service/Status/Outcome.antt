-- ===== src/Service/Status/Outcome.antt =====
-- What `ensureResourcesStatusChanges` reports after a reconciliation, and what it writes.
use kogito_operator.Common.{
  ℕ, ◌≤◌, ◌<◌, ◌≡◌, refl, ◌≢◌, ◌↔◌, ◌⊎◌, inl, inr, true, Option, none, some, List, ok, err, Step,
  next, fail, ◌>>=◌, >>=-eq-next, arith, ◌∙◌,
}
use kogito_operator.Client.{fetch_ready_replicas}
use kogito_operator.Api.Conditions.{
  Condition, ConditionApi, IsDocumented, condition_true, deployed_condition_type,
  provisioning_condition_type, failed_condition_type,
}
use kogito_operator.Reconciliation.{
  GoError, is_reconciliation_error, get_reason_for_error, error_text,
}
use kogito_operator.Service.Instance.{KogitoService, key_of}
use kogito_operator.Service.Status.{
  StatusClient, StatusState, or_empty, with_conditions, new_failed_condition, replica_conditions,
  failed_and_provisioning, deployed_by_replicas, invalidate_failed_condition, set_failed_conditions,
  handle_condition_transition, update_image_status, update_deployment_status, update_route_status,
  update_status_step, ensure_resources_status_changes,
}
use kogito_operator.Service.Status.Conditions.{
  IsDeployed, IsProvisioning, IsFailed, find-failed_conditions, replica_conditions_lem,
}

-- The conditions that the state holds.
abbrev pub conditions_of : StatusState → List Condition
conditions_of s = or_empty s.instance_state.conditions

module _ (m : ConditionApi) (c : StatusClient) where
  -- A later step leaves the conditions alone.
  conditions_of-update_image_status :
      (s t : StatusState) → update_image_status m c s ≡ next t → conditions_of t ≡ conditions_of s
  unfolding update_image_status
  conditions_of-update_image_status s t h = ground arith

  conditions_of-update_deployment_status :
      (s t : StatusState)
      → update_deployment_status m c s ≡ next t
      → conditions_of t ≡ conditions_of s
  unfolding update_deployment_status
  conditions_of-update_deployment_status s t h = ground arith

  conditions_of-update_route_status :
      (s t : StatusState) → update_route_status m c s ≡ next t → conditions_of t ≡ conditions_of s
  unfolding update_route_status
  conditions_of-update_route_status s t h = ground arith

  update_status_step_lem :
      (s t : StatusState)
      → update_status_step m c s ≡ next t
      → (conditions_of t ≡ conditions_of s) × (t.written ≡ some t.instance_state)
  unfolding update_status_step
  update_status_step_lem s t h = ground arith

  -- The handler's steps behind the conditions, as one step.
  abbrev rest : StatusState → Step GoError StatusState
  rest s1 = update_image_status m c s1 >>= (λ s2.
      update_route_status m c s2
      >>= (λ s3. update_deployment_status m c s3 >>= (λ s4. update_status_step m c s4)))

  rest_lem :
      (s t : StatusState)
      → rest s ≡ next t
      → (conditions_of t ≡ conditions_of s) × (t.written ≡ some t.instance_state)
  rest_lem s t h =
      let (s2, h2, k2) = >>=-eq-next (update_image_status m c s) _ h in
      let (s3, h3, k3) = >>=-eq-next (update_route_status m c s2) _ k2 in
      let (s4, h4, k4) = >>=-eq-next (update_deployment_status m c s3) _ k3 in
      let (kept, w) = update_status_step_lem s4 t k4 in
      (
        kept
            ∙ conditions_of-update_deployment_status s3 s4 h4
            ∙ conditions_of-update_route_status s2 s3 h3
            ∙ conditions_of-update_image_status s s2 h2,
        w,
      )

  -- Both entries of the handler begin with this state.
  abbrev start : KogitoService → StatusState
  start i = record {
    instance_state = record i { conditions = some (or_empty i.conditions) };
    written = none;
  }

  handle_condition_transition_lem :
      (i : KogitoService) (t : StatusState) {expected available : ℕ}
      → i.replicas ≡ some expected
      → fetch_ready_replicas c.deployments (key_of i) ≡ ok available
      → handle_condition_transition m c (start i) ≡ next t
      → conditions_of t
        ≡ replica_conditions m expected available
            (invalidate_failed_condition m (or_empty i.conditions))
  unfolding handle_condition_transition
  handle_condition_transition_lem i t r f h = ground arith

  set_failed_conditions_lem :
      (e : GoError) (i : KogitoService) (t : StatusState) {available : ℕ}
      → fetch_ready_replicas c.deployments (key_of i) ≡ ok available
      → set_failed_conditions m c e (start i) ≡ next t
      → conditions_of t
        ≡ deployed_by_replicas m available (failed_and_provisioning m e (or_empty i.conditions))
  unfolding set_failed_conditions
  set_failed_conditions_lem e i t f h = ground arith

  -- If the replicas cannot be read, the error is returned and no status is written, whether the
  -- reconciliation had an error or not.
  pub ensure_resources_status_changes_unread :
      (e : Option GoError) (i : KogitoService) {x : GoError}
      → fetch_ready_replicas c.deployments (key_of i) ≡ err x
      → (s : StatusState) × (ensure_resources_status_changes m c e i ≡ fail s x)
        × (s.written ≡ none)
  unfolding ensure_resources_status_changes handle_condition_transition set_failed_conditions
  ensure_resources_status_changes_unread none i f = (
    with_conditions (start i) (invalidate_failed_condition m (or_empty i.conditions)),
    ground arith,
    refl,
  )
  ensure_resources_status_changes_unread (some e) i f = (
    with_conditions (start i) (failed_and_provisioning m e (or_empty i.conditions)),
    ground arith,
    refl,
  )

module _ (m : ConditionApi) (L : IsDocumented m) (c : StatusClient) where
  -- A reconciliation without error, whose status update succeeds: the failure is gone, and what is
  -- written is what the instance holds. If no more pods are available than requested, the service
  -- is reported as deployed exactly when all or some are available, and as provisioning exactly
  -- when some are missing. If more are available, both conditions stay as they were.
  pub ensure_resources_status_changes_success :
      (i : KogitoService) (t : StatusState) (expected available : ℕ)
      → i.replicas ≡ some expected
      → fetch_ready_replicas c.deployments (key_of i) ≡ ok available
      → ensure_resources_status_changes m c none i ≡ next t
      → (¬ IsFailed m (conditions_of t))
        × (t.written ≡ some t.instance_state)
        × (((available ≤ expected)
              × (IsDeployed m (conditions_of t) ↔ ((available ≡ expected) ⊎ (0 < available)))
              × (IsProvisioning m (conditions_of t) ↔ (available ≢ expected)))
            ⊎ ((expected < available)
                × (m.find (conditions_of t) deployed_condition_type
                    ≡ m.find (or_empty i.conditions) deployed_condition_type)
                × (m.find (conditions_of t) provisioning_condition_type
                    ≡ m.find (or_empty i.conditions) provisioning_condition_type)))
  unfolding ensure_resources_status_changes
  ensure_resources_status_changes_success i t expected available r f h =
      let (s1, h1, k1) = >>=-eq-next (handle_condition_transition m c (start m c i)) (rest m c) h in
      let (kept, w) = rest_lem m c s1 t k1 in
      let e = kept ∙ handle_condition_transition_lem m c i s1 r f h1 in
      let (a, b, d) = replica_conditions_lem m L expected available (or_empty i.conditions) in
      let few_or_many : (available ≤ expected) ⊎ (expected < available) = ground arith in
      (
        rw e a,
        w,
        elim few_or_many [
          | inl few ↦ let (x, y) = b few in inl (few, rw e x, rw e y)
          | inr many ↦ let (x, y) = d many in inr (many, rw e x, rw e y)
        ],
      )

  -- A reconciliation with an error, whose status update succeeds: the failure is reported with the
  -- error's reason and text, the service is provisioning exactly when the error is one to wait for,
  -- and deployed exactly when a pod is available; this is what is written.
  pub ensure_resources_status_changes_failure :
      (e : GoError) (i : KogitoService) (t : StatusState) (available : ℕ)
      → fetch_ready_replicas c.deployments (key_of i) ≡ ok available
      → ensure_resources_status_changes m c (some e) i ≡ next t
      → (m.find (conditions_of t) failed_condition_type
          ≡ some
              (new_failed_condition condition_true (get_reason_for_error (some e)) (error_text e)))
        × (IsProvisioning m (conditions_of t) ↔ (is_reconciliation_error e ≡ true))
        × (IsDeployed m (conditions_of t) ↔ (0 < available))
        × (t.written ≡ some t.instance_state)
  unfolding ensure_resources_status_changes
  ensure_resources_status_changes_failure e i t available f h =
      let (s1, h1, k1) =
        >>=-eq-next (set_failed_conditions m c e (start m c i)) (update_status_step m c) h in
      let (kept, w) = update_status_step_lem m c s1 t k1 in
      let eq = kept ∙ set_failed_conditions_lem m c e i s1 f h1 in
      let (a, b, d) = find-failed_conditions m L e available (or_empty i.conditions) in
      (rw eq a, rw eq (rw b (λ h. h, λ h. h)), rw eq (rw d (ground arith)), w)
