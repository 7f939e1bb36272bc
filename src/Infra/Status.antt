-- ===== src/Infra/Status.antt =====
-- core/kogitoinfra/status.go and controllers/common/infra_controller.go: the `Configured` condition
-- of a KogitoInfra, and the reconciliation that ends with it.
use kogito_operator.Common.{
  String, ◌≡◌, refl, ◌∙◌, sym, ap, ◌⊎◌, inl, inr, Bool, true, false, Option, none, some, List, [],
  ◌++◌, Result, ok, err, Step, next, fail, panic, ◌>>=◌, if◌then◌else◌, arith,
}
use kogito_operator.Api.{NamespacedName}
use kogito_operator.Api.Conditions.{
  Condition, ConditionApi, IsDocumented, ConditionStatus, condition_true, condition_false,
  kogito_infra_configured,
}
use kogito_operator.Api.Workloads.{ConfigMap}
use kogito_operator.Client.{Reader}
use kogito_operator.Reconciliation.{GoError, ReconcileResult, zero_result}
use kogito_operator.Manager.Infra.{
  KogitoInfra, InfraHandler, configured_lem, is_kogito_infra_ready,
  get_kogito_infra_failure_condition_reason,
}
use kogito_operator.Infra.Errors.{
  InfraReason, resource_successfully_configured, reconciliation_failure, InfraError, infra_error,
  other, infra_reason_string, infra_error_text, infra_reconcile_result_for,
}
use kogito_operator.Infra.References.{
  InfraSpec, reconcile_config_map_references, reconcile_secret_references,
}

-- `same_status` is `reflect.DeepEqual` on the two statuses.
pub record InfraClient : Type 0 where
  pub deployed : InfraHandler
  pub same_status : KogitoInfra → KogitoInfra → Bool
  pub update_status : KogitoInfra → Option GoError

-- The instance in memory, and the status that the API server has accepted of it, if any.
pub record InfraOutcome : Type 0 where
  pub infra_state : KogitoInfra
  pub infra_written : Option KogitoInfra

abbrev pub or_no_conditions : Option (List Condition) → List Condition
or_no_conditions none = []
or_no_conditions (some cs) = cs

abbrev pub new_configured_condition : ConditionStatus → InfraReason → String → Condition
new_configured_condition status reason message = record {
  kind = kogito_infra_configured;
  status = status;
  reason = infra_reason_string reason;
  message = message;
}

abbrev pub reason_of_error : InfraError → InfraReason
reason_of_error (infra_error r e) = r
reason_of_error (other e) = reconciliation_failure

module _ (m : ConditionApi) where
  unfoldable pub set_resource_failed : List Condition → InfraError → List Condition
  set_resource_failed cs e =
      m.set cs (new_configured_condition condition_false (reason_of_error e) (infra_error_text e))

  unfoldable pub set_resource_success : List Condition → List Condition
  set_resource_success cs =
      m.set cs (new_configured_condition condition_true resource_successfully_configured "")

  unfoldable pub reported : Option InfraError → KogitoInfra → KogitoInfra
  unfolding set_resource_failed set_resource_success
  reported (some e) i = record i {
    conditions = some (set_resource_failed (or_no_conditions i.conditions) e);
  }
  reported none i = record i {
    conditions = some (set_resource_success (or_no_conditions i.conditions));
  }

  module _ (c : InfraClient) where
    -- `isStatusChanged` dereferences the instance that it reads, also where there is none.
    write_changed : KogitoInfra → Result GoError (Option KogitoInfra) → Option InfraOutcome
    write_changed i (err e) = none
    write_changed i (ok none) = none
    write_changed i (ok (some d)) =
        if c.same_status i d
        then some (record { infra_state = i; infra_written = none })
        else some (record {
          infra_state = i;
          infra_written = elim (c.update_status i) [ some _ ↦ none | none ↦ some i ];
        })

    -- `none` is a panic.
    unfoldable pub update_base_status : Option InfraError → KogitoInfra → Option InfraOutcome
    unfolding write_changed reported
    update_base_status e i =
        write_changed (reported e i)
          (c.deployed (record { namespace = i.namespace; name = i.name }))

    write_changed_lem :
        (i : KogitoInfra) (r : Result GoError (Option KogitoInfra)) (o : InfraOutcome)
        → write_changed i r ≡ some o
        → (o.infra_state ≡ i) × ((o.infra_written ≡ none) ⊎ (o.infra_written ≡ some i))
    unfolding write_changed
    write_changed_lem i r o h = ground arith

-- The text of the reason that a status has for an error, and no text for none.
abbrev pub reason_text : Option InfraError → String
reason_text none = ""
reason_text (some e) = infra_reason_string (reason_of_error e)

abbrev pub is_success : Option InfraError → Bool
is_success none = true
is_success (some e) = false

module _ (m : ConditionApi) (L : IsDocumented m) (c : InfraClient) where
  ready_of_reported :
      (e : Option InfraError) (i : KogitoInfra) (fetch : InfraHandler) (key : NamespacedName)
      → fetch key ≡ ok (some (reported m e i))
      → (is_kogito_infra_ready m fetch key ≡ ok (is_success e))
        × (get_kogito_infra_failure_condition_reason m fetch key ≡ ok (reason_text e))
  unfolding reported set_resource_failed set_resource_success
  ready_of_reported none i fetch key f =
      let (ready, reason) = configured_lem m fetch key _ _ f refl in
      (ready ∙ rw L.find-set, reason ∙ rw L.find-set)
  ready_of_reported (some e) i fetch key f =
      let (ready, reason) = configured_lem m fetch key _ _ f refl in
      (ready ∙ rw L.find-set, reason ∙ rw L.find-set)

  -- Once the status of a KogitoInfra is updated without a panic, a service that reads this instance
  -- finds it ready exactly when its reconciliation had no error, and finds as the reason of failure
  -- the reason of that error; what is written, if anything, is this instance.
  pub update_base_status-is_kogito_infra_ready :
      (e : Option InfraError) (i : KogitoInfra) (o : InfraOutcome) (fetch : InfraHandler)
      (key : NamespacedName)
      → update_base_status m c e i ≡ some o
      → fetch key ≡ ok (some o.infra_state)
      → (is_kogito_infra_ready m fetch key ≡ ok (is_success e))
        × (get_kogito_infra_failure_condition_reason m fetch key ≡ ok (reason_text e))
        × ((o.infra_written ≡ none) ⊎ (o.infra_written ≡ some o.infra_state))
  unfolding update_base_status
  update_base_status-is_kogito_infra_ready e i o fetch key h f =
      let (state, w) = write_changed_lem m c _ _ o h in
      let (ready, reason) = ready_of_reported e i fetch key (f ∙ (λ k. ok (some (state k)))) in
      (ready, reason, elim w [ inl n ↦ inl n | inr s ↦ inr (s ∙ sym (ap some state)) ])

-- The steps that depend on the technology of the resource, and that of the infra properties.
pub record InfraSteps : Type 0 where
  pub is_resource_empty : Bool
  pub resource_step : KogitoInfra → Step InfraError KogitoInfra
  pub properties_step : KogitoInfra → Step InfraError KogitoInfra
  pub config_maps : Reader ConfigMap
  pub secrets : Reader ConfigMap

unfoldable pub clear_status : KogitoInfra → KogitoInfra
clear_status i = record i {
  envs = [];
  config_map_env_from_references = [];
  config_map_volume_references = [];
  secret_env_from_references = [];
  secret_volume_references = [];
}

unfoldable pub add_envs : InfraSpec → KogitoInfra → KogitoInfra
add_envs spec i = record i { envs = i.envs ++ spec.spec_envs }

unfoldable pub infra_steps : InfraSteps → InfraSpec → KogitoInfra → Step InfraError KogitoInfra
infra_steps s spec i = do
  i1 ← if s.is_resource_empty then next (clear_status i) else s.resource_step (clear_status i)
  i2 ← s.properties_step i1
  i3 ← reconcile_config_map_references s.config_maps spec (add_envs spec i2)
  reconcile_secret_references s.secrets spec i3

abbrev pub InfraAnswer : Type 0
InfraAnswer = ReconcileResult × Option InfraError

with_answer : InfraAnswer → Option InfraOutcome → Option (InfraAnswer × InfraOutcome)
with_answer a none = none
with_answer a (some o) = some (a, o)

-- The answer to the work queue and what the deferred status update leaves; `none` is a panic.
unfoldable pub reconcile_infra :
    ConditionApi
    → InfraClient
    → InfraSteps
    → InfraSpec
    → KogitoInfra
    → Option (InfraAnswer × InfraOutcome)
unfolding with_answer infra_steps
reconcile_infra m c s spec i = elim (infra_steps s spec i) [
  | next j ↦ with_answer (zero_result, none) (update_base_status m c none j)
  | fail j e ↦
      with_answer (infra_reconcile_result_for (some e) false) (update_base_status m c (some e) j)
  | panic ↦ none
]
