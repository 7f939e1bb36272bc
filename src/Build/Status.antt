-- ===== src/Build/Status.antt =====
-- core/kogitobuild/status.go: the status of a KogitoBuild.
pub mod Sorting
pub mod Laws
use mathlib.Core.Option
use kogito_operator.Common.{
  String, ℕ, Bool, true, false, Option, none, some, List, [], ◌∷◌, Result, ok, err, ltb,
  if◌then◌else◌,
}
use kogito_operator.Api.Conditions.{
  Condition, ConditionApi, ConditionStatus, condition_true, condition_false,
  kogito_build_successful, kogito_build_failure, kogito_build_running,
}
use kogito_operator.Reconciliation.{GoError, error_text}
use kogito_operator.Build.Instance.{
  BuildPhase, phase_new, phase_pending, phase_running, phase_complete, phase_failed, phase_error,
  phase_cancelled, other_phase, Build, Builds, KogitoBuild,
}
use kogito_operator.Build.Phases.{get_builds_status_by_label}
use kogito_operator.Service.Status.{or_empty}

-- `buildConditionReason`, with the map's zero value for an unknown phase.
abbrev pub build_condition_reason : BuildPhase → String
build_condition_reason phase_error = "Error"
build_condition_reason phase_failed = "Failed"
build_condition_reason phase_cancelled = "Cancelled"
build_condition_reason phase_new = "New"
build_condition_reason phase_pending = "Pending"
build_condition_reason phase_running = "Running"
build_condition_reason phase_complete = "Complete"
build_condition_reason (other_phase p) = ""

abbrev pub operator_failure_reason : String
operator_failure_reason = "OperatorFailure"

abbrev pub build_not_started_reason : String
build_not_started_reason = "NotYetStarted"

abbrev pub new_successful_condition : ConditionStatus → String → Condition
new_successful_condition status reason = record {
  kind = kogito_build_successful;
  status = status;
  reason = reason;
  message = "";
}

abbrev pub new_running_condition : ConditionStatus → String → Condition
new_running_condition status reason = record {
  kind = kogito_build_running;
  status = status;
  reason = reason;
  message = "";
}

abbrev pub new_build_failed_condition : String → String → Condition
new_build_failed_condition reason message = record {
  kind = kogito_build_failure;
  status = condition_true;
  reason = reason;
  message = message;
}

module _ (m : ConditionApi) where
  unfoldable pub set_successful : List Condition → ConditionStatus → String → List Condition
  set_successful cs status reason = m.set cs (new_successful_condition status reason)

  unfoldable pub set_running : List Condition → ConditionStatus → String → List Condition
  set_running cs status reason = m.set cs (new_running_condition status reason)

  unfoldable pub set_build_failed : List Condition → String → String → List Condition
  set_build_failed cs reason message = m.set cs (new_build_failed_condition reason message)

  unfoldable pub set_failed_conditions : List Condition → String → String → List Condition
  set_failed_conditions cs reason message =
      set_successful (set_running (set_build_failed cs reason message) condition_false reason)
        condition_false reason

  unfoldable pub set_running_conditions : List Condition → String → List Condition
  set_running_conditions cs reason =
      set_successful (set_running cs condition_true reason) condition_false reason

  unfoldable pub set_successful_conditions : List Condition → String → List Condition
  set_successful_conditions cs reason =
      set_successful (set_running cs condition_false reason) condition_true reason

  -- The `switch` has no case for the phase `Error`, nor for an unknown one.
  unfoldable pub add_condition_for : BuildPhase → String → List Condition → List Condition
  add_condition_for phase_failed message cs =
      set_failed_conditions cs (build_condition_reason phase_failed) message
  add_condition_for phase_cancelled message cs =
      set_failed_conditions cs (build_condition_reason phase_cancelled) message
  add_condition_for phase_new message cs =
      set_running_conditions cs (build_condition_reason phase_new)
  add_condition_for phase_pending message cs =
      set_running_conditions cs (build_condition_reason phase_pending)
  add_condition_for phase_running message cs =
      set_running_conditions cs (build_condition_reason phase_running)
  add_condition_for phase_complete message cs =
      set_successful_conditions cs (build_condition_reason phase_complete)
  add_condition_for phase_error message cs = cs
  add_condition_for (other_phase p) message cs = cs

  unfoldable pub add_condition : Build → List Condition → List Condition
  add_condition build cs = add_condition_for build.phase build.message cs

-- `sort.SliceStable`, the latest creation first: `b` goes behind the builds that are not earlier.
insert_build : Build → List Build → List Build
insert_build b [] = b ∷ []
insert_build b (x ∷ xs) =
    if ltb x.creation_timestamp b.creation_timestamp then b ∷ x ∷ xs else x ∷ insert_build b xs

insert_builds : List Build → List Build → List Build
unfolding insert_build
insert_builds sorted [] = sorted
insert_builds sorted (b ∷ items) = insert_builds (insert_build b sorted) items

unfoldable pub sort_builds : List Build → List Build
unfolding insert_builds
sort_builds items = insert_builds [] items

-- The answers of the API server: the builds by label through the build client and through the
-- resource client, and the update of the status.
pub record BuildClient : Type 0 where
  pub builds_by_selector : KogitoBuild → Result GoError (List Build)
  pub builds_by_label : KogitoBuild → Result GoError (List Build)
  pub update_status : KogitoBuild → Option GoError

module _ (m : ConditionApi) (c : BuildClient) where
  conditions_for : List Build → KogitoBuild → KogitoBuild
  conditions_for [] i = record i {
    conditions = some (set_running_conditions m (or_empty i.conditions) build_not_started_reason);
  }
  conditions_for (latest ∷ _) i = record i {
    latest_build = latest.name;
    conditions = some (add_condition m latest (or_empty i.conditions));
  }

  listed_step : Result GoError (List Build) → KogitoBuild → KogitoBuild × Option GoError
  unfolding conditions_for
  listed_step (err e) i = (i, some e)
  listed_step (ok items) i = (conditions_for (sort_builds items) i, none)

  builds_step : Result GoError Builds → KogitoBuild → KogitoBuild × Option GoError
  unfolding listed_step
  builds_step (err e) i = (i, some e)
  builds_step (ok status) i =
      listed_step (c.builds_by_label (record i { builds = some status }))
        (record i { builds = some status })

  unfoldable pub handle_condition_transition : KogitoBuild → KogitoBuild × Option GoError
  unfolding builds_step
  handle_condition_transition i =
      builds_step (get_builds_status_by_label (c.builds_by_selector i)) i

  -- The errors of the transition and of the update are only logged. The result is the instance and
  -- what the API server has accepted of it.
  unfoldable pub handle_status_change :
      KogitoBuild → Option GoError → KogitoBuild × Option KogitoBuild
  handle_status_change i e =
      let i0 : KogitoBuild = record i { conditions = some (or_empty i.conditions) } in
      let i1 : KogitoBuild = elim e [
        | some x ↦ record i0 {
          conditions = some (
              set_failed_conditions m (or_empty i.conditions) operator_failure_reason
                (error_text x));
        }
        | none ↦ (handle_condition_transition i0).0
      ] in
      (i1, elim (c.update_status i1) [ some _ ↦ none | none ↦ some i1 ])
