-- ===== src/Build/Status/Laws.antt =====
-- What the conditions of a KogitoBuild say of its latest build.
use kogito_operator.Common.{
  String, ◌≡◌, refl, ◌≢◌, ◌↔◌, ◌⊎◌, Bool, true, false, ◌||◌, none, some, List, [], ◌∷◌, ok, arith,
  ◌∙◌,
}
use kogito_operator.Api.Conditions.{
  Condition, ConditionApi, IsDocumented, is_status_condition_true, kogito_build_successful,
  kogito_build_failure, kogito_build_running,
}
use kogito_operator.Build.Instance.{
  BuildPhase, phase_new, phase_pending, phase_running, phase_complete, phase_failed, phase_error,
  phase_cancelled, other_phase, Build, KogitoBuild,
}
use kogito_operator.Build.Phases.{get_builds_status_by_label, add_builds, no_builds}
use kogito_operator.Build.Status.Sorting.{
  IsLatest, Occurs, Occurs-sort_builds, sort_builds_lem, sort_builds-eq-nil,
}
use kogito_operator.Service.Status.{or_empty}
use kogito_operator.Build.Status.{
  set_successful, set_running, set_build_failed, set_failed_conditions, set_running_conditions,
  set_successful_conditions, add_condition_for, add_condition, sort_builds, BuildClient,
  conditions_for, listed_step, builds_step, handle_condition_transition, handle_status_change,
}

abbrev pub IsRunning : ConditionApi → List Condition → Type 0
IsRunning m cs = is_status_condition_true m cs kogito_build_running ≡ true

abbrev pub IsSuccessful : ConditionApi → List Condition → Type 0
IsSuccessful m cs = is_status_condition_true m cs kogito_build_successful ≡ true

abbrev pub HasFailure : ConditionApi → List Condition → Type 0
HasFailure m cs = is_status_condition_true m cs kogito_build_failure ≡ true

-- The phases for which the status has conditions.
abbrev pub is_reported : BuildPhase → Bool
is_reported phase_error = false
is_reported (other_phase p) = false
is_reported _ = true

abbrev pub is_active : BuildPhase → Bool
is_active phase_new = true
is_active phase_pending = true
is_active phase_running = true
is_active _ = false

abbrev is_complete_phase : BuildPhase → Bool
is_complete_phase phase_complete = true
is_complete_phase _ = false

abbrev is_failed_phase : BuildPhase → Bool
is_failed_phase phase_failed = true
is_failed_phase phase_cancelled = true
is_failed_phase _ = false

complete_iff : (p : BuildPhase) → (is_complete_phase p ≡ true) ↔ (p ≡ phase_complete)
complete_iff phase_complete = ground arith
complete_iff _ = ground arith

failed_iff :
    (p : BuildPhase) (b : Bool)
    → ((is_failed_phase p || b) ≡ true)
      ↔ ((p ≡ phase_failed) ⊎ ((p ≡ phase_cancelled) ⊎ (b ≡ true)))
failed_iff phase_failed b = ground arith
failed_iff _ b = ground arith

module _ (m : ConditionApi) (L : IsDocumented m) where
  -- What each setter leaves of the three conditions.
  abbrev Says : List Condition → Bool → Bool → Bool → Type 0
  Says cs running successful failure =
      (is_status_condition_true m cs kogito_build_running ≡ running)
      × (is_status_condition_true m cs kogito_build_successful ≡ successful)
      × (is_status_condition_true m cs kogito_build_failure ≡ failure)

  abbrev had_failure : List Condition → Bool
  had_failure cs = is_status_condition_true m cs kogito_build_failure

  set_failed_conditions_lem :
      (cs : List Condition) (reason message : String)
      → Says (set_failed_conditions m cs reason message) false false true
  unfolding set_failed_conditions set_build_failed set_running set_successful
  set_failed_conditions_lem cs reason message =
      (rw (L.find-set, L.find-set), rw L.find-set, rw (L.find-set, L.find-set, L.find-set))

  set_running_conditions_lem :
      (cs : List Condition) (reason : String)
      → Says (set_running_conditions m cs reason) true false (had_failure cs)
  unfolding set_running_conditions set_running set_successful
  set_running_conditions_lem cs reason =
      (rw (L.find-set, L.find-set), rw L.find-set, rw (L.find-set, L.find-set))

  set_successful_conditions_lem :
      (cs : List Condition) (reason : String)
      → Says (set_successful_conditions m cs reason) false true (had_failure cs)
  unfolding set_successful_conditions set_running set_successful
  set_successful_conditions_lem cs reason =
      (rw (L.find-set, L.find-set), rw L.find-set, rw (L.find-set, L.find-set))

  add_condition_for_lem :
      (p : BuildPhase) (message : String) (cs : List Condition)
      → is_reported p ≡ true
      → Says
          (add_condition_for m p message cs)
          (is_active p)
          (is_complete_phase p)
          (is_failed_phase p || had_failure cs)
  unfolding add_condition_for
  add_condition_for_lem phase_failed message cs h = set_failed_conditions_lem cs _ message
  add_condition_for_lem phase_cancelled message cs h = set_failed_conditions_lem cs _ message
  add_condition_for_lem phase_new message cs h = set_running_conditions_lem cs _
  add_condition_for_lem phase_pending message cs h = set_running_conditions_lem cs _
  add_condition_for_lem phase_running message cs h = set_running_conditions_lem cs _
  add_condition_for_lem phase_complete message cs h = set_successful_conditions_lem cs _
  add_condition_for_lem phase_error message cs h = cc
  add_condition_for_lem (other_phase p) message cs h = cc

  -- A build in a phase that the status reports: it is running exactly in the phases new, pending
  -- and running, and successful exactly when it is complete. A failure is reported exactly when the
  -- build failed or was cancelled, or when one was reported before.
  pub add_condition_reported :
      (b : Build) (cs : List Condition)
      → is_reported b.phase ≡ true
      → let cs' = add_condition m b cs in
        (IsRunning m cs' ↔ (is_active b.phase ≡ true))
        × (IsSuccessful m cs' ↔ (b.phase ≡ phase_complete))
        × (HasFailure m cs'
            ↔ ((b.phase ≡ phase_failed) ⊎ ((b.phase ≡ phase_cancelled) ⊎ HasFailure m cs)))
  unfolding add_condition
  add_condition_reported b cs h =
      let (r, s, f) = add_condition_for_lem b.phase b.message cs h in
      (
        rw r ((λ q. q, λ q. q)),
        rw s (complete_iff b.phase),
        rw f (failed_iff b.phase (had_failure cs)),
      )

  -- A build in the phase `Error`, or in an unknown one, changes no condition.
  pub add_condition_unreported :
      (b : Build) (cs : List Condition) → is_reported b.phase ≡ false → add_condition m b cs ≡ cs
  unfolding add_condition add_condition_for
  add_condition_unreported b cs h = ground arith

module _ (m : ConditionApi) (c : BuildClient) where
  transition_lem :
      (i : KogitoBuild) (selected items : List Build) (latest : Build) (rest : List Build)
      → c.builds_by_selector i ≡ ok selected
      → ((j : KogitoBuild) → c.builds_by_label j ≡ ok items)
      → sort_builds items ≡ latest ∷ rest
      → ((handle_condition_transition m c i).0.latest_build ≡ latest.name)
        × ((handle_condition_transition m c i).0.conditions
            ≡ some (add_condition m latest (or_empty i.conditions)))
  unfolding handle_condition_transition get_builds_status_by_label
  transition_lem i selected items latest rest f g s =
      let status = add_builds selected no_builds in
      let i1 : KogitoBuild = record i { builds = some status } in
      let e : handle_condition_transition m c i ≡ (conditions_for m c (latest ∷ rest) i1, none) =
        (λ k. builds_step m c (get_builds_status_by_label (f k)) i)
        ∙ (λ k. listed_step m c (g i1 k) i1)
        ∙ (λ k. (conditions_for m c (s k) i1, none)) in
      (λ k. (e k).0.latest_build, λ k. (e k).0.conditions)

  -- A status change without error, where the builds can be listed and there is one: the latest build
  -- of the instance is one of the label's builds that no other of them is later than, and the
  -- conditions are those of this build.
  pub handle_status_change-IsLatest :
      (i : KogitoBuild) (selected items : List Build)
      → c.builds_by_selector (record i { conditions = some (or_empty i.conditions) }) ≡ ok selected
      → ((j : KogitoBuild) → c.builds_by_label j ≡ ok items)
      → items ≢ []
      → (latest : Build) × Occurs latest items
        × IsLatest latest items
        × ((handle_status_change m c i none).0.latest_build ≡ latest.name)
        × ((handle_status_change m c i none).0.conditions
            ≡ some (add_condition m latest (or_empty i.conditions)))
  unfolding handle_status_change handle_condition_transition
  handle_status_change-IsLatest i selected items f g ne = by_head (sort_builds items) refl
    where
      i0 : KogitoBuild
      i0 = record i { conditions = some (or_empty i.conditions) }

      by_head :
          (sorted : List Build)
          → sort_builds items ≡ sorted
          → (latest : Build) × Occurs latest items
            × IsLatest latest items
            × ((handle_condition_transition m c i0).0.latest_build ≡ latest.name)
            × ((handle_condition_transition m c i0).0.conditions
                ≡ some (add_condition m latest (or_empty i.conditions)))
      by_head [] s = absurd (ne (sort_builds-eq-nil items s))
      by_head (latest ∷ rest) s =
          let (named, conditions) = transition_lem i0 selected items latest rest f g s in
          (
            latest,
            Occurs-sort_builds items latest rest s,
            sort_builds_lem items latest rest s,
            named,
            conditions,
          )
