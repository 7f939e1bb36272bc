-- ===== src/Build/Request.antt =====
-- core/kogitobuild/build_manager.go, trigger.go and build.go: checking a KogitoBuild and starting
-- its build again when its build configuration has changed.
pub mod Laws
use mathlib.Core.List.{append-nil}
use kogito_operator.Common.{
  String, ◌<>◌, ◌≡◌, refl, ◌∙◌, ◌≢◌, ◌↔◌, ◌⊎◌, inl, inr, Bool, true, false, ◌&&◌, ◌||◌, not, Option,
  none, some, List, [], ◌∷◌, ◌++◌, Result, ok, err, Step, next, fail, panic, ◌>>=◌, >>=-eq-next,
  next_injective, is_empty, ◌==◌, if◌then◌else◌, arith, eq_iff, Bool-cases, sym, ap,
}
use kogito_operator.Api.{NamespacedName}
use kogito_operator.Client.{Reader, fetch_with_key}
use kogito_operator.Reconciliation.{GoError, plain}
use kogito_operator.Build.Instance.{
  BuildPhase, phase_new, phase_pending, phase_running, phase_complete, phase_failed, phase_error,
  phase_cancelled, other_phase, Build, KogitoBuild, remote_source_build_type,
  local_source_build_type, quarkus_runtime_type, BuildConfig, get_build_builder_name,
}

abbrev error_prefix : String
error_prefix = "error while creating build resources: "

unfoldable pub set_defaults : KogitoBuild → KogitoBuild
set_defaults b = if is_empty b.runtime then record b { runtime = quarkus_runtime_type } else b

unfoldable pub sanity_check : KogitoBuild → Option GoError
sanity_check b =
    if is_empty b.build_type
    then some (plain (error_prefix <> ": build Type is required"))
    else if (b.build_type == remote_source_build_type) && is_empty b.git_uri
    then some (
        plain (
          error_prefix
          <> (": Git URL is required when build type is " <> remote_source_build_type)))
    else none

-- `NewDeltaProcessor`, with the build that the processor works on.
unfoldable pub new_delta_processor : KogitoBuild → Result GoError KogitoBuild
new_delta_processor b = elim (sanity_check (set_defaults b)) [
  | some e ↦ err e
  | none ↦ ok (set_defaults b)
]

abbrev pub has_runtime : Result GoError KogitoBuild → Bool
has_runtime (err e) = false
has_runtime (ok b) = not (is_empty b.runtime)

set_defaults_lem :
    (b : KogitoBuild)
    → ((set_defaults b).build_type ≡ b.build_type)
      × ((set_defaults b).git_uri ≡ b.git_uri)
      × (is_empty (set_defaults b).runtime ≡ false)
unfolding set_defaults
set_defaults_lem b = elim (Bool-cases (is_empty b.runtime)) [
  | inl e ↦ (rw e, rw e, rw e)
  | inr e ↦ (rw e, rw e, rw (e, e))
]

-- A delta processor, whose build then has a runtime, is made exactly for the builds that have a
-- type, and where the type is that of a remote source also a Git address.
pub has_runtime-new_delta_processor :
    (b : KogitoBuild)
    → (has_runtime (new_delta_processor b) ≡ true)
      ↔ ((b.build_type ≢ "") × ((b.build_type ≢ remote_source_build_type) ⊎ (b.git_uri ≢ "")))
unfolding new_delta_processor sanity_check
has_runtime-new_delta_processor b =
    let (same_type, same_uri, filled) = set_defaults_lem b in
    ground (
      arith,
      same_type,
      same_uri,
      filled,
      eq_iff (set_defaults b).build_type "",
      eq_iff (set_defaults b).build_type remote_source_build_type,
      eq_iff (set_defaults b).git_uri "",
    )

-- `cancel` is the answer to the two polls that cancel one build, `instantiate` the API server's.
pub record TriggerClient : Type 0 where
  pub build_configs : Reader BuildConfig
  pub list_builds : BuildConfig → Result GoError (List Build)
  pub cancel : Build → Option GoError
  pub instantiate : BuildConfig → Option GoError

-- The names of the builds that were cancelled and of the configurations that were instantiated.
pub record BuildEvents : Type 0 where
  pub cancelled : List String
  pub triggered : List String

abbrev pub is_active_phase : BuildPhase → Bool
is_active_phase phase_new = true
is_active_phase phase_pending = true
is_active_phase phase_running = true
is_active_phase _ = false

module _ (c : TriggerClient) where
  -- `exists, err` of `checkBuildConfigExists`.
  unfoldable pub check_build_config_exists : BuildConfig → Bool × Option GoError
  check_build_config_exists bc =
      elim (fetch_with_key c.build_configs (record { namespace = bc.namespace; name = bc.name })) [
        | ok (some _) ↦ (true, none)
        | ok none ↦ (false, none)
        | err e ↦ (false, some e)
      ]

  instantiated : BuildConfig → BuildEvents → Option GoError → Step GoError BuildEvents
  instantiated bc s (some e) = fail s e
  instantiated bc s none = next (record s { triggered = s.triggered ++ (bc.name ∷ []) })

  trigger_checked : BuildConfig → BuildEvents → Bool × Option GoError → Step GoError BuildEvents
  unfolding instantiated
  trigger_checked bc s (true, e) = instantiated bc s (c.instantiate bc)
  trigger_checked bc s (false, some e) = fail s e
  trigger_checked bc s (false, none) = next s

  -- `TriggerBuild`; its first result, which `StartNewBuild` drops, is left out. Its `recover` is for
  -- the panic of a fake client, and has nothing to do where `instantiate` answers.
  unfoldable pub trigger_build : BuildConfig → BuildEvents → Step GoError BuildEvents
  unfolding trigger_checked
  trigger_build bc s = trigger_checked bc s (check_build_config_exists bc)

  cancelled_step : Build → BuildEvents → Option GoError → Step GoError BuildEvents
  cancelled_step b s (some e) = fail s e
  cancelled_step b s none = next (record s { cancelled = s.cancelled ++ (b.name ∷ []) })

  -- The `return` stands in the loop.
  cancel_first : List Build → BuildEvents → Step GoError BuildEvents
  unfolding cancelled_step
  cancel_first [] s = next s
  cancel_first (b ∷ items) s =
      let rest = cancel_first items s in
      if is_active_phase b.phase then cancelled_step b s (c.cancel b) else rest

  cancel_listed : Result GoError (List Build) → BuildEvents → Step GoError BuildEvents
  unfolding cancel_first
  cancel_listed (err e) s = fail s e
  cancel_listed (ok items) s = cancel_first items s

  unfoldable pub cancel_running_builds : BuildConfig → BuildEvents → Step GoError BuildEvents
  unfolding cancel_listed
  cancel_running_builds bc s = cancel_listed (c.list_builds bc) s

  unfoldable pub start_new_build : BuildConfig → BuildEvents → Step GoError BuildEvents
  start_new_build bc s = cancel_running_builds bc s >>= trigger_build bc

  restart_named : String → List BuildConfig → BuildEvents → Step GoError BuildEvents
  restart_named builder [] s = next s
  restart_named builder (bc ∷ build_configs) s =
      (if bc.name == builder then start_new_build bc s else next s)
      >>= restart_named builder build_configs

  unfoldable pub on_build_config_change :
      KogitoBuild → List BuildConfig → BuildEvents → Step GoError BuildEvents
  unfolding restart_named
  on_build_config_change b build_configs s =
      if (b.build_type == remote_source_build_type) || (b.build_type == local_source_build_type)
      then restart_named (get_build_builder_name b) build_configs s
      else next s
