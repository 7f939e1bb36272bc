-- ===== src/Tests/Builds.antt =====
-- Runs of the build controller's parts.
use kogito_operator.Common.{
  String, ℕ, ◌≡◌, refl, ◌↔◌, ◌⊎◌, Bool, true, false, any, Option, none, some, List, [], ◌∷◌, ◌++◌,
  ok, if◌then◌else◌, ltb,
}
use kogito_operator.Api.Conditions.{Condition, listed, listed-IsDocumented}
use kogito_operator.Reconciliation.{GoError}
use kogito_operator.Build.Instance.{
  phase_complete, phase_failed, phase_cancelled, other_phase, Build, KogitoBuild,
}
use kogito_operator.Build.Phases.{
  get_builds_status_by_label, get_builds_status_by_label_lem, names_where,
}
use kogito_operator.Build.Status.{BuildClient, add_condition, handle_status_change}
use kogito_operator.Build.Status.Laws.{
  IsRunning, IsSuccessful, HasFailure, add_condition_reported, add_condition_unreported,
  handle_status_change-IsLatest,
}
use kogito_operator.Build.Status.Sorting.{IsLatest, Occurs}
use kogito_operator.Build.Retries.{
  Attempts, Answers, wait_for_build_config, wait_for_build_config_lem,
}
use kogito_operator.Delta.{
  ResourceDelta, created, updated_to, deleted, DeltaClient, DeltaState, process_delta,
  process_delta_lem,
}
use kogito_operator.Tests.Fixtures.{ended, missing}

abbrev first_build : Build
first_build = record {
  name = "app-1";
  phase = phase_failed;
  message = "boom";
  creation_timestamp = 10;
}

abbrev second_build : Build
second_build = record {
  name = "app-2";
  phase = phase_complete;
  message = "";
  creation_timestamp = 20;
}

abbrev odd_build : Build
odd_build = record {
  name = "app-3";
  phase = other_phase "Paused";
  message = "";
  creation_timestamp = 5;
}

abbrev build_list : List Build
build_list = first_build ∷ (second_build ∷ (odd_build ∷ []))

abbrev app_build : KogitoBuild
app_build = record {
  name = "app";
  namespace = "apps";
  build_type = "Binary";
  runtime = "quarkus";
  git_uri = "";
  git_reference = "";
  context_dir = "";
  web_hooks = [];
  artifact = record { group_id = ""; artifact_id = ""; artifact_version = "" };
  maven_mirror_url = "";
  enable_maven_download_output = false;
  disable_incremental = false;
  limits = none;
  build_image = "";
  runtime_image = "";
  native = false;
  target_kogito_runtime = "";
  env = [];
  conditions = none;
  builds = none;
  latest_build = "";
}

abbrev builds_cluster : BuildClient
builds_cluster = record {
  builds_by_selector = λ i. ok build_list;
  builds_by_label = λ i. ok build_list;
  update_status = λ i. none;
}

handle_status_change-IsLatest_example :
    (latest : Build) × Occurs latest build_list
    × IsLatest latest build_list
    × ((handle_status_change listed builds_cluster app_build none).0.latest_build ≡ latest.name)
    × ((handle_status_change listed builds_cluster app_build none).0.conditions
        ≡ some (add_condition listed latest []))
handle_status_change-IsLatest_example =
    handle_status_change-IsLatest listed builds_cluster app_build build_list build_list refl
      (λ j. refl) (λ h. cc)

abbrev failed_before : List Condition
failed_before = add_condition listed first_build []

add_condition_reported_example :
    (IsRunning listed (add_condition listed second_build failed_before) ↔ (false ≡ true))
    × (IsSuccessful listed (add_condition listed second_build failed_before)
        ↔ (phase_complete ≡ phase_complete))
    × (HasFailure listed (add_condition listed second_build failed_before) ↔ (
        (phase_complete ≡ phase_failed)
        ⊎ ((phase_complete ≡ phase_cancelled) ⊎ HasFailure listed failed_before)))
add_condition_reported_example =
    add_condition_reported listed listed-IsDocumented second_build failed_before refl

add_condition_unreported_example : add_condition listed odd_build failed_before ≡ failed_before
add_condition_unreported_example =
    add_condition_unreported listed listed-IsDocumented odd_build failed_before refl

get_builds_status_by_label_lem_example :
    get_builds_status_by_label (ok build_list)
    ≡ ok (record {
      new = "app-3" ∷ [];
      pending = [];
      running = [];
      complete = "app-2" ∷ [];
      failed = "app-1" ∷ [];
      error = [];
      cancelled = [];
    })
unfolding names_where
get_builds_status_by_label_lem_example = get_builds_status_by_label_lem build_list

-- Two attempts fail, the third one succeeds.
abbrev third_succeeds : ℕ → Option GoError
third_succeeds i = if ltb i 2 then some missing else none

abbrev report_last : ℕ → GoError → GoError
report_last retries e = e

wait_for_build_config_lem_example :
    (a : Attempts) × (wait_for_build_config report_last third_succeeds 5 ≡ some a)
    × Answers third_succeeds 5 0 a
wait_for_build_config_lem_example = wait_for_build_config_lem report_last third_succeeds 5

abbrev map_delta : ResourceDelta String
map_delta = record {
  resource_type = "ConfigMap";
  added = "a" ∷ [];
  updated = "b" ∷ [];
  removed = [];
}

abbrev empty_delta : ResourceDelta String
empty_delta = record { resource_type = "Secret"; added = []; updated = []; removed = [] }

abbrev has_any : ResourceDelta String → Bool
has_any d = any (λ x. true) (d.added ++ (d.updated ++ d.removed))

abbrev accepting : DeltaClient String
accepting = record {
  has_changes = has_any;
  create_resources = λ l. none;
  update_resources = λ l. none;
  delete_resources = λ l. none;
}

abbrev untouched : DeltaState String
untouched = record { writes = []; is_delta_processed = false }

abbrev delta_list : List (ResourceDelta String)
delta_list = empty_delta ∷ (map_delta ∷ [])

abbrev processed : DeltaState String
processed = ended untouched (process_delta accepting delta_list untouched)

process_delta_lem_example :
    (processed.writes ≡ created ("a" ∷ []) ∷ (updated_to ("b" ∷ []) ∷ (deleted [] ∷ [])))
    × (processed.is_delta_processed ≡ true)
unfolding process_delta
process_delta_lem_example = process_delta_lem accepting delta_list untouched processed refl
