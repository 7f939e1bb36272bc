-- ===== src/Tests/Requests.antt =====
-- Runs of checking a KogitoBuild and of starting its build again.
use kogito_operator.Common.{false, none, [], ◌∷◌, ok}
use kogito_operator.Build.Instance.{
  phase_running, phase_complete, Build, KogitoBuild, BuildConfig, binary_source,
}
use kogito_operator.Build.Request.{
  BuildEvents, TriggerClient, new_delta_processor, has_runtime, has_runtime-new_delta_processor,
  start_new_build,
}
use kogito_operator.Tests.Fixtures.{ended, reading}

abbrev pub app_build : KogitoBuild
app_build = record {
  name = "app";
  namespace = "apps";
  build_type = "Binary";
  runtime = "";
  git_uri = "";
  git_reference = "";
  context_dir = "";
  web_hooks = [];
  artifact = record { group_id = ""; artifact_id = ""; artifact_version = "" };
  maven_mirror_url = "";
  enable_maven_download_output = false;
  disable_incremental = false;
  limits = none;
  build_image = "";
  runtime_image = "";
  native = false;
  target_kogito_runtime = "";
  env = [];
  conditions = none;
  builds = none;
  latest_build = "";
}

abbrev done_build : Build
done_build = record {
  name = "app-2";
  phase = phase_complete;
  message = "";
  creation_timestamp = 20;
}

abbrev pub app_config : BuildConfig
app_config = record {
  name = "app-builder";
  namespace = "apps";
  labels = [];
  owner_references = [];
  annotations = [];
  limits = none;
  source = binary_source;
  output_to = none;
  triggers = [];
  strategy = none;
}

abbrev running_build : Build
running_build = record done_build { phase = phase_running }

abbrev pub trigger_client : TriggerClient
trigger_client = record {
  build_configs = reading "app-builder" app_config;
  list_builds = λ bc. ok (done_build ∷ (running_build ∷ (running_build ∷ [])));
  cancel = λ b. none;
  instantiate = λ bc. none;
}

abbrev pub no_events : BuildEvents
no_events = record { cancelled = []; triggered = [] }

abbrev events : BuildEvents
events = ended no_events (start_new_build trigger_client app_config no_events)
