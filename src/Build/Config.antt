-- ===== src/Build/Config.antt =====
-- core/kogitobuild/build_config.go and decorator.go: the build configurations of a KogitoBuild.
use Prim.Native.Char.{code}
use kogito_operator.Common.{
  String, ◌<>◌, ℕ, Bool, true, false, Option, none, some, List, [], ◌∷◌, ◌++◌, if◌then◌else◌,
  is_empty, ◌&&◌, ◌==◌, Step, next, panic, ◌>>=◌, ltb, nat_eq, not,
}
use kogito_operator.Common.Dict.{Dict}
use kogito_operator.Reconciliation.{GoError}
use kogito_operator.Api.Workloads.{EnvVar}
use kogito_operator.Framework.EnvVar.{env_override}
use kogito_operator.Framework.Collections.{append_to_string_map}
use kogito_operator.Processing.{kogito_operator_version_annotation}
use kogito_operator.Images.Version.{latest_tag}
use kogito_operator.Images.Names.{slash}
use kogito_operator.Build.Instance.{
  KogitoBuild, WebHook, BuildConfig, ObjectReference, BuildTrigger, image_change, github_web_hook,
  generic_web_hook, no_source, binary_source, git_source, image_source, SourceStrategy,
  get_build_builder_name, get_application_name, quarkus_runtime_type,
}

-- kindImageStreamTag
abbrev pub kind_image_stream_tag : String
kind_image_stream_tag = "ImageStreamTag"

-- framework.LabelAppKey and LabelKeyBuildType
abbrev pub label_app_key : String
label_app_key = "app"

abbrev pub label_key_build_type : String
label_key_build_type = "buildType"

-- runnerSourcePath
abbrev pub runner_source_path : String
runner_source_path = "/home/kogito/bin"

-- A decorator mutates the configuration; a nil strategy that it dereferences panics.
abbrev pub Decorator : Type 0
Decorator = KogitoBuild → BuildConfig → Step GoError BuildConfig

abbrev env_of : String → String → EnvVar
env_of name value = record { name = name; value = value; value_from = none }

-- `EnvOverride` with one variable, if the condition holds.
abbrev override_if : Bool → String → String → List EnvVar → List EnvVar
override_if b name value envs = if b then env_override envs (env_of name value ∷ []) else envs

abbrev pub tag_reference : String → String → ObjectReference
tag_reference namespace name = record {
  kind = kind_image_stream_tag;
  namespace = namespace;
  name = name;
}

abbrev pub get_builder_image_stream_output_to : KogitoBuild → ObjectReference
get_builder_image_stream_output_to b =
    tag_reference "" (get_build_builder_name b <> (":" <> latest_tag))

-- `strings.TrimSuffix(s, "/")`: one slash at the end is taken off.
unfoldable pub trim_slash : String → String
trim_slash String.[] = ""
trim_slash (String.◌∷◌ c s) =
    let rest = trim_slash s in
    if is_empty s && nat_eq (code c) (code slash) then "" else String.◌∷◌ c rest

trigger_of : WebHook → BuildTrigger
trigger_of hook =
    if hook.kind == "GitHub" then github_web_hook hook.secret else generic_web_hook hook.secret

triggers_of : List WebHook → List BuildTrigger
unfolding trigger_of
triggers_of [] = []
triggers_of (hook ∷ hooks) = trigger_of hook ∷ triggers_of hooks

unfoldable pub decorator_for_remote_source_builder : Decorator
unfolding triggers_of
decorator_for_remote_source_builder b bc = next (record bc {
  source = git_source (trim_slash b.context_dir) b.git_uri b.git_reference;
  triggers = bc.triggers ++ triggers_of b.web_hooks;
})

-- `append(SourceStrategy.Env, envs...)`
append_env : List EnvVar → BuildConfig → Option SourceStrategy → Step GoError BuildConfig
append_env envs bc none = panic
append_env envs bc (some strategy) =
    next (record bc { strategy = some (record strategy { env = strategy.env ++ envs }) })

-- The Maven coordinates that are set.
artifact_envs : KogitoBuild → List EnvVar
artifact_envs b =
    override_if (not (is_empty b.artifact.artifact_version)) "PROJECT_VERSION"
      b.artifact.artifact_version
      (override_if (not (is_empty b.artifact.artifact_id)) "PROJECT_ARTIFACT_ID"
        b.artifact.artifact_id
        (override_if (not (is_empty b.artifact.group_id)) "PROJECT_GROUP_ID" b.artifact.group_id
          []))

abbrev as_binary : BuildConfig → Step GoError BuildConfig
as_binary bc = next (record bc { source = binary_source; triggers = [] })

unfoldable pub decorator_for_local_source_builder : Decorator
unfolding append_env artifact_envs
decorator_for_local_source_builder b bc = append_env (artifact_envs b) bc bc.strategy >>= as_binary

-- `format_int` is `strconv.FormatInt` with base 10.
module _ (format_int : ℕ → String) where
  unfoldable pub get_builder_limits_as_int_string : BuildConfig → String × String
  get_builder_limits_as_int_string bc = elim bc.limits [
    | none ↦ ("", "")
    | some limits ↦ (limits.cpu, if ltb 0 limits.memory then format_int limits.memory else "")
  ]

  format_bool : Bool → String
  format_bool true = "true"
  format_bool false = "false"

  unfoldable pub builder_envs : KogitoBuild → String × String → List EnvVar
  unfolding format_bool
  builder_envs b (limit_cpu, limit_memory) =
      let native =
        override_if (b.runtime == quarkus_runtime_type) "NATIVE" (format_bool b.native) b.env in
      let limited =
        env_override (env_override native (env_of "LIMIT_CPU" limit_cpu ∷ []))
          (env_of "LIMIT_MEMORY" limit_memory ∷ []) in
      let mirrored =
        override_if (not (is_empty b.maven_mirror_url)) "MAVEN_MIRROR_URL" b.maven_mirror_url
          limited in
      override_if b.enable_maven_download_output "MAVEN_DOWNLOAD_OUTPUT"
        (format_bool b.enable_maven_download_output) mirrored

  -- `base_image` is `ResolveKogitoImageStreamTagName(build, true)`.
  unfoldable pub decorator_for_source_builder : (KogitoBuild → String) → Decorator
  decorator_for_source_builder base_image b bc =
      let from : ObjectReference = tag_reference b.namespace (base_image b) in
      next (record bc {
        name = get_build_builder_name b;
        output_to = some (get_builder_image_stream_output_to b);
        triggers = image_change from ∷ [];
        strategy = some (record {
          from_image = from;
          env = builder_envs b (get_builder_limits_as_int_string bc);
          incremental = some (not b.disable_incremental);
        });
      })

unfoldable pub decorator_for_binary_runtime_builder : Decorator
unfolding append_env
decorator_for_binary_runtime_builder b bc =
    append_env (env_of "BINARY_BUILD" "true" ∷ []) bc bc.strategy >>= as_binary

unfoldable pub decorator_for_source_runtime_builder : Decorator
decorator_for_source_runtime_builder b bc =
    let from : ObjectReference = get_builder_image_stream_output_to b in
    next (record bc {
      source = image_source from "." runner_source_path;
      triggers = image_change from ∷ [];
    })

-- `base_image` is `ResolveKogitoImageStreamTagName(build, false)`.
unfoldable pub decorator_for_runtime_builder : (KogitoBuild → String) → Decorator
decorator_for_runtime_builder base_image b bc = next (record bc {
  name = b.name;
  output_to = some (tag_reference "" (get_application_name b <> (":" <> latest_tag)));
  strategy = some (record {
    from_image = tag_reference b.namespace (base_image b);
    env = b.env;
    incremental = none;
  });
})

-- `labels` is the operator's `Context.Labels`.
unfoldable pub decorator_for_custom_labels : Dict String → Decorator
decorator_for_custom_labels labels b bc =
    next (record bc { labels = append_to_string_map labels bc.labels })

decorate_all : KogitoBuild → List Decorator → BuildConfig → Step GoError BuildConfig
decorate_all b [] bc = next bc
decorate_all b (d ∷ decorators) bc = d b bc >>= decorate_all b decorators

-- `version` is the operator's.
unfoldable pub new_build_config : String → KogitoBuild → List Decorator → Step GoError BuildConfig
unfolding decorate_all
new_build_config version b decorators = decorate_all b decorators (record {
  name = "";
  namespace = b.namespace;
  labels = (label_key_build_type, b.build_type) ∷ ((label_app_key, get_application_name b) ∷ []);
  owner_references = [];
  annotations = (kogito_operator_version_annotation, version) ∷ [];
  limits = b.limits;
  source = no_source;
  output_to = none;
  triggers = [];
  strategy = none;
})
