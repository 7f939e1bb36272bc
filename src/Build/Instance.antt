-- ===== src/Build/Instance.antt =====
-- A KogitoBuild instance (apis/kogitobuild_types.go), an OpenShift build, and the names of both.
use kogito_operator.Common.{String, ◌<>◌, ℕ, Bool, Option, List, is_empty, if◌then◌else◌}
use kogito_operator.Common.Dict.{Dict}
use kogito_operator.Api.Conditions.{Condition}
use kogito_operator.Api.Workloads.{EnvVar}
use kogito_operator.Framework.Owner.{OwnerReference}

-- `buildv1.BuildPhase`; a phase that the operator does not know is `other_phase`.
pub data BuildPhase : Type 0 where
  phase_new phase_pending phase_running phase_complete : BuildPhase
  phase_failed phase_error phase_cancelled : BuildPhase
  other_phase : String → BuildPhase

-- `buildv1.Build`; the creation time in seconds.
pub record Build : Type 0 where
  pub name : String
  pub phase : BuildPhase
  pub message : String
  pub creation_timestamp : ℕ

-- The names of builds by phase (`BuildsInterface`).
pub record Builds : Type 0 where
  pub new : List String
  pub pending : List String
  pub running : List String
  pub complete : List String
  pub failed : List String
  pub error : List String
  pub cancelled : List String

-- `WebHookSecretInterface`
pub record WebHook : Type 0 where
  pub kind : String
  pub secret : String

-- `ArtifactInterface`
pub record Artifact : Type 0 where
  pub group_id : String
  pub artifact_id : String
  pub artifact_version : String

-- The limits of `corev1.ResourceRequirements` as the quantity library gives them: the processor as
-- text, the memory as a number, 0 where there is none.
pub record Limits : Type 0 where
  pub cpu : String
  pub memory : ℕ

pub record KogitoBuild : Type 0 where
  pub name : String
  pub namespace : String
  pub build_type : String
  pub runtime : String
  pub git_uri : String
  pub git_reference : String
  pub context_dir : String
  pub web_hooks : List WebHook
  pub artifact : Artifact
  pub maven_mirror_url : String
  pub enable_maven_download_output : Bool
  pub disable_incremental : Bool
  pub limits : Option Limits
  pub build_image : String
  pub runtime_image : String
  pub native : Bool
  pub target_kogito_runtime : String
  pub env : List EnvVar
  pub conditions : Option (List Condition)
  pub builds : Option Builds
  pub latest_build : String

abbrev pub binary_build_type : String
binary_build_type = "Binary"

abbrev pub remote_source_build_type : String
remote_source_build_type = "RemoteSource"

abbrev pub local_source_build_type : String
local_source_build_type = "LocalSource"

abbrev pub quarkus_runtime_type : String
quarkus_runtime_type = "quarkus"

-- core/kogitobuild: `GetApplicationName`
abbrev pub get_application_name : KogitoBuild → String
get_application_name b =
    if is_empty b.target_kogito_runtime then b.name else b.target_kogito_runtime

-- core/kogitobuild/utils.go: `GetBuildBuilderName`
abbrev pub get_build_builder_name : KogitoBuild → String
get_build_builder_name b = b.name <> "-builder"

-- `corev1.ObjectReference`, with "" for a namespace that is not set.
pub record ObjectReference : Type 0 where
  pub kind : String
  pub namespace : String
  pub name : String

-- `buildv1.BuildTriggerPolicy`
pub data BuildTrigger : Type 0 where
  image_change : ObjectReference → BuildTrigger
  github_web_hook generic_web_hook : String → BuildTrigger

-- `buildv1.BuildSource` with its type, where one is set.
pub data BuildSource : Type 0 where
  no_source binary_source : BuildSource
  git_source : String → String → String → BuildSource  -- context directory, address, reference
  image_source : ObjectReference → String → String → BuildSource  -- destination, source path

-- `buildv1.SourceBuildStrategy`
pub record SourceStrategy : Type 0 where
  pub from_image : ObjectReference
  pub env : List EnvVar
  pub incremental : Option Bool

-- `buildv1.BuildConfig`. Its run policy is always serial.
pub record BuildConfig : Type 0 where
  pub name : String
  pub namespace : String
  pub labels : Dict String
  pub annotations : Dict String
  pub owner_references : List OwnerReference
  pub limits : Option Limits
  pub source : BuildSource
  pub output_to : Option ObjectReference
  pub triggers : List BuildTrigger
  pub strategy : Option SourceStrategy
