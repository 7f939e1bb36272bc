-- ===== src/Build/Controller/Env.antt =====
-- controllers/common/build_controller.go: what a reconciliation sees and does, and the defaults that it
-- sets.
use kogito_operator.Common.{String, ℕ, ◌*◌, List, [], ◌∷◌, if◌then◌else◌, is_empty, Result}
use kogito_operator.Common.Dict.{Dict}
use kogito_operator.Reconciliation.{GoError, second}
use kogito_operator.Delta.{ResourceDelta, DeltaClient}
use kogito_operator.Framework.EnvVar.{env_override, create_env_var}
use kogito_operator.Images.Streams.{ImageStream}
use kogito_operator.Build.Instance.{
  KogitoBuild, BuildConfig, quarkus_runtime_type, get_application_name,
}
use kogito_operator.Build.Streams.{StreamServer, StreamWrites}
use kogito_operator.Build.Request.{TriggerClient}
use kogito_operator.Build.Managers.{BuildCluster, BuildResources}
use kogito_operator.Build.Process.{BuildObject, BuildProgress}

-- The cluster as one reconciliation sees it: what is deployed for a build, and the comparison of
-- that with what it requests.
pub record BuildEnv : Type 0 where
  pub cluster : BuildCluster
  pub server : StreamServer
  pub deployed : KogitoBuild → Result GoError (List BuildConfig × List ImageStream)
  pub compare :
      BuildResources → List BuildConfig × List ImageStream → List (ResourceDelta BuildObject)
  pub delta_client : DeltaClient BuildObject
  pub triggers : TriggerClient

-- What a reconciliation has done: the streams that it created, the resources that it asked for, and
-- the writes and builds of its deltas.
pub record BuildRun : Type 0 where
  pub streams : StreamWrites
  pub progress : BuildProgress
  pub shared : Dict String

-- imageStreamCreationReconcileTimeout
abbrev pub image_stream_creation_reconcile_timeout : ℕ
image_stream_creation_reconcile_timeout = second * 10

-- infrastructure.RuntimeTypeKey
abbrev pub runtime_type_key : String
runtime_type_key = "RUNTIME_TYPE"

abbrev or_quarkus : String → String
or_quarkus runtime = if is_empty runtime then quarkus_runtime_type else runtime

-- The runtime, its environment variable and the target, as the controller sets them.
unfoldable pub prepare : KogitoBuild → KogitoBuild
prepare b = record b {
  runtime = or_quarkus b.runtime;
  env = env_override b.env (create_env_var runtime_type_key (or_quarkus b.runtime) ∷ []);
  target_kogito_runtime = get_application_name b;
}
