-- ===== src/Tests/Fixtures.antt =====
-- A namespace `apps` with two services, their deployments and the objects around them.
use kogito_operator.Common.{
  String, pos, Bool, true, false, Option, none, some, [], ◌∷◌, Result, ok, err, Step, next, fail,
  panic, ◌==◌, if◌then◌else◌,
}
use kogito_operator.Api.{NamespacedName}
use kogito_operator.Api.Conditions.{condition_true}
use kogito_operator.Api.Workloads.{Deployment, Container, ConfigMap, EnvVar, Probe}
use kogito_operator.Reconciliation.{GoError, plain}
use kogito_operator.Client.{Reader}
use kogito_operator.Service.Instance.{KogitoService}

-- The state that a run ended with.
abbrev pub ended : {S E : Type 0} → S → Step E S → S
ended s (next t) = t
ended s (fail t e) = t
ended s panic = s

-- The value of an answer that holds one.
abbrev pub found : {A : Type 0} → A → Result GoError (Option A) → A
found a (ok (some b)) = b
found a (ok none) = a
found a (err e) = a

abbrev pub missing : GoError
missing = plain "not found"

abbrev is_missing : GoError → Bool
is_missing e = true

-- A reader that has one object, under a name.
abbrev pub reading : {A : Type 0} → String → A → Reader A
reading n a = record {
  get = λ key. if key.name == n then ok a else err missing;
  is_not_found = λ e. true;
}

-- A reader whose every answer is an error.
abbrev pub refusing : {A : Type 0} → Reader A
refusing = record { get = λ key. err missing; is_not_found = λ e. false }

abbrev pub env_var : String → String → EnvVar
env_var n v = record { name = n; value = v; value_from = none }

abbrev pub app_container : Container
app_container = record {
  name = "app";
  image = "quay.io/kiegroup/app:1.0";
  env = env_var "A" "1" ∷ (env_var "B" "2" ∷ []);
  env_from = [];
  volume_mounts = [];
  security_context = none;
  ports = [];
  liveness_probe = none;
  readiness_probe = none;
  startup_probe = none;
}

abbrev pub app_deployment : Deployment
app_deployment = record {
  name = "app";
  namespace = "apps";
  owner_uids = "uid-1" ∷ [];
  labels = [];
  replicas = some 2;
  match_labels = ("app", "app") ∷ [];
  annotations = some (("kogito.kie.org/runtime", "true") ∷ []);
  template_annotations = none;
  template_labels = [];
  volumes = [];
  containers = app_container ∷ [];
  pod_security_context = none;
  available_replicas = 1;
  conditions = [];
}

abbrev pub endpoint_map : ConfigMap
endpoint_map = record {
  name = "data-index-endpoint";
  namespace = "apps";
  labels = [];
  file_data = ("url", "http://data-index") ∷ [];
}

abbrev pub app_key : NamespacedName
app_key = record { namespace = "apps"; name = "app" }

abbrev pub unset_probe : Probe
unset_probe = record {
  handler = record { http_get = none; exec = none; tcp_socket = none; grpc = none };
  initial_delay_seconds = pos 0;
  timeout_seconds = pos 0;
  period_seconds = pos 0;
  success_threshold = pos 0;
  failure_threshold = pos 0;
}

-- The service `app`, of which a failure was reported, and two pods are requested.
abbrev pub app_service : KogitoService
app_service = record {
  name = "app";
  namespace = "apps";
  replicas = some 2;
  envs = [];
  image = "";
  runtime = "quarkus";
  infra = [];
  disable_route = false;
  insecure_image_registry = false;
  config = [];
  properties_config_map = "";
  trust_store_secret = "";
  deployment_labels = none;
  service_labels = none;
  liveness_probe = unset_probe;
  readiness_probe = unset_probe;
  startup_probe = unset_probe;
  conditions =
      some
        (record { kind = "Failed"; status = condition_true; reason = "X"; message = "old" } ∷ []);
  route_conditions = none;
  deployment_conditions = [];
  status_image = "";
  external_uri = "";
}
