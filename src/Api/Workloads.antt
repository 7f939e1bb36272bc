-- ===== src/Api/Workloads.antt =====
-- The fields of `corev1` and `appsv1` objects that the operator reads and writes. A nil map or
-- pointer is `none`.
use kogito_operator.Common.{String, ℕ, ℤ, Bool, Option, List}
use kogito_operator.Common.Dict.{Dict}
use kogito_operator.Api.Conditions.{Condition}

-- `EnvVarSource` with a `SecretKeyRef`, the only source that the code builds.
pub record SecretKeySelector : Type 0 where
  pub name : String
  pub key : String

pub record EnvVar : Type 0 where
  pub name : String
  pub value : String
  pub value_from : Option SecretKeySelector

pub data EnvFromSource : Type 0 where
  config_map_ref : String → EnvFromSource
  secret_ref : String → EnvFromSource

pub record SecurityContext : Type 0 where
  pub capabilities_drop : List String
  pub privileged : Bool
  pub run_as_non_root : Bool
  pub allow_privilege_escalation : Bool

pub record VolumeMount : Type 0 where
  pub name : String
  pub mount_path : String
  pub sub_path : String

-- A config map or a secret as the source, with its name, its file mode and its optional flag.
pub data VolumeSource : Type 0 where
  config_map_source : String → ℕ → Option Bool → VolumeSource
  secret_source : String → ℕ → Option Bool → VolumeSource

pub record Volume : Type 0 where
  pub name : String
  pub source : VolumeSource

pub record ConfigMap : Type 0 where
  pub name : String
  pub namespace : String
  pub labels : Dict String
  pub file_data : Dict String  -- `Data`, which stands for a secret's `Data` too

-- `VolumeReferenceInterface` (apis/app/v1beta1/volumereference.go).
pub record VolumeReference : Type 0 where
  pub name : String
  pub mount_path : String
  pub optional : Option Bool
  pub file_mode : Option ℕ

-- `corev1.HTTPGetAction`; "" is a path or a scheme that is not set.
pub record HttpGetAction : Type 0 where
  pub path : String
  pub port : ℕ
  pub scheme : String

-- `corev1.ProbeHandler`, the other handlers by a text of their own.
pub record ProbeHandler : Type 0 where
  pub http_get : Option HttpGetAction
  pub exec : Option String
  pub tcp_socket : Option String
  pub grpc : Option String

-- `corev1.Probe`. 0 is a number that is not set.
pub record Probe : Type 0 where
  pub handler : ProbeHandler
  pub initial_delay_seconds : ℤ
  pub timeout_seconds : ℤ
  pub period_seconds : ℤ
  pub success_threshold : ℤ
  pub failure_threshold : ℤ

-- `corev1.ContainerPort`; the protocol is always TCP.
pub record ContainerPort : Type 0 where
  pub name : String
  pub container_port : ℕ

pub record Container : Type 0 where
  pub name : String
  pub image : String
  pub env : List EnvVar
  pub env_from : List EnvFromSource
  pub volume_mounts : List VolumeMount
  pub security_context : Option SecurityContext
  pub ports : List ContainerPort
  pub liveness_probe : Option Probe
  pub readiness_probe : Option Probe
  pub startup_probe : Option Probe

-- `PodSecurityContext.RunAsNonRoot`
pub record PodSecurityContext : Type 0 where
  pub run_as_non_root : Bool

-- The pod template's fields carry the prefix `template` where the deployment has its own.
pub record Deployment : Type 0 where
  pub name : String
  pub namespace : String
  pub owner_uids : List String
  pub labels : Dict String
  pub replicas : Option ℕ
  pub match_labels : Dict String  -- the selector
  pub annotations : Option (Dict String)
  pub template_annotations : Option (Dict String)
  pub template_labels : Dict String
  pub volumes : List Volume
  pub containers : List Container
  pub pod_security_context : Option PodSecurityContext
  pub available_replicas : ℕ  -- int32, which the API server keeps at 0 or above
  pub conditions : List Condition
