-- ===== src/Service/Instance.antt =====
-- A KogitoRuntime or KogitoSupportingService instance (apis/kogitoservices_types.go), as far as its
-- deployment and its status use it.
use kogito_operator.Common.{String, ℕ, Bool, Option, List}
use kogito_operator.Common.Dict.{Dict}
use kogito_operator.Api.{NamespacedName}
use kogito_operator.Api.Conditions.{Condition}
use kogito_operator.Api.Workloads.{EnvVar, Probe}

-- The status fields stand behind those of the spec; `status_image` is `GetStatus().GetImage()`.
pub record KogitoService : Type 0 where
  pub name : String
  pub namespace : String
  pub replicas : Option ℕ  -- *int32, with `Minimum=0` in the resource definition
  pub envs : List EnvVar
  pub image : String
  pub runtime : String
  pub infra : List String
  pub disable_route : Bool
  pub insecure_image_registry : Bool
  pub config : Dict String
  pub properties_config_map : String
  pub trust_store_secret : String
  pub deployment_labels : Option (Dict String)
  pub service_labels : Option (Dict String)
  pub liveness_probe : Probe
  pub readiness_probe : Probe
  pub startup_probe : Probe
  pub conditions : Option (List Condition)
  pub route_conditions : Option (List Condition)
  pub deployment_conditions : List Condition
  pub status_image : String
  pub external_uri : String

abbrev pub key_of : KogitoService → NamespacedName
key_of s = record { namespace = s.namespace; name = s.name }
