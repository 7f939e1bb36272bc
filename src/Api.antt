-- ===== src/Api.antt =====
-- The types that the operator shares with the Kubernetes API: apis/*.go, core/operator/context.go,
-- and the fields that the modelled code uses of the API server's own types.
pub mod Conditions
pub mod Workloads
use kogito_operator.Common.{String, ◌≡◌, Bool}

pub record NamespacedName : Type 0 where
  pub namespace : String
  pub name : String

-- apis/image.go
pub record Image : Type 0 where
  pub domain : String
  pub name : String
  pub tag : String
