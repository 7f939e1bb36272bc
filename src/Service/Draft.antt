-- ===== src/Service/Draft.antt =====
-- A deployment while core/kogitoservice/deployment_reconciler.go builds it. Its maps are shared: the
-- labels are one map for the deployment, its pod template and the instance's spec, and the annotations
-- one map for the deployment and its pod template until the deployment gets a map of its own.
use kogito_operator.Common.{String, Option, none, some}
use kogito_operator.Common.Dict.{Dict}
use kogito_operator.Api.Workloads.{Deployment}

pub record Draft : Type 0 where
  pub base : Deployment
  pub shared_labels : Dict String
  pub shared_annotations : Dict String
  pub own_annotations : Option (Dict String)

abbrev pub own_or : Option (Dict String) → Dict String → Dict String
own_or none shared = shared
own_or (some own) shared = own

-- What the deployment is when it is read.
unfoldable pub built : Draft → Deployment
built d = record d.base {
  labels = d.shared_labels;
  template_labels = d.shared_labels;
  annotations = some (own_or d.own_annotations d.shared_annotations);
  template_annotations = some d.shared_annotations;
}
