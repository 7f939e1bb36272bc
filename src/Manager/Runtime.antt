-- ===== src/Manager/Runtime.antt =====
-- core/manager/runtime_manager.go: the deployments that belong to KogitoRuntime instances.
use kogito_operator.Common.{
  String, Option, none, some, List, [], ◌∷◌, Result, ok, err, if◌then◌else◌,
}
use kogito_operator.Common.Dict.{Dict}
use kogito_operator.Api.Workloads.{Deployment}
use kogito_operator.Framework.Collections.{map_contains}
use kogito_operator.Reconciliation.{GoError}

-- operator.KogitoRuntimeKey
abbrev pub kogito_runtime_key : String
kogito_runtime_key = "kogito.kie.org/runtime"

-- A read of a nil map finds nothing.
abbrev pub or_empty_map : Option (Dict String) → Dict String
or_empty_map none = []
or_empty_map (some m) = m

unfoldable pub runtime_deployments : List Deployment → List Deployment
unfolding map_contains
runtime_deployments [] = []
runtime_deployments (d ∷ items) =
    let rest = runtime_deployments items in
    if map_contains (or_empty_map d.annotations) kogito_runtime_key "true" then d ∷ rest else rest

-- `deployments` is `FetchDeploymentList`.
unfoldable pub fetch_kogito_runtime_deployments :
    (String → Result GoError (List Deployment)) → String → Result GoError (List Deployment)
unfolding runtime_deployments
fetch_kogito_runtime_deployments deployments namespace = elim (deployments namespace) [
  | err e ↦ err e
  | ok items ↦ ok (runtime_deployments items)
]
