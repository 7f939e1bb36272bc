-- ===== src/Client.antt =====
-- core/client/kubernetes/resource_reader.go and the fetch functions of core/infrastructure that
-- call it. The API server's `Get` and its test for a missing object are parameters.
use kogito_operator.Common.{
  ℕ, Bool, false, Option, none, some, Result, ok, err, ltb, if◌then◌else◌, ◌<>◌,
}
use kogito_operator.Api.{NamespacedName}
use kogito_operator.Api.Workloads.{Deployment}
use kogito_operator.Reconciliation.{GoError, plain}

-- One type of object as one reconciliation sees it: `ControlCli.Get` and `errors.IsNotFound`.
pub record Reader (A : Type 0) : Type 0 where
  pub get : NamespacedName → Result GoError A
  pub is_not_found : GoError → Bool

module _ {A : Type 0} where
  found_or : Reader A → Result GoError A → Result GoError (Option A)
  found_or c (ok a) = ok (some a)
  found_or c (err e) = if c.is_not_found e then ok none else err e

  -- `FetchWithKey` with the object it binds; `none` is `exists == false`. `FetchDeployment`,
  -- `FetchRoute`, `FetchConfigMap` and `FetchImageStream` answer a nil pointer for it.
  unfoldable pub fetch_with_key : Reader A → NamespacedName → Result GoError (Option A)
  unfolding found_or
  fetch_with_key c key = found_or c (c.get key)

must_exist : NamespacedName → Result GoError (Option Deployment) → Result GoError Deployment
must_exist key (ok none) =
    err (
      plain
        ("deployment not found with name " <> (key.name <> (" in namespace " <> key.namespace))))
must_exist key (ok (some d)) = ok d
must_exist key (err e) = err e

unfoldable pub must_fetch_deployment :
    Reader Deployment → NamespacedName → Result GoError Deployment
unfolding must_exist
must_fetch_deployment c key = must_exist key (fetch_with_key c key)

available_of : Result GoError (Option Deployment) → Result GoError Bool
available_of (ok none) = ok false
available_of (ok (some d)) = ok (ltb 0 d.available_replicas)
available_of (err e) = err e

unfoldable pub is_deployment_available : Reader Deployment → NamespacedName → Result GoError Bool
unfolding available_of
is_deployment_available c key = available_of (fetch_with_key c key)

replicas_of : Result GoError (Option Deployment) → Result GoError ℕ
replicas_of (ok none) = ok 0
replicas_of (ok (some d)) = ok d.available_replicas
replicas_of (err e) = err e

unfoldable pub fetch_ready_replicas : Reader Deployment → NamespacedName → Result GoError ℕ
unfolding replicas_of
fetch_ready_replicas c key = replicas_of (fetch_with_key c key)
