-- ===== src/Service/Route.antt =====
-- core/infrastructure/route.go: reading the state of an OpenShift route.
use mathlib.Core.List.{flatten}
use kogito_operator.Common.{
  String, Bool, true, false, Option, none, some, Result, ok, err, List, [], ◌∷◌, ◌++◌, ◌==◌, ◌≡◌,
  refl, ◌∙◌, if◌then◌else◌, arith,
}
use kogito_operator.Client.{Reader, fetch_with_key}
use kogito_operator.Api.{NamespacedName}
use kogito_operator.Api.Conditions.{Condition, is_false_status}
use kogito_operator.Reconciliation.{GoError}

-- `routev1.Route`: the host, and the conditions of each ingress.
pub record Route : Type 0 where
  pub host : String
  pub ingress : List (List Condition)

-- `routev1.RouteAdmitted`
abbrev route_admitted : String
route_admitted = "Admitted"

host_of : Result GoError (Option Route) → Result GoError String
host_of (ok none) = ok ""
host_of (ok (some r)) = ok r.host
host_of (err e) = err e

unfoldable pub get_host_from_route : Reader Route → NamespacedName → Result GoError String
unfolding host_of
get_host_from_route c key = host_of (fetch_with_key c key)

-- `errorf` is `fmt.Errorf` without further arguments, which reads the message as a format.
module _ (errorf : String → GoError) where
  -- The inner loop; `none` goes on with the next ingress.
  admitted_in : List Condition → Option (Result GoError Bool)
  admitted_in [] = none
  admitted_in (c ∷ cs) =
      let rest = admitted_in cs in
      if c.kind == route_admitted
      then (if is_false_status c.status then some (err (errorf c.message)) else some (ok true))
      else rest

  admitted : List (List Condition) → Result GoError Bool
  unfolding admitted_in
  admitted [] = ok false
  admitted (cs ∷ ingress) = elim (admitted_in cs) [ some r ↦ r | none ↦ admitted ingress ]

  status_of : Result GoError (Option Route) → Result GoError Bool
  status_of (ok none) = ok false
  status_of (ok (some r)) = admitted r.ingress
  status_of (err e) = err e

  -- The error of a pair `(false, err)` is `err`.
  unfoldable pub validate_route_status : Reader Route → NamespacedName → Result GoError Bool
  unfolding status_of admitted
  validate_route_status c key = status_of (fetch_with_key c key)

-- The first condition of a type.
unfoldable pub first_of_kind : String → List Condition → Option Condition
first_of_kind k [] = none
first_of_kind k (c ∷ cs) = if c.kind == k then some c else first_of_kind k cs

first_of_kind-append :
    (k : String) (cs ds : List Condition)
    → first_of_kind k (cs ++ ds)
      ≡ elim (first_of_kind k cs) [ some c ↦ some c | none ↦ first_of_kind k ds ]
unfolding first_of_kind
first_of_kind-append k [] ds = refl
first_of_kind-append k (c ∷ cs) ds = ground (arith, first_of_kind-append k cs ds)

module _ (errorf : String → GoError) where
  -- What one condition says of the route.
  abbrev verdict : Option Condition → Result GoError Bool
  verdict none = ok false
  verdict (some c) = if is_false_status c.status then err (errorf c.message) else ok true

  abbrev verdict_in : Option Condition → Option (Result GoError Bool)
  verdict_in none = none
  verdict_in (some c) = some (verdict (some c))

  admitted_in_lem :
      (cs : List Condition) → admitted_in errorf cs ≡ verdict_in (first_of_kind route_admitted cs)
  unfolding admitted_in first_of_kind
  admitted_in_lem [] = refl
  admitted_in_lem (c ∷ cs) = ground (arith, admitted_in_lem cs)

  admitted_lem :
      (ingress : List (List Condition))
      → admitted errorf ingress ≡ verdict (first_of_kind route_admitted (flatten ingress))
  unfolding admitted flatten
  admitted_lem [] = unfold first_of_kind in refl
  admitted_lem (cs ∷ ingress) = ground (
    arith,
    admitted_in_lem cs,
    admitted_lem ingress,
    first_of_kind-append route_admitted cs (flatten ingress),
  )

  -- A route that exists is judged by the first `Admitted` condition among those of all its
  -- ingresses: it is admitted unless that condition is false, whose message is then the format of
  -- the error, and without one it is not admitted.
  pub validate_route_status_lem :
      (c : Reader Route) (key : NamespacedName) (r : Route)
      → fetch_with_key c key ≡ ok (some r)
      → validate_route_status errorf c key ≡ elim (first_of_kind "Admitted" (flatten r.ingress)) [
        | none ↦ ok false
        | some d ↦ if is_false_status d.status then err (errorf d.message) else ok true
      ]
  unfolding validate_route_status
  validate_route_status_lem c key r h = rw h (admitted_lem r.ingress ∙ ground arith)
