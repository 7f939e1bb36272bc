-- ===== src/Service/Status/Routes.antt =====
-- What the status handler makes of an OpenShift route.
use kogito_operator.Common.{
  String, ◌<>◌, ◌≡◌, ◌≢◌, ◌↔◌, ◌⊎◌, true, false, Result, ok, err, next, arith,
}
use kogito_operator.Api.Conditions.{
  ConditionApi, IsDocumented, is_status_condition_true, failed_condition_type,
}
use kogito_operator.Reconciliation.{GoError}
use kogito_operator.Service.Instance.{KogitoService, key_of}
use kogito_operator.Service.Route.{get_host_from_route, validate_route_status}
use kogito_operator.Service.Status.{
  StatusClient, StatusState, or_empty, new_failed_condition, update_route_status,
}

-- The route conditions of a state report a failure.
abbrev pub RouteFailed : ConditionApi → KogitoService → Type 0
RouteFailed m i =
    is_status_condition_true m (or_empty i.route_conditions) failed_condition_type ≡ true

abbrev ok_or_empty : Result GoError String → String
ok_or_empty (ok s) = s
ok_or_empty (err e) = ""

module _ (m : ConditionApi) (L : IsDocumented m) (c : StatusClient) where
  -- On OpenShift, once the route's status is updated without error, a failure of the route is
  -- reported exactly when routes are enabled and either reading or validating the route gave an error, or the
  -- route is not admitted yet and a failure was reported before.
  pub update_route_status-RouteFailed :
      (s t : StatusState)
      → c.is_openshift ≡ true
      → update_route_status m c s ≡ next t
      → let checked = validate_route_status c.errorf c.routes (key_of s.instance_state) in
        RouteFailed m t.instance_state ↔ (
          (s.instance_state.disable_route ≡ false)
          × (((x : GoError) × (checked ≡ err x))
              ⊎ ((checked ≡ ok false) × RouteFailed m s.instance_state)))
  unfolding update_route_status new_failed_condition
  update_route_status-RouteFailed s t o h = grind (arith, L.find-set)

  -- The external address changes only to that of a host that the route has, and only where routes are in use.
  pub update_route_status-external_uri :
      (s t : StatusState)
      → update_route_status m c s ≡ next t
      → t.instance_state.external_uri ≢ s.instance_state.external_uri
      → (c.is_openshift ≡ true)
        × (s.instance_state.disable_route ≡ false)
        × (host : String) × (get_host_from_route c.routes (key_of s.instance_state) ≡ ok host)
        × (t.instance_state.external_uri ≡ "http://" <> host)
  unfolding update_route_status
  update_route_status-external_uri s t h d = (
    ground arith,
    ground arith,
    ok_or_empty (get_host_from_route c.routes (key_of s.instance_state)),
    ground arith,
    ground arith,
  )
