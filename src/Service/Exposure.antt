-- ===== src/Service/Exposure.antt =====
-- core/infrastructure/service.go and route.go, with core/kogitoservice/service_reconciler.go and
-- route_reconciler.go: how a service is reached.
use kogito_operator.Common.{String, ℕ, Bool, List, [], ◌∷◌, if◌then◌else◌, not, ◌||◌, Step, next}
use kogito_operator.Common.Dict.{Dict, insert}
use kogito_operator.Reconciliation.{GoError}
use kogito_operator.Delta.{DeltaState}
use kogito_operator.Service.Instance.{KogitoService, key_of}
use kogito_operator.Service.Probes.{default_exposed_port}
use kogito_operator.Service.Creation.{app_label, or_new}
use kogito_operator.Service.Configs.{OneCluster, reconcile_one}

-- `corev1.ServicePort`; the protocol is always TCP.
pub record ServicePort : Type 0 where
  pub name : String
  pub port : ℕ
  pub target_port : ℕ

-- `corev1.Service`, always of the type ClusterIP.
pub record ClusterService : Type 0 where
  pub name : String
  pub namespace : String
  pub labels : Dict String
  pub ports : List ServicePort
  pub selector : Dict String

abbrev pub default_http_port : ℕ
default_http_port = 80

abbrev pub create_service_ports : List ServicePort
create_service_ports =
    record { name = "http"; port = default_http_port; target_port = default_exposed_port } ∷ []

-- The labels are the map of the instance's spec, where it has one.
unfoldable pub create_service : KogitoService → ClusterService
create_service i = record {
  name = i.name;
  namespace = i.namespace;
  labels = insert app_label i.name (or_new i.service_labels);
  ports = create_service_ports;
  selector = (app_label, i.name) ∷ [];
}

-- The route that is requested: `routev1.Route` with its target port and its target's kind and name.
pub record RequestedRoute : Type 0 where
  pub name : String
  pub namespace : String
  pub labels : Dict String
  pub target_port : String
  pub target_kind : String
  pub target_name : String

unfoldable pub create_route : KogitoService → RequestedRoute
create_route i = record {
  name = i.name;
  namespace = i.namespace;
  labels = (app_label, i.name) ∷ [];
  target_port = "http";
  target_kind = "Service";
  target_name = i.name;
}

-- `serviceReconciler.Reconcile`
unfoldable pub reconcile_service :
    OneCluster ClusterService
    → KogitoService
    → DeltaState ClusterService
    → Step GoError (DeltaState ClusterService)
reconcile_service c i s = reconcile_one c (create_service i) (key_of i) s

-- `routeReconciler.Reconcile`
unfoldable pub reconcile_route :
    Bool
    → OneCluster RequestedRoute
    → KogitoService
    → DeltaState RequestedRoute
    → Step GoError (DeltaState RequestedRoute)
reconcile_route is_openshift c i s =
    if not is_openshift || i.disable_route
    then next s
    else reconcile_one c (create_route i) (key_of i) s
