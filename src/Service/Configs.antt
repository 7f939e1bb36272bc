-- ===== src/Service/Configs.antt =====
-- core/kogitoservice/config_reconciler.go and propconfigmap_reconciler.go: what the configuration of a
-- service adds to its definition.
use kogito_operator.Common.{
  String, ◌<>◌, Option, none, some, List, [], ◌∷◌, ◌++◌, if◌then◌else◌, is_empty, Result, ok, err,
  Step, next, fail, panic,
}
use kogito_operator.Api.{NamespacedName}
use kogito_operator.Api.Workloads.{ConfigMap}
use kogito_operator.Client.{Reader, fetch_with_key}
use kogito_operator.Reconciliation.{GoError, plain}
use kogito_operator.Delta.{ResourceDelta, DeltaClient, DeltaState, process_delta}
use kogito_operator.Service.Instance.{KogitoService}
use kogito_operator.Service.Dependencies.{ServiceDefinition}

-- The cluster and the library calls of a reconciler of one object: the error of `SetOwner`, the
-- object that is deployed, the comparison, and the writes.
pub record OneCluster (O : Type 0) : Type 0 where
  pub set_owner : Option GoError
  pub objects : Reader O
  pub compare : List O → List O → List (ResourceDelta O)
  pub delta_client : DeltaClient O

module _ {O : Type 0} (c : OneCluster O) where
  deployed_list : Option O → List O
  deployed_list none = []
  deployed_list (some o) = o ∷ []

  one_compared : O → Result GoError (Option O) → DeltaState O → Step GoError (DeltaState O)
  unfolding deployed_list
  one_compared o (err e) s = fail s e
  one_compared o (ok deployed) s =
      process_delta c.delta_client (c.compare (o ∷ []) (deployed_list deployed)) s

  -- The steps that the reconcilers of one object share: `createRequiredResources` behind the creation
  -- of the object, `getDeployedResources` and `processDelta`.
  unfoldable pub reconcile_one : O → NamespacedName → DeltaState O → Step GoError (DeltaState O)
  unfolding one_compared
  reconcile_one o key s = elim c.set_owner [
    | some e ↦ fail s e
    | none ↦ one_compared o (fetch_with_key c.objects key) s
  ]

-- `appPropConfigMapSuffix`
abbrev pub get_infra_properties_config_map_name : KogitoService → String
get_infra_properties_config_map_name i = i.name <> "-properties"

unfoldable pub create_infra_properties_config_map : KogitoService → ConfigMap
create_infra_properties_config_map i = record {
  name = get_infra_properties_config_map_name i;
  namespace = i.namespace;
  labels = ("app", i.name) ∷ [];
  file_data = i.config;
}

-- What `Deploy` works on: the definition, and the config maps that were written.
pub record ConfigState : Type 0 where
  pub definition : ServiceDefinition
  pub config_maps : DeltaState ConfigMap

configured :
    KogitoService → ConfigState → Step GoError (DeltaState ConfigMap) → Step GoError ConfigState
configured i s panic = panic
configured i s (fail d e) = fail (record s { config_maps = d }) e
configured i s (next d) = next (record {
  definition = record s.definition {
    config_map_env_from =
        s.definition.config_map_env_from ++ (get_infra_properties_config_map_name i ∷ []);
  };
  config_maps = d;
})

-- `configReconciler.Reconcile`
unfoldable pub reconcile_config :
    OneCluster ConfigMap → KogitoService → ConfigState → Step GoError ConfigState
unfolding configured
reconcile_config c i s = configured i s (
    reconcile_one c (create_infra_properties_config_map i)
      (record { namespace = i.namespace; name = get_infra_properties_config_map_name i })
      s.config_maps)

-- `fmt.Errorf`
config_map_missing : String → String → GoError
config_map_missing cm_name namespace =
    plain ("configmap(" <> (cm_name <> (") not found in namespace " <> namespace)))

referenced :
    KogitoService
    → ServiceDefinition
    → Result GoError (Option ConfigMap)
    → Step GoError ServiceDefinition
unfolding config_map_missing
referenced i d (err e) = fail d e
referenced i d (ok none) = fail d (config_map_missing i.properties_config_map i.namespace)
referenced i d (ok (some cm)) = next (record d {
  config_map_volumes =
      d.config_map_volumes
      ++ (record {
        name = i.properties_config_map;
        mount_path = "";
        optional = none;
        file_mode = none;
      }
          ∷ []);
})

-- `propertiesConfigMapReconciler.Reconcile`
unfoldable pub reconcile_properties_config_map :
    Reader ConfigMap → KogitoService → ServiceDefinition → Step GoError ServiceDefinition
unfolding referenced
reconcile_properties_config_map c i d =
    if is_empty i.properties_config_map
    then next d
    else referenced i d
        (fetch_with_key c (record { namespace = i.namespace; name = i.properties_config_map }))
