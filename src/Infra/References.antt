-- ===== src/Infra/References.antt =====
-- core/kogitoinfra/configmapreference_reconciler.go and secretreference_reconciler.go: the config
-- maps and secrets that a KogitoInfra refers to are passed on in its status once they exist.
pub mod Laws
use mathlib.Core.List.{append_assoc, append-nil}
use kogito_operator.Common.{
  String, ◌≡◌, refl, ◌∙◌, sym, ap, ◌≢◌, Bool, true, false, Option, none, some, List, [], ◌∷◌, ◌++◌,
  All, Result, ok, err, Step, next, fail, panic, ◌>>=◌, >>=-eq-next, next_injective, is_empty,
  if◌then◌else◌, arith, Bool-cases, inl, inr,
}
use kogito_operator.Api.{NamespacedName}
use kogito_operator.Api.Workloads.{ConfigMap, EnvVar, VolumeReference}
use kogito_operator.Client.{Reader, fetch_with_key}
use kogito_operator.Reconciliation.{GoError}
use kogito_operator.Manager.Infra.{KogitoInfra}
use kogito_operator.Infra.Errors.{
  InfraError, other, error_for_resource_not_found, error_for_resource_config_error,
}

-- The spec's fields that are passed on.
pub record InfraSpec : Type 0 where
  pub config_map_env_from : List String
  pub config_map_volumes : List VolumeReference
  pub secret_env_from : List String
  pub secret_volumes : List VolumeReference
  pub spec_envs : List EnvVar

unfoldable pub add_config_map_env_from_references : String → KogitoInfra → KogitoInfra
add_config_map_env_from_references n i = record i {
  config_map_env_from_references = i.config_map_env_from_references ++ (n ∷ []);
}

unfoldable pub update_config_map_volume_reference_in_status :
    VolumeReference → KogitoInfra → KogitoInfra
update_config_map_volume_reference_in_status r i = record i {
  config_map_volume_references = i.config_map_volume_references ++ (r ∷ []);
}

unfoldable pub update_secret_env_from_reference_in_status : String → KogitoInfra → KogitoInfra
update_secret_env_from_reference_in_status n i = record i {
  secret_env_from_references = i.secret_env_from_references ++ (n ∷ []);
}

unfoldable pub update_secret_volume_reference_in_status :
    VolumeReference → KogitoInfra → KogitoInfra
update_secret_volume_reference_in_status r i = record i {
  secret_volume_references = i.secret_volume_references ++ (r ∷ []);
}

abbrev key_in : KogitoInfra → String → NamespacedName
key_in i n = record { namespace = i.namespace; name = n }

-- The rounds of the loops, for config maps and for secrets alike: `kind` is the word of the error.
module _ (c : Reader ConfigMap) (kind : String) where
  -- What the read of an object says.
  existing : String → KogitoInfra → Result GoError (Option ConfigMap) → Step InfraError KogitoInfra
  existing n i (err e) = fail i (other e)
  existing n i (ok none) = fail i (error_for_resource_not_found kind n i.namespace)
  existing n i (ok (some _)) = next i

  must_exist : String → KogitoInfra → Step InfraError KogitoInfra
  unfolding existing
  must_exist n i = existing n i (fetch_with_key c (key_in i n))

  unfoldable pub reconcile_env_from :
      (String → KogitoInfra → KogitoInfra) → List String → KogitoInfra → Step InfraError KogitoInfra
  unfolding must_exist
  reconcile_env_from add [] i = next i
  reconcile_env_from add (n ∷ names) i =
      must_exist n i >>= (λ j. reconcile_env_from add names (add n j))

  unfoldable pub reconcile_volumes :
      (VolumeReference → KogitoInfra → KogitoInfra)
      → String
      → List VolumeReference
      → KogitoInfra
      → Step InfraError KogitoInfra
  unfolding must_exist
  reconcile_volumes add no_name [] i = next i
  reconcile_volumes add no_name (r ∷ references) i =
      (if is_empty r.name
        then fail i (error_for_resource_config_error i.name no_name)
        else must_exist r.name i)
      >>= (λ j. reconcile_volumes add no_name references (add r j))

unfoldable pub reconcile_config_map_references :
    Reader ConfigMap → InfraSpec → KogitoInfra → Step InfraError KogitoInfra
unfolding reconcile_env_from reconcile_volumes
reconcile_config_map_references c spec i = do
  j ← reconcile_env_from c "Configmap" add_config_map_env_from_references spec.config_map_env_from i
  reconcile_volumes c "Configmap" update_config_map_volume_reference_in_status
      "No Configmap resource name given" spec.config_map_volumes j

unfoldable pub reconcile_secret_references :
    Reader ConfigMap → InfraSpec → KogitoInfra → Step InfraError KogitoInfra
unfolding reconcile_env_from reconcile_volumes
reconcile_secret_references c spec i = do
  j ←
      reconcile_env_from c "Secret" update_secret_env_from_reference_in_status spec.secret_env_from
        i
  reconcile_volumes c "Secret" update_secret_volume_reference_in_status
      "No Secret resource name given" spec.secret_volumes j
