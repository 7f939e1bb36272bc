-- ===== src/Tests/Resources.antt =====
-- Runs of the operations on variables, collections, owners, errors and infra resources.
use mathlib.Core.Option.{or_else}
use kogito_operator.Common.{String, ◌≤◌, ◌≡◌, refl, true, none, some, List, [], ◌∷◌, ok}
use kogito_operator.Common.Dict.{Dict}
use kogito_operator.Api.{NamespacedName}
use kogito_operator.Api.Conditions.{Condition, condition_true}
use kogito_operator.Reconciliation.{
  get_reconcile_result_for, reconciliation_after_five, reconciliation_after_three_minutes_duration,
  error_for_messaging,
}
use kogito_operator.Reconciliation.Laws.{messaging, get_reconcile_result_for-IsTimed}
use kogito_operator.Framework.EnvVar.{env_override}
use kogito_operator.Framework.EnvVar.Laws.{find_env, last_env, find_env-env_override}
use kogito_operator.Framework.Owner.{
  OwnerReference, Owner, add_owner_reference, add_owner_reference_one, map_refs,
  remove_owner_reference, remove_shared_owner_reference,
}
use kogito_operator.Framework.Owner.Laws.{
  AllOwned, KeepsOwners, remove_owner_reference-add_owner_reference,
  remove_shared_owner_reference-KeepsOwners,
}
use kogito_operator.Manager.Infra.{KogitoInfra, InfraHandler}
use kogito_operator.Tests.Fixtures.{missing, env_var, app_container}

find_env-env_override_example :
    find_env "B" (env_override app_container.env (env_var "B" "3" ∷ (env_var "B" "4" ∷ [])))
    ≡ some (env_var "B" "4")
unfolding find_env last_env or_else
find_env-env_override_example =
    find_env-env_override "B" app_container.env (env_var "B" "3" ∷ (env_var "B" "4" ∷ []))

abbrev labels : Dict String
labels = ("app", "kogito") ∷ (("tier", "back") ∷ [])

abbrev tier : Dict String
tier = ("tier", "back") ∷ []

abbrev other_ref : OwnerReference
other_ref = record {
  api_version = "v1";
  kind = "ConfigMap";
  name = "other";
  uid = "uid-0";
  controller = true;
  block_owner_deletion = true;
}

abbrev new_owner : Owner
new_owner = record { name = "app"; uid = "uid-1" }

abbrev owned : List (List OwnerReference)
owned = (other_ref ∷ []) ∷ ([] ∷ [])

abbrev with_owner : List (List OwnerReference)
with_owner = map_refs (add_owner_reference_one "v1" "Deployment" new_owner) owned

remove_owner_reference-add_owner_reference_example :
    (add_owner_reference (ok ("v1", "Deployment")) new_owner owned ≡ ok with_owner)
    × AllOwned new_owner true with_owner
    × (remove_owner_reference new_owner with_owner ≡ owned)
unfolding add_owner_reference
remove_owner_reference-add_owner_reference_example =
    remove_owner_reference-add_owner_reference "v1" "Deployment" new_owner owned (refl, (refl, tt))

remove_shared_owner_reference-KeepsOwners_example :
    KeepsOwners with_owner (remove_shared_owner_reference new_owner with_owner).0
remove_shared_owner_reference-KeepsOwners_example =
    remove_shared_owner_reference-KeepsOwners new_owner with_owner

get_reconcile_result_for-IsTimed_example :
    ((get_reconcile_result_for (some (error_for_messaging missing))).1 ≡ none)
    × (reconciliation_after_five
        ≤ (get_reconcile_result_for (some (error_for_messaging missing))).0.requeue_after)
    × ((get_reconcile_result_for (some (error_for_messaging missing))).0.requeue_after
        ≤ reconciliation_after_three_minutes_duration)
get_reconcile_result_for-IsTimed_example = get_reconcile_result_for-IsTimed (messaging missing)

abbrev configured : Condition
configured = record { kind = "Configured"; status = condition_true; reason = "Ready"; message = "" }

abbrev ready_infra : KogitoInfra
ready_infra = record {
  name = "kafka";
  namespace = "apps";
  resource = none;
  conditions = some (configured ∷ []);
  config_map_env_from_references = [];
  config_map_volume_references = [];
  secret_env_from_references = [];
  secret_volume_references = [];
  envs = [];
}

abbrev infra_handler : InfraHandler
infra_handler key = ok (some ready_infra)

abbrev infra_key : NamespacedName
infra_key = record { namespace = "apps"; name = "kafka" }
