-- ===== src/Service/TrustStore.antt =====
-- core/kogitoservice/truststore_reconciler.go: the trust store of a service.
pub mod Laws
use kogito_operator.Common.{
  String, ◌<>◌, ℕ, Bool, true, false, Option, none, some, List, [], ◌∷◌, ◌++◌, if◌then◌else◌,
  is_empty, Result, ok, err, Step, next, fail, panic, ◌>>=◌,
}
use kogito_operator.Common.Dict.{Dict, lookup}
use kogito_operator.Api.{NamespacedName}
use kogito_operator.Api.Workloads.{ConfigMap, VolumeReference, EnvVar}
use kogito_operator.Client.{Reader, fetch_with_key}
use kogito_operator.Reconciliation.{GoError, plain, error_for_trust_store_mount}
use kogito_operator.Delta.{ResourceDelta, DeltaClient, DeltaState, process_delta}
use kogito_operator.Framework.EnvVar.{env_override, create_secret_env_var}
use kogito_operator.Service.Instance.{KogitoService}
use kogito_operator.Service.Dependencies.{ServiceDefinition}

abbrev pub trust_store_secret_password_key : String
trust_store_secret_password_key = "keyStorePassword"

abbrev pub trust_store_secret_file_key : String
trust_store_secret_file_key = "cacerts"

-- `operator.KogitoHomeDir`
abbrev pub kogito_home_dir : String
kogito_home_dir = "/home/kogito"

abbrev pub trust_store_mount_path : String
trust_store_mount_path = kogito_home_dir <> "/certs/custom-truststore"

-- The path of the file in the pod.
abbrev pub trust_store_file_path : String
trust_store_file_path = trust_store_mount_path <> ("/" <> trust_store_secret_file_key)

abbrev pub trust_store_env_var_password : String
trust_store_env_var_password = "CUSTOM_TRUSTSTORE_PASSWORD"

abbrev pub trust_store_env_var_cert_file_name : String
trust_store_env_var_cert_file_name = "CUSTOM_TRUSTSTORE"

-- framework.ModeForCertificates, 0640
abbrev pub mode_for_certificates : ℕ
mode_for_certificates = 0o640

unfoldable pub map_trust_store_password : ConfigMap → ServiceDefinition → ServiceDefinition
map_trust_store_password secret d = elim (lookup trust_store_secret_password_key secret.file_data) [
  | none ↦ d
  | some _ ↦ record d {
    definition_envs = env_override d.definition_envs (
        create_secret_env_var trust_store_env_var_password secret.name
          trust_store_secret_password_key
        ∷ []);
  }
]

-- The volume and the variable behind the check.
unfoldable pub with_trust_store : ConfigMap → ServiceDefinition → ServiceDefinition
with_trust_store secret d = record d {
  secret_volumes =
      d.secret_volumes
      ++ (record {
        name = secret.name;
        mount_path = trust_store_file_path;
        optional = none;
        file_mode = some mode_for_certificates;
      }
          ∷ []);
  definition_envs = env_override d.definition_envs (
      record {
        name = trust_store_env_var_cert_file_name;
        value = trust_store_secret_file_key;
        value_from = none;
      }
      ∷ []);
}

unfoldable pub mount_trust_store_file :
    ConfigMap → ServiceDefinition → Step GoError ServiceDefinition
mount_trust_store_file secret d = elim (lookup trust_store_secret_file_key secret.file_data) [
  | none ↦ fail d (
      error_for_trust_store_mount (
        "Failed to mount Truststore. Secret "
        <> (secret.name <> (" doesn't have the file with key " <> trust_store_secret_file_key))))
  | some _ ↦ next (with_trust_store secret d)
]

trusted :
    KogitoService
    → ServiceDefinition
    → Result GoError (Option ConfigMap)
    → Step GoError ServiceDefinition
trusted i d (err e) = fail d e
trusted i d (ok none) = fail d (
    error_for_trust_store_mount (
      "Failed to find Trust store secret named "
      <> (i.trust_store_secret <> (" in the namespace " <> i.namespace))))
trusted i d (ok (some secret)) = mount_trust_store_file secret (map_trust_store_password secret d)

-- `trustStoreReconciler.Reconcile`; secrets are read as config maps are.
unfoldable pub reconcile_trust_store :
    Reader ConfigMap → KogitoService → ServiceDefinition → Step GoError ServiceDefinition
unfolding trusted
reconcile_trust_store c i d =
    if is_empty i.trust_store_secret
    then next d
    else trusted i d
        (fetch_with_key c (record { namespace = i.namespace; name = i.trust_store_secret }))
