-- ===== src/Service/TrustStore/Laws.antt =====
-- What a trust store adds to the definition of a service.
use kogito_operator.Common.{
  String, ◌<>◌, ◌⊎◌, inl, inr, subst, true, false, ◌≡◌, ◌≢◌, refl, sym, ap, ◌∙◌, Option, none, some,
  List, [], ◌∷◌, ◌++◌, ◌==◌, Result, ok, err, next, fail, next_injective, ne→==_false,
}
use kogito_operator.Common.Dict.{lookup}
use kogito_operator.Api.Workloads.{ConfigMap, EnvVar, VolumeReference}
use kogito_operator.Client.{Reader, fetch_with_key}
use kogito_operator.Reconciliation.{GoError, error_for_trust_store_mount}
use kogito_operator.Framework.EnvVar.{env_override, create_secret_env_var}
use kogito_operator.Framework.EnvVar.Laws.{find_env, find_env-env_override, last_env}
use mathlib.Core.Option.{or_else}
use kogito_operator.Service.Instance.{KogitoService}
use kogito_operator.Service.Dependencies.{ServiceDefinition}
use kogito_operator.Service.TrustStore.{
  trust_store_secret_file_key, trust_store_secret_password_key, trust_store_env_var_password,
  trust_store_env_var_cert_file_name, trust_store_file_path, mode_for_certificates,
  map_trust_store_password, with_trust_store, mount_trust_store_file, trusted,
  reconcile_trust_store,
}

abbrev pub cert_file_env : EnvVar
cert_file_env = record {
  name = trust_store_env_var_cert_file_name;
  value = trust_store_secret_file_key;
  value_from = none;
}

abbrev pub secret_volume : ConfigMap → VolumeReference
secret_volume secret = record {
  name = secret.name;
  mount_path = trust_store_file_path;
  optional = none;
  file_mode = some mode_for_certificates;
}

abbrev pub password_env : ConfigMap → EnvVar
password_env secret =
    create_secret_env_var trust_store_env_var_password secret.name trust_store_secret_password_key

-- The variable of the password refers to the secret if that has one, and is as it was otherwise.
abbrev pub HasPassword : ServiceDefinition → ConfigMap → ServiceDefinition → Type 0
HasPassword d secret d' =
    ((lookup trust_store_secret_password_key secret.file_data ≡ none)
      × (find_env trust_store_env_var_password d'.definition_envs
          ≡ find_env trust_store_env_var_password d.definition_envs))
    ⊎ ((password : String) × (lookup trust_store_secret_password_key secret.file_data
          ≡ some password)
        × (find_env trust_store_env_var_password d'.definition_envs ≡ some (password_env secret)))

-- The secret is mounted behind the volumes that were there, the variables of the file and of the
-- password are set, and the variable `other` is as it was.
abbrev pub IsMounted : ServiceDefinition → ConfigMap → ServiceDefinition → String → Type 0
IsMounted d secret d' other =
    (d'.secret_volumes ≡ d.secret_volumes ++ (secret_volume secret ∷ []))
    × (find_env trust_store_env_var_cert_file_name d'.definition_envs ≡ some cert_file_env)
    × HasPassword d secret d'
    × (find_env other d'.definition_envs ≡ find_env other d.definition_envs)

find_env-override_other :
    (k : String) (env : List EnvVar) (v : EnvVar)
    → (v.name == k) ≡ false
    → find_env k (env_override env (v ∷ [])) ≡ find_env k env
unfolding last_env or_else
find_env-override_other k env v h = find_env-env_override k env (v ∷ []) ∙ rw h refl

find_env-override_self :
    (env : List EnvVar) (v : EnvVar)
    → (v.name == v.name) ≡ true
    → find_env v.name (env_override env (v ∷ [])) ≡ some v
unfolding last_env or_else
find_env-override_self env v h = find_env-env_override v.name env (v ∷ []) ∙ rw h refl

password-other :
    (secret : ConfigMap) (d : ServiceDefinition) (other : String)
    → other ≢ trust_store_env_var_password
    → (find_env other (map_trust_store_password secret d).definition_envs
        ≡ find_env other d.definition_envs)
      × ((map_trust_store_password secret d).secret_volumes ≡ d.secret_volumes)
unfolding map_trust_store_password
password-other secret d other h = present (lookup trust_store_secret_password_key secret.file_data)
  where
    present :
        (o : Option String)
        → let e : ServiceDefinition = elim o [
          | none ↦ d
          | some _ ↦ record d {
            definition_envs = env_override d.definition_envs (
                create_secret_env_var trust_store_env_var_password secret.name
                  trust_store_secret_password_key
                ∷ []);
          }
        ] in
          (find_env other e.definition_envs ≡ find_env other d.definition_envs)
          × (e.secret_volumes ≡ d.secret_volumes)
    present none = (refl, refl)
    present (some _) = (
      find_env-override_other other d.definition_envs
          (create_secret_env_var trust_store_env_var_password secret.name
            trust_store_secret_password_key)
          (ne→==_false trust_store_env_var_password other (λ e. h (sym e))),
      refl,
    )

map_trust_store_password-HasPassword :
    (secret : ConfigMap) (d : ServiceDefinition)
    → HasPassword d secret (map_trust_store_password secret d)
unfolding map_trust_store_password
map_trust_store_password-HasPassword secret d =
    present (lookup trust_store_secret_password_key secret.file_data) refl
  where
    present :
        (o : Option String)
        → lookup trust_store_secret_password_key secret.file_data ≡ o
        → HasPassword d secret (elim o [
          | none ↦ d
          | some _ ↦ record d {
            definition_envs = env_override d.definition_envs (password_env secret ∷ []);
          }
        ])
    present none e = inl (e, refl)
    present (some password) e =
        inr (password, e, find_env-override_self d.definition_envs (password_env secret) refl)

with_trust_store-HasPassword :
    (secret : ConfigMap) (d d' : ServiceDefinition)
    → HasPassword d secret d'
    → HasPassword d secret (with_trust_store secret d')
unfolding with_trust_store
with_trust_store-HasPassword secret d d' (inl (e, f)) = inl (
  e,
  find_env-override_other trust_store_env_var_password d'.definition_envs cert_file_env refl ∙ f,
)
with_trust_store-HasPassword secret d d' (inr (password, e, f)) = inr (
  password,
  e,
  find_env-override_other trust_store_env_var_password d'.definition_envs cert_file_env refl ∙ f,
)

mount_next :
    (secret : ConfigMap) (d d' : ServiceDefinition)
    → mount_trust_store_file secret d ≡ next d'
    → (cert : String) × (lookup trust_store_secret_file_key secret.file_data ≡ some cert)
      × (d' ≡ with_trust_store secret d)
unfolding mount_trust_store_file
mount_next secret d d' h = present (lookup trust_store_secret_file_key secret.file_data) h
  where
    present :
        (o : Option String)
        → elim o [
          | none ↦ fail d (
              error_for_trust_store_mount (
                "Failed to mount Truststore. Secret "
                <> (secret.name
                    <> (" doesn't have the file with key " <> trust_store_secret_file_key))))
          | some _ ↦ next (with_trust_store secret d)
        ]
          ≡ next d'
        → (cert : String) × (o ≡ some cert) × (d' ≡ with_trust_store secret d)
    present none k = cc
    present (some cert) k = (cert, refl, sym (next_injective k))

trusted_next :
    (i : KogitoService) (d d' : ServiceDefinition) (x : Result GoError (Option ConfigMap))
    → trusted i d x ≡ next d'
    → (secret : ConfigMap) × (cert : String) × (x ≡ ok (some secret))
      × (lookup trust_store_secret_file_key secret.file_data ≡ some cert)
      × (d' ≡ with_trust_store secret (map_trust_store_password secret d))
unfolding trusted
trusted_next i d d' (err e) h = cc
trusted_next i d d' (ok none) h = cc
trusted_next i d d' (ok (some secret)) h =
    let (cert, l, q) = mount_next secret (map_trust_store_password secret d) d' h in
    (secret, cert, refl, l, q)

-- A reconciliation with a trust store that succeeds found the secret with its certificates and mounts
-- it as a volume; the variable of the file is set, that of the password too if the secret has one,
-- and every other variable is as it was.
pub reconcile_trust_store-IsMounted :
    (c : Reader ConfigMap) (i : KogitoService) (d d' : ServiceDefinition) (other : String)
    → i.trust_store_secret ≢ ""
    → other ≢ trust_store_env_var_password
    → other ≢ trust_store_env_var_cert_file_name
    → reconcile_trust_store c i d ≡ next d'
    → (secret : ConfigMap) × (cert : String) × (fetch_with_key c
          (record { namespace = i.namespace; name = i.trust_store_secret })
        ≡ ok (some secret))
      × (lookup trust_store_secret_file_key secret.file_data ≡ some cert)
      × IsMounted d secret d' other
unfolding reconcile_trust_store with_trust_store
reconcile_trust_store-IsMounted c i d d' other n h k r =
    let (secret, cert, f, l, q) =
      trusted_next i d d'
        (fetch_with_key c (record { namespace = i.namespace; name = i.trust_store_secret }))
        (sym (rw (ne→==_false i.trust_store_secret "" n) refl) ∙ r) in
    let (same, volumes) = password-other secret d other h in
    (
      secret,
      cert,
      f,
      l,
      (
        ap (λ x. x.secret_volumes) q ∙ ap (λ x. x ++ (secret_volume secret ∷ [])) volumes,
        ap (λ x. find_env trust_store_env_var_cert_file_name x.definition_envs) q
            ∙ find_env-override_self (map_trust_store_password secret d).definition_envs
                cert_file_env refl,
        subst (HasPassword d secret) (sym q) (
            with_trust_store-HasPassword secret d (map_trust_store_password secret d)
              (map_trust_store_password-HasPassword secret d)),
        ap (λ x. find_env other x.definition_envs) q
            ∙ find_env-override_other other (map_trust_store_password secret d).definition_envs
                cert_file_env
                (ne→==_false trust_store_env_var_cert_file_name other (λ e. k (sym e)))
            ∙ same,
      ),
    )
