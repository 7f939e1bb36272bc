-- ===== src/Service/Dependencies/Laws.antt =====
-- A service is deployed with the configuration of infra resources that are all ready.
use mathlib.Core.List.{append_assoc, append-nil}
use kogito_operator.Common.{
  String, ◌≡◌, refl, ◌∙◌, sym, ap, ◌≢◌, Bool, true, false, Option, none, some, List, [], ◌∷◌, ◌++◌,
  Result, ok, err, next, >>=-eq-next, next_injective, arith,
}
use kogito_operator.Api.Conditions.{ConditionApi}
use kogito_operator.Api.Workloads.{EnvVar}
use kogito_operator.Framework.EnvVar.{env_override, override_one}
use kogito_operator.Reconciliation.{GoError}
use kogito_operator.Manager.Infra.{KogitoInfra, InfraHandler, is_kogito_infra_ready}
use kogito_operator.Service.Instance.{KogitoService}
use kogito_operator.Service.Dependencies.{
  ServiceDefinition, take_over, infra_key, not_ready, checked, check_infra_dependencies, taken,
  dependency_step, reconcile_dependencies, reconcile_infra_of_service,
}

-- What a list of infra resources holds together.
abbrev pub all_of {ℓ} : {A : Type ℓ} → (KogitoInfra → List A) → List KogitoInfra → List A
all_of get [] = []
all_of get (infra ∷ infras) = get infra ++ all_of get infras

env_override-append :
    (a dst b : List EnvVar) → env_override dst (a ++ b) ≡ env_override (env_override dst a) b
unfolding env_override
env_override-append [] dst b = refl
env_override-append (v ∷ a) dst b = env_override-append a (override_one dst v) b

-- What a definition has got of a list of infra resources.
abbrev pub HasTaken : ServiceDefinition → List KogitoInfra → ServiceDefinition → Type 0
HasTaken d infras d' =
    (d'.definition_envs ≡ env_override d.definition_envs (all_of (λ x. x.envs) infras))
    × (d'.config_map_env_from
        ≡ d.config_map_env_from ++ all_of (λ x. x.config_map_env_from_references) infras)
    × (d'.config_map_volumes
        ≡ d.config_map_volumes ++ all_of (λ x. x.config_map_volume_references) infras)
    × (d'.secret_env_from ≡ d.secret_env_from ++ all_of (λ x. x.secret_env_from_references) infras)
    × (d'.secret_volumes ≡ d.secret_volumes ++ all_of (λ x. x.secret_volume_references) infras)

HasTaken-take_over :
    (d d' : ServiceDefinition) (infra : KogitoInfra) (infras : List KogitoInfra)
    → HasTaken (take_over infra d) infras d'
    → HasTaken d (infra ∷ infras) d'
unfolding take_over
HasTaken-take_over d d' infra infras (a, b, c, e, f) = (
  a ∙ sym (env_override-append infra.envs d.definition_envs (all_of (λ x. x.envs) infras)),
  b
      ∙ append_assoc d.config_map_env_from infra.config_map_env_from_references
          (all_of (λ x. x.config_map_env_from_references) infras),
  c
      ∙ append_assoc d.config_map_volumes infra.config_map_volume_references
          (all_of (λ x. x.config_map_volume_references) infras),
  e
      ∙ append_assoc d.secret_env_from infra.secret_env_from_references
          (all_of (λ x. x.secret_env_from_references) infras),
  f
      ∙ append_assoc d.secret_volumes infra.secret_volume_references
          (all_of (λ x. x.secret_volume_references) infras),
)

module _ (m : ConditionApi) (fetch : InfraHandler) (i : KogitoService) where
  -- The infra resources that names denote in the service's namespace, all of them ready.
  abbrev pub AllReady : List KogitoInfra → List String → Type 0
  AllReady [] [] = Unit
  AllReady [] (_ ∷ _) = ⊥
  AllReady (_ ∷ _) [] = ⊥
  AllReady (infra ∷ infras) (n ∷ names) =
      (fetch (record { namespace = i.namespace; name = n }) ≡ ok (some infra))
      × (is_kogito_infra_ready m fetch (infra_key infra) ≡ ok true)
      × AllReady infras names

  not_ready-ne-none :
      (infra : KogitoInfra) (r : Result GoError String) → not_ready m fetch i infra r ≢ none
  unfolding not_ready
  not_ready-ne-none infra (err e) = ground arith
  not_ready-ne-none infra (ok reason) = ground arith

  checked_lem :
      (infra : KogitoInfra) (r : Result GoError Bool)
      → checked m fetch i infra r ≡ none
      → r ≡ ok true
  unfolding checked
  checked_lem infra (err e) h = cc
  checked_lem infra (ok true) h = refl
  checked_lem infra (ok false) h = absurd (not_ready-ne-none infra _ h)

  taken_lem :
      (d d' : ServiceDefinition) (infra : KogitoInfra) (e : Option GoError)
      → taken m fetch i d infra e ≡ next d'
      → (e ≡ none) × (take_over infra d ≡ d')
  unfolding taken
  taken_lem d d' infra (some e) h = cc
  taken_lem d d' infra none h = (refl, next_injective h)

  dependency_step_lem :
      (n : String) (d d' : ServiceDefinition) (r : Result GoError (Option KogitoInfra))
      → dependency_step m fetch i n d r ≡ next d'
      → (infra : KogitoInfra) × (r ≡ ok (some infra))
        × (is_kogito_infra_ready m fetch (infra_key infra) ≡ ok true)
        × (take_over infra d ≡ d')
  unfolding dependency_step check_infra_dependencies
  dependency_step_lem n d d' (err e) h = cc
  dependency_step_lem n d d' (ok none) h = cc
  dependency_step_lem n d d' (ok (some infra)) h =
      let (e, same) = taken_lem d d' infra _ h in (infra, refl, checked_lem infra _ e, same)

  reconcile_dependencies_lem :
      (names : List String) (d d' : ServiceDefinition)
      → reconcile_dependencies m fetch i names d ≡ next d'
      → (infras : List KogitoInfra) × AllReady infras names × HasTaken d infras d'
  unfolding reconcile_dependencies env_override
  reconcile_dependencies_lem [] d d' h =
      let e = next_injective h in
      (
        [],
        tt,
        (
          sym (ap (λ x. x.definition_envs) e),
          sym (ap (λ x. x.config_map_env_from) e) ∙ sym (append-nil _),
          sym (ap (λ x. x.config_map_volumes) e) ∙ sym (append-nil _),
          sym (ap (λ x. x.secret_env_from) e) ∙ sym (append-nil _),
          sym (ap (λ x. x.secret_volumes) e) ∙ sym (append-nil _),
        ),
      )
  reconcile_dependencies_lem (n ∷ names) d d' h =
      let read = fetch (record { namespace = i.namespace; name = n }) in
      let (d1, h1, k1) =
        >>=-eq-next (dependency_step m fetch i n d read) (reconcile_dependencies m fetch i names)
          h in
      let (infra, found, ready, same) = dependency_step_lem n d d1 read h1 in
      let (infras, all_ready, has) =
        reconcile_dependencies_lem names (take_over infra d) d'
          (ap (reconcile_dependencies m fetch i names) same ∙ k1) in
      (infra ∷ infras, (found, ready, all_ready), HasTaken-take_over d d' infra infras has)

  -- Where the infra resources of a service are reconciled without error, each name of the spec
  -- denotes a resource that is ready; the definition has got the references of all of them, in
  -- order, behind its own, and its variables are overridden by all of theirs.
  pub reconcile_infra_of_service-HasTaken :
      (d d' : ServiceDefinition)
      → reconcile_infra_of_service m fetch i d ≡ next d'
      → (infras : List KogitoInfra) × AllReady infras i.infra × HasTaken d infras d'
  unfolding reconcile_infra_of_service
  reconcile_infra_of_service-HasTaken d d' h = reconcile_dependencies_lem i.infra d d' h
