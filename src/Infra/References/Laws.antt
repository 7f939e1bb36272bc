-- ===== src/Infra/References/Laws.antt =====
-- What is passed on exists, and all of it is passed on in its order.
use mathlib.Core.List.{append_assoc, append-nil}
use kogito_operator.Common.{
  String, ◌≡◌, refl, ◌∙◌, sym, ap, ◌≢◌, Bool, true, false, Option, none, some, List, [], ◌∷◌, ◌++◌,
  All, Result, ok, err, Step, next, fail, >>=-eq-next, next_injective, is_empty, if◌then◌else◌,
  subst,
}
use kogito_operator.Api.Workloads.{ConfigMap, VolumeReference}
use kogito_operator.Reconciliation.{GoError}
use kogito_operator.Client.{Reader, fetch_with_key}
use kogito_operator.Manager.Infra.{KogitoInfra}
use kogito_operator.Infra.Errors.{InfraError, error_for_resource_config_error}
use kogito_operator.Infra.References.{
  InfraSpec, existing, must_exist, reconcile_env_from, reconcile_volumes,
  reconcile_config_map_references, add_config_map_env_from_references,
  update_config_map_volume_reference_in_status,
}

-- An object of a name exists in a namespace.
abbrev pub Exists : Reader ConfigMap → String → String → Type 0
Exists c namespace n =
    (cm : ConfigMap) × (fetch_with_key c (record { namespace = namespace; name = n })
      ≡ ok (some cm))

-- A reference that has a name, which is that of an object.
abbrev pub VolumeExists : Reader ConfigMap → String → VolumeReference → Type 0
VolumeExists c namespace r = (is_empty r.name ≡ false) × Exists c namespace r.name

module _ (c : Reader ConfigMap) (kind : String) where
  existing_lem :
      (n : String) (i j : KogitoInfra) (r : Result GoError (Option ConfigMap))
      → existing c kind n i r ≡ next j
      → (i ≡ j) × (cm : ConfigMap) × (r ≡ ok (some cm))
  unfolding existing
  existing_lem n i j (err e) h = cc
  existing_lem n i j (ok none) h = cc
  existing_lem n i j (ok (some cm)) h = (next_injective h, cm, refl)

  must_exist_lem :
      (n : String) (i j : KogitoInfra)
      → must_exist c kind n i ≡ next j
      → (i ≡ j) × Exists c i.namespace n
  unfolding must_exist
  must_exist_lem n i j h = let (e, cm, f) = existing_lem n i j _ h in (e, (cm, f))

  -- A loop over names that succeeds: `get` is the field that it appends to, `keep` what it leaves.
  reconcile_env_from_lem :
      {K : Type 0} (add : String → KogitoInfra → KogitoInfra) (get : KogitoInfra → List String)
      (keep : KogitoInfra → K)
      → ((n : String) (i : KogitoInfra)
          → (get (add n i) ≡ get i ++ (n ∷ []))
            × (keep (add n i) ≡ keep i)
            × ((add n i).namespace ≡ i.namespace))
      → (names : List String) (i j : KogitoInfra) → reconcile_env_from c kind add names i ≡ next j
      → (get j ≡ get i ++ names)
        × (keep j ≡ keep i)
        × (j.namespace ≡ i.namespace)
        × All (Exists c i.namespace) names
  unfolding reconcile_env_from
  reconcile_env_from_lem add get keep laws [] i j h =
      let e = next_injective h in
      (
        sym (ap get e) ∙ sym (append-nil (get i)),
        sym (ap keep e),
        sym (ap (λ k. k.namespace) e),
        tt,
      )
  reconcile_env_from_lem add get keep laws (n ∷ names) i j h =
      let (i1, h1, k1) = >>=-eq-next (must_exist c kind n i) _ h in
      let (e, exists) = must_exist_lem n i i1 h1 in
      let (g, k, s) = laws n i1 in
      let (gs, ks, ss, all_exist) =
        reconcile_env_from_lem add get keep laws names (add n i1) j k1 in
      let ns : (add n i1).namespace ≡ i.namespace = s ∙ sym (ap (λ k. k.namespace) e) in
      (
        gs
            ∙ ap (λ l. l ++ names) g
            ∙ append_assoc (get i1) (n ∷ []) names
            ∙ ap (λ i'. get i' ++ (n ∷ names)) (sym e),
        ks ∙ k ∙ ap keep (sym e),
        ss ∙ ns,
        (exists, subst (λ x. All (Exists c x) names) ns all_exist),
      )

  guarded_lem :
      {A : Type 0} {b : Bool} (bad good : Step InfraError A) (j : A)
      → (if b then bad else good) ≡ next j
      → ((k : A) → bad ≢ next k)
      → (b ≡ false) × (good ≡ next j)
  guarded_lem {b = true} bad good j h n = absurd (n j h)
  guarded_lem {b = false} bad good j h n = (refl, h)

  reconcile_volumes_lem :
      {K : Type 0} (add : VolumeReference → KogitoInfra → KogitoInfra)
      (get : KogitoInfra → List VolumeReference) (keep : KogitoInfra → K)
      → ((r : VolumeReference) (i : KogitoInfra)
          → (get (add r i) ≡ get i ++ (r ∷ []))
            × (keep (add r i) ≡ keep i)
            × ((add r i).namespace ≡ i.namespace))
      → (no_name : String) (references : List VolumeReference) (i j : KogitoInfra)
      → reconcile_volumes c kind add no_name references i ≡ next j
      → (get j ≡ get i ++ references)
        × (keep j ≡ keep i)
        × All (VolumeExists c i.namespace) references
  unfolding reconcile_volumes
  reconcile_volumes_lem add get keep laws no_name [] i j h =
      let e = next_injective h in (sym (ap get e) ∙ sym (append-nil (get i)), sym (ap keep e), tt)
  reconcile_volumes_lem add get keep laws no_name (r ∷ references) i j h =
      let bad : Step InfraError KogitoInfra =
        fail i (error_for_resource_config_error i.name no_name) in
      let (i1, h0, k1) =
        >>=-eq-next (if is_empty r.name then bad else must_exist c kind r.name i) _ h in
      let (named, h1) =
        guarded_lem bad (must_exist c kind r.name i) i1 h0 (λ k (q : bad ≡ next k). cc) in
      let (e, exists) = must_exist_lem r.name i i1 h1 in
      let (g, k, s) = laws r i1 in
      let (gs, ks, all_exist) =
        reconcile_volumes_lem add get keep laws no_name references (add r i1) j k1 in
      let ns : (add r i1).namespace ≡ i.namespace = s ∙ sym (ap (λ k. k.namespace) e) in
      (
        gs
            ∙ ap (λ l. l ++ references) g
            ∙ append_assoc (get i1) (r ∷ []) references
            ∙ ap (λ i'. get i' ++ (r ∷ references)) (sym e),
        ks ∙ k ∙ ap keep (sym e),
        ((named, exists), subst (λ x. All (VolumeExists c x) references) ns all_exist),
      )

-- The fields that each loop leaves alone.
abbrev besides_env_from : KogitoInfra → List VolumeReference × List String × List VolumeReference
besides_env_from i =
    (i.config_map_volume_references, i.secret_env_from_references, i.secret_volume_references)

abbrev besides_volumes : KogitoInfra → List String × List String × List VolumeReference
besides_volumes i =
    (i.config_map_env_from_references, i.secret_env_from_references, i.secret_volume_references)

-- Where the config map references of a KogitoInfra are reconciled without error, every config map
-- that the spec refers to exists in its namespace, also where a reference is optional; the status has
-- got all of them in the spec's order, behind what it had, and the references to secrets are as they
-- were.
pub reconcile_config_map_references_lem :
    (c : Reader ConfigMap) (spec : InfraSpec) (i j : KogitoInfra)
    → reconcile_config_map_references c spec i ≡ next j
    → (j.config_map_env_from_references
        ≡ i.config_map_env_from_references ++ spec.config_map_env_from)
      × (j.config_map_volume_references ≡ i.config_map_volume_references ++ spec.config_map_volumes)
      × All (Exists c i.namespace) spec.config_map_env_from
      × All (VolumeExists c i.namespace) spec.config_map_volumes
      × (j.secret_env_from_references ≡ i.secret_env_from_references)
      × (j.secret_volume_references ≡ i.secret_volume_references)
unfolding reconcile_config_map_references add_config_map_env_from_references
    update_config_map_volume_reference_in_status
reconcile_config_map_references_lem c spec i j h =
    let (i1, h1, k1) =
      >>=-eq-next
        (reconcile_env_from c "Configmap" add_config_map_env_from_references
          spec.config_map_env_from i)
        (reconcile_volumes c "Configmap" update_config_map_volume_reference_in_status
          "No Configmap resource name given" spec.config_map_volumes)
        h in
    let (a, kept, ns, es) =
      reconcile_env_from_lem c "Configmap" add_config_map_env_from_references
        (λ k. k.config_map_env_from_references) besides_env_from (λ n k. (refl, refl, refl))
        spec.config_map_env_from i i1 h1 in
    let (b, kept2, vs) =
      reconcile_volumes_lem c "Configmap" update_config_map_volume_reference_in_status
        (λ k. k.config_map_volume_references) besides_volumes (λ n k. (refl, refl, refl))
        "No Configmap resource name given" spec.config_map_volumes i1 j k1 in
    (
      ap (λ x. x.0) kept2 ∙ a,
      b ∙ ap (λ x. x.0 ++ spec.config_map_volumes) kept,
      es,
      subst (λ x. All (VolumeExists c x) spec.config_map_volumes) ns vs,
      ap (λ x. x.1) kept2 ∙ ap (λ x. x.1) kept,
      ap (λ x. x.2) kept2 ∙ ap (λ x. x.2) kept,
    )
