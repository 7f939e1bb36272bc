-- ===== src/Service/Deployer/Laws.antt =====
-- What `Deploy` reports: the status against its result.
use kogito_operator.Common.{
  String, ℕ, ◌≡◌, ◌↔◌, refl, Bool, true, false, Option, none, some, List, [], ◌∷◌, if◌then◌else◌,
  All, Result, ok, err, Step, next, fail, panic, ◌>>=◌, is_empty, ltb,
}
use kogito_operator.Client.{fetch_ready_replicas}
use kogito_operator.Api.Conditions.{ConditionApi, IsDocumented}
use kogito_operator.Reconciliation.{GoError}
use kogito_operator.Service.Instance.{KogitoService, key_of}
use kogito_operator.Service.Status.{StatusClient, StatusState, new_failed_condition}
use kogito_operator.Service.Status.Conditions.{IsFailed}
use kogito_operator.Service.Status.Outcome.{
  conditions_of, ensure_resources_status_changes_success, ensure_resources_status_changes_failure,
}
use kogito_operator.Service.Creation.{replicas_for}
use kogito_operator.Service.Deployer.{
  replicas_after, image_of, config_step, properties_step, trust_store_step, infra_step,
  image_stream_step, deployment_step, service_step, route_step, prometheus_step, grafana_step,
  kafka_step, knative_step, deploy_steps, run_steps, deploy, deploy_status,
}
use kogito_operator.Service.Deployer.Parts.{
  DeployCluster, DeployState, lift, asked, logged, with_default_replicas, or_one,
}

-- A property of the state that a run ends with, whether it fails or not.
unfoldable AtEnd : (DeployState → Type 0) → Step GoError DeployState → Type 0
AtEnd P panic = Unit
AtEnd P (fail s e) = P s
AtEnd P (next s) = P s

>>=-AtEnd :
    (P : DeployState → Type 0) (x : Step GoError DeployState)
    (f : DeployState → Step GoError DeployState)
    → AtEnd P x
    → ((s : DeployState) → P s → AtEnd P (f s))
    → AtEnd P (x >>= f)
unfolding AtEnd
>>=-AtEnd P panic f h k = tt
>>=-AtEnd P (fail s e) f h k = h
>>=-AtEnd P (next s) f h k = k s h

lift-AtEnd :
    {A : Type 0} (P : DeployState → Type 0) (put : A → DeployState) (x : Step GoError A)
    → ((a : A) → P (put a))
    → AtEnd P (lift put x)
unfolding lift AtEnd
lift-AtEnd P put panic h = tt
lift-AtEnd P put (fail a e) h = h a
lift-AtEnd P put (next a) h = h a

asked-AtEnd :
    (P : DeployState → Type 0) (wrap : GoError → GoError) (answer : Option GoError)
    (s : DeployState)
    → P s
    → AtEnd P (asked wrap answer s)
unfolding asked AtEnd
asked-AtEnd P wrap none s h = h
asked-AtEnd P wrap (some e) s h = h

logged-AtEnd :
    (P : DeployState → Type 0) (x : Step GoError DeployState) → AtEnd P x → AtEnd P (logged x)
unfolding logged AtEnd
logged-AtEnd P panic h = tt
logged-AtEnd P (fail s e) h = h
logged-AtEnd P (next s) h = h

-- The spec has a number of replicas.
abbrev IsReplicated : DeployState → Type 0
IsReplicated s = (n : ℕ) × (s.replicas ≡ some n)

replicas_for-some :
    (single : Bool) (o : Option ℕ) (n : ℕ) → o ≡ some n → (k : ℕ) × (replicas_for single o ≡ some k)
replicas_for-some single none n h = cc
replicas_for-some false (some m) n h = (m, refl)
replicas_for-some true (some m) n h = limited (ltb 1 m)
  where
    limited : (b : Bool) → (k : ℕ) × ((if b then some 1 else some m) ≡ some k)
    limited true = (1, refl)
    limited false = (m, refl)

module _ (c : DeployCluster) (i : KogitoService) where
  replicas_after-some :
      (image : Result GoError String) (s : DeployState)
      → IsReplicated s
      → (k : ℕ) × (replicas_after c i image s ≡ some k)
  replicas_after-some (err e) s h = h
  replicas_after-some (ok image) s (n, h) = tested (is_empty image)
    where
      tested :
          (b : Bool)
          → (k : ℕ) × ((if b
                then s.replicas
                else replicas_for s.definition.single_replica s.replicas)
              ≡ some k)
      tested true = (n, h)
      tested false = replicas_for-some s.definition.single_replica s.replicas n h

  deploy_steps-AtEnd :
      All
        (λ (f : DeployState → Step GoError DeployState).
          (s : DeployState) → IsReplicated s → AtEnd IsReplicated (f s))
        (deploy_steps c i)
  unfolding deploy_steps config_step properties_step trust_store_step infra_step image_stream_step
      deployment_step service_step route_step prometheus_step grafana_step kafka_step knative_step
  deploy_steps-AtEnd = (
    λ s h. lift-AtEnd IsReplicated _ _ (λ a. h),
    (
      λ s h. lift-AtEnd IsReplicated _ _ (λ a. h),
      (
        λ s h. lift-AtEnd IsReplicated _ _ (λ a. h),
        (
          λ s h. lift-AtEnd IsReplicated _ _ (λ a. h),
          (
            λ s h. lift-AtEnd IsReplicated _ _ (λ a. h),
            (
              λ s h. lift-AtEnd IsReplicated _ _ (λ a. replicas_after-some (image_of c i s) s h),
              (
                λ s h. lift-AtEnd IsReplicated _ _ (λ a. h),
                (
                  λ s h. logged-AtEnd IsReplicated _ (lift-AtEnd IsReplicated _ _ (λ a. h)),
                  (
                    λ s h. asked-AtEnd IsReplicated _ _ s h,
                    (
                      λ s h. asked-AtEnd IsReplicated _ _ s h,
                      (
                        λ s h. asked-AtEnd IsReplicated _ _ s h,
                        (λ s h. asked-AtEnd IsReplicated _ _ s h, tt),
                      ),
                    ),
                  ),
                ),
              ),
            ),
          ),
        ),
      ),
    ),
  )

run_steps-AtEnd :
    (P : DeployState → Type 0) (steps : List (DeployState → Step GoError DeployState))
    → All
        (λ (f : DeployState → Step GoError DeployState). (s : DeployState) → P s → AtEnd P (f s))
        steps
    → (s : DeployState) → P s
    → AtEnd P (run_steps steps s)
unfolding run_steps AtEnd
run_steps-AtEnd P [] k s h = h
run_steps-AtEnd P (f ∷ steps) (kf, ks) s h =
    >>=-AtEnd P (f s) (run_steps steps) (kf s h) (run_steps-AtEnd P steps ks)

or_one-some : (o : Option ℕ) → (n : ℕ) × (or_one o ≡ some n)
or_one-some none = (1, refl)
or_one-some (some n) = (n, refl)

deploy-AtEnd :
    (c : DeployCluster) (i : KogitoService) (s : DeployState) → AtEnd IsReplicated (deploy c i s)
unfolding deploy
deploy-AtEnd c i s =
    run_steps-AtEnd IsReplicated _ (deploy_steps-AtEnd c (with_default_replicas i)) _
      (or_one-some i.replicas)

-- A run of `Deploy` ended with an error.
abbrev pub HasFailed : Step GoError DeployState → Type 0
HasFailed x = (s : DeployState) × (e : GoError) × (x ≡ fail s e)

reported :
    (m : ConditionApi)
    → IsDocumented m
    → (v : StatusClient) (i : KogitoService) (x : Step GoError DeployState) (t : StatusState)
      (available : ℕ)
    → AtEnd IsReplicated x
    → fetch_ready_replicas v.deployments (key_of i) ≡ ok available
    → deploy_status m v i x ≡ next t
    → (IsFailed m (conditions_of t) ↔ HasFailed x) × (t.written ≡ some t.instance_state)
unfolding deploy_status AtEnd new_failed_condition
reported m doc v i panic t available r f h = cc
reported m doc v i (fail s e) t available r f h =
    let (found, _, _, w) =
      ensure_resources_status_changes_failure m doc v e (record i { replicas = s.replicas }) t
        available f h in
    ((λ q. (s, e, refl), λ q. rw found refl), w)
reported m doc v i (next s) t available (n, r) f h =
    let (cleared, w, _) =
      ensure_resources_status_changes_success m doc v (record i { replicas = s.replicas }) t n
        available r f h in
    ((λ q. absurd (cleared q), never), w)
  where
    never : HasFailed (next s) → IsFailed m (conditions_of t)
    never (a, b, q) = cc

-- Where the pods can be read and the status can be written, the status that is written of a service
-- says `Failed` exactly when `Deploy` ended with an error.
pub deploy_status-IsFailed :
    (m : ConditionApi)
    → IsDocumented m
    → (c : DeployCluster) (i : KogitoService) (s : DeployState) (v : StatusClient) (t : StatusState)
      (available : ℕ)
    → fetch_ready_replicas v.deployments (key_of i) ≡ ok available
    → deploy_status m v i (deploy c i s) ≡ next t
    → (IsFailed m (conditions_of t) ↔ HasFailed (deploy c i s))
      × (t.written ≡ some t.instance_state)
deploy_status-IsFailed m doc c i s v t available f h =
    reported m doc v i (deploy c i s) t available (deploy-AtEnd c i s) f h
