-- ===== src/Connector/Laws.antt =====
-- Which deployments learn the endpoints of a supporting service.
use mathlib.Core.List.{Memᴰ}
use kogito_operator.Common.{
  String, ◌≡◌, refl, some, List, [], ◌∷◌, All, ok, Step, next, fail, panic, >>=-eq-next,
  next_injective, arith, sym, subst, ◌∙◌,
}
use kogito_operator.Api.{NamespacedName}
use kogito_operator.Api.Workloads.{Deployment, ConfigMap}
use kogito_operator.Reconciliation.{GoError}
use kogito_operator.Manager.Runtime.{fetch_kogito_runtime_deployments}
use kogito_operator.Connector.Mount.{mount_as_env_from}
use kogito_operator.Connector.Mount.Laws.{HasEnvFrom, mount_as_env_from_idem}
use kogito_operator.Connector.{
  UrlClient, Written, fetch_end_point_config_map, update_deployment, mounted_update, mount_each,
  endpoint_of_runtimes, runtimes_step, inject_supporting_service_url_into_kogito_runtime,
}

-- A deployment was written with the config map mounted on it.
abbrev pub IsInjected : String → Written → Deployment → Type 0
IsInjected cm_name w d =
    (d' : Deployment) × (mount_as_env_from cm_name d ≡ next d') × HasEnvFrom cm_name d' × Memᴰ d' w

module _ (c : UrlClient) where
  mounted_update_lem :
      (m : Step GoError Deployment) (w w' : Written)
      → mounted_update c m w ≡ next w'
      → (d' : Deployment) × (m ≡ next d') × (w' ≡ d' ∷ w)
  unfolding mounted_update update_deployment
  mounted_update_lem (next d) w w' h = (d, refl, ground arith)
  mounted_update_lem (fail d e) w w' h = cc
  mounted_update_lem panic w w' h = cc

  mount_each-keeps :
      (cm_name : String) (ds : List Deployment) (w w' : Written) (d : Deployment)
      → mount_each c cm_name ds w ≡ next w'
      → Memᴰ d w
      → Memᴰ d w'
  unfolding mount_each
  mount_each-keeps cm_name [] w w' d h k = subst (Memᴰ d) (next_injective h) k
  mount_each-keeps cm_name (x ∷ ds) w w' d h k =
      let (w1, h1, k1) = >>=-eq-next (mounted_update c (mount_as_env_from cm_name x) w) _ h in
      let (d', _, e) = mounted_update_lem _ w w1 h1 in
      mount_each-keeps cm_name ds w1 w' d k1 (subst (Memᴰ d) (sym e) (Memᴰ.tail k))

  mount_each-IsInjected :
      (cm_name : String) (ds : List Deployment) (w w' : Written)
      → mount_each c cm_name ds w ≡ next w'
      → All (IsInjected cm_name w') ds
  unfolding mount_each
  mount_each-IsInjected cm_name [] w w' h = tt
  mount_each-IsInjected cm_name (x ∷ ds) w w' h =
      let (w1, h1, k1) = >>=-eq-next (mounted_update c (mount_as_env_from cm_name x) w) _ h in
      let (d', m, e) = mounted_update_lem _ w w1 h1 in
      (
        (
          d',
          m,
          (mount_as_env_from_idem cm_name x d' m).0,
          mount_each-keeps cm_name ds w1 w' d' k1 (subst (Memᴰ d') (sym e) (Memᴰ.head refl)),
        ),
        mount_each-IsInjected cm_name ds w1 w' k1,
      )

  -- Where the endpoint config map of a service exists and the injection succeeds, every deployment
  -- of a runtime in the service's namespace has been written with that config map as environment,
  -- also one that had it before.
  pub inject_supporting_service_url_into_kogito_runtime-IsInjected :
      (key : NamespacedName) (w w' : Written) (ds : List Deployment) (cm : ConfigMap)
      → fetch_kogito_runtime_deployments c.services.deployments key.namespace ≡ ok ds
      → fetch_end_point_config_map c.config_maps key ≡ ok (some cm)
      → inject_supporting_service_url_into_kogito_runtime c key w ≡ next w'
      → All (IsInjected cm.name w') ds
  unfolding inject_supporting_service_url_into_kogito_runtime runtimes_step endpoint_of_runtimes
  inject_supporting_service_url_into_kogito_runtime-IsInjected key w w' [] cm f g h = tt
  inject_supporting_service_url_into_kogito_runtime-IsInjected key w w' (d ∷ ds) cm f g h =
      mount_each-IsInjected cm.name (d ∷ ds) w w' (
        sym
          ((λ i. runtimes_step c key (f i) w) ∙ (λ i. endpoint_of_runtimes c key (d ∷ ds) (g i) w))
        ∙ h)
