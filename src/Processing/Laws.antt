-- ===== src/Processing/Laws.antt =====
-- What the processing of a runtime's deployment leaves in memory and what it writes.
use kogito_operator.Common.{
  String, ◌≡◌, refl, ◌≢◌, Option, none, some, List, [], ◌∷◌, Step, next, fail, panic, >>=-eq-next,
  next_injective, arith, sym, ◌∙◌, is_empty, Result, Bool-cases, inl, inr, ok, err, ne→==_false,
  ◌==◌, if◌then◌else◌,
}
use kogito_operator.Common.Dict.{lookup, lookup-insert}
use kogito_operator.Api.Workloads.{
  Deployment, Container, SecurityContext, PodSecurityContext, config_map_ref, ConfigMap,
}
use kogito_operator.Manager.Runtime.{or_empty_map}
use kogito_operator.Reconciliation.{GoError}
use kogito_operator.Manager.SupportingService.{SupportingService}
use kogito_operator.Connector.Mount.{on_first, add_env_from, mount_as_env_from, is_config_map}
use kogito_operator.Connector.{
  UrlClient, Written, endpoint_step, service_step, inject_supporting_service_url_into_deployment,
  data_index, jobs_service, trusty_ai,
}
use kogito_operator.Processing.{
  ProcessState, inject_kogito_annotations, inject_security_context_defaults, inject_endpoints,
  write_injected, inject_supporting_service_endpoint_into_deployment, process,
  kogito_operator_version_annotation,
}

abbrev contexts_of : List Container → List (Option SecurityContext)
contexts_of [] = []
contexts_of (c ∷ cs) = c.security_context ∷ contexts_of cs

-- The security settings of a deployment: the pod's and each container's.
abbrev pub security_of : Deployment → Option PodSecurityContext × List (Option SecurityContext)
security_of d = (d.pod_security_context, contexts_of d.containers)

security_of-on_first :
    (f : Container → Container) (cs : List Container) (d d' : Deployment)
    → ((c : Container) → (f c).security_context ≡ c.security_context)
    → d.containers ≡ cs
    → on_first f cs d ≡ next d'
    → (security_of d' ≡ security_of d) × (d'.annotations ≡ d.annotations)
unfolding on_first
security_of-on_first f [] d d' k e h = cc
security_of-on_first f (c ∷ cs) d d' k e h =
    let e' : d' ≡ record d { containers = f c ∷ cs } = sym (next_injective h) in
    (
      (λ i. security_of (e' i))
          ∙ (λ i. (d.pod_security_context, k c i ∷ contexts_of cs))
          ∙ (λ i. (d.pod_security_context, contexts_of (sym e i))),
      λ i. (e' i).annotations,
    )

-- What no injection touches.
abbrev Same : Deployment → Deployment → Type 0
Same d d' = (security_of d' ≡ security_of d) × (d'.annotations ≡ d.annotations)

add_env_from-security_context :
    (cm_name : String) (c : Container)
    → (add_env_from (is_config_map cm_name) (config_map_ref cm_name) c).security_context
      ≡ c.security_context
unfolding add_env_from
add_env_from-security_context cm_name c = ground arith

Same-of : (d d' : Deployment) → d ≡ d' → Same d d'
Same-of d d' e = (λ i. security_of (sym e i), λ i. (sym e i).annotations)

mount_as_env_from-Same :
    (cm_name : String) (d d' : Deployment) → mount_as_env_from cm_name d ≡ next d' → Same d d'
unfolding mount_as_env_from
mount_as_env_from-Same cm_name d d' h =
    security_of-on_first _ d.containers d d' (add_env_from-security_context cm_name) refl h

security_of-inject_kogito_annotations :
    (version : String) (d : Deployment)
    → security_of (inject_kogito_annotations version d) ≡ security_of d
unfolding inject_kogito_annotations
security_of-inject_kogito_annotations version d = elim (Bool-cases (is_empty version)) [
  | inl e ↦ rw e
  | inr e ↦ rw e
]

module _ (c : UrlClient) where
  endpoint_step-Same :
      (d d' : Deployment) (r : Result GoError (Option ConfigMap))
      → endpoint_step c d r ≡ next d'
      → Same d d'
  unfolding endpoint_step
  endpoint_step-Same d d' (err e) h = cc
  endpoint_step-Same d d' (ok none) h = Same-of d d' (next_injective h)
  endpoint_step-Same d d' (ok (some cm)) h = mount_as_env_from-Same cm.name d d' h

  service_step-Same :
      (d d' : Deployment) (r : Result GoError (Option SupportingService))
      → service_step c d r ≡ next d'
      → Same d d'
  unfolding service_step
  service_step-Same d d' (err e) h = cc
  service_step-Same d d' (ok none) h = Same-of d d' (next_injective h)
  service_step-Same d d' (ok (some s)) h = endpoint_step-Same d d' _ h

  inject-Same :
      (ty : String) (d d' : Deployment)
      → inject_supporting_service_url_into_deployment c ty d ≡ next d'
      → Same d d'
  unfolding inject_supporting_service_url_into_deployment
  inject-Same ty d d' h = service_step-Same d d' _ h

  inject_endpoints-Same : (d d' : Deployment) → inject_endpoints c d ≡ next d' → Same d d'
  unfolding inject_endpoints
  inject_endpoints-Same d d' h =
      let (d1, h1, k1) =
        >>=-eq-next (inject_supporting_service_url_into_deployment c data_index d) _ h in
      let (d2, h2, k2) =
        >>=-eq-next (inject_supporting_service_url_into_deployment c jobs_service d1) _ k1 in
      let (a1, b1) = inject-Same data_index d d1 h1 in
      let (a2, b2) = inject-Same jobs_service d1 d2 h2 in
      let (a3, b3) = inject-Same trusty_ai d2 d' k2 in (a3 ∙ a2 ∙ a1, b3 ∙ b2 ∙ b1)

  write_injected_lem :
      (w : Written) (m : Step GoError Deployment) (t : ProcessState)
      → write_injected c w m ≡ next t
      → (m ≡ next t.deployment) × (t.written ≡ t.deployment ∷ w)
  unfolding write_injected
  write_injected_lem w (next d) t h = ground arith
  write_injected_lem w (fail d e) t h = cc
  write_injected_lem w panic t h = cc

  -- A processing that succeeds writes one deployment. It has the security settings that the
  -- deployment had before, and its annotations with the operator's version; the security defaults
  -- are set behind the write, on the deployment in memory alone.
  pub process_written :
      (version : String) (s t : ProcessState)
      → process c version s ≡ next t
      → (d : Deployment) × (t.written ≡ d ∷ s.written)
        × (security_of d ≡ security_of s.deployment)
        × (d.annotations ≡ (inject_kogito_annotations version s.deployment).annotations)
        × (t.deployment ≡ inject_security_context_defaults d)
  unfolding process inject_supporting_service_endpoint_into_deployment
  process_written version s t h =
      let d0 = inject_kogito_annotations version s.deployment in
      let (s1, h1, k1) =
        >>=-eq-next
          (inject_supporting_service_endpoint_into_deployment c (record s { deployment = d0 }))
          (λ s1. next (record s1 { deployment = inject_security_context_defaults s1.deployment }))
          h in
      let (m, w) = write_injected_lem s.written (inject_endpoints c d0) s1 h1 in
      let (sec, ann) = inject_endpoints-Same d0 s1.deployment m in
      let e = sym (next_injective k1) in
      (
        s1.deployment,
        (λ i. (e i).written) ∙ w,
        sec ∙ security_of-inject_kogito_annotations version s.deployment,
        ann,
        λ i. (e i).deployment,
      )

-- A version that is not empty is on the deployment behind the annotations step, whatever was there
-- before, and so is every other annotation.
pub lookup-inject_kogito_annotations :
    (version k : String) (d : Deployment)
    → version ≢ ""
    → lookup k (or_empty_map (inject_kogito_annotations version d).annotations) ≡ (
        if kogito_operator_version_annotation == k
        then some version
        else lookup k (or_empty_map d.annotations))
unfolding inject_kogito_annotations
lookup-inject_kogito_annotations version k d h =
    rw (ne→==_false version "" h) (lookup-insert _ k version (or_empty_map d.annotations))
