-- ===== src/Service/Deployment/Laws.antt =====
-- What the deployment of a service has, whatever is mounted on it.
use mathlib.Core.Option.{or_else}
use kogito_operator.Common.{
  String, ℕ, subst, ◌≡◌, ◌≢◌, refl, sym, ap, ◌∙◌, Bool, true, false, Option, none, some, [], ◌∷◌,
  ◌==◌, if◌then◌else◌, Result, ok, err, Step, next, panic, >>=-eq-next, next_injective, eq_refl,
  ne→==_false,
}
use kogito_operator.Common.Dict.{Dict, NodupKeys, lookup, lookup-insert}
use kogito_operator.Reconciliation.{GoError}
use kogito_operator.Framework.Collections.Laws.{lookup-append_to_string_map}
use kogito_operator.Processing.{kogito_operator_version_annotation}
use kogito_operator.Images.Names.{ImageHandler, resolve_image_stream_trigger_annotation}
use kogito_operator.Service.Instance.{KogitoService}
use kogito_operator.Service.Draft.{Draft, built, own_or}
use kogito_operator.Service.Dependencies.{ServiceDefinition}
use kogito_operator.Service.Creation.{
  DeploymentCluster, create_deployment, app_label, draft_with, supports_startup, or_new,
}
use kogito_operator.Service.Deployment.Kept.{mount_on_deployment-IsKept}
use kogito_operator.Service.Deployment.{
  custom, on_deployment_create, add_deployment_identifier, mount_on_deployment,
  mount_metering_labels, create_required_deployment,
}

module _ (c : DeploymentCluster) (i : KogitoService) (d : ServiceDefinition) where
  abbrev IsFresh : Draft → Type 0
  IsFresh x =
      (x.base.match_labels ≡ (app_label, i.name) ∷ [])
      × (lookup app_label x.shared_labels ≡ some i.name)
      × (x.shared_annotations ≡ (kogito_operator_version_annotation, c.version) ∷ [])
      × (x.own_annotations ≡ none)

  -- The drafts of `CreateDeployment` begin with these maps.
  draft_with-IsFresh :
      (image : String) (supported : Bool) → IsFresh (draft_with c i d image supported)
  unfolding draft_with
  draft_with-IsFresh image supported =
      (refl, lookup-insert app_label app_label i.name (or_new i.deployment_labels), refl, refl)

  create_deployment-IsFresh :
      (image : String) (x : Draft) → create_deployment c i d image ≡ next x → IsFresh x
  unfolding create_deployment
  create_deployment-IsFresh image x h = answered c.server_minor_version h
    where
      answered :
          (answer : Result GoError (Option ℕ))
          → ◌≡◌ {A = Step GoError Draft}
              (elim answer [
                | err _ ↦ panic
                | ok minor ↦ next (draft_with c i d image (supports_startup minor))
              ])
              (next x)
          → IsFresh x
      answered (err e) k = cc
      answered (ok minor) k =
          subst IsFresh (next_injective k) (draft_with-IsFresh image (supports_startup minor))

  -- The annotations of a draft that has passed `onDeploymentCreate` and `addDeploymentIdentifier`.
  abbrev annotations_of : Draft → Dict String
  annotations_of x = own_or x.own_annotations x.shared_annotations

  marked_shared :
      (x : Draft)
      → (c.deployment_identifier == kogito_operator_version_annotation) ≡ false
      → IsFresh x
      → let y = add_deployment_identifier c i d x in
        (lookup c.deployment_identifier (annotations_of y) ≡ some "true")
        × (lookup kogito_operator_version_annotation (annotations_of y) ≡ some c.version)
  unfolding add_deployment_identifier lookup
  marked_shared x e (m, l, a, o) =
      rw (o, a)
        (
          lookup-insert c.deployment_identifier c.deployment_identifier "true" _
              ∙ rw (eq_refl c.deployment_identifier) refl,
          lookup-insert c.deployment_identifier kogito_operator_version_annotation "true" _
              ∙ rw e refl,
        )

  marked_own :
      (h : ImageHandler) (x : Draft)
      → (c.deployment_identifier == kogito_operator_version_annotation) ≡ false
      → let y = add_deployment_identifier c i d (record x {
        own_annotations = some (resolve_image_stream_trigger_annotation h i.name ∷ []);
      }) in
        (lookup c.deployment_identifier (annotations_of y) ≡ some "true")
        × (lookup kogito_operator_version_annotation (annotations_of y) ≡ none)
  unfolding add_deployment_identifier resolve_image_stream_trigger_annotation lookup
  marked_own h x e = (
    lookup-insert c.deployment_identifier c.deployment_identifier "true" _
        ∙ rw (eq_refl c.deployment_identifier) refl,
    lookup-insert c.deployment_identifier kogito_operator_version_annotation "true" _ ∙ rw e refl,
  )

  abbrev on_cluster : ImageHandler → Bool → Draft → Draft
  on_cluster h b x =
      if b
      then record x {
        own_annotations = some (resolve_image_stream_trigger_annotation h i.name ∷ []);
      }
      else x

  marked_on :
      (h : ImageHandler) (x : Draft) (b : Bool)
      → (c.deployment_identifier == kogito_operator_version_annotation) ≡ false
      → IsFresh x
      → let y = add_deployment_identifier c i d (on_cluster h b x) in
        (lookup c.deployment_identifier (annotations_of y) ≡ some "true")
        × (lookup kogito_operator_version_annotation (annotations_of y)
            ≡ (if b then none else some c.version))
        × (y.shared_labels ≡ x.shared_labels)
        × (y.base ≡ x.base)
  unfolding add_deployment_identifier
  marked_on h x true e f = let (p, q) = marked_own h x e in (p, q, refl, refl)
  marked_on h x false e f = let (p, q) = marked_shared x e f in (p, q, rw (f.3) refl, rw (f.3) refl)

  on_deployment_create_next :
      (h : ImageHandler) (x y : Draft)
      → d.on_deployment_create ≡ none
      → on_deployment_create c i d h x ≡ next y
      → on_cluster h c.is_openshift x ≡ y
  unfolding on_deployment_create custom
  on_deployment_create_next h x y n r = next_injective (sym (rw n refl) ∙ r)

  -- The deployment of a service without a step of its own: its selector asks for the application's
  -- label, which its pods have, its own labels are those of its pods, and it is marked by the
  -- identifier. The version of the operator is among its annotations only outside of OpenShift.
  pub create_required_deployment-IsSelected :
      (h : ImageHandler) (image : String) (x : Draft)
      → d.on_deployment_create ≡ none
      → NodupKeys c.labels
      → lookup app_label c.labels ≡ none
      → c.deployment_identifier ≢ kogito_operator_version_annotation
      → create_required_deployment c i d h image ≡ next x
      → ((built x).match_labels ≡ (app_label, i.name) ∷ [])
        × (lookup app_label (built x).template_labels ≡ some i.name)
        × ((built x).labels ≡ (built x).template_labels)
        × (annotations : Dict String) × ((built x).annotations ≡ some annotations)
        × (lookup c.deployment_identifier annotations ≡ some "true")
        × (lookup kogito_operator_version_annotation annotations
            ≡ (if c.is_openshift then none else some c.version))
  unfolding create_required_deployment mount_metering_labels built or_else
  create_required_deployment-IsSelected h image x n u a v r =
      let (x1, h1, r1) = >>=-eq-next (create_deployment c i d image) _ r in
      let (x2, h2, r2) = >>=-eq-next (on_deployment_create c i d h x1) _ r1 in
      let (x3, h3, r3) =
        >>=-eq-next (mount_on_deployment c i d (add_deployment_identifier c i d x2)) _ r2 in
      let q = sym (next_injective r3) in
      let fresh = create_deployment-IsFresh image x1 h1 in
      let e = ne→==_false c.deployment_identifier kogito_operator_version_annotation v in
      let z = on_deployment_create_next h x1 x2 n h2 in
      let (p, w, l, b) = marked_on h x1 c.is_openshift e fresh in
      let (ks, kl, ka, ko) =
        mount_on_deployment-IsKept c i d (add_deployment_identifier c i d x2) x3 h3 in
      let same : annotations_of x
          ≡ annotations_of (add_deployment_identifier c i d (on_cluster h c.is_openshift x1)) =
        ap annotations_of q
        ∙ ap (λ o. own_or o x3.shared_annotations) ko
        ∙ ap (own_or (add_deployment_identifier c i d x2).own_annotations) ka
        ∙ sym (ap (λ y. annotations_of (add_deployment_identifier c i d y)) z) in
      (
        ap (λ y. y.base.match_labels) q
            ∙ ks
            ∙ sym (ap (λ y. (add_deployment_identifier c i d y).base.match_labels) z)
            ∙ ap (λ y. y.match_labels) b
            ∙ fresh.0,
        ap (λ y. lookup app_label y.shared_labels) q
            ∙ lookup-append_to_string_map app_label c.labels x3.shared_labels u
            ∙ rw a refl
            ∙ ap (lookup app_label)
                (kl ∙ sym (ap (λ y. (add_deployment_identifier c i d y).shared_labels) z) ∙ l)
            ∙ fresh.1,
        refl,
        annotations_of x,
        refl,
        ap (lookup c.deployment_identifier) same ∙ p,
        ap (lookup kogito_operator_version_annotation) same ∙ w,
      )
