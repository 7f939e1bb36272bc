-- ===== src/Build/Managers/Steps.antt =====
-- What the steps of the two managers have done where they go on: the output stream and the owners.
use kogito_operator.Common.{
  String, ◌≡◌, refl, sym, ap, Option, none, some, [], ◌∷◌, Result, ok, err, Step, next, fail, panic,
  next_injective, ok_injective, List,
}
use kogito_operator.Common.Dict.{Dict}
use kogito_operator.Reconciliation.{GoError}
use kogito_operator.Images.Streams.{ImageStream}
use kogito_operator.Build.Instance.{KogitoBuild, BuildConfig}
use kogito_operator.Build.Outputs.{
  get_output_image_stream_name_tag, new_image_handler_for_built_services,
}
use kogito_operator.Framework.Owner.{OwnerReference}
use kogito_operator.Images.Reconcile.{create_handled_stream}
use kogito_operator.Build.Managers.{
  BuildCluster, BuildResources, handled, with_output_image_stream, shared_stream, source_shared,
  share_stream, owned_config, owned_stream,
}

module _ (c : BuildCluster) where
  pub handled_next :
      (s r : BuildResources) (x : Result GoError (Option ImageStream × Dict String))
      (use_stream : Option ImageStream → BuildResources → Step GoError BuildResources)
      → handled c s x use_stream ≡ next r
      → (stream : Option ImageStream) × (shared : Dict String) × (x ≡ ok (stream, shared))
        × (use_stream stream (record s { shared = shared }) ≡ next r)
  unfolding handled
  handled_next s r (err e) use_stream h = cc
  handled_next s r (ok (stream, shared)) use_stream h = (stream, shared, refl, h)

  -- The stream that a configuration puts out, as the image handler finds or makes it.
  abbrev pub IsHandled :
      BuildConfig → KogitoBuild → Dict String → Option ImageStream → Dict String → Type 0
  IsHandled bc b shared stream written =
      (name tag : String) × (get_output_image_stream_name_tag bc ≡ some (name, tag))
      × (create_handled_stream c.getenv
            (new_image_handler_for_built_services c.version name tag b.namespace) c.is_openshift
            c.streams shared
          ≡ ok (stream, written))

  pub with_output_next :
      (bc : BuildConfig) (b : KogitoBuild) (s r : BuildResources)
      (use_stream : Option ImageStream → BuildResources → Step GoError BuildResources)
      → with_output_image_stream c bc b s use_stream ≡ next r
      → (stream : Option ImageStream) × (shared : Dict String) × IsHandled bc b s.shared stream
          shared
        × (use_stream stream (record s { shared = shared }) ≡ next r)
  unfolding with_output_image_stream
  with_output_next bc b s r use_stream h = named (get_output_image_stream_name_tag bc) refl h
    where
      named :
          (o : Option (String × String))
          → get_output_image_stream_name_tag bc ≡ o
          → elim o [
            | none ↦ panic
            | some (name, tag) ↦
                handled c s
                  (create_handled_stream c.getenv
                    (new_image_handler_for_built_services c.version name tag b.namespace)
                    c.is_openshift
                    c.streams
                    s.shared)
                  use_stream
          ]
            ≡ next r
          → (stream : Option ImageStream) × (shared : Dict String) × IsHandled bc b s.shared stream
              shared
            × (use_stream stream (record s { shared = shared }) ≡ next r)
      named none q k = cc
      named (some (name, tag)) q k =
          let (stream, shared, f, u) = handled_next s r _ use_stream k in
          (stream, shared, (name, tag, q, f), u)

  -- The stream that is shared by a manager that returns the error of `AddOwnerReference`.
  pub share_stream_next :
      (s r : BuildResources) (use_stream : ImageStream → Step GoError BuildResources)
      (stream : Option ImageStream)
      → share_stream c (λ e. fail s e) use_stream stream ≡ next r
      → (shared owned : ImageStream) × (stream ≡ some shared)
        × (shared_stream c shared ≡ ok owned)
        × (use_stream owned ≡ next r)
  unfolding share_stream
  share_stream_next s r use_stream none h = absurd (unknown c.gvk h)
    where
      unknown :
          (x : Result GoError (String × String))
          → elim x [ err e ↦ fail s e | ok kind ↦ panic ] ≡ next r
          → ⊥
      unknown (err e) k = cc
      unknown (ok kind) k = cc
  share_stream_next s r use_stream (some stream) h = answered (shared_stream c stream) refl h
    where
      answered :
          (x : Result GoError ImageStream)
          → shared_stream c stream ≡ x
          → elim x [ err e ↦ fail s e | ok owned ↦ use_stream owned ] ≡ next r
          → (shared owned : ImageStream) × (some stream ≡ some shared)
            × (shared_stream c shared ≡ ok owned)
            × (use_stream owned ≡ next r)
      answered (err e) q k = cc
      answered (ok owned) q k = (stream, owned, refl, q, k)

  pub source_shared_next :
      (stream : Option ImageStream) (s r : BuildResources) (x y : Result GoError BuildConfig)
      (z : Result GoError ImageStream)
      → source_shared c stream s x y z ≡ next r
      → (builder runtime : BuildConfig) × (builder_stream shared owned : ImageStream) × (x
          ≡ ok builder)
        × (y ≡ ok runtime)
        × (z ≡ ok builder_stream)
        × (stream ≡ some shared)
        × (shared_stream c shared ≡ ok owned)
        × (r.build_configs ≡ builder ∷ (runtime ∷ []))
        × (r.image_streams ≡ builder_stream ∷ (owned ∷ []))
  unfolding source_shared
  source_shared_next stream s r (err e) y z h = cc
  source_shared_next stream s r (ok builder) (err e) z h = cc
  source_shared_next stream s r (ok builder) (ok runtime) (err e) h = cc
  source_shared_next stream s r (ok builder) (ok runtime) (ok builder_stream) h =
      let (shared, owned, g, f, k) = share_stream_next s r _ stream h in
      let q = sym (next_injective k) in
      (
        builder,
        runtime,
        builder_stream,
        shared,
        owned,
        refl,
        refl,
        refl,
        g,
        f,
        ap (λ y. y.build_configs) q,
        ap (λ y. y.image_streams) q,
      )

  pub config_owner :
      (bc owned : BuildConfig) (x : Result GoError (List OwnerReference))
      → owned_config c bc x ≡ ok owned
      → (refs : List OwnerReference) × (x ≡ ok refs)
        × (owned ≡ record bc { owner_references = refs })
  unfolding owned_config
  config_owner bc owned (err e) h = cc
  config_owner bc owned (ok refs) h = (refs, refl, sym (ok_injective h))

  pub stream_owner :
      (stream owned : ImageStream) (x : Result GoError (List OwnerReference))
      → owned_stream c stream x ≡ ok owned
      → (refs : List OwnerReference) × (x ≡ ok refs)
        × (owned ≡ record stream { owner_references = refs })
  unfolding owned_stream
  stream_owner stream owned (err e) h = cc
  stream_owner stream owned (ok refs) h = (refs, refl, sym (ok_injective h))

  pub with_output_read :
      (bc : BuildConfig) (b : KogitoBuild) (s : BuildResources) (name tag : String)
      (use_stream : Option ImageStream → BuildResources → Step GoError BuildResources)
      → get_output_image_stream_name_tag bc ≡ some (name, tag)
      → with_output_image_stream c bc b s use_stream
        ≡ handled c s
            (create_handled_stream c.getenv
              (new_image_handler_for_built_services c.version name tag b.namespace)
              c.is_openshift
              c.streams
              s.shared)
            use_stream
  unfolding with_output_image_stream
  with_output_read bc b s name tag use_stream h = rw (h, with_output_image_stream) refl
