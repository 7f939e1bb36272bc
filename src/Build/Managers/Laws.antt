-- ===== src/Build/Managers/Laws.antt =====
-- What the requested resources of a KogitoBuild are.
use kogito_operator.Common.{
  String, ◌<>◌, ◌≡◌, refl, sym, subst, ap, ◌∙◌, Option, none, some, [], ◌∷◌, ok, next, panic, List,
  true,
}
use kogito_operator.Common.Dict.{Dict}
use kogito_operator.Images.Version.{latest_tag}
use kogito_operator.Images.Streams.{ImageStream}
use kogito_operator.Build.Instance.{
  KogitoBuild, BuildConfig, ObjectReference, image_source, image_change, get_build_builder_name,
  get_application_name,
}
use kogito_operator.Build.Config.{
  tag_reference, runner_source_path, get_builder_image_stream_output_to,
}
use kogito_operator.Build.Outputs.{
  get_output_image_stream_name_tag, new_output_image_stream_for_builder,
}
use kogito_operator.Framework.Owner.{OwnerReference, is_owner}
use kogito_operator.Images.Reconcile.{with_owners-IsOwner}
use kogito_operator.Build.Managers.Configs.{runtime_config_lem, builder_config_lem}
use kogito_operator.Build.Managers.{
  BuildCluster, BuildResources, with_output_image_stream, shared_stream, builder_config,
  runtime_config, source_owned, source_streams, source_of, source_requested_resources, no_resources,
  set_config_owner, set_stream_owner,
}
use kogito_operator.Build.Managers.Steps.{
  IsHandled, with_output_next, source_shared_next, config_owner, stream_owner,
}

-- The runtime's image is built from what the builder's configuration puts out, and again whenever
-- that changes; its own output is the application's image stream.
abbrev pub IsChain : KogitoBuild → BuildConfig → BuildConfig → Type 0
IsChain b builder runtime =
    (builder.name ≡ get_build_builder_name b)
    × (runtime.name ≡ b.name)
    × (from : ObjectReference) × (builder.output_to ≡ some from)
    × (runtime.source ≡ image_source from "." runner_source_path)
    × (runtime.triggers ≡ image_change from ∷ [])
    × (runtime.output_to ≡ some (tag_reference "" (get_application_name b <> (":" <> latest_tag))))

-- The build is among the owners.
abbrev pub IsOwned : BuildCluster → List OwnerReference → Type 0
IsOwned c refs = is_owner refs c.owner ≡ true

-- `SetControllerReference` puts the owner among the references that it answers with.
abbrev pub SetsController : BuildCluster → Type 0
SetsController c =
    (refs refs' : List OwnerReference)
    → c.set_controller_reference refs ≡ ok refs'
    → IsOwned c refs'

module _ (c : BuildCluster) where
  -- What the two configurations ask for, and where their streams come from.
  abbrev AreRequested :
      KogitoBuild → BuildConfig → BuildConfig → Dict String → BuildResources → Type 0
  AreRequested b bc rc shared r =
      (unowned : ImageStream) × (builder runtime : BuildConfig) × (builder_stream source
        stream : ImageStream)
      × (written : Dict String) × (new_output_image_stream_for_builder bc ≡ some unowned)
      × IsHandled c rc b shared (some source) written
      × (set_config_owner c bc ≡ ok builder)
      × (set_config_owner c rc ≡ ok runtime)
      × (set_stream_owner c unowned ≡ ok builder_stream)
      × (shared_stream c source ≡ ok stream)
      × (r.build_configs ≡ builder ∷ (runtime ∷ []))
      × (r.image_streams ≡ builder_stream ∷ (stream ∷ []))

  streams_next :
      (b : KogitoBuild) (bc rc : BuildConfig) (shared : Dict String) (r : BuildResources)
      → source_streams c b bc rc shared ≡ next r
      → AreRequested b bc rc shared r
  unfolding source_streams source_owned
  streams_next b bc rc shared r h = output (new_output_image_stream_for_builder bc) refl h
    where
      output :
          (o : Option ImageStream)
          → new_output_image_stream_for_builder bc ≡ o
          → elim o [
            | none ↦ panic
            | some unowned ↦
                with_output_image_stream c rc b (no_resources shared) (source_owned c bc rc unowned)
          ]
            ≡ next r
          → AreRequested b bc rc shared r
      output none q k = cc
      output (some unowned) q k =
          let (stream, written, made, u) =
            with_output_next c rc b (no_resources shared) r (source_owned c bc rc unowned) k in
          let (builder, runtime, builder_stream, source, owned, x, y, z, g, f, cs, is) =
            source_shared_next c stream (no_resources written) r (set_config_owner c bc)
              (set_config_owner c rc) (set_stream_owner c unowned) u in
          (
            unowned,
            builder,
            runtime,
            builder_stream,
            source,
            owned,
            written,
            q,
            subst (λ o. IsHandled c rc b shared o written) g made,
            x,
            y,
            z,
            f,
            cs,
            is,
          )

  from_configs :
      (b : KogitoBuild) (builder runtime : BuildConfig) (shared : Dict String)
      → builder_config c b ≡ next builder
      → runtime_config c b ≡ next runtime
      → source_streams c b builder runtime shared ≡ source_requested_resources c b shared
  unfolding source_requested_resources source_of
  from_configs b builder runtime shared eb er = rw (eb, er) refl

  -- Where `SetControllerReference` puts the owner among the references of a resource: a build from
  -- sources that gets its resources has two configurations, the second fed by the first, and two
  -- streams, the one that the first configuration puts out, and the one that the image handler finds
  -- or makes for the output of the second; and the build is among the owners of each of the four.
  pub source_requested_resources-IsChain :
      SetsController c
      → (b : KogitoBuild) (shared : Dict String) (r : BuildResources)
      → source_requested_resources c b shared ≡ next r
      → (builder runtime : BuildConfig) × (builder_stream stream : ImageStream) × (r.build_configs
          ≡ builder ∷ (runtime ∷ []))
        × (r.image_streams ≡ builder_stream ∷ (stream ∷ []))
        × IsChain b builder runtime
        × (made : ImageStream) × (new_output_image_stream_for_builder builder ≡ some made)
        × (builder_stream ≡ record made { owner_references = builder_stream.owner_references })
        × (source : ImageStream) × (written : Dict String) × IsHandled c runtime b shared
            (some source)
            written
        × (shared_stream c source ≡ ok stream)
        × IsOwned c builder.owner_references
        × IsOwned c runtime.owner_references
        × IsOwned c builder_stream.owner_references
        × IsOwned c stream.owner_references
  unfolding source_requested_resources set_config_owner set_stream_owner shared_stream
      new_output_image_stream_for_builder get_output_image_stream_name_tag
  source_requested_resources-IsChain sets b shared r h =
      let (bc, eb, nb, ob) = builder_config_lem c b in
      let (rc, er, nr, sr, tr, or) = runtime_config_lem c b in
      let (
        unowned,
        builder,
        runtime,
        builder_stream,
        source,
        stream,
        written,
        m,
        (name, tag, on, oc),
        x,
        y,
        z,
        f,
        cs,
        is,
      ) =
        streams_next b bc rc shared r (from_configs b bc rc shared eb er ∙ h) in
      let (refs, hx, qx) =
        config_owner c bc builder (c.set_controller_reference bc.owner_references) x in
      let (refs', hy, qy) =
        config_owner c rc runtime (c.set_controller_reference rc.owner_references) y in
      let (refs'', hz, qz) =
        stream_owner c unowned builder_stream (c.set_controller_reference unowned.owner_references)
          z in
      (
        builder,
        runtime,
        builder_stream,
        stream,
        cs,
        is,
        (
          ap (λ v. v.name) qx ∙ nb,
          ap (λ v. v.name) qy ∙ nr,
          get_builder_image_stream_output_to b,
          ap (λ v. v.output_to) qx ∙ ob,
          ap (λ v. v.source) qy ∙ sr,
          ap (λ v. v.triggers) qy ∙ tr,
          ap (λ v. v.output_to) qy ∙ or,
        ),
        unowned,
        ap new_output_image_stream_for_builder qx ∙ m,
        qz ∙ ap (λ v. record unowned { owner_references = v.owner_references }) (sym qz),
        source,
        written,
        (name, tag, ap get_output_image_stream_name_tag qy ∙ on, oc),
        f,
        ap (λ v. is_owner v.owner_references c.owner) qx ∙ sets _ _ hx,
        ap (λ v. is_owner v.owner_references c.owner) qy ∙ sets _ _ hy,
        ap (λ v. is_owner v.owner_references c.owner) qz ∙ sets _ _ hz,
        with_owners-IsOwner c.gvk c.owner source stream f,
      )
