-- ===== src/Build/Managers.antt =====
-- core/kogitobuild/source_build_manager.go, binary_build_manager.go and build_manager.go: the
-- resources that a KogitoBuild asks for, and bringing the cluster to them.
pub mod Configs
pub mod Laws
pub mod Steps
use kogito_operator.Common.{
  String, ◌<>◌, ℕ, Bool, true, false, ◌||◌, ◌&&◌, Option, none, some, List, [], ◌∷◌, ◌++◌,
  if◌then◌else◌, is_empty, ◌==◌, Result, ok, err, Step, next, fail, panic, ◌>>=◌, any,
}
use kogito_operator.Common.Dict.{Dict}
use kogito_operator.Reconciliation.{GoError}
use kogito_operator.Client.{Reader, fetch_with_key}
use kogito_operator.Delta.{ResourceDelta, DeltaClient, DeltaState, apply_delta}
use kogito_operator.Framework.Owner.{Owner, OwnerReference, add_owner_reference}
use kogito_operator.Images.Version.{split, latest_tag}
use kogito_operator.Images.Names.{colon, ImageHandler}
use kogito_operator.Images.Streams.{ImageStream, TagReference, own_map}
use kogito_operator.Images.Reconcile.{create_handled_stream, with_owners}
use kogito_operator.Build.Instance.{
  KogitoBuild, BuildConfig, get_application_name, local_source_build_type, remote_source_build_type,
}
use kogito_operator.Build.Images.{resolve_kogito_image_stream_tag_name}
use kogito_operator.Build.Config.{
  Decorator, new_build_config, label_app_key, decorator_for_source_builder,
  decorator_for_remote_source_builder, decorator_for_local_source_builder,
  decorator_for_custom_labels, decorator_for_runtime_builder, decorator_for_source_runtime_builder,
  decorator_for_binary_runtime_builder,
}
use kogito_operator.Common.Dict.{get}
use kogito_operator.Build.Outputs.{
  get_output_image_stream_name_tag, new_output_image_stream_for_builder,
  new_image_handler_for_built_services,
}
use kogito_operator.Build.Request.{TriggerClient, BuildEvents, on_build_config_change}

-- What the managers use of the operator and of the cluster: the operator's version and labels, the
-- match of image names, `strconv.FormatInt`,
-- `os.Getenv`, the streams, and the answers of controller-runtime on owners:
-- `set_controller_reference` is `SetControllerReference` of the build on the references of a resource,
-- `gvk` is `GVKForObject` of the build.
pub record BuildCluster : Type 0 where
  pub version : String
  pub labels : Dict String
  pub find_submatch : String → String × String × String
  pub format_int : ℕ → String
  pub getenv : String → String
  pub is_openshift : Bool
  pub streams : Reader ImageStream
  pub set_controller_reference : List OwnerReference → Result GoError (List OwnerReference)
  pub gvk : Result GoError (String × String)
  pub owner : Owner

-- The map of resources by type, and the package's map of tag annotations.
pub record BuildResources : Type 0 where
  pub build_configs : List BuildConfig
  pub image_streams : List ImageStream
  pub shared : Dict String

abbrev pub no_resources : Dict String → BuildResources
no_resources shared = record { build_configs = []; image_streams = []; shared = shared }

module _ (c : BuildCluster) where
  -- `ResolveKogitoImageStreamTagName`
  abbrev pub base_image : Bool → KogitoBuild → String
  base_image is_builder b =
      resolve_kogito_image_stream_tag_name c.find_submatch c.getenv c.version b is_builder

  pub handled :
      BuildResources
      → Result GoError (Option ImageStream × Dict String)
      → (Option ImageStream → BuildResources → Step GoError BuildResources)
      → Step GoError BuildResources
  handled s (err e) use_stream = fail s e
  handled s (ok (stream, shared)) use_stream = use_stream stream (record s { shared = shared })

  -- `newOutputImageStreamForRuntime`, and what is done with the stream, which is nil outside of
  -- OpenShift.
  unfoldable pub with_output_image_stream :
      BuildConfig
      → KogitoBuild
      → BuildResources
      → (Option ImageStream → BuildResources → Step GoError BuildResources)
      → Step GoError BuildResources
  unfolding handled
  with_output_image_stream bc b s use_stream = elim (get_output_image_stream_name_tag bc) [
    | none ↦ panic
    | some (name, tag) ↦
        handled s
          (create_handled_stream c.getenv
            (new_image_handler_for_built_services c.version name tag b.namespace) c.is_openshift
            c.streams s.shared)
          use_stream
  ]

  -- The stream with the build among its owners.
  unfoldable pub shared_stream : ImageStream → Result GoError ImageStream
  shared_stream stream =
      with_owners stream (add_owner_reference c.gvk c.owner (stream.owner_references ∷ []))

  unfoldable pub binary_config : KogitoBuild → Step GoError BuildConfig
  binary_config b = new_build_config c.version b (
      decorator_for_runtime_builder (base_image false)
      ∷ (decorator_for_binary_runtime_builder ∷ (decorator_for_custom_labels c.labels ∷ [])))

  pub owned_config : BuildConfig → Result GoError (List OwnerReference) → Result GoError BuildConfig
  owned_config bc (err e) = err e
  owned_config bc (ok refs) = ok (record bc { owner_references = refs })

  -- `SetOwner` of a configuration, and of an image stream.
  unfoldable pub set_config_owner : BuildConfig → Result GoError BuildConfig
  unfolding owned_config
  set_config_owner bc = owned_config bc (c.set_controller_reference bc.owner_references)

  pub owned_stream : ImageStream → Result GoError (List OwnerReference) → Result GoError ImageStream
  owned_stream stream (err e) = err e
  owned_stream stream (ok refs) = ok (record stream { owner_references = refs })

  unfoldable pub set_stream_owner : ImageStream → Result GoError ImageStream
  unfolding owned_stream
  set_stream_owner stream = owned_stream stream (c.set_controller_reference stream.owner_references)

  -- `AddOwnerReference` of a stream, `answer` with its error. A stream that is nil is dereferenced once
  -- the owner's kind is known.
  unfoldable pub share_stream :
      (GoError → Step GoError BuildResources)
      → (ImageStream → Step GoError BuildResources)
      → Option ImageStream
      → Step GoError BuildResources
  share_stream answer use_stream none = elim c.gvk [ err e ↦ answer e | ok kind ↦ panic ]
  share_stream answer use_stream (some stream) = elim (shared_stream stream) [
    | err e ↦ answer e
    | ok owned ↦ use_stream owned
  ]

  -- The errors of `SetOwner` and `AddOwnerReference` are dropped: `return resources, nil`.
  binary_shared :
      Option ImageStream → BuildResources → Result GoError BuildConfig → Step GoError BuildResources
  unfolding share_stream
  binary_shared stream s (err e) = next s
  binary_shared stream s (ok bc) =
      share_stream (λ e. next s)
        (λ owned. next (record s { build_configs = bc ∷ []; image_streams = owned ∷ [] })) stream

  binary_owned : BuildConfig → Option ImageStream → BuildResources → Step GoError BuildResources
  unfolding binary_shared
  binary_owned bc stream s = binary_shared stream s (set_config_owner bc)

  binary_of : KogitoBuild → Dict String → Step GoError BuildConfig → Step GoError BuildResources
  unfolding binary_owned
  binary_of b shared panic = panic
  binary_of b shared (fail _ e) = fail (no_resources shared) e
  binary_of b shared (next bc) =
      with_output_image_stream bc b (no_resources shared) (binary_owned bc)

  -- `binaryBuildManager.GetRequestedResources`
  unfoldable pub binary_requested_resources :
      KogitoBuild → Dict String → Step GoError BuildResources
  unfolding binary_of
  binary_requested_resources b shared = binary_of b shared (binary_config b)

  unfoldable pub get_builder_decorator : KogitoBuild → Decorator
  get_builder_decorator b =
      if b.build_type == local_source_build_type
      then decorator_for_local_source_builder
      else decorator_for_remote_source_builder

  unfoldable pub builder_config : KogitoBuild → Step GoError BuildConfig
  builder_config b = new_build_config c.version b (
      decorator_for_source_builder c.format_int (base_image true)
      ∷ (get_builder_decorator b ∷ (decorator_for_custom_labels c.labels ∷ [])))

  unfoldable pub runtime_config : KogitoBuild → Step GoError BuildConfig
  runtime_config b = new_build_config c.version b (
      decorator_for_runtime_builder (base_image false)
      ∷ (decorator_for_source_runtime_builder ∷ (decorator_for_custom_labels c.labels ∷ [])))

  -- `SetOwner` of the three resources, one after the other.
  pub source_shared :
      Option ImageStream
      → BuildResources
      → Result GoError BuildConfig
      → Result GoError BuildConfig
      → Result GoError ImageStream
      → Step GoError BuildResources
  unfolding share_stream
  source_shared stream s (err e) runtime builder_stream = fail s e
  source_shared stream s (ok builder) (err e) builder_stream = fail s e
  source_shared stream s (ok builder) (ok runtime) (err e) = fail s e
  source_shared stream s (ok builder) (ok runtime) (ok builder_stream) =
      share_stream (λ e. fail s e)
        (λ owned. next (record s {
          build_configs = builder ∷ (runtime ∷ []);
          image_streams = builder_stream ∷ (owned ∷ []);
        }))
        stream

  source_owned :
      BuildConfig
      → BuildConfig
      → ImageStream
      → Option ImageStream
      → BuildResources
      → Step GoError BuildResources
  unfolding source_shared
  source_owned builder runtime builder_stream stream s =
      source_shared stream s (set_config_owner builder) (set_config_owner runtime)
        (set_stream_owner builder_stream)

  source_streams :
      KogitoBuild → BuildConfig → BuildConfig → Dict String → Step GoError BuildResources
  unfolding source_owned
  source_streams b builder runtime shared = elim (new_output_image_stream_for_builder builder) [
    | none ↦ panic
    | some builder_stream ↦
        with_output_image_stream runtime b (no_resources shared)
          (source_owned builder runtime builder_stream)
  ]

  source_of :
      KogitoBuild
      → Dict String
      → Step GoError BuildConfig
      → Step GoError BuildConfig
      → Step GoError BuildResources
  unfolding source_streams
  source_of b shared panic runtime = panic
  source_of b shared (fail _ e) runtime = fail (no_resources shared) e
  source_of b shared (next builder) panic = panic
  source_of b shared (next builder) (fail _ e) = fail (no_resources shared) e
  source_of b shared (next builder) (next runtime) = source_streams b builder runtime shared

  -- `sourceBuildManager.GetRequestedResources`
  unfoldable pub source_requested_resources :
      KogitoBuild → Dict String → Step GoError BuildResources
  unfolding source_of
  source_requested_resources b shared = source_of b shared (builder_config b) (runtime_config b)

  -- The manager that `getBuildManager` chooses.
  unfoldable pub requested_resources : KogitoBuild → Dict String → Step GoError BuildResources
  requested_resources b shared =
      if (b.build_type == local_source_build_type) || (b.build_type == remote_source_build_type)
      then source_requested_resources b shared
      else binary_requested_resources b shared
