-- ===== src/Tests/Managers.antt =====
-- Runs of the reconciliation of a KogitoBuild.
use kogito_operator.Common.{
  String, ℕ, ◌≡◌, refl, sym, ap, ok_injective, Result, ◌⊎◌, true, false, Option, none, some, List,
  [], ◌∷◌, ◌++◌, ok, err, ◌==◌, if◌then◌else◌,
}
use kogito_operator.Client.{fetch_with_key}
use kogito_operator.Common.Dict.{Dict}
use kogito_operator.Reconciliation.{GoError, zero_result}
use kogito_operator.Framework.Owner.{Owner, OwnerReference}
use kogito_operator.Images.Reconcile.{create_handled_stream}
use kogito_operator.Build.Outputs.{
  new_image_handler_for_built_services, new_output_image_stream_for_builder,
}
use kogito_operator.Delta.{DeltaClient, DeltaState, ResourceDelta, Write, writes_of}
use kogito_operator.Images.Streams.{ImageStream, image_stream_tag_annotations, check_if_tag_exists}
use kogito_operator.Build.Instance.{KogitoBuild, BuildConfig, no_source, remote_source_build_type}
use kogito_operator.Build.Streams.{
  StreamServer, StreamWrites, create_required_kogito_image_streams, HasStream,
  create_required_kogito_image_streams-HasStream,
}
use kogito_operator.Build.Images.{new_kogito_image_stream}
use kogito_operator.Build.Managers.{
  BuildCluster, BuildResources, no_resources, source_requested_resources,
  binary_requested_resources, binary_config, shared_stream,
}
use kogito_operator.Build.Managers.Steps.{IsHandled}
use kogito_operator.Build.Managers.Laws.{
  IsChain, IsOwned, SetsController, source_requested_resources-IsChain,
}
use kogito_operator.Build.Process.{
  BuildObject, config_object, BuildProgress, process_build_delta, process_build_delta_lem,
  is_source,
}
use kogito_operator.Build.Controller.Env.{BuildEnv, BuildRun, prepare}
use kogito_operator.Build.Controller.{reconcile_build, reconcile_build-IsProcessed, IsProcessed}
use kogito_operator.Tests.Fixtures.{reading, ended, missing}
use kogito_operator.Tests.Requests.{app_build, app_config, trigger_client, no_events}

abbrev whole_name : String → String × String × String
whole_name s = ("", s, "")

abbrev no_env : String → String
no_env name = ""

abbrev app_output : ImageStream
app_output = record {
  name = "app";
  namespace = "apps";
  labels = [];
  annotations = [];
  owner_references = [];
  lookup_local = true;
  tags = [];
  status_tags = [];
}

abbrev build_owner : Owner
build_owner = record { name = "app"; uid = "uid-1" }

abbrev controlled : List OwnerReference → Result GoError (List OwnerReference)
controlled refs = ok (
    record {
      api_version = "app.kiegroup.org/v1beta1";
      kind = "KogitoBuild";
      name = "app";
      uid = "uid-1";
      controller = true;
      block_owner_deletion = true;
    }
    ∷ refs)

abbrev build_cluster : BuildCluster
build_cluster = record {
  version = "1.40.0";
  labels = [];
  find_submatch = whole_name;
  format_int = λ n. "1";
  getenv = no_env;
  is_openshift = true;
  streams = reading "app" app_output;
  set_controller_reference = controlled;
  gvk = ok ("app.kiegroup.org/v1beta1", "KogitoBuild");
  owner = build_owner;
}

abbrev source_build : KogitoBuild
source_build = record app_build {
  build_type = remote_source_build_type;
  git_uri = "https://example.com/app";
}

abbrev source_resources : BuildResources
source_resources =
    ended (no_resources [])
      (source_requested_resources build_cluster source_build image_stream_tag_annotations)

controlled-SetsController : SetsController build_cluster
unfolding kogito_operator.Framework.Owner.is_owner
controlled-SetsController refs refs' h =
    sym (ap (λ x. kogito_operator.Framework.Owner.is_owner x build_owner) (ok_injective h))

source_requested_resources-IsChain_example :
    (builder runtime : BuildConfig) × (builder_stream stream : ImageStream)
    × (source_resources.build_configs ≡ builder ∷ (runtime ∷ []))
    × (source_resources.image_streams ≡ builder_stream ∷ (stream ∷ []))
    × IsChain source_build builder runtime
    × (made : ImageStream) × (new_output_image_stream_for_builder builder ≡ some made)
    × (builder_stream ≡ record made { owner_references = builder_stream.owner_references })
    × (source : ImageStream) × (written : Dict String) × IsHandled build_cluster runtime
        source_build image_stream_tag_annotations
        (some source)
        written
    × (shared_stream build_cluster source ≡ ok stream)
    × IsOwned build_cluster builder.owner_references
    × IsOwned build_cluster runtime.owner_references
    × IsOwned build_cluster builder_stream.owner_references
    × IsOwned build_cluster stream.owner_references
unfolding source_requested_resources kogito_operator.Build.Managers.builder_config
    kogito_operator.Build.Config.new_build_config
    kogito_operator.Build.Config.decorator_for_source_builder
    kogito_operator.Build.Managers.get_builder_decorator
    kogito_operator.Build.Config.decorator_for_remote_source_builder
    kogito_operator.Build.Config.decorator_for_custom_labels
    kogito_operator.Build.Managers.runtime_config
    kogito_operator.Build.Config.decorator_for_runtime_builder
    kogito_operator.Build.Config.decorator_for_source_runtime_builder
    kogito_operator.Build.Outputs.new_output_image_stream_for_builder
    kogito_operator.Build.Outputs.get_output_image_stream_name_tag
    kogito_operator.Build.Managers.with_output_image_stream
    kogito_operator.Images.Reconcile.create_handled_stream
    kogito_operator.Images.Streams.create_image_stream_if_not_exists fetch_with_key
    kogito_operator.Build.Outputs.new_image_handler_for_built_services
    kogito_operator.Images.Version.split kogito_operator.Build.Config.builder_envs
    kogito_operator.Build.Config.decorator_for_local_source_builder
    kogito_operator.Build.Config.get_builder_limits_as_int_string
    kogito_operator.Build.Config.trim_slash kogito_operator.Build.Images.named_image
    kogito_operator.Build.Images.resolve_kogito_image_name
    kogito_operator.Build.Images.resolve_kogito_image_stream_name
    kogito_operator.Build.Images.resolve_kogito_image_stream_tag_name
    kogito_operator.Build.Images.resolve_kogito_image_tag kogito_operator.Common.Dict.insert
    kogito_operator.Common.Dict.lookup kogito_operator.Framework.Collections.append_to_string_map
    kogito_operator.Framework.EnvVar.env_override kogito_operator.Framework.EnvVar.get_env_var
    kogito_operator.Framework.EnvVar.override_one
    kogito_operator.Framework.Owner.add_owner_reference
    kogito_operator.Framework.Owner.add_owner_reference_one kogito_operator.Framework.Owner.is_owner
    kogito_operator.Images.Names.convert_image_tag_to_image kogito_operator.Images.Names.remove_all
    kogito_operator.Images.Names.resolve_image_name_tag
    kogito_operator.Images.Names.resolve_registry_image kogito_operator.Images.Names.resolve_tag
    kogito_operator.Images.Names.split_image_tag_parts kogito_operator.Images.Names.trim_right
    kogito_operator.Images.Reconcile.with_owners check_if_tag_exists
    kogito_operator.Images.Streams.create_image_stream
    kogito_operator.Images.Streams.create_image_stream_tag kogito_operator.Images.Streams.ensure_tag
    kogito_operator.Images.Version.get_kogito_image_version kogito_operator.Images.Version.join
    kogito_operator.Build.Managers.set_config_owner kogito_operator.Build.Managers.set_stream_owner
    kogito_operator.Build.Managers.shared_stream
source_requested_resources-IsChain_example =
    source_requested_resources-IsChain build_cluster controlled-SetsController source_build
      image_stream_tag_annotations source_resources refl

abbrev unowned : BuildCluster
unowned = record build_cluster { set_controller_reference = λ refs. err missing }

abbrev no_config : BuildConfig
no_config = record {
  name = "";
  namespace = "";
  labels = [];
  annotations = [];
  owner_references = [];
  limits = none;
  source = no_source;
  output_to = none;
  triggers = [];
  strategy = none;
}

abbrev value_of : {A : Type 0} → A → Result GoError A → A
value_of a (ok b) = b
value_of a (err e) = a

abbrev binary_build_config : BuildConfig
binary_build_config = ended no_config (binary_config unowned app_build)

abbrev stream_read : Option ImageStream × Dict String
stream_read =
    value_of (none, [])
      (create_handled_stream no_env
        (new_image_handler_for_built_services "1.40.0" "app" "latest" "apps") true
        build_cluster.streams image_stream_tag_annotations)

abbrev accepting : DeltaClient BuildObject
accepting = record {
  has_changes = λ d. true;
  create_resources = λ os. none;
  update_resources = λ os. none;
  delete_resources = λ os. none;
}

abbrev idle : BuildProgress
idle = record { delta = record { writes = []; is_delta_processed = false }; events = no_events }

abbrev config_delta : ResourceDelta BuildObject
config_delta = record {
  resource_type = "BuildConfig";
  added = [];
  updated = config_object app_config ∷ [];
  removed = [];
}

abbrev progressed : BuildProgress
progressed =
    ended idle (process_build_delta trigger_client accepting source_build (config_delta ∷ []) idle)

process_build_delta_lem_example :
    (progressed.delta.writes ≡ [] ++ writes_of accepting (config_delta ∷ []))
    × ((is_source trigger_client accepting source_build ≡ true) ⊎ (progressed.events ≡ no_events))
unfolding process_build_delta kogito_operator.Delta.apply_delta
    kogito_operator.Build.Request.on_build_config_change
    kogito_operator.Build.Request.start_new_build
    kogito_operator.Build.Request.cancel_running_builds kogito_operator.Build.Request.trigger_build
    kogito_operator.Build.Request.check_build_config_exists fetch_with_key
process_build_delta_lem_example =
    process_build_delta_lem trigger_client accepting source_build (config_delta ∷ []) idle
      progressed refl

abbrev builder_image_stream : ImageStream
builder_image_stream = new_kogito_image_stream whole_name no_env "1.40.0" (prepare app_build) true

abbrev runtime_image_stream : ImageStream
runtime_image_stream = new_kogito_image_stream whole_name no_env "1.40.0" (prepare app_build) false

abbrev stream_server : StreamServer
stream_server = record {
  streams = record {
    get = λ key.
        if key.name == "kogito-s2i-builder"
        then ok builder_image_stream
        else if key.name == "kogito-runtime-jvm"
        then ok runtime_image_stream
        else err missing;
    is_not_found = λ e. true;
  };
  create = λ s. none;
  is_already_exists = λ e. false;
  update = λ s. none;
}

abbrev no_streams : StreamWrites
no_streams = record { writes = []; created_any = false }

abbrev checked_streams : StreamWrites
checked_streams = ended no_streams (
    create_required_kogito_image_streams stream_server builder_image_stream runtime_image_stream
      no_streams)

create_required_kogito_image_streams-HasStream_example :
    (checked_streams.writes ≡ [])
    × HasStream stream_server builder_image_stream
    × HasStream stream_server runtime_image_stream
unfolding create_required_kogito_image_streams
    kogito_operator.Build.Streams.create_required_kogito_image_stream_tag fetch_with_key
    new_kogito_image_stream kogito_operator.Build.Images.resolve_kogito_image_stream_name
    kogito_operator.Build.Images.named_image kogito_operator.Images.Names.convert_image_tag_to_image
    prepare kogito_operator.Build.Images.resolve_kogito_image_name check_if_tag_exists
    kogito_operator.Build.Images.resolve_kogito_image_tag
    kogito_operator.Images.Version.get_kogito_image_version
create_required_kogito_image_streams-HasStream_example =
    create_required_kogito_image_streams-HasStream stream_server builder_image_stream
      runtime_image_stream no_streams checked_streams refl refl

abbrev build_env : BuildEnv
build_env = record {
  cluster = build_cluster;
  server = stream_server;
  deployed = λ b. ok ([], []);
  compare = λ r deployed. config_delta ∷ [];
  delta_client = accepting;
  triggers = trigger_client;
}

abbrev no_run : BuildRun
no_run = record { streams = no_streams; progress = idle; shared = image_stream_tag_annotations }

abbrev build_run : BuildRun
build_run = (ended (no_run, zero_result) (reconcile_build build_env app_build no_run)).0

reconcile_build-IsProcessed_example : IsProcessed build_env (prepare app_build) no_run build_run
unfolding reconcile_build create_required_kogito_image_streams
    kogito_operator.Build.Streams.create_required_kogito_image_stream_tag fetch_with_key
    new_kogito_image_stream kogito_operator.Build.Images.resolve_kogito_image_stream_name
    kogito_operator.Build.Images.named_image kogito_operator.Images.Names.convert_image_tag_to_image
    prepare kogito_operator.Build.Images.resolve_kogito_image_name check_if_tag_exists
    kogito_operator.Build.Images.resolve_kogito_image_tag
    kogito_operator.Images.Version.get_kogito_image_version
    kogito_operator.Build.Controller.process_checked
    kogito_operator.Build.Request.new_delta_processor kogito_operator.Build.Request.sanity_check
    kogito_operator.Build.Request.set_defaults kogito_operator.Build.Managers.requested_resources
    kogito_operator.Build.Config.builder_envs
    kogito_operator.Build.Config.decorator_for_binary_runtime_builder
    kogito_operator.Build.Config.decorator_for_custom_labels
    kogito_operator.Build.Config.decorator_for_local_source_builder
    kogito_operator.Build.Config.decorator_for_remote_source_builder
    kogito_operator.Build.Config.decorator_for_runtime_builder
    kogito_operator.Build.Config.decorator_for_source_builder
    kogito_operator.Build.Config.decorator_for_source_runtime_builder
    kogito_operator.Build.Config.get_builder_limits_as_int_string
    kogito_operator.Build.Config.new_build_config kogito_operator.Build.Config.trim_slash
    kogito_operator.Build.Images.get_kogito_image_type
    kogito_operator.Build.Images.image_stream_default_annotations
    kogito_operator.Build.Images.resolve_kogito_image_name_tag
    kogito_operator.Build.Images.resolve_kogito_image_registry_namespace
    kogito_operator.Build.Images.resolve_kogito_image_stream_tag_name
    kogito_operator.Build.Images.tag_default_annotations
    kogito_operator.Build.Managers.binary_config binary_requested_resources
    kogito_operator.Build.Managers.builder_config
    kogito_operator.Build.Managers.get_builder_decorator
    kogito_operator.Build.Managers.runtime_config kogito_operator.Build.Managers.set_config_owner
    kogito_operator.Build.Managers.set_stream_owner kogito_operator.Build.Managers.shared_stream
    source_requested_resources kogito_operator.Build.Managers.with_output_image_stream
    kogito_operator.Build.Outputs.get_output_image_stream_name_tag
    kogito_operator.Build.Outputs.new_image_handler_for_built_services
    kogito_operator.Build.Outputs.new_output_image_stream_for_builder
    kogito_operator.Build.Process.apply_build_delta process_build_delta
    kogito_operator.Build.Request.cancel_running_builds
    kogito_operator.Build.Request.check_build_config_exists
    kogito_operator.Build.Request.on_build_config_change
    kogito_operator.Build.Request.start_new_build kogito_operator.Build.Request.trigger_build
    kogito_operator.Common.Dict.insert kogito_operator.Common.Dict.lookup
    kogito_operator.Delta.apply_delta kogito_operator.Framework.Collections.append_to_string_map
    kogito_operator.Framework.EnvVar.env_override kogito_operator.Framework.EnvVar.get_env_var
    kogito_operator.Framework.EnvVar.override_one
    kogito_operator.Framework.Owner.add_owner_reference
    kogito_operator.Framework.Owner.add_owner_reference_one kogito_operator.Framework.Owner.is_owner
    kogito_operator.Images.Names.remove_all kogito_operator.Images.Names.resolve_image_name_tag
    kogito_operator.Images.Names.resolve_registry_image kogito_operator.Images.Names.resolve_tag
    kogito_operator.Images.Names.split_image_tag_parts kogito_operator.Images.Names.trim_right
    kogito_operator.Images.Reconcile.create_handled_stream
    kogito_operator.Images.Reconcile.with_owners kogito_operator.Images.Streams.create_image_stream
    kogito_operator.Images.Streams.create_image_stream_if_not_exists
    kogito_operator.Images.Streams.create_image_stream_tag kogito_operator.Images.Streams.ensure_tag
    kogito_operator.Images.Version.join kogito_operator.Images.Version.split
reconcile_build-IsProcessed_example =
    reconcile_build-IsProcessed build_env app_build no_run build_run refl
