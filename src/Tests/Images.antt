-- ===== src/Tests/Images.antt =====
-- Runs on images and image streams.
use kogito_operator.Common.{
  String, Bool, ◌==◌, if◌then◌else◌, ◌<>◌, ◌≡◌, refl, true, false, none, some, List, [], ◌∷◌, ok,
  any,
}
use kogito_operator.Common.Dict.{lookup}
use kogito_operator.Client.{fetch_with_key}
use kogito_operator.Framework.Owner.{Owner, is_owner}
use kogito_operator.Delta.{DeltaClient}
use kogito_operator.Images.Version.{get_kogito_image_version, get_kogito_image_version_lem, Lacks}
use kogito_operator.Images.Names.{ImageHandler}
use kogito_operator.Images.Streams.{
  ImageStream, ImageStreamTag, TagReference, TagRequest, package_map, create_image_stream,
  image_stream_tag_annotations, ensure_tag, check_if_tag_exists, read_annotations,
  annotation_key_version,
}
use kogito_operator.Images.Streams.Laws.{NodupTags, ensure_tag_lem, read_annotations-ensure_tag}
use kogito_operator.Images.Reconcile.{
  StreamCluster, StreamState, create_required_stream, get_deployed_streams, reconcile_streams,
  reconcile_streams-IsSettled,
}
use kogito_operator.Tests.Fixtures.{reading, ended, app_key}

get_kogito_image_version_lem_example :
    (get_kogito_image_version ("1" <> ("." <> ("40" <> ("." <> "2")))) ≡ "1" <> ("." <> "40"))
    × (get_kogito_image_version ("1" <> ("." <> "40")) ≡ "1" <> ("." <> "40"))
unfolding Lacks
get_kogito_image_version_lem_example =
    get_kogito_image_version_lem "1" "40" "2" (refl, tt) (refl, (refl, tt))

abbrev jobs_handler : ImageHandler
jobs_handler = record {
  image = record { domain = ""; name = ""; tag = "" };
  default_image_name = "kogito-jobs-service";
  image_stream_name = "kogito-jobs-service";
  namespace = "apps";
  add_from_reference = true;
  insecure_image_registry = false;
  version = "1.40.0";
}

abbrev no_env : String → String
no_env name = ""

abbrev latest_request : TagRequest
latest_request = record {
  tag = "latest";
  add_from_reference = true;
  image_name = "quay.io/kiegroup/app:latest";
  insecure_image_registry = false;
}

abbrev first_tag : TagReference
first_tag = record {
  name = "1.0";
  annotations = package_map;
  local_policy = true;
  insecure = false;
  from_image = none;
}

abbrev app_stream : ImageStream
app_stream = record {
  name = "app";
  namespace = "apps";
  labels = [];
  annotations = [];
  owner_references = [];
  lookup_local = true;
  tags = first_tag ∷ [];
  status_tags = [];
}

ensure_tag_lem_example :
    let after = ensure_tag latest_request app_stream image_stream_tag_annotations in
    (check_if_tag_exists after.0 "latest" ≡ true)
    × NodupTags (after.0).tags
    × (ensure_tag latest_request after.0 after.1 ≡ after)
unfolding NodupTags
ensure_tag_lem_example =
    ensure_tag_lem latest_request app_stream image_stream_tag_annotations (refl, tt)

abbrev other_stream : ImageStream
other_stream = record app_stream { name = "other"; tags = [] }

abbrev other_request : TagRequest
other_request = record latest_request { tag = "2.0" }

read_annotations-ensure_tag_example :
    let first = ensure_tag latest_request app_stream image_stream_tag_annotations in
    let second = ensure_tag other_request other_stream first.1 in
    (t : TagReference) × ((first.0).tags ≡ first_tag ∷ (t ∷ []))
    × (t.name ≡ "latest")
    × (lookup annotation_key_version (read_annotations first.1 t) ≡ some "latest")
    × (lookup annotation_key_version (read_annotations second.1 t) ≡ some "2.0")
unfolding check_if_tag_exists
read_annotations-ensure_tag_example =
    read_annotations-ensure_tag latest_request other_request app_stream other_stream
      image_stream_tag_annotations refl refl

abbrev app_tag : ImageStreamTag
app_tag = record {
  docker_image_reference = "internal/apps/app@sha256:1";
  docker_image_metadata = "";
}

-- The streams that are requested and not deployed, by their names.
abbrev not_deployed : List ImageStream → List ImageStream → List ImageStream
not_deployed [] deployed = []
not_deployed (s ∷ requested) deployed =
    let rest = not_deployed requested deployed in
    if any (λ (d : ImageStream). d.name == s.name) deployed then rest else s ∷ rest

abbrev is_added : List ImageStream → Bool
is_added [] = false
is_added (s ∷ added) = true

abbrev stream_deltas : DeltaClient ImageStream
stream_deltas = record {
  has_changes = λ d. is_added d.added;
  create_resources = λ os. none;
  update_resources = λ os. none;
  delete_resources = λ os. none;
}

abbrev stream_cluster : StreamCluster
stream_cluster = record {
  streams = reading "app" app_stream;
  owned = ok [];
  gvk = ok ("app.kiegroup.org/v1beta1", "KogitoRuntime");
  compare = λ requested deployed.
      record {
        resource_type = "ImageStream";
        added = not_deployed requested deployed;
        updated = [];
        removed = [];
      }
      ∷ [];
  delta_client = stream_deltas;
}

abbrev app_owner : Owner
app_owner = record { name = "app"; uid = "uid-1" }

abbrev first_request : TagRequest
first_request = record latest_request { tag = "1.0" }

abbrev before : StreamState
before = record {
  shared = image_stream_tag_annotations;
  delta = record { writes = []; is_delta_processed = false };
}

abbrev settled : StreamState
settled = ended before (reconcile_streams stream_cluster app_owner app_key first_request before)

reconcile_streams-IsSettled_example :
    (requested : ImageStream) × (deployed : List ImageStream) × (settled.shared
      ≡ (create_required_stream stream_cluster app_owner app_key first_request
          image_stream_tag_annotations).0)
    × ((create_required_stream stream_cluster app_owner app_key first_request
          image_stream_tag_annotations).1
        ≡ ok requested)
    × (is_owner requested.owner_references app_owner ≡ true)
    × (get_deployed_streams stream_cluster app_owner app_key first_request ≡ ok deployed)
    × (any stream_deltas.has_changes (stream_cluster.compare (requested ∷ []) deployed) ≡ false)
    × (settled.delta.writes ≡ [])
unfolding reconcile_streams create_required_stream
    kogito_operator.Images.Streams.create_image_stream_if_not_exists fetch_with_key
    kogito_operator.Framework.Owner.add_owner_reference get_deployed_streams
    kogito_operator.Delta.process_delta ensure_tag
reconcile_streams-IsSettled_example =
    reconcile_streams-IsSettled stream_cluster app_owner app_key first_request before settled refl
