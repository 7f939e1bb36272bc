-- ===== src/Build/Outputs.antt =====
-- core/kogitobuild/image_stream.go and build_manager.go: the image streams that build configurations
-- write to, and the resources that are deployed for a build.
use kogito_operator.Common.{
  String, Bool, true, false, ◌&&◌, Option, none, some, List, [], ◌∷◌, ◌++◌, if◌then◌else◌, ◌==◌,
  Result, ok, err, any,
}
use kogito_operator.Reconciliation.{GoError}
use kogito_operator.Client.{Reader, fetch_with_key}
use kogito_operator.Images.Version.{split, latest_tag}
use kogito_operator.Images.Names.{colon, ImageHandler}
use kogito_operator.Images.Streams.{ImageStream, own_map}
use kogito_operator.Build.Instance.{KogitoBuild, BuildConfig, get_application_name}
use kogito_operator.Build.Config.{label_app_key}
use kogito_operator.Common.Dict.{get}

name_and_tag : List String → String × String
name_and_tag [] = ("", latest_tag)
name_and_tag (name ∷ []) = (name, latest_tag)
name_and_tag (name ∷ (tag ∷ parts)) = (name, tag)

-- A nil output panics.
unfoldable pub get_output_image_stream_name_tag : BuildConfig → Option (String × String)
unfolding name_and_tag
get_output_image_stream_name_tag bc = elim bc.output_to [
  | none ↦ none
  | some to ↦ some (name_and_tag (split colon to.name))
]

unfoldable pub new_output_image_stream_for_builder : BuildConfig → Option ImageStream
new_output_image_stream_for_builder bc = elim (get_output_image_stream_name_tag bc) [
  | none ↦ none
  | some (name, tag) ↦ some (record {
    name = name;
    namespace = bc.namespace;
    labels = (label_app_key, get bc.labels label_app_key) ∷ [];
    annotations = [];
    owner_references = [];
    lookup_local = true;
    tags =
        record {
          name = tag;
          annotations = own_map [];
          local_policy = true;
          insecure = false;
          from_image = none;
        }
        ∷ [];
    status_tags = [];
  })
]

-- `newImageHandlerForBuiltServices`
unfoldable pub new_image_handler_for_built_services :
    String → String → String → String → ImageHandler
new_image_handler_for_built_services version is_name tag namespace = record {
  image = record { domain = ""; name = is_name; tag = tag };
  default_image_name = is_name;
  image_stream_name = is_name;
  namespace = namespace;
  add_from_reference = false;
  insecure_image_registry = false;
  version = version;
}

-- `addSharedImageStreamToResources` with the streams that the build owns.
unfoldable pub add_shared_image_stream_to_resources :
    Bool
    → Reader ImageStream
    → String
    → String
    → List ImageStream
    → Result GoError (List ImageStream)
add_shared_image_stream_to_resources is_openshift c name ns streams =
    if is_openshift
    then (if any (λ (is : ImageStream). (is.name == name) && (is.namespace == ns)) streams
        then ok streams
        else elim (fetch_with_key c (record { namespace = ns; name = name })) [
          | err e ↦ err e
          | ok none ↦ ok streams
          | ok (some shared) ↦ ok (streams ++ (shared ∷ []))
        ])
    else ok streams

-- `listed` is the answer to the list of the objects that the build owns.
unfoldable pub get_deployed_resources :
    Bool
    → Reader ImageStream
    → Result GoError (List BuildConfig × List ImageStream)
    → KogitoBuild
    → Result GoError (List BuildConfig × List ImageStream)
get_deployed_resources is_openshift c listed b = elim listed [
  | err e ↦ err e
  | ok (configs, streams) ↦
      elim (add_shared_image_stream_to_resources is_openshift c (get_application_name b) b.namespace
        streams) [ err e ↦ err e | ok all ↦ ok (configs, all) ]
]
