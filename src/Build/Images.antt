-- ===== src/Build/Images.antt =====
-- core/kogitobuild/image_stream.go: the image streams that a KogitoBuild needs, and their names.
use kogito_operator.Common.{String, ◌<>◌, Bool, true, false, some, [], ◌∷◌, if◌then◌else◌, is_empty}
use kogito_operator.Common.Dict.{Dict, insert}
use kogito_operator.Api.{Image}
use kogito_operator.Images.Version.{get_kogito_image_version}
use kogito_operator.Images.Names.{
  or_default, convert_image_tag_to_image, get_default_image_registry,
}
use kogito_operator.Images.Streams.{ImageStream, TagReference, own_map, annotation_key_version}
use kogito_operator.Build.Instance.{KogitoBuild}

-- customKogitoImagePrefix
abbrev pub custom_kogito_image_prefix : String
custom_kogito_image_prefix = "custom-"

pub data KogitoImageType : Type 0 where
  kogito_builder_image kogito_runtime_jvm_image kogito_runtime_native_image : KogitoImageType

unfoldable pub get_kogito_image_type : Bool → Bool → KogitoImageType
get_kogito_image_type is_builder is_native =
    if is_builder
    then kogito_builder_image
    else if is_native
    then kogito_runtime_native_image
    else kogito_runtime_jvm_image

display_name : KogitoImageType → String
display_name kogito_builder_image = "Platform for building Kogito based on Quarkus or Spring Boot"
display_name kogito_runtime_jvm_image =
    "Runtime image for Kogito based on Quarkus or Spring Boot JVM image"
display_name kogito_runtime_native_image = "Runtime image for Kogito based on Quarkus native image"

-- imageStreamDefaultAnnotations
unfoldable pub image_stream_default_annotations : KogitoImageType → Dict String
unfolding display_name
image_stream_default_annotations t =
    ("openshift.io/provider-display-name", "KIE Group")
    ∷ (("openshift.io/display-name", display_name t) ∷ [])

tags_and_supports : KogitoImageType → String × String
tags_and_supports kogito_builder_image = ("builder,kogito,quarkus,springboot", "quarkus,springboot")
tags_and_supports kogito_runtime_jvm_image =
    ("runtime,kogito,quarkus,springboot,jvm", "quarkus,springboot")
tags_and_supports kogito_runtime_native_image = ("runtime,kogito,quarkus", "quarkus")

-- tagDefaultAnnotations. The code sets the version in this map itself, again for every stream, so
-- what a stream gets is the same as with a map of its own.
unfoldable pub tag_default_annotations : KogitoImageType → Dict String
unfolding display_name tags_and_supports
tag_default_annotations t =
    let (tags, supports) = tags_and_supports t in
    ("iconClass", "icon-jbpm")
    ∷ (("description", display_name t) ∷ (("tags", tags) ∷ (("supports", supports) ∷ [])))

-- `find_submatch` is the match of image names, `getenv` is `os.Getenv`, and `version` the operator's.
module _ (find_submatch : String → String × String × String) (getenv : String → String)
    (version : String) where
  -- The image that the build names: the one it is built with, or the one it runs in.
  unfoldable pub named_image : KogitoBuild → Bool → Image
  named_image b is_builder =
      convert_image_tag_to_image find_submatch
        (if is_builder then b.build_image else b.runtime_image)

  abbrev pub get_default_builder_image : String
  get_default_builder_image = or_default (getenv "BUILDER_IMAGE") "kogito-s2i-builder"

  abbrev pub get_default_runtime_jvm_image : String
  get_default_runtime_jvm_image = or_default (getenv "RUNTIME_IMAGE") "kogito-runtime-jvm"

  abbrev pub get_default_runtime_native_image : String
  get_default_runtime_native_image =
      or_default (getenv "RUNTIME_NATIVE_IMAGE") "kogito-runtime-native"

  unfoldable pub resolve_kogito_image_tag : KogitoBuild → Bool → String
  resolve_kogito_image_tag b is_builder =
      or_default (named_image b is_builder).tag (get_kogito_image_version version)

  unfoldable pub resolve_kogito_image_name : KogitoBuild → Bool → String
  resolve_kogito_image_name b is_builder = or_default (named_image b is_builder).name (
      if is_builder
      then get_default_builder_image
      else if b.native
      then get_default_runtime_native_image
      else get_default_runtime_jvm_image)

  unfoldable pub resolve_kogito_image_name_tag : KogitoBuild → Bool → String
  resolve_kogito_image_name_tag b is_builder =
      resolve_kogito_image_name b is_builder <> (":" <> resolve_kogito_image_tag b is_builder)

  unfoldable pub resolve_kogito_image_stream_name : KogitoBuild → Bool → String
  resolve_kogito_image_stream_name b is_builder =
      if is_empty (named_image b is_builder).name
      then resolve_kogito_image_name b is_builder
      else custom_kogito_image_prefix <> resolve_kogito_image_name b is_builder

  unfoldable pub resolve_kogito_image_stream_tag_name : KogitoBuild → Bool → String
  resolve_kogito_image_stream_tag_name b is_builder =
      resolve_kogito_image_stream_name b is_builder
      <> (":" <> resolve_kogito_image_tag b is_builder)

  unfoldable pub resolve_kogito_image_registry_namespace : KogitoBuild → Bool → String
  resolve_kogito_image_registry_namespace b is_builder =
      or_default (named_image b is_builder).domain (get_default_image_registry getenv)

  kogito_tag : KogitoBuild → Bool → TagReference
  kogito_tag b is_builder = record {
    name = resolve_kogito_image_tag b is_builder;
    annotations = own_map (
        insert annotation_key_version (resolve_kogito_image_tag b is_builder)
          (tag_default_annotations (get_kogito_image_type is_builder b.native)));
    local_policy = true;
    insecure = false;
    from_image = some (
        resolve_kogito_image_registry_namespace b is_builder
        <> ("/" <> resolve_kogito_image_name_tag b is_builder));
  }

  unfoldable pub new_kogito_image_stream : KogitoBuild → Bool → ImageStream
  unfolding kogito_tag
  new_kogito_image_stream b is_builder = record {
    name = resolve_kogito_image_stream_name b is_builder;
    namespace = b.namespace;
    labels = [];
    annotations = image_stream_default_annotations (get_kogito_image_type is_builder b.native);
    owner_references = [];
    lookup_local = false;
    tags = kogito_tag b is_builder ∷ [];
    status_tags = [];
  }
