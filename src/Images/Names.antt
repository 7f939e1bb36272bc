-- ===== src/Images/Names.antt =====
-- core/infrastructure/image.go and core/framework/image.go: the names under which images are pulled.
use Prim.Native.Char.{Char, char, code}
use text.Mathlib.Text.{starts_with}
use kogito_operator.Common.{
  String, ◌<>◌, ◌≡◌, refl, Bool, ◌&&◌, List, [], ◌∷◌, if◌then◌else◌, nat_eq, is_empty,
}
use kogito_operator.Api.{Image}
use kogito_operator.Images.Version.{split, latest_tag, get_kogito_image_version, split-parts}

-- ':' and '/'
abbrev pub colon : Char
colon = char 58 tt

abbrev pub slash : Char
slash = char 47 tt

-- `strings.TrimRight(s, set)` for a set of one character.
unfoldable pub trim_right : Char → String → String
trim_right c String.[] = ""
trim_right c (String.◌∷◌ d s) =
    let rest = trim_right c s in
    if is_empty rest && nat_eq (code d) (code c) then "" else String.◌∷◌ d rest

-- `strings.ReplaceAll(s, c, "")`
unfoldable pub remove_all : Char → String → String
remove_all c String.[] = ""
remove_all c (String.◌∷◌ d s) =
    let rest = remove_all c s in if nat_eq (code d) (code c) then rest else String.◌∷◌ d rest

-- `ConvertImageToImageTag`
unfoldable pub convert_image_to_image_tag : Image → String
convert_image_to_image_tag image =
    (if is_empty image.domain then "" else image.domain <> "/")
    <> (image.name <> (if is_empty image.tag then "" else ":" <> image.tag))

-- `strings.Split(s, ":")[1]`; a text that starts with ":" has two parts (split-second_part).
second_part : List String → String
second_part [] = ""
second_part (p ∷ []) = ""
second_part (p ∷ (q ∷ parts)) = q

pub split-second_part :
    (s : String)
    → (p : String) × (parts : List String) × (split colon (String.◌∷◌ colon s) ≡ "" ∷ (p ∷ parts))
unfolding split
split-second_part s = let (p, parts, e) = split-parts colon s in (p, parts, rw e refl)

matched : String × String × String → Image
matched (domain, name, tag) = record {
  domain = trim_right slash domain;
  name = name;
  tag = remove_all colon tag;
}

abbrev with_latest : Image → Image
with_latest image = record image { tag = if is_empty image.tag then latest_tag else image.tag }

-- `find_submatch` is `DockerTagRegxCompiled.FindStringSubmatch`: its groups `domain`, `image` and
-- `tag`. The expression finds a match in every text that has a character other than ":", and it is
-- asked only for those that do not start with one.
module _ (find_submatch : String → String × String × String) where
  unfoldable pub split_image_tag_parts : String → Image
  unfolding second_part matched
  split_image_tag_parts image_tag =
      if is_empty image_tag
      then record { domain = ""; name = ""; tag = "" }
      else if starts_with image_tag ":"
      then record { domain = ""; name = ""; tag = second_part (split colon image_tag) }
      else matched (find_submatch image_tag)

  -- `SplitImageTag`, whose results `ConvertImageTagToImage` puts into an image.
  unfoldable pub convert_image_tag_to_image : String → Image
  convert_image_tag_to_image image_tag =
      if is_empty image_tag
      then record { domain = ""; name = ""; tag = "" }
      else with_latest (split_image_tag_parts image_tag)

-- `imageHandler` without its client; `version` is the operator's.
pub record ImageHandler : Type 0 where
  pub image : Image
  pub default_image_name : String
  pub image_stream_name : String
  pub namespace : String
  pub add_from_reference : Bool
  pub insecure_image_registry : Bool
  pub version : String

-- `imageRegistryEnvVar` and `defaultImageRegistry`
abbrev pub image_registry_env_var : String
image_registry_env_var = "IMAGE_REGISTRY"

abbrev pub default_image_registry : String
default_image_registry = "quay.io/kiegroup"

abbrev pub or_default : String → String → String
or_default s d = if is_empty s then d else s

-- `getenv` is `os.Getenv`.
abbrev pub get_default_image_registry : (String → String) → String
get_default_image_registry getenv =
    or_default (getenv image_registry_env_var) default_image_registry

unfoldable pub resolve_tag : ImageHandler → String
resolve_tag h = or_default h.image.tag (get_kogito_image_version h.version)

unfoldable pub resolve_image_name_tag : ImageHandler → String
resolve_image_name_tag h = or_default h.image.name h.default_image_name <> (":" <> resolve_tag h)

unfoldable pub resolve_registry_image : (String → String) → ImageHandler → String
unfolding resolve_image_name_tag
resolve_registry_image getenv h =
    or_default h.image.domain (get_default_image_registry getenv)
    <> ("/" <> resolve_image_name_tag h)

-- `annotationKeyImageTriggers`
abbrev pub annotation_key_image_triggers : String
annotation_key_image_triggers = "image.openshift.io/triggers"

-- The key and the value of the annotation.
unfoldable pub resolve_image_stream_trigger_annotation : ImageHandler → String → String × String
unfolding resolve_image_name_tag
resolve_image_stream_trigger_annotation h container_name = (
  annotation_key_image_triggers,
  "[{\"from\":{\"kind\":\"ImageStreamTag\",\"name\":\""
      <> (resolve_image_name_tag h
          <> ("\"},\"fieldPath\":\"spec.template.spec.containers[?(@.name==\\\""
              <> (container_name <> "\\\")].image\"}]"))),
)

-- The image with the defaults of the handler put in.
abbrev pub with_defaults : (String → String) → ImageHandler → Image
with_defaults getenv h = record {
  domain = or_default h.image.domain (get_default_image_registry getenv);
  name = or_default h.image.name h.default_image_name;
  tag = resolve_tag h;
}
