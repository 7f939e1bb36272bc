-- ===== src/Images/Streams.antt =====
-- core/infrastructure/imagestream.go: OpenShift image streams. The package keeps the annotations of
-- all the tags that it creates in one map, `imageStreamTagAnnotations`; a run carries that map.
pub mod Laws
use kogito_operator.Common.{
  String, ◌<>◌, Bool, true, false, Option, none, some, List, [], ◌∷◌, ◌++◌, ◌==◌, if◌then◌else◌,
  any, is_empty, Result, ok, err, Step, next, fail,
}
use kogito_operator.Common.Dict.{Dict, insert}
use kogito_operator.Client.{Reader, fetch_with_key}
use kogito_operator.Api.{NamespacedName}
use kogito_operator.Api.Conditions.{Condition, is_false_status}
use kogito_operator.Reconciliation.{GoError, plain}
use kogito_operator.Framework.Owner.{Owner, OwnerReference, remove_shared_owner_reference}

-- The annotations of a tag: the package's map itself, or a map of the tag's own, as the API server
-- gives it.
pub data TagAnnotations : Type 0 where
  package_map : TagAnnotations
  own_map : Dict String → TagAnnotations

-- `imgv1.TagReference`; `from_image` is the name in `From`.
pub record TagReference : Type 0 where
  pub name : String
  pub annotations : TagAnnotations
  pub local_policy : Bool
  pub insecure : Bool
  pub from_image : Option String

-- `imgv1.NamedTagEventList`
pub record TagEvents : Type 0 where
  pub tag : String
  pub conditions : List Condition

pub record ImageStream : Type 0 where
  pub name : String
  pub namespace : String
  pub labels : Dict String
  pub annotations : Dict String
  pub owner_references : List OwnerReference
  pub lookup_local : Bool
  pub tags : List TagReference
  pub status_tags : List TagEvents

pub record ImageStreamTag : Type 0 where
  pub docker_image_reference : String
  pub docker_image_metadata : String

-- What the annotations of a tag are while the package's map holds `shared`.
unfoldable pub read_annotations : Dict String → TagReference → Dict String
read_annotations shared t = elim t.annotations [ package_map ↦ shared | own_map m ↦ m ]

abbrev pub image_stream_annotations : Dict String
image_stream_annotations =
    ("openshift.io/provider-display-name", "KIE Group")
    ∷ (("openshift.io/display-name", "Kogito Service image") ∷ [])

-- The package's map before the first tag.
abbrev pub image_stream_tag_annotations : Dict String
image_stream_tag_annotations =
    ("iconClass", "icon-jbpm")
    ∷ (("description", "Runtime image for Kogito Service") ∷ (("tags", "kogito,services") ∷ []))

abbrev pub annotation_key_version : String
annotation_key_version = "version"

unfoldable pub create_image_stream : NamespacedName → ImageStream
create_image_stream key = record {
  name = key.name;
  namespace = key.namespace;
  labels = [];
  annotations = image_stream_annotations;
  owner_references = [];
  lookup_local = true;
  tags = [];
  status_tags = [];
}

unfoldable pub check_if_tag_exists : ImageStream → String → Bool
check_if_tag_exists stream tag = any (λ (t : TagReference). t.name == tag) stream.tags

-- What a tag is created from: the tag, `addFromReference`, the image and the registry's flag.
pub record TagRequest : Type 0 where
  pub tag : String
  pub add_from_reference : Bool
  pub image_name : String
  pub insecure_image_registry : Bool

-- The tag, and the package's map behind it.
unfoldable pub create_image_stream_tag : TagRequest → Dict String → TagReference × Dict String
create_image_stream_tag r shared = (
  record {
    name = r.tag;
    annotations = package_map;
    local_policy = true;
    insecure = r.insecure_image_registry;
    from_image = if r.add_from_reference then some r.image_name else none;
  },
  insert annotation_key_version r.tag shared,
)

-- The stream with the tag appended if it is missing.
unfoldable pub ensure_tag : TagRequest → ImageStream → Dict String → ImageStream × Dict String
unfolding check_if_tag_exists create_image_stream_tag
ensure_tag r stream shared =
    let (t, written) = create_image_stream_tag r shared in
    if check_if_tag_exists stream r.tag
    then (stream, shared)
    else (record stream { tags = stream.tags ++ (t ∷ []) }, written)

stream_or_new : NamespacedName → Result GoError (Option ImageStream) → Result GoError ImageStream
stream_or_new key (err e) = err e
stream_or_new key (ok none) = ok (create_image_stream key)
stream_or_new key (ok (some stream)) = ok stream

unfoldable pub create_image_stream_if_not_exists :
    Reader ImageStream
    → NamespacedName
    → TagRequest
    → Dict String
    → Result GoError (ImageStream × Dict String)
unfolding stream_or_new
create_image_stream_if_not_exists c key r shared = elim (stream_or_new key (fetch_with_key c key)) [
  | err e ↦ err e
  | ok stream ↦ ok (ensure_tag r stream shared)
]

image_stream_missing : NamespacedName → GoError
image_stream_missing key =
    plain ("image stream with name " <> (key.name <> (" not found in namespace " <> key.namespace)))

unfoldable pub must_fetch_image_stream :
    Reader ImageStream → NamespacedName → Result GoError ImageStream
unfolding image_stream_missing
must_fetch_image_stream c key = elim (fetch_with_key c key) [
  | err e ↦ err e
  | ok none ↦ err (image_stream_missing key)
  | ok (some stream) ↦ ok stream
]

-- imgv1.ImportSuccess
abbrev pub import_success : String
import_success = "ImportSuccess"

import_condition : List Condition → Option Condition
import_condition [] = none
import_condition (c ∷ cs) =
    let rest = import_condition cs in if c.kind == import_success then some c else rest

-- Several entries may have the tag; the first of them with such a condition decides.
unfoldable pub find_tag_status_condition : List TagEvents → String → Option Condition
unfolding import_condition
find_tag_status_condition [] tag = none
find_tag_status_condition (e ∷ events) tag =
    let rest = find_tag_status_condition events tag in
    if e.tag == tag
    then elim (import_condition e.conditions) [ some c ↦ some c | none ↦ rest ]
    else rest

-- `FetchTag`; the client's `Get` has the name `stream:tag`.
unfoldable pub fetch_tag :
    Reader ImageStreamTag → NamespacedName → String → Result GoError (Option ImageStreamTag)
fetch_tag c key tag =
    fetch_with_key c
      (record key { name = key.name <> (":" <> (if is_empty tag then "latest" else tag)) })

-- `unmarshal` is `json.Unmarshal` into a `DockerImage`.
unfoldable pub fetch_docker_image :
    {D : Type 0}
    → (String → Result GoError D)
    → Reader ImageStreamTag
    → NamespacedName
    → Result GoError (Option D)
fetch_docker_image unmarshal c key = elim (fetch_tag c key "") [
  | err e ↦ err e
  | ok none ↦ ok none
  | ok (some t) ↦
      if is_empty t.docker_image_metadata
      then ok none
      else elim (unmarshal t.docker_image_metadata) [ err e ↦ err e | ok d ↦ ok (some d) ]
]

reference_of : Result GoError (Option ImageStreamTag) → Result GoError String
reference_of (err e) = err e
reference_of (ok none) = ok ""
reference_of (ok (some t)) = ok t.docker_image_reference

-- `errorf` is `fmt.Errorf` without further arguments, which reads the message as a format.
module _ (errorf : String → GoError) where
  condition_error : Option Condition → Option GoError
  condition_error none = none
  condition_error (some c) = if is_false_status c.status then some (errorf c.message) else none

  unfoldable pub validate_tag_status : Reader ImageStream → NamespacedName → String → Option GoError
  unfolding condition_error
  validate_tag_status c key tag = elim (fetch_with_key c key) [
    | err e ↦ some e
    | ok none ↦ none
    | ok (some stream) ↦ condition_error (find_tag_status_condition stream.status_tags tag)
  ]

  unfoldable pub resolve_image :
      Reader ImageStream → Reader ImageStreamTag → NamespacedName → String → Result GoError String
  unfolding reference_of
  resolve_image streams tags key tag = elim (validate_tag_status streams key tag) [
    | some e ↦ err e
    | none ↦ reference_of (fetch_tag tags key tag)
  ]

-- `CreateTagIfNotExists` and `CreateImageStream`: the answer of `Create`, and whether it was made.
unfoldable pub created_unless_exists : (GoError → Bool) → Option GoError → Result GoError Bool
created_unless_exists is_already_exists none = ok true
created_unless_exists is_already_exists (some e) = if is_already_exists e then ok false else err e

-- `removed` is the list of the one stream behind `RemoveSharedOwnerReference`.
disowned : ImageStream → List (List OwnerReference) × Bool → Option ImageStream
disowned stream ([], removed) = none
disowned stream (refs ∷ _, removed) =
    if removed then some (record stream { owner_references = refs }) else none

-- The state is what the API server has accepted.
unfoldable pub remove_shared_image_stream_ownership :
    Reader ImageStream
    → (ImageStream → Option GoError)
    → NamespacedName
    → Owner
    → Option ImageStream
    → Step GoError (Option ImageStream)
unfolding disowned
remove_shared_image_stream_ownership c update key owner w = elim (fetch_with_key c key) [
  | err e ↦ fail w e
  | ok none ↦ next w
  | ok (some stream) ↦
      elim (disowned stream (remove_shared_owner_reference owner (stream.owner_references ∷ []))) [
        | none ↦ next w
        | some s ↦ elim (update s) [ some e ↦ fail w e | none ↦ next (some s) ]
      ]
]
