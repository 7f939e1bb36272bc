-- ===== src/Images/Streams/Laws.antt =====
-- Creating tags of image streams, and resolving the image of one.
use kogito_operator.Common.{
  String, ◌≡◌, refl, ◌∙◌, Bool, true, false, some, List, [], ◌∷◌, ◌++◌, ◌==◌, any, ok, arith,
  eq_refl, ==_comm, ◌||◌, Bool-cases, inl, inr,
}
use kogito_operator.Common.Dict.{Dict, insert, lookup, lookup-insert}
use kogito_operator.Client.{Reader, fetch_with_key}
use kogito_operator.Api.{NamespacedName}
use kogito_operator.Api.Conditions.{Condition, is_false_status}
use kogito_operator.Images.Streams.{
  TagReference, TagRequest, ImageStream, read_annotations, annotation_key_version,
  check_if_tag_exists, create_image_stream_tag, ensure_tag, find_tag_status_condition,
}

any-append_self :
    (tag : String) (ts : List TagReference) (t : TagReference)
    → (t.name == tag) ≡ true
    → any (λ (x : TagReference). x.name == tag) (ts ++ (t ∷ [])) ≡ true
any-append_self tag [] t h = rw h refl
any-append_self tag (x ∷ ts) t h = ground (arith, any-append_self tag ts t h)

check_if_tag_exists-ensure_tag :
    (r : TagRequest) (stream : ImageStream) (shared : Dict String)
    → check_if_tag_exists (ensure_tag r stream shared).0 r.tag ≡ true
unfolding ensure_tag create_image_stream_tag check_if_tag_exists
check_if_tag_exists-ensure_tag r stream shared =
    elim (Bool-cases (check_if_tag_exists stream r.tag)) [
      | inl e ↦ rw e e
      | inr e ↦ rw e (any-append_self r.tag stream.tags _ (eq_refl r.tag))
    ]

-- The names of a stream's tags differ.
unfoldable pub NodupTags : List TagReference → Type 0
NodupTags [] = Unit
NodupTags (t ∷ ts) = (any (λ (x : TagReference). x.name == t.name) ts ≡ false) × NodupTags ts

any-append_other :
    (tag : String) (ts : List TagReference) (t : TagReference)
    → (t.name == tag) ≡ false
    → any (λ (x : TagReference). x.name == tag) ts ≡ false
    → any (λ (x : TagReference). x.name == tag) (ts ++ (t ∷ [])) ≡ false
any-append_other tag [] t h k = rw h refl
any-append_other tag (x ∷ ts) t h k = ground (arith, any-append_other tag ts t h)

or-false_left : (a b : Bool) → (a || b) ≡ false → a ≡ false
or-false_left true b h = h
or-false_left false b h = refl

or-false_right : (a b : Bool) → (a || b) ≡ false → b ≡ false
or-false_right true b h = cc
or-false_right false b h = h

append-NodupTags :
    (ts : List TagReference) (t : TagReference)
    → NodupTags ts
    → any (λ (x : TagReference). x.name == t.name) ts ≡ false
    → NodupTags (ts ++ (t ∷ []))
unfolding NodupTags
append-NodupTags [] t h k = (refl, tt)
append-NodupTags (x ∷ ts) t (h, hs) k = (
  any-append_other x.name ts t (==_comm t.name x.name ∙ or-false_left _ _ k) h,
  append-NodupTags ts t hs (or-false_right (x.name == t.name) _ k),
)

ensure_tag_present :
    (r : TagRequest) (stream : ImageStream) (shared : Dict String)
    → check_if_tag_exists stream r.tag ≡ true
    → ensure_tag r stream shared ≡ (stream, shared)
unfolding ensure_tag
ensure_tag_present r stream shared h = rw h refl

ensure_tag-NodupTags :
    (r : TagRequest) (stream : ImageStream) (shared : Dict String)
    → NodupTags stream.tags
    → NodupTags ((ensure_tag r stream shared).0).tags
unfolding ensure_tag create_image_stream_tag check_if_tag_exists
ensure_tag-NodupTags r stream shared h = elim (Bool-cases (check_if_tag_exists stream r.tag)) [
  | inl e ↦ rw e h
  | inr e ↦ rw e (append-NodupTags stream.tags _ h e)
]

-- A stream whose tags have different names has the tag behind the call, keeps the difference of its
-- names, and a second call with the same tag changes neither the stream nor the shared map.
pub ensure_tag_lem :
    (r : TagRequest) (stream : ImageStream) (shared : Dict String)
    → NodupTags stream.tags
    → let after = ensure_tag r stream shared in
      (check_if_tag_exists after.0 r.tag ≡ true)
      × NodupTags (after.0).tags
      × (ensure_tag r after.0 after.1 ≡ after)
ensure_tag_lem r stream shared h =
    let present = check_if_tag_exists-ensure_tag r stream shared in
    (
      present,
      ensure_tag-NodupTags r stream shared h,
      ensure_tag_present r (ensure_tag r stream shared).0 (ensure_tag r stream shared).1 present,
    )

-- A tag that is appended to a stream has the version of its own name, and once a second tag is
-- appended to any stream the first one has the version of the second.
pub read_annotations-ensure_tag :
    (r r' : TagRequest) (stream stream' : ImageStream) (shared : Dict String)
    → check_if_tag_exists stream r.tag ≡ false
    → check_if_tag_exists stream' r'.tag ≡ false
    → let first = ensure_tag r stream shared in
      let second = ensure_tag r' stream' first.1 in
      (t : TagReference) × ((first.0).tags ≡ stream.tags ++ (t ∷ []))
      × (t.name ≡ r.tag)
      × (lookup annotation_key_version (read_annotations first.1 t) ≡ some r.tag)
      × (lookup annotation_key_version (read_annotations second.1 t) ≡ some r'.tag)
unfolding ensure_tag read_annotations create_image_stream_tag
read_annotations-ensure_tag r r' stream stream' shared h h' =
    let version_lem = lookup-insert annotation_key_version annotation_key_version in
    (
      (create_image_stream_tag r shared).0,
      rw h refl,
      refl,
      rw h (version_lem r.tag shared),
      rw (h, h') (version_lem r'.tag (insert annotation_key_version r.tag shared)),
    )

-- The import of the tag failed: the first condition of its import says so.
abbrev pub ImportFailed : Reader ImageStream → NamespacedName → String → Type 0
ImportFailed c key tag =
    (stream : ImageStream) × (condition : Condition) × (fetch_with_key c key ≡ ok (some stream))
    × (find_tag_status_condition stream.status_tags tag ≡ some condition)
    × (is_false_status condition.status ≡ true)
