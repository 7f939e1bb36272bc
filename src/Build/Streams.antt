-- ===== src/Build/Streams.antt =====
-- core/kogitobuild/image_stream.go: creating the image streams that a KogitoBuild needs.
use kogito_operator.Common.{
  ◌≡◌, ◌∙◌, refl, ap, sym, inl, inr, ◌⊎◌, next_injective, >>=-eq-next, Bool, true, false, Option,
  none, some, List, [], ◌∷◌, ◌++◌, if◌then◌else◌, Result, ok, err, Step, next, fail, panic, ◌>>=◌,
}
use kogito_operator.Client.{Reader, fetch_with_key}
use kogito_operator.Reconciliation.{GoError}
use kogito_operator.Delta.{Write, created, updated_to}
use kogito_operator.Images.Streams.{ImageStream, TagReference, check_if_tag_exists}

-- The API server for image streams: reads, and its answers to writes.
pub record StreamServer : Type 0 where
  pub streams : Reader ImageStream
  pub create : ImageStream → Option GoError
  pub is_already_exists : GoError → Bool
  pub update : ImageStream → Option GoError

-- The accepted writes, and the results `created` of the calls so far.
pub record StreamWrites : Type 0 where
  pub writes : List (Write ImageStream)
  pub created_any : Bool

-- The object that a read leaves where there is no stream.
abbrev pub blank_stream : ImageStream → ImageStream
blank_stream required = record required {
  labels = [];
  annotations = [];
  lookup_local = false;
  tags = [];
  status_tags = [];
}

module _ (c : StreamServer) where
  abbrev wrote : Write ImageStream → StreamWrites → StreamWrites
  wrote w s = record { writes = s.writes ++ (w ∷ []); created_any = true }

  append_tags : ImageStream → ImageStream → StreamWrites → Step GoError StreamWrites
  append_tags required deployed s =
      let changed : ImageStream = record deployed { tags = deployed.tags ++ required.tags } in
      elim (c.update changed) [
        | some e ↦ fail s e
        | none ↦ next (wrote (updated_to (changed ∷ [])) s)
      ]

  -- A stream that another client has created since the read is not read again.
  create_stream : ImageStream → StreamWrites → Step GoError StreamWrites
  unfolding append_tags
  create_stream required s = elim (c.create required) [
    | none ↦ next (wrote (created (required ∷ [])) s)
    | some e ↦
        if c.is_already_exists e then append_tags required (blank_stream required) s else fail s e
  ]

  -- `Spec.Tags[0]` panics where no tag is required.
  add_missing_tag : ImageStream → ImageStream → StreamWrites → Step GoError StreamWrites
  unfolding append_tags
  add_missing_tag required d s = elim required.tags [
    | [] ↦ panic
    | t ∷ _ ↦ if check_if_tag_exists d t.name then next s else append_tags required d s
  ]

  deployed_or_created :
      ImageStream → Result GoError (Option ImageStream) → StreamWrites → Step GoError StreamWrites
  unfolding create_stream add_missing_tag
  deployed_or_created required (err e) s = fail s e
  deployed_or_created required (ok none) s = create_stream required s
  deployed_or_created required (ok (some d)) s = add_missing_tag required d s

  unfoldable pub create_required_kogito_image_stream_tag :
      ImageStream → StreamWrites → Step GoError StreamWrites
  unfolding deployed_or_created
  create_required_kogito_image_stream_tag required s =
      deployed_or_created required
        (fetch_with_key c.streams (record { namespace = required.namespace; name = required.name }))
        s

  -- Both streams are given as the code builds them; an error hides what was created before it.
  unfoldable pub create_required_kogito_image_streams :
      ImageStream → ImageStream → StreamWrites → Step GoError StreamWrites
  create_required_kogito_image_streams builder runtime s =
      create_required_kogito_image_stream_tag builder s
      >>= create_required_kogito_image_stream_tag runtime

  -- What is required of the cluster: a stream of the name that has the tag.
  abbrev pub HasStream : ImageStream → Type 0
  HasStream required =
      (d : ImageStream) × (t : TagReference) × (rest : List TagReference) × (fetch_with_key
          c.streams (record { namespace = required.namespace; name = required.name })
        ≡ ok (some d))
      × (required.tags ≡ t ∷ rest)
      × (check_if_tag_exists d t.name ≡ true)

  abbrev Outcome : ImageStream → StreamWrites → StreamWrites → Type 0
  Outcome required s t = ((t ≡ s) × HasStream required) ⊎ (t.created_any ≡ true)

  append_tags-created :
      (required d : ImageStream) (s t : StreamWrites)
      → append_tags required d s ≡ next t
      → t.created_any ≡ true
  unfolding append_tags
  append_tags-created required d s t h =
      wrote_after (c.update (record d { tags = d.tags ++ required.tags })) _ s t h
    where
      wrote_after :
          (answer : Option GoError) (w : Write ImageStream) (s t : StreamWrites)
          → elim answer [ some e ↦ fail s e | none ↦ next (wrote w s) ] ≡ next t
          → t.created_any ≡ true
      wrote_after (some e) w s t h = cc
      wrote_after none w s t h = sym (ap (λ x. x.created_any) (next_injective h))

  create_stream-created :
      (required : ImageStream) (s t : StreamWrites)
      → create_stream required s ≡ next t
      → t.created_any ≡ true
  unfolding create_stream
  create_stream-created required s t h = answered (c.create required) s t h
    where
      existing :
          (b : Bool) (e : GoError) (s t : StreamWrites)
          → (if b then append_tags required (blank_stream required) s else fail s e) ≡ next t
          → t.created_any ≡ true
      existing true e s t h = append_tags-created required (blank_stream required) s t h
      existing false e s t h = cc

      answered :
          (answer : Option GoError) (s t : StreamWrites)
          → elim answer [
            | none ↦ next (wrote (created (required ∷ [])) s)
            | some e ↦
                if c.is_already_exists e
                then append_tags required (blank_stream required) s
                else fail s e
          ]
            ≡ next t
          → t.created_any ≡ true
      answered none s t h = sym (ap (λ x. x.created_any) (next_injective h))
      answered (some e) s t h = existing (c.is_already_exists e) e s t h

  add_missing_tag-Outcome :
      (required d : ImageStream) (s t : StreamWrites)
      → fetch_with_key c.streams (record { namespace = required.namespace; name = required.name })
        ≡ ok (some d)
      → add_missing_tag required d s ≡ next t
      → Outcome required s t
  unfolding add_missing_tag
  add_missing_tag-Outcome required d s t f h = listed required.tags refl h
    where
      tested :
          (tag : TagReference) (rest : List TagReference)
          → required.tags ≡ tag ∷ rest
          → (b : Bool) → check_if_tag_exists d tag.name ≡ b
          → (if b then next s else append_tags required d s) ≡ next t
          → Outcome required s t
      tested tag rest l true e k = inl (sym (next_injective k), (d, tag, rest, f, l, e))
      tested tag rest l false e k = inr (append_tags-created required d s t k)

      listed :
          (tags : List TagReference)
          → required.tags ≡ tags
          → elim tags [
            | [] ↦ panic
            | tag ∷ _ ↦ if check_if_tag_exists d tag.name then next s else append_tags required d s
          ]
            ≡ next t
          → Outcome required s t
      listed [] l k = cc
      listed (tag ∷ rest) l k = tested tag rest l (check_if_tag_exists d tag.name) refl k

  deployed_or_created-Outcome :
      (required : ImageStream) (s t : StreamWrites) (answer : Result GoError (Option ImageStream))
      → fetch_with_key c.streams (record { namespace = required.namespace; name = required.name })
        ≡ answer
      → deployed_or_created required answer s ≡ next t
      → Outcome required s t
  unfolding deployed_or_created
  deployed_or_created-Outcome required s t (err e) f h = cc
  deployed_or_created-Outcome required s t (ok none) f h =
      inr (create_stream-created required s t h)
  deployed_or_created-Outcome required s t (ok (some d)) f h =
      add_missing_tag-Outcome required d s t f h

  create_required_kogito_image_stream_tag-Outcome :
      (required : ImageStream) (s t : StreamWrites)
      → create_required_kogito_image_stream_tag required s ≡ next t
      → Outcome required s t
  unfolding create_required_kogito_image_stream_tag
  create_required_kogito_image_stream_tag-Outcome required s t h =
      deployed_or_created-Outcome required s t _ refl h

  -- Where the call reports that nothing was created, it has written nothing, and both streams are
  -- there with their tags.
  pub create_required_kogito_image_streams-HasStream :
      (builder runtime : ImageStream) (s t : StreamWrites)
      → create_required_kogito_image_streams builder runtime s ≡ next t
      → t.created_any ≡ false
      → (t.writes ≡ s.writes) × HasStream builder × HasStream runtime
  unfolding create_required_kogito_image_streams
  create_required_kogito_image_streams-HasStream builder runtime s t h n =
      let (s1, h1, h2) =
        >>=-eq-next (create_required_kogito_image_stream_tag builder s)
          (create_required_kogito_image_stream_tag runtime) h in
      elim (create_required_kogito_image_stream_tag-Outcome runtime s1 t h2) [
        | inr e ↦ cc (e, n)
        | inl (q, found) ↦ elim (create_required_kogito_image_stream_tag-Outcome builder s s1 h1) [
          | inr e ↦ cc (e, n, q)
          | inl (q1, found1) ↦ (ap (λ x. x.writes) (q ∙ q1), found1, found)
        ]
      ]
