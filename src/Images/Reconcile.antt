-- ===== src/Images/Reconcile.antt =====
-- core/infrastructure/imagestream_reconciler.go, and the operations of the image handler of image.go
-- that depend on the cluster.
use kogito_operator.Common.{
  String, ◌≡◌, refl, sym, ap, ◌∙◌, Bool, true, false, ◌||◌, Option, none, some, List, [], ◌∷◌, ◌++◌,
  any, if◌then◌else◌, arith, Result, ok, err, Step, next, fail, panic, next_injective, ok_injective,
  String,
}
use mathlib.Core.List.{append-nil}
use kogito_operator.Common.Dict.{Dict}
use kogito_operator.Client.{Reader, fetch_with_key}
use kogito_operator.Api.{NamespacedName}
use kogito_operator.Reconciliation.{GoError, error_for_processing_image_stream_delta}
use kogito_operator.Framework.Owner.{Owner, OwnerReference, is_owner, add_owner_reference}
use kogito_operator.Framework.Owner.Laws.{is_owner-add_owner_reference_one}
use kogito_operator.Delta.{
  ResourceDelta, DeltaClient, DeltaState, process_delta, process_delta_lem, writes_of,
}
use kogito_operator.Images.Names.{ImageHandler, resolve_tag, resolve_registry_image}
use kogito_operator.Images.Streams.{
  ImageStream, ImageStreamTag, TagRequest, create_image_stream_if_not_exists, resolve_image,
}

-- The cluster and the library calls of the reconciler: the streams by name, those that the owner
-- owns, the owner's group version and kind, the comparison of what is requested with what is
-- deployed, and the writes.
pub record StreamCluster : Type 0 where
  pub streams : Reader ImageStream
  pub owned : Result GoError (List ImageStream)
  pub gvk : Result GoError (String × String)
  pub compare : List ImageStream → List ImageStream → List (ResourceDelta ImageStream)
  pub delta_client : DeltaClient ImageStream

-- `shared` is the package's map of tag annotations.
pub record StreamState : Type 0 where
  pub shared : Dict String
  pub delta : DeltaState ImageStream

unfoldable pub with_owners :
    ImageStream → Result GoError (List (List OwnerReference)) → Result GoError ImageStream
with_owners stream (err e) = err e
with_owners stream (ok []) = ok stream
with_owners stream (ok (refs ∷ _)) = ok (record stream { owner_references = refs })

-- A stream that got its owner has it.
pub with_owners-IsOwner :
    (gvk : Result GoError (String × String)) (owner : Owner) (stream owned : ImageStream)
    → with_owners stream (add_owner_reference gvk owner (stream.owner_references ∷ [])) ≡ ok owned
    → is_owner owned.owner_references owner ≡ true
unfolding with_owners add_owner_reference
with_owners-IsOwner (err e) owner stream owned h = cc
with_owners-IsOwner (ok (v, k)) owner stream owned h =
    ap (λ x. is_owner x.owner_references owner) (sym (ok_injective h))
    ∙ is_owner-add_owner_reference_one v k owner stream.owner_references

module _ (c : StreamCluster) (owner : Owner) (key : NamespacedName) (r : TagRequest) where
  created_stream :
      Dict String
      → Result GoError (ImageStream × Dict String)
      → Dict String × Result GoError ImageStream
  unfolding with_owners
  created_stream shared (err e) = (shared, err e)
  created_stream shared (ok (stream, written)) =
      (written, with_owners stream (add_owner_reference c.gvk owner (stream.owner_references ∷ [])))

  -- The package's map, and the one stream that is requested with its owner set.
  unfoldable pub create_required_stream : Dict String → Dict String × Result GoError ImageStream
  unfolding created_stream
  create_required_stream shared =
      created_stream shared (create_image_stream_if_not_exists c.streams key r shared)

  with_shared :
      List ImageStream → Result GoError (Option ImageStream) → Result GoError (List ImageStream)
  with_shared owned (err e) = err e
  with_shared owned (ok none) = ok owned
  with_shared owned (ok (some stream)) = ok (owned ++ (stream ∷ []))

  -- The streams that the owner owns, and the shared one; a stream that is both stands there twice.
  unfoldable pub get_deployed_streams : Result GoError (List ImageStream)
  unfolding with_shared
  get_deployed_streams = elim c.owned [
    | err e ↦ err e
    | ok owned ↦ with_shared owned (fetch_with_key c.streams key)
  ]

  processed : Dict String → Step GoError (DeltaState ImageStream) → Step GoError StreamState
  processed shared panic = panic
  processed shared (fail d e) = fail (record { shared = shared; delta = d }) e
  processed shared (next d) =
      let s : StreamState = record { shared = shared; delta = d } in
      if d.is_delta_processed then fail s error_for_processing_image_stream_delta else next s

  abbrev unprocessed : StreamState → DeltaState ImageStream
  unprocessed s = record { writes = s.delta.writes; is_delta_processed = false }

  compared_streams :
      StreamState → ImageStream → Result GoError (List ImageStream) → Step GoError StreamState
  unfolding processed
  compared_streams s stream (err e) = fail s e
  compared_streams s stream (ok deployed) =
      processed s.shared
        (process_delta c.delta_client (c.compare (stream ∷ []) deployed) (unprocessed s))

  required : StreamState → Result GoError ImageStream → Step GoError StreamState
  unfolding compared_streams
  required s (err e) = fail s e
  required s (ok stream) = compared_streams s stream get_deployed_streams

  -- `imageStreamReconciler.Reconcile`
  unfoldable pub reconcile_streams : StreamState → Step GoError StreamState
  unfolding required
  reconcile_streams s =
      let (shared, requested) = create_required_stream s.shared in
      required (record s { shared = shared }) requested

  or-false : (b : Bool) → (b || false) ≡ false → b ≡ false
  or-false true h = h
  or-false false h = refl

  unchanged :
      (b : Bool) (s : StreamState) (e : GoError) (t : StreamState)
      → (if b then fail s e else next s) ≡ next t
      → (b ≡ false) × (s ≡ t)
  unchanged true s e t h = cc
  unchanged false s e t h = (refl, next_injective h)

  processed_next :
      (shared : Dict String) (x : Step GoError (DeltaState ImageStream)) (t : StreamState)
      → processed shared x ≡ next t
      → (d : DeltaState ImageStream) × (x ≡ next d)
        × (d.is_delta_processed ≡ false)
        × (t.shared ≡ shared)
        × (t.delta ≡ d)
  unfolding processed
  processed_next shared panic t h = cc
  processed_next shared (fail d e) t h = cc
  processed_next shared (next d) t h =
      let (e, q) = unchanged d.is_delta_processed _ _ t h in
      (d, refl, e, sym (ap (λ x. x.shared) q), sym (ap (λ x. x.delta) q))

  no_writes :
      (deltas : List (ResourceDelta ImageStream))
      → any c.delta_client.has_changes deltas ≡ false
      → writes_of c.delta_client deltas ≡ []
  no_writes [] h = refl
  no_writes (d ∷ deltas) h = ground (arith, no_writes deltas)

  abbrev IsCompared : StreamState → StreamState → ImageStream → List ImageStream → Type 0
  IsCompared s t requested deployed =
      processed s.shared
        (process_delta c.delta_client (c.compare (requested ∷ []) deployed) (unprocessed s))
      ≡ next t

  compared_streams-next :
      (s t : StreamState) (requested : ImageStream) (x : Result GoError (List ImageStream))
      → compared_streams s requested x ≡ next t
      → (deployed : List ImageStream) × (x ≡ ok deployed) × IsCompared s t requested deployed
  unfolding compared_streams
  compared_streams-next s t requested (err e) h = cc
  compared_streams-next s t requested (ok deployed) h = (deployed, refl, h)

  required_next :
      (s t : StreamState) (x : Result GoError ImageStream)
      → required s x ≡ next t
      → (requested : ImageStream) × (deployed : List ImageStream) × (x ≡ ok requested)
        × (get_deployed_streams ≡ ok deployed)
        × IsCompared s t requested deployed
  unfolding required
  required_next s t (err e) h = cc
  required_next s t (ok requested) h =
      let (deployed, e, k) = compared_streams-next s t requested get_deployed_streams h in
      (requested, deployed, refl, e, k)

  settled :
      (s t : StreamState) (shared : Dict String) (x : Result GoError ImageStream)
      → required (record s { shared = shared }) x ≡ next t
      → (requested : ImageStream) × (deployed : List ImageStream) × (t.shared ≡ shared)
        × (x ≡ ok requested)
        × (get_deployed_streams ≡ ok deployed)
        × (any c.delta_client.has_changes (c.compare (requested ∷ []) deployed) ≡ false)
        × (t.delta.writes ≡ s.delta.writes)
  settled s t shared x h =
      let s1 : StreamState = record s { shared = shared } in
      let (requested, deployed, e, f, k) = required_next s1 t x h in
      let (d, r1, p, q, w) = processed_next shared _ t k in
      let (ws, ps) =
        process_delta_lem c.delta_client (c.compare (requested ∷ []) deployed) (unprocessed s1) d
          r1 in
      let none_changed =
        or-false (any c.delta_client.has_changes (c.compare (requested ∷ []) deployed))
          (sym ps ∙ p) in
      (
        requested,
        deployed,
        q,
        e,
        f,
        none_changed,
        ap (λ y. y.writes) w ∙ ws ∙ rw (no_writes _ none_changed) (append-nil _),
      )

  created_stream-IsOwner :
      (shared : Dict String) (x : Result GoError (ImageStream × Dict String))
      (requested : ImageStream)
      → (created_stream shared x).1 ≡ ok requested
      → is_owner requested.owner_references owner ≡ true
  unfolding created_stream
  created_stream-IsOwner shared (err e) requested h = cc
  created_stream-IsOwner shared (ok (stream, written)) requested h =
      with_owners-IsOwner c.gvk owner stream requested h

  -- The reconciler returns no error only where the stream that is requested could be made and has its
  -- owner, the deployed streams could be read, and their comparison reports no change; and then it
  -- has written nothing.
  pub reconcile_streams-IsSettled :
      (s t : StreamState)
      → reconcile_streams s ≡ next t
      → (requested : ImageStream) × (deployed : List ImageStream) × (t.shared
          ≡ (create_required_stream s.shared).0)
        × ((create_required_stream s.shared).1 ≡ ok requested)
        × (is_owner requested.owner_references owner ≡ true)
        × (get_deployed_streams ≡ ok deployed)
        × (any c.delta_client.has_changes (c.compare (requested ∷ []) deployed) ≡ false)
        × (t.delta.writes ≡ s.delta.writes)
  unfolding reconcile_streams create_required_stream
  reconcile_streams-IsSettled s t h =
      let (requested, deployed, q, e, f, n, w) =
        settled s t (create_required_stream s.shared).0 (create_required_stream s.shared).1 h in
      (
        requested,
        deployed,
        q,
        e,
        created_stream-IsOwner s.shared (create_image_stream_if_not_exists c.streams key r s.shared)
            requested e,
        f,
        n,
        w,
      )

-- The image handler's operations ask the cluster only on OpenShift.
module _ (getenv : String → String) (h : ImageHandler) where
  abbrev pub stream_key : NamespacedName
  stream_key = record { namespace = h.namespace; name = h.image_stream_name }

  abbrev pub tag_request : TagRequest
  tag_request = record {
    tag = resolve_tag h;
    add_from_reference = h.add_from_reference;
    image_name = resolve_registry_image getenv h;
    insecure_image_registry = h.insecure_image_registry;
  }

  -- `imageHandler.CreateImageStreamIfNotExists`; a nil stream is `none`.
  unfoldable pub create_handled_stream :
      Bool → Reader ImageStream → Dict String → Result GoError (Option ImageStream × Dict String)
  create_handled_stream is_openshift c shared =
      if is_openshift
      then elim (create_image_stream_if_not_exists c stream_key tag_request shared) [
        | err e ↦ err e
        | ok (stream, written) ↦ ok (some stream, written)
      ]
      else ok (none, shared)

  -- `imageHandler.ReconcileImageStream`
  unfoldable pub reconcile_image_stream :
      Bool → StreamCluster → Owner → StreamState → Step GoError StreamState
  reconcile_image_stream is_openshift c owner s =
      if is_openshift then reconcile_streams c owner stream_key tag_request s else next s

  -- `imageHandler.ResolveImage`, with `fmt.Errorf` for the message of a failed import.
  unfoldable pub resolve_handled_image :
      (String → GoError) → Bool → Reader ImageStream → Reader ImageStreamTag → Result GoError String
  resolve_handled_image errorf is_openshift streams tags =
      if is_openshift
      then resolve_image errorf streams tags stream_key (resolve_tag h)
      else ok (resolve_registry_image getenv h)
