-- ===== src/Service/Messaging/Kafka/Laws.antt =====
-- What a deployer of Kafka topics leaves behind.
use kogito_operator.Common.{
  String, ◌≡◌, refl, sym, ap, ◌∙◌, Bool, true, false, Option, none, some, List, [], ◌∷◌, ◌++◌,
  if◌then◌else◌, Result, ok, err, Step, next, fail, panic, >>=-eq-next, next_injective, subst,
  is_empty, eq_refl, Bool-cases, Option-cases, inl, inr,
}
use kogito_operator.Common.Dict.{lookup}
use kogito_operator.Client.{fetch_with_key}
use kogito_operator.Api.{NamespacedName}
use kogito_operator.Api.Workloads.{ConfigMap}
use kogito_operator.Reconciliation.{GoError}
use kogito_operator.Manager.Infra.{KogitoInfra, InfraResource}
use kogito_operator.Service.Instance.{KogitoService}
use kogito_operator.Service.Messaging.{
  KafkaTopic, get_kafka_topic, MessagingTopic, KafkaServer, MessagingCluster, MessagingState,
  set_cloud_events_status, find_topic, is_topic, is_kafka_resource,
}
use kogito_operator.Service.Messaging.Kafka.{
  get_kafka_instance_namespace_name, fetch_kafka_topic, create_kafka_topic, created_unless_found,
  topic_at, topic_for, create_kafka_topic_if_not_exists, create_topics, with_topics, topics_step,
  with_config, create_required_kafka_topics, of_infra, create_required_resources, or_blank,
  fetch_required_topics_for_url, get_kogito_service_url, fetch_infra_dependency,
}

find_topic-append :
    (key : NamespacedName) (xs ys : List KafkaTopic) (t : KafkaTopic)
    → find_topic key xs ≡ some t
    → find_topic key (xs ++ ys) ≡ some t
unfolding find_topic
find_topic-append key [] ys t h = cc
find_topic-append key (x ∷ xs) ys t h = elim (Bool-cases (is_topic key x)) [
  | inl e ↦ rw e (sym (rw e refl) ∙ h)
  | inr e ↦ rw e (find_topic-append key xs ys t (sym (rw e refl) ∙ h))
]

find_topic-new :
    (key : NamespacedName) (xs : List KafkaTopic) (t : KafkaTopic)
    → is_topic key t ≡ true
    → (u : KafkaTopic) × (find_topic key (xs ++ (t ∷ [])) ≡ some u)
unfolding find_topic
find_topic-new key [] t h = (t, rw h refl)
find_topic-new key (x ∷ xs) t h = elim (Bool-cases (is_topic key x)) [
  | inl e ↦ (x, rw e refl)
  | inr e ↦ let (u, k) = find_topic-new key xs t h in (u, rw e k)
]

-- Every topic that is found is found afterwards.
abbrev pub Keeps : List KafkaTopic → List KafkaTopic → Type 0
Keeps xs ys =
    (key : NamespacedName) (t : KafkaTopic)
    → find_topic key xs ≡ some t
    → find_topic key ys ≡ some t

module _ (k : KafkaServer) where
  -- A creation that succeeds changes nothing when it is repeated on a cluster that keeps its topics.
  abbrev IsSettled : (List KafkaTopic → Step GoError (List KafkaTopic)) → List KafkaTopic → Type 0
  IsSettled f ys = (zs : List KafkaTopic) → Keeps ys zs → f zs ≡ next zs

  fetch_kafka_topic_lem :
      (key : NamespacedName) (zs : List KafkaTopic)
      → k.fetch_error key ≡ none
      → fetch_kafka_topic k key zs ≡ ok (find_topic key zs)
  unfolding fetch_kafka_topic
  fetch_kafka_topic_lem key zs e = rw (e, fetch_kafka_topic) refl

  create_kafka_topic_next :
      (t : KafkaTopic) (xs ys : List KafkaTopic)
      → create_kafka_topic k t xs ≡ next ys
      → xs ++ (t ∷ []) ≡ ys
  unfolding create_kafka_topic
  create_kafka_topic_next t xs ys h = elim (Option-cases (k.create_error t)) [
    | inr (c, ce) ↦ let q : fail xs c ≡ next ys = sym (rw (ce, create_kafka_topic) refl) ∙ h in cc
    | inl ce ↦ next_injective (sym (rw (ce, create_kafka_topic) refl) ∙ h)
  ]

  created-IsSettled :
      (t : KafkaTopic) (key : NamespacedName) (xs ys : List KafkaTopic)
      → is_topic key t ≡ true
      → created_unless_found k t xs (fetch_kafka_topic k key xs) ≡ next ys
      → Keeps xs ys × IsSettled (λ zs. created_unless_found k t zs (fetch_kafka_topic k key zs)) ys
  unfolding created_unless_found fetch_kafka_topic
  created-IsSettled t key xs ys e h = elim (Option-cases (k.fetch_error key)) [
    | inr (c, fe) ↦ let q : fail xs c ≡ next ys = sym (rw (fe, fetch_kafka_topic) refl) ∙ h in cc
    | inl fe ↦
        answered fe (find_topic key xs) refl
          (sym (ap (created_unless_found k t xs) (fetch_kafka_topic_lem key xs fe)) ∙ h)
  ]
    where
      settled :
          k.fetch_error key ≡ none
          → (u : KafkaTopic) → find_topic key ys ≡ some u
          → IsSettled (λ zs. created_unless_found k t zs (fetch_kafka_topic k key zs)) ys
      settled fe u f zs keeps =
          ap (created_unless_found k t zs) (fetch_kafka_topic_lem key zs fe ∙ ap ok (keeps key u f))

      answered :
          k.fetch_error key ≡ none
          → (x : Option KafkaTopic) → find_topic key xs ≡ x
          → created_unless_found k t xs (ok x) ≡ next ys
          → Keeps xs ys
            × IsSettled (λ zs. created_unless_found k t zs (fetch_kafka_topic k key zs)) ys
      answered fe (some u) ft g =
          let q = next_injective g in
          (
            λ key' v f. ap (find_topic key') (sym q) ∙ f,
            settled fe u (ap (find_topic key) (sym q) ∙ ft),
          )
      answered fe none ft g =
          let q = create_kafka_topic_next t xs ys g in
          let (u, fu) = find_topic-new key xs t e in
          (
            λ key' v f. ap (find_topic key') (sym q) ∙ find_topic-append key' xs (t ∷ []) v f,
            settled fe u (ap (find_topic key) (sym q) ∙ fu),
          )

  topic_at-IsSettled :
      (topic_name : String) (kafka : Result GoError NamespacedName) (xs ys : List KafkaTopic)
      → topic_at k topic_name xs kafka ≡ next ys
      → Keeps xs ys × IsSettled (λ zs. topic_at k topic_name zs kafka) ys
  unfolding topic_at get_kafka_topic
  topic_at-IsSettled topic_name (err e) xs ys h = cc
  topic_at-IsSettled topic_name (ok key) xs ys h =
      created-IsSettled (get_kafka_topic topic_name key.namespace key.name)
        (record { namespace = key.namespace; name = topic_name }) xs ys
        (rw (eq_refl topic_name, eq_refl key.namespace) refl) h

  topic_for-IsSettled :
      (i : KogitoInfra) (r : Option InfraResource) (topic_name : String) (xs ys : List KafkaTopic)
      → topic_for k i r topic_name xs ≡ next ys
      → Keeps xs ys × IsSettled (λ zs. topic_for k i r topic_name zs) ys
  unfolding topic_for
  topic_for-IsSettled i none topic_name xs ys h = cc
  topic_for-IsSettled i (some r) topic_name xs ys h =
      topic_at-IsSettled topic_name (get_kafka_instance_namespace_name i r) xs ys h

  create_topics-IsSettled :
      (i : KogitoInfra) (ts : List MessagingTopic) (xs ys : List KafkaTopic)
      → create_topics k i ts xs ≡ next ys
      → Keeps xs ys × IsSettled (create_topics k i ts) ys
  unfolding create_topics create_kafka_topic_if_not_exists
  create_topics-IsSettled i [] xs ys h =
      let q = next_injective h in (λ key v g. ap (find_topic key) (sym q) ∙ g, λ zs keeps. refl)
  create_topics-IsSettled i (t ∷ ts) xs ys h =
      let (m, h1, h2) = >>=-eq-next (topic_for k i i.resource t.name xs) (create_topics k i ts) h in
      let (kept, first) = topic_for-IsSettled i i.resource t.name xs m h1 in
      let (kept', others) = create_topics-IsSettled i ts m ys h2 in
      (
        λ key v g. kept' key v (kept key v g),
        λ zs keeps. rw (first zs (λ key v g. keeps key v (kept' key v g))) (others zs keeps),
      )

-- The outcome of a step, and its repetition.
abbrev IsRepeatable :
    (MessagingState → Step GoError MessagingState) → MessagingState → MessagingState → Type 0
IsRepeatable f s s' = Keeps s.kafka_topics s'.kafka_topics × (f s' ≡ next s')

same-IsRepeatable :
    (f : MessagingState → Step GoError MessagingState) (s s' : MessagingState)
    → f s ≡ next s
    → s ≡ s'
    → IsRepeatable f s s'
same-IsRepeatable f s s' h q =
    (λ key v g. ap (λ x. find_topic key x.kafka_topics) (sym q) ∙ g, subst (λ x. f x ≡ next x) q h)

with_topics_next :
    (s s' : MessagingState) (x : Step GoError (List KafkaTopic))
    → with_topics s x ≡ next s'
    → (ys : List KafkaTopic) × (x ≡ next ys) × (record s { kafka_topics = ys } ≡ s')
unfolding with_topics
with_topics_next s s' panic h = cc
with_topics_next s s' (fail ys e) h = cc
with_topics_next s s' (next ys) h = (ys, refl, next_injective h)

module _ (c : MessagingCluster) (i : KogitoService) where
  topics_step-IsRepeatable :
      (infra : KogitoInfra) (answer : Result GoError (List MessagingTopic)) (s s' : MessagingState)
      → topics_step c i infra s answer ≡ next s'
      → IsRepeatable (λ z. topics_step c i infra z answer) s s'
  unfolding topics_step with_topics set_cloud_events_status
  topics_step-IsRepeatable infra (err e) s s' h = cc
  topics_step-IsRepeatable infra (ok topics) s s' h =
      let (ys, hx, q) =
        with_topics_next (set_cloud_events_status topics s) s'
          (create_topics c.kafka infra topics s.kafka_topics) h in
      let (kept, settled) = create_topics-IsSettled c.kafka infra topics s.kafka_topics ys hx in
      (
        λ key v g. ap (λ x. find_topic key x.kafka_topics) (sym q) ∙ kept key v g,
        subst (λ x. topics_step c i infra x (ok topics) ≡ next x) q
            (rw (settled ys (λ key v g. g)) refl),
      )

  with_config-IsRepeatable :
      (infra : KogitoInfra) (cm : Result GoError (Option ConfigMap)) (s s' : MessagingState)
      → with_config c i infra s cm ≡ next s'
      → IsRepeatable (λ z. with_config c i infra z cm) s s'
  unfolding with_config
  with_config-IsRepeatable infra (err e) s s' h = cc
  with_config-IsRepeatable infra (ok none) s s' h =
      same-IsRepeatable (λ z. next z) s s' refl (next_injective h)
  with_config-IsRepeatable infra (ok (some cm)) s s' h =
      tested (is_empty (or_blank (lookup "kafka.bootstrap.servers" cm.file_data)))
        (fetch_required_topics_for_url c i (get_kogito_service_url c i)) h
    where
      tested :
          (b : Bool) (answer : Result GoError (List MessagingTopic))
          → (if b then next s else topics_step c i infra s answer) ≡ next s'
          → IsRepeatable (λ z. if b then next z else topics_step c i infra z answer) s s'
      tested true answer q = same-IsRepeatable (λ z. next z) s s' refl (next_injective q)
      tested false answer q = topics_step-IsRepeatable infra answer s s' q

  of_infra-IsRepeatable :
      (found : Result GoError (Option KogitoInfra)) (s s' : MessagingState)
      → of_infra c i s found ≡ next s'
      → IsRepeatable (λ z. of_infra c i z found) s s'
  unfolding of_infra create_required_kafka_topics
  of_infra-IsRepeatable (err e) s s' h = cc
  of_infra-IsRepeatable (ok none) s s' h =
      same-IsRepeatable (λ z. next z) s s' refl (next_injective h)
  of_infra-IsRepeatable (ok (some infra)) s s' h =
      with_config-IsRepeatable infra
        (fetch_with_key c.config_maps
          (record { namespace = infra.namespace; name = "kogito-kafka-quarkus-config" }))
        s s' h

  -- Creating the Kafka topics of a service, where it succeeds, keeps the topics that are there, and
  -- doing it again, on the same answers of the cluster and the service, changes nothing.
  pub create_required_resources-IsRepeatable :
      (s s' : MessagingState)
      → create_required_resources c i s ≡ next s'
      → ((key : NamespacedName) (t : KafkaTopic)
          → find_topic key s.kafka_topics ≡ some t
          → find_topic key s'.kafka_topics ≡ some t)
        × (create_required_resources c i s' ≡ next s')
  unfolding create_required_resources
  create_required_resources-IsRepeatable s s' h =
      of_infra-IsRepeatable (fetch_infra_dependency c i is_kafka_resource i.infra) s s' h
