-- ===== src/Service/Messaging/Kafka.antt =====
-- core/kogitoservice/messaging.go and messaging_kafka.go: the deployer of Kafka topics.
use kogito_operator.Common.{
  String, ◌<>◌, ℕ, Bool, true, false, nat_eq, Option, none, some, List, [], ◌∷◌, ◌++◌,
  if◌then◌else◌, is_empty, Result, ok, err, Step, next, fail, panic, ◌>>=◌,
}
use kogito_operator.Common.Dict.{Dict, lookup}
use kogito_operator.Api.{NamespacedName}
use kogito_operator.Api.Workloads.{ConfigMap}
use kogito_operator.Client.{fetch_with_key, is_deployment_available}
use kogito_operator.Reconciliation.{GoError, plain, error_for_service_not_reachable}
use kogito_operator.Manager.Infra.{
  KogitoInfra, InfraResource, InfraHandler, must_fetch_kogito_infra_instance,
}
use kogito_operator.Service.Instance.{KogitoService, key_of}
use kogito_operator.Service.Messaging.{
  KafkaTopic, get_kafka_topic, MessagingTopic, HttpResponse, KafkaServer, MessagingCluster,
  MessagingState, set_cloud_events_status, find_topic, is_kafka_resource,
}
pub mod Laws

-- The namespace of the resource is that of the instance where it has none.
unfoldable pub get_kafka_instance_namespace_name :
    KogitoInfra → InfraResource → Result GoError NamespacedName
get_kafka_instance_namespace_name i r =
    if is_empty r.name
    then err (plain ("no Kafka instances found on KogitoInfra reference: " <> i.name))
    else ok (record {
      namespace = if is_empty r.namespace then i.namespace else r.namespace;
      name = r.name;
    })

module _ (k : KafkaServer) where
  unfoldable pub fetch_kafka_topic :
      NamespacedName → List KafkaTopic → Result GoError (Option KafkaTopic)
  fetch_kafka_topic key topics = elim (k.fetch_error key) [
    | some e ↦ err e
    | none ↦ ok (find_topic key topics)
  ]

  unfoldable pub create_kafka_topic : KafkaTopic → List KafkaTopic → Step GoError (List KafkaTopic)
  create_kafka_topic t topics = elim (k.create_error t) [
    | some e ↦ fail topics e
    | none ↦ next (topics ++ (t ∷ []))
  ]

  created_unless_found :
      KafkaTopic
      → List KafkaTopic
      → Result GoError (Option KafkaTopic)
      → Step GoError (List KafkaTopic)
  created_unless_found t topics (err e) = fail topics e
  created_unless_found t topics (ok none) = create_kafka_topic t topics
  created_unless_found t topics (ok (some found)) = next topics

  topic_at :
      String → List KafkaTopic → Result GoError NamespacedName → Step GoError (List KafkaTopic)
  unfolding created_unless_found
  topic_at topic_name topics (err e) = fail topics e
  topic_at topic_name topics (ok kafka) =
      created_unless_found (get_kafka_topic topic_name kafka.namespace kafka.name) topics
        (fetch_kafka_topic (record { namespace = kafka.namespace; name = topic_name }) topics)

  topic_for :
      KogitoInfra → Option InfraResource → String → List KafkaTopic → Step GoError (List KafkaTopic)
  unfolding topic_at
  topic_for i none topic_name topics = panic
  topic_for i (some r) topic_name topics =
      topic_at topic_name topics (get_kafka_instance_namespace_name i r)

  -- A resource that is nil is dereferenced.
  unfoldable pub create_kafka_topic_if_not_exists :
      KogitoInfra → String → List KafkaTopic → Step GoError (List KafkaTopic)
  unfolding topic_for
  create_kafka_topic_if_not_exists i topic_name topics = topic_for i i.resource topic_name topics

  -- The loop of `createRequiredKafkaTopics`.
  unfoldable pub create_topics :
      KogitoInfra → List MessagingTopic → List KafkaTopic → Step GoError (List KafkaTopic)
  create_topics i [] topics = next topics
  create_topics i (t ∷ ts) topics =
      create_kafka_topic_if_not_exists i t.name topics >>= create_topics i ts

with_topics : MessagingState → Step GoError (List KafkaTopic) → Step GoError MessagingState
with_topics s panic = panic
with_topics s (fail topics e) = fail (record s { kafka_topics = topics }) e
with_topics s (next topics) = next (record s { kafka_topics = topics })

or_blank : Option String → String
or_blank none = ""
or_blank (some v) = v

module _ (c : MessagingCluster) (i : KogitoService) where
  unfoldable pub get_kogito_service_url : String
  get_kogito_service_url =
      let external_url = c.getenv "LOCAL_KOGITO_SERVICE_URL" in
      if is_empty external_url then "http://" <> (i.name <> ("." <> i.namespace)) else external_url

  abbrev decoded : String → Option (List MessagingTopic) → Result GoError (List MessagingTopic)
  decoded topics_url none =
      err (plain ("Failed to decode response from " <> (topics_url <> " into topics ")))
  decoded topics_url (some topics) = ok topics

  topics_in : String → Result GoError HttpResponse → Result GoError (List MessagingTopic)
  topics_in topics_url (err e) = err e
  topics_in topics_url (ok resp) =
      if nat_eq resp.status_code 404
      then ok []
      else if nat_eq resp.status_code 200
      then decoded topics_url resp.topics
      else err (error_for_service_not_reachable (c.format_int resp.status_code) topics_url "GET")

  topics_if_available : String → Result GoError Bool → Result GoError (List MessagingTopic)
  unfolding topics_in
  topics_if_available server_url (err e) = err e
  topics_if_available server_url (ok false) = ok []
  topics_if_available server_url (ok true) =
      let topics_url = server_url <> "/messaging/topics" in
      topics_in topics_url (c.http_get topics_url)

  unfoldable pub fetch_required_topics_for_url : String → Result GoError (List MessagingTopic)
  unfolding topics_if_available
  fetch_required_topics_for_url server_url =
      topics_if_available server_url (is_deployment_available c.deployments (key_of i))

  -- `fetchTopicsAndSetCloudEventsStatus` and the loop behind it.
  topics_step :
      KogitoInfra
      → MessagingState
      → Result GoError (List MessagingTopic)
      → Step GoError MessagingState
  unfolding with_topics
  topics_step infra s (err e) = fail s e
  topics_step infra s (ok topics) =
      with_topics (set_cloud_events_status topics s)
        (create_topics c.kafka infra topics s.kafka_topics)

  with_config :
      KogitoInfra → MessagingState → Result GoError (Option ConfigMap) → Step GoError MessagingState
  unfolding topics_step or_blank
  with_config infra s (err e) = fail s e
  with_config infra s (ok none) = next s
  with_config infra s (ok (some cm)) =
      if is_empty (or_blank (lookup "kafka.bootstrap.servers" cm.file_data))
      then next s
      else topics_step infra s (fetch_required_topics_for_url get_kogito_service_url)

  unfoldable pub create_required_kafka_topics :
      KogitoInfra → MessagingState → Step GoError MessagingState
  unfolding with_config
  create_required_kafka_topics infra s = with_config infra s (
      fetch_with_key c.config_maps
        (record { namespace = infra.namespace; name = "kogito-kafka-quarkus-config" }))

  first_of :
      (KogitoInfra → Bool)
      → Result GoError KogitoInfra
      → Result GoError (Option KogitoInfra)
      → Result GoError (Option KogitoInfra)
  first_of checker (err e) rest = err e
  first_of checker (ok infra) rest = if checker infra then ok (some infra) else rest

  unfoldable pub fetch_infra_dependency :
      (KogitoInfra → Bool) → List String → Result GoError (Option KogitoInfra)
  unfolding first_of
  fetch_infra_dependency checker [] = ok none
  fetch_infra_dependency checker (infra_name ∷ names) =
      first_of checker
        (must_fetch_kogito_infra_instance c.infra
          (record { namespace = i.namespace; name = infra_name }))
        (fetch_infra_dependency checker names)

  of_infra : MessagingState → Result GoError (Option KogitoInfra) → Step GoError MessagingState
  of_infra s (err e) = fail s e
  of_infra s (ok none) = next s
  of_infra s (ok (some infra)) = create_required_kafka_topics infra s

  -- `kafkaMessagingDeployer.CreateRequiredResources`
  unfoldable pub create_required_resources : MessagingState → Step GoError MessagingState
  unfolding of_infra
  create_required_resources s = of_infra s (fetch_infra_dependency is_kafka_resource i.infra)
