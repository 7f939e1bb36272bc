-- ===== src/Service/Messaging.antt =====
-- core/kogitoservice/messaging.go and messaging_kafka.go, with core/infrastructure/kafka.go: the
-- Kafka topics that a service asks for.
use kogito_operator.Common.{
  String, ◌<>◌, ℕ, Bool, true, false, ◌==◌, ◌&&◌, nat_eq, Option, none, some, List, [], ◌∷◌, ◌++◌,
  if◌then◌else◌, is_empty, Result, ok, err, Step, next, fail, panic, ◌>>=◌,
}
use kogito_operator.Common.Dict.{Dict, lookup}
use kogito_operator.Api.{NamespacedName}
use kogito_operator.Api.Workloads.{ConfigMap, Deployment}
use kogito_operator.Client.{Reader, fetch_with_key, is_deployment_available}
use kogito_operator.Reconciliation.{GoError, plain, error_for_service_not_reachable}
use kogito_operator.Manager.Infra.{
  KogitoInfra, InfraResource, InfraHandler, must_fetch_kogito_infra_instance,
}
use kogito_operator.Service.Instance.{KogitoService, key_of}
pub mod Kafka

-- `v1beta2.KafkaTopic`
pub record KafkaTopic : Type 0 where
  pub name : String
  pub namespace : String
  pub labels : Dict String
  pub partitions : ℕ
  pub replicas : ℕ
  pub topic_name : String

abbrev pub strimzi_broker_label : String
strimzi_broker_label = "strimzi.io/cluster"

unfoldable pub get_kafka_topic : String → String → String → KafkaTopic
get_kafka_topic name namespace kafka_broker = record {
  name = name;
  namespace = namespace;
  labels = (strimzi_broker_label, kafka_broker) ∷ [];
  partitions = 1;
  replicas = 1;
  topic_name = name;
}

pub data EventKind : Type 0 where
  consumed : EventKind
  produced : EventKind
  other_event : EventKind

-- `messagingEventMeta`
pub record MessagingEvent : Type 0 where
  pub event_type : String
  pub event_source : String
  pub event_kind : EventKind

-- `messagingTopic`, of which the deployers read the name and the events.
pub record MessagingTopic : Type 0 where
  pub name : String
  pub events_meta : List MessagingEvent

-- The answer of a service; `topics` is `none` where it cannot be decoded.
pub record HttpResponse : Type 0 where
  pub status_code : ℕ
  pub topics : Option (List MessagingTopic)

-- The API server's answers for Kafka topics: errors of a read and of a creation.
pub record KafkaServer : Type 0 where
  pub fetch_error : NamespacedName → Option GoError
  pub create_error : KafkaTopic → Option GoError

pub record MessagingCluster : Type 0 where
  pub infra : InfraHandler
  pub config_maps : Reader ConfigMap
  pub deployments : Reader Deployment
  pub getenv : String → String
  pub http_get : String → Result GoError HttpResponse
  pub format_int : ℕ → String
  pub kafka : KafkaServer

-- The types and sources of the events that a service consumes and produces.
pub record CloudEvents : Type 0 where
  pub consumes : List (String × String)
  pub produces : List (String × String)

-- The status of the service's events, and the Kafka topics of the cluster.
pub record MessagingState : Type 0 where
  pub cloud_events : Option CloudEvents
  pub kafka_topics : List KafkaTopic

-- The loops of `setCloudEventsStatus`.
abbrev add_event : MessagingEvent → CloudEvents → CloudEvents
add_event e s = elim e.event_kind [
  | consumed ↦ record s { consumes = s.consumes ++ ((e.event_type, e.event_source) ∷ []) }
  | produced ↦ record s { produces = s.produces ++ ((e.event_type, e.event_source) ∷ []) }
  | other_event ↦ s
]

add_events : List MessagingEvent → CloudEvents → CloudEvents
add_events [] s = s
add_events (e ∷ es) s = add_events es (add_event e s)

events_from : List MessagingTopic → CloudEvents → CloudEvents
unfolding add_events
events_from [] s = s
events_from (t ∷ ts) s = events_from ts (add_events t.events_meta s)

unfoldable pub set_cloud_events_status : List MessagingTopic → MessagingState → MessagingState
unfolding events_from
set_cloud_events_status topics s = record s {
  cloud_events = some (events_from topics (record { consumes = []; produces = [] }));
}

abbrev pub is_topic : NamespacedName → KafkaTopic → Bool
is_topic key t = (t.name == key.name) && (t.namespace == key.namespace)

unfoldable pub find_topic : NamespacedName → List KafkaTopic → Option KafkaTopic
find_topic key [] = none
find_topic key (t ∷ ts) = if is_topic key t then some t else find_topic key ts

abbrev pub kafka_api_version : String
kafka_api_version = "kafka.strimzi.io/v1beta2"

is_kafka : Option InfraResource → Bool
is_kafka none = false
is_kafka (some r) = (r.api_version == kafka_api_version) && (r.kind == "Kafka")

unfoldable pub is_kafka_resource : KogitoInfra → Bool
unfolding is_kafka
is_kafka_resource i = is_kafka i.resource
