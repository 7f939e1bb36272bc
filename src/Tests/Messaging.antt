-- ===== src/Tests/Messaging.antt =====
-- A run of the deployer of Kafka topics.
use kogito_operator.Common.{
  String, ◌<>◌, ◌≡◌, refl, Option, none, some, List, [], ◌∷◌, ok, err, next,
}
use kogito_operator.Api.{NamespacedName}
use kogito_operator.Api.Workloads.{ConfigMap}
use kogito_operator.Manager.Infra.{KogitoInfra}
use kogito_operator.Service.Instance.{KogitoService}
use kogito_operator.Service.Messaging.{
  KafkaTopic, get_kafka_topic, consumed, MessagingTopic, MessagingCluster, MessagingState,
  find_topic,
}
use kogito_operator.Service.Messaging.Kafka.{create_required_resources}
use kogito_operator.Service.Messaging.Kafka.Laws.{create_required_resources-IsRepeatable}
use kogito_operator.Tests.Fixtures.{ended, reading, app_deployment, app_service}

abbrev broker : KogitoInfra
broker = record {
  name = "kafka";
  namespace = "apps";
  resource = some (record {
    api_version = "kafka.strimzi.io/v1beta2";
    kind = "Kafka";
    name = "my-cluster";
    namespace = "";
  });
  conditions = none;
  config_map_env_from_references = [];
  config_map_volume_references = [];
  secret_env_from_references = [];
  secret_volume_references = [];
  envs = [];
}

abbrev broker_config : ConfigMap
broker_config = record {
  name = "kogito-kafka-quarkus-config";
  namespace = "apps";
  labels = [];
  file_data = ("kafka.bootstrap.servers", "my-cluster:9092") ∷ [];
}

abbrev travellers : MessagingTopic
travellers = record {
  name = "travellers";
  events_meta =
      record { event_type = "traveller"; event_source = "/app"; event_kind = consumed } ∷ [];
}

abbrev messaging_cluster : MessagingCluster
messaging_cluster = record {
  infra = λ key. ok (some broker);
  config_maps = reading "kogito-kafka-quarkus-config" broker_config;
  deployments = reading "app" app_deployment;
  getenv = λ name. "";
  http_get = λ url. ok (record { status_code = 200; topics = some (travellers ∷ []) });
  format_int = λ n. "200";
  kafka = record { fetch_error = λ key. none; create_error = λ t. none };
}

abbrev consuming : KogitoService
consuming = record app_service { infra = "kafka" ∷ [] }

abbrev before : MessagingState
before = record {
  cloud_events = none;
  kafka_topics = get_kafka_topic "old" "apps" "my-cluster" ∷ [];
}

abbrev after : MessagingState
after = ended before (create_required_resources messaging_cluster consuming before)

create_required_resources-IsRepeatable_example :
    ((key : NamespacedName) (t : KafkaTopic)
      → find_topic key before.kafka_topics ≡ some t
      → find_topic key after.kafka_topics ≡ some t)
    × (create_required_resources messaging_cluster consuming after ≡ next after)
unfolding create_required_resources kogito_operator.Service.Messaging.Kafka.fetch_infra_dependency
    kogito_operator.Manager.Infra.must_fetch_kogito_infra_instance
    kogito_operator.Service.Messaging.is_kafka_resource
    kogito_operator.Service.Messaging.Kafka.create_required_kafka_topics
    kogito_operator.Client.fetch_with_key kogito_operator.Common.Dict.lookup
    kogito_operator.Service.Messaging.Kafka.fetch_required_topics_for_url
    kogito_operator.Client.is_deployment_available
    kogito_operator.Service.Messaging.Kafka.create_topics
    kogito_operator.Service.Messaging.Kafka.create_kafka_topic_if_not_exists
    kogito_operator.Service.Messaging.Kafka.get_kafka_instance_namespace_name
    kogito_operator.Service.Messaging.Kafka.fetch_kafka_topic find_topic get_kafka_topic
    kogito_operator.Service.Messaging.Kafka.create_kafka_topic
create_required_resources-IsRepeatable_example =
    create_required_resources-IsRepeatable messaging_cluster consuming before after refl
