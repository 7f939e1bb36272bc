-- ===== src/Service/Deployer.antt =====
-- core/kogitoservice/deployer.go: deploying a service.
pub mod Parts
pub mod Laws
use kogito_operator.Common.{
  String, ℕ, Bool, true, false, ◌||◌, not, Option, none, some, List, [], ◌∷◌, if◌then◌else◌,
  is_empty, Result, ok, err, Step, next, fail, panic, ◌>>=◌,
}
use kogito_operator.Common.Dict.{Dict}
use kogito_operator.Client.{Reader}
use kogito_operator.Api.{Image, NamespacedName}
use kogito_operator.Api.Conditions.{ConditionApi}
use kogito_operator.Api.Workloads.{Deployment, ConfigMap}
use kogito_operator.Reconciliation.{
  GoError, error_for_messaging, error_for_monitoring, error_for_dashboards,
}
use kogito_operator.Delta.{DeltaState}
use kogito_operator.Framework.Owner.{Owner}
use kogito_operator.Manager.Infra.{InfraHandler}
use kogito_operator.Images.Names.{ImageHandler, convert_image_tag_to_image}
use kogito_operator.Images.Streams.{ImageStream, ImageStreamTag}
use kogito_operator.Images.Reconcile.{
  StreamCluster, StreamState, reconcile_image_stream, resolve_handled_image,
}
use kogito_operator.Service.Instance.{KogitoService}
use kogito_operator.Service.Status.{StatusClient, StatusState, ensure_resources_status_changes}
use kogito_operator.Service.Dependencies.{ServiceDefinition, reconcile_infra_of_service}
use kogito_operator.Service.Configs.{
  OneCluster, ConfigState, reconcile_config, reconcile_properties_config_map,
}
use kogito_operator.Service.TrustStore.{reconcile_trust_store}
use kogito_operator.Service.Creation.{DeploymentCluster, replicas_for}
use kogito_operator.Service.Deployment.{reconcile_deployment}
use kogito_operator.Service.Deployer.Parts.{
  DeployCluster, DeployState, lift, asked, logged, or_one, with_default_replicas,
  with_default_image, new_image_handler,
}
use kogito_operator.Service.Exposure.{
  ClusterService, RequestedRoute, reconcile_service, reconcile_route,
}

module _ (c : DeployCluster) (i : KogitoService) where
  abbrev on_definition : DeployState → ServiceDefinition → DeployState
  on_definition s d = record s { definition = d }

  config_step : DeployState → Step GoError DeployState
  unfolding lift
  config_step s =
      lift
        (λ (x : ConfigState). record s { definition = x.definition; config_maps = x.config_maps })
        (reconcile_config c.config_maps i
          (record { definition = s.definition; config_maps = s.config_maps }))

  properties_step : DeployState → Step GoError DeployState
  unfolding lift
  properties_step s =
      lift (on_definition s)
        (reconcile_properties_config_map c.deployment.config_maps i s.definition)

  trust_store_step : DeployState → Step GoError DeployState
  unfolding lift
  trust_store_step s =
      lift (on_definition s) (reconcile_trust_store c.deployment.secrets i s.definition)

  infra_step : DeployState → Step GoError DeployState
  unfolding lift
  infra_step s =
      lift (on_definition s) (reconcile_infra_of_service c.conditions c.infra i s.definition)

  -- `CreateDeployment` is reached with an image that is resolved.
  abbrev replicas_after : Result GoError String → DeployState → Option ℕ
  replicas_after (err e) s = s.replicas
  replicas_after (ok image) s =
      if is_empty image then s.replicas else replicas_for s.definition.single_replica s.replicas

  image_stream_step : DeployState → Step GoError DeployState
  unfolding lift
  image_stream_step s =
      lift (λ (x : StreamState). record s { streams = x })
        (reconcile_image_stream c.getenv (new_image_handler c i s.definition)
          c.deployment.is_openshift c.streams c.owner s.streams)

  abbrev image_of : DeployState → Result GoError String
  image_of s =
      resolve_handled_image c.getenv (new_image_handler c i s.definition) c.errorf
        c.deployment.is_openshift c.streams.streams c.stream_tags

  deployment_step : DeployState → Step GoError DeployState
  unfolding lift
  deployment_step s =
      lift
        (λ (x : DeltaState Deployment). record s {
          deployments = x;
          replicas = replicas_after (image_of s) s;
        })
        (reconcile_deployment c.deployment (record i { replicas = s.replicas }) s.definition
          (new_image_handler c i s.definition) (image_of s) s.deployments)

  service_step : DeployState → Step GoError DeployState
  unfolding lift
  service_step s =
      lift (λ (x : DeltaState ClusterService). record s { services = x })
        (reconcile_service c.services i s.services)

  -- The error of the route is only logged.
  route_step : DeployState → Step GoError DeployState
  unfolding lift logged
  route_step s = logged (
      lift (λ (x : DeltaState RequestedRoute). record s { routes = x })
        (reconcile_route c.deployment.is_openshift c.routes i s.routes))

  -- `configureMonitoring` and `configureMessaging`, by their calls.
  prometheus_step : DeployState → Step GoError DeployState
  unfolding asked
  prometheus_step s = asked error_for_monitoring (c.configure_prometheus i) s

  grafana_step : DeployState → Step GoError DeployState
  unfolding asked
  grafana_step s = asked error_for_dashboards (c.configure_grafana_dashboards i) s

  kafka_step : DeployState → Step GoError DeployState
  unfolding asked
  kafka_step s = asked error_for_messaging (c.kafka_resources i) s

  knative_step : DeployState → Step GoError DeployState
  unfolding asked
  knative_step s = asked error_for_messaging (c.knative_resources i) s

  -- The steps of `Deploy` behind its defaults, in their order.
  unfoldable pub deploy_steps : List (DeployState → Step GoError DeployState)
  unfolding config_step properties_step trust_store_step infra_step image_stream_step
      deployment_step service_step route_step prometheus_step grafana_step kafka_step knative_step
  deploy_steps =
      config_step
      ∷ (properties_step
          ∷ (trust_store_step
              ∷ (infra_step
                  ∷ (image_stream_step
                      ∷ (deployment_step
                          ∷ (service_step
                              ∷ (route_step
                                  ∷ (prometheus_step
                                      ∷ (grafana_step ∷ (kafka_step ∷ (knative_step ∷ [])))))))))))

-- One step after the other, up to the first error.
unfoldable pub run_steps :
    List (DeployState → Step GoError DeployState) → DeployState → Step GoError DeployState
run_steps [] s = next s
run_steps (f ∷ steps) s = f s >>= run_steps steps

-- `Deploy` up to the deferred call, from a state with the definition of the service.
unfoldable pub deploy : DeployCluster → KogitoService → DeployState → Step GoError DeployState
deploy c i s =
    run_steps (deploy_steps c (with_default_replicas i))
      (record s { replicas = or_one i.replicas; definition = with_default_image i s.definition })

-- The deferred `HandleStatusUpdate(instance, &err)`: it reads the error when `Deploy` returns. A
-- panic goes on behind it.
unfoldable pub deploy_status :
    ConditionApi
    → StatusClient
    → KogitoService
    → Step GoError DeployState
    → Step GoError StatusState
deploy_status m c i panic = panic
deploy_status m c i (fail s e) =
    ensure_resources_status_changes m c (some e) (record i { replicas = s.replicas })
deploy_status m c i (next s) =
    ensure_resources_status_changes m c none (record i { replicas = s.replicas })
