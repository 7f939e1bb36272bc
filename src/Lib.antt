-- ===== src/Lib.antt =====
-- kogito-operator: the Kubernetes operator for Kogito services.
--
-- A controller (controllers/common) reads a resource, has a service deployed or a build configured
-- from it (core/kogitoservice, core/kogitobuild, core/kogitoinfra), and reports the outcome in the
-- resource's status conditions. Errors decide through core/infrastructure/reconciliation_error.go
-- whether the work queue comes back. Deployments of runtimes get the endpoints of supporting
-- services from core/connector and their annotations from core/deployment.
--
-- The files:
--   Common        lists, maps and tests that all parts share; `Step` is a function that mutates a
--                 state and returns an error, or panics
--   Api           conditions and the Kubernetes objects, with the fields that the code uses
--   Reconciliation  core/infrastructure/reconciliation_error.go
--   Framework     core/framework/env_var.go and owner.go, core/framework/util
--   Client        core/client/kubernetes/resource_reader.go, core/infrastructure/deployment.go
--   Images        core/framework/image.go and core/infrastructure/image.go (Version, Names);
--                 core/infrastructure/imagestream.go (Streams);
--                 core/infrastructure/imagestream_reconciler.go (Reconcile)
--   Service       core/kogitoservice: status.go (Status), kogitoinfra_reconciler.go (Dependencies),
--                 probe.go (Probes), config_reconciler.go and propconfigmap_reconciler.go (Configs),
--                 truststore_reconciler.go (TrustStore), kogito_deployment.go (Draft, Creation),
--                 deployment_reconciler.go (Deployment), deployer.go (Deployer),
--                 messaging.go and messaging_kafka.go (Messaging);
--                 service_reconciler.go and route_reconciler.go (Exposure) with
--                 core/infrastructure/service.go and route.go; the reads of a route (Route)
--   Manager       core/manager
--   Connector     core/connector/url_handler.go; Mount has core/infrastructure/configmap.go and
--                 secret.go
--   Processing    core/deployment/deployment_processor.go and its controller
--   Infra         core/kogitoinfra: errors.go, reconciler.go, status.go, the reconcilers of references;
--                 controllers/common/infra_controller.go
--   Build         core/kogitobuild: status.go (Status), build.go (Phases, Retries); trigger.go
--                 (Request); image_stream.go (Images, Streams); decorators and build_config.go
--                 (Config, Outputs); the managers of source and binary builds (Managers);
--                 build_manager.go (Process); controllers/common/build_controller.go (Controller)
--   Delta         core/infrastructure/delta_processor.go
--   Tests         concrete runs
-- Functions keep their Go names, in snake case. A pair of a value and an error is a `Result`, and a
-- nil pointer is `none`.
--
-- Parameters: the API server's answers are fields of the client records, fixed during one
-- reconciliation. The condition functions of apimachinery are a `ConditionApi`, of which
-- `IsDocumented` states the documented behaviour and `listed` is an instance. path.Join, the texts
-- of wrapped errors, fmt.Errorf on the message of a condition, the regular expression of image names
-- and operator-utils' comparison are parameters too, and so is controller-runtime's
-- SetControllerReference, of which `SetsController` states that it puts the owner among the references.
--
-- Maps that Go shares are modelled where a step sees the sharing: the annotations that all image
-- stream tags have in common (`StreamState.shared`), the shared image streams of a build's owner, and
-- the one map of labels, and where it is kept of annotations, of a deployment and its template
-- (`Service.Draft`).
--
-- Loops are recursion on the slice they walk. The one loop without a bound in its head,
-- waitForBuildConfig, runs on fuel of one more than the number of retries, which is enough: each
-- round consumes an attempt, and its theorem says that it always answers.
--
-- Not modelled: logs, events, clocks (the transition time of a condition, the sleep between
-- attempts), aliases of a slice that EnvOverride writes to, the order in which Go walks a map where
-- a list stands for it, fields that only pass through (resources, pull policy, update strategy),
-- the command line client, generated code, the copies of other operators' APIs, the infra
-- reconcilers of each technology, monitoring, the Knative resources, the resources of supporting
-- services, and the comparators, whose answers are parameters. `Deploy` takes the answer of the Kafka
-- deployer as a parameter, which Messaging models apart from it.
pub mod Common
pub mod Api
pub mod Reconciliation
pub mod Framework
pub mod Client
pub mod Service
pub mod Manager
pub mod Connector
pub mod Processing
pub mod Build
pub mod Delta
pub mod Images
pub mod Infra
mod Tests
