-- ===== src/Service.antt =====
-- core/kogitoservice: deploying a Kogito service and reporting its status.
pub mod Instance
pub mod Probes
pub mod Draft
pub mod Route
pub mod Status
pub mod Dependencies
pub mod Configs
pub mod TrustStore
pub mod Creation
pub mod Deployment
pub mod Exposure
pub mod Messaging
pub mod Deployer
