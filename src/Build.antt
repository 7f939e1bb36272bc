-- ===== src/Build.antt =====
-- core/kogitobuild: building the image of a Kogito service on OpenShift.
pub mod Instance
pub mod Phases
pub mod Status
pub mod Retries
pub mod Images
pub mod Streams
pub mod Config
pub mod Request
pub mod Outputs
pub mod Managers
pub mod Process
pub mod Controller
