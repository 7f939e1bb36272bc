-- ===== src/Tests.antt =====
-- Concrete runs: the theorems at inputs where their hypotheses hold.
mod Fixtures
mod Services
mod Builds
mod Requests
mod Deployer
mod Deployments
mod Resources
mod Managers
mod Messaging
mod Images
mod Infra
