-- ===== src/Infra.antt =====
-- core/kogitoinfra: reconciling a KogitoInfra resource, which hands configuration to services.
pub mod Errors
pub mod References
pub mod Status
