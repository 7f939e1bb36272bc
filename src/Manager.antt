-- ===== src/Manager.antt =====
-- core/manager: finding the operator's own resources in a namespace.
pub mod SupportingService
pub mod Infra
pub mod Runtime
