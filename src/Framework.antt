-- ===== src/Framework.antt =====
-- core/framework: operations on parts of Kubernetes objects.
pub mod EnvVar
pub mod Collections
pub mod Owner
