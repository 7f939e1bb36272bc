-- ===== src/Reconciliation.antt =====
-- core/infrastructure/reconciliation_error.go: errors that carry a reason and a delay, and how a
-- controller turns an error into a result for the work queue.
mod Defs
pub mod Laws
unfoldable pub use Defs.*
