-- ===== src/Boundary/Reconciliation.antt =====
-- src/runtime-manager/boundary/reconciliationCoordinator.mjs.
pub mod Coordinator
pub mod Freezing
pub mod Recovery
mod Tests
