-- ===== src/Boundary/Manager.antt =====
-- src/runtime-manager/boundary/executionBoundaryManager.mjs: the ledger, the coordinator and the
-- watchdog behind one interface.
pub mod State
pub mod Bets
pub mod Inbound
pub mod Calls
pub mod Retries
pub mod Results
pub mod Frozen
pub mod Runs
mod Tests
