-- ===== src/Boundary.antt =====
-- The execution boundary (src/runtime-manager/boundary): what keeps an operation on a betting
-- platform from being run twice, lost or sent to a worker that is not alive.
pub mod Ledger
pub mod Watchdog
pub mod Reconciliation
pub mod Manager
