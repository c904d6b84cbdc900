-- ===== src/Boundary/Ledger.antt =====
-- src/runtime-manager/boundary/idempotencyLedger.mjs.
pub mod Record
pub mod Operations
pub mod Reads
pub mod Capacity
pub mod Hydration
pub mod Restart
mod Tests
