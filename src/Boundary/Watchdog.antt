-- ===== src/Boundary/Watchdog.antt =====
-- src/runtime-manager/boundary/watchdogMonitor.mjs.
pub mod Monitor
pub mod Tiers
mod Tests
