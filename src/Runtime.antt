-- ===== src/Runtime.antt =====
-- src/runtime-manager/runtime-manager.mjs and heartbeat.mjs: the worker processes, from their
-- start to their end.
pub mod Heartbeat
pub mod State
pub mod Spawning
pub mod Ending
pub mod Waiting
pub mod Untouched
pub mod Waits
pub mod Inbound
pub mod Watched
pub mod Supervised
pub mod Runs
pub mod Halted
pub mod Authority
pub mod Exits
pub mod Reported
pub mod Shutdown
pub mod Tests
