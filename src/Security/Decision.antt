-- ===== src/Security/Decision.antt =====
-- src/security-authority/decision-engine.mjs: the owner of the state in memory.
pub mod Brain
pub mod Dispatches
pub mod Starts
pub mod First
pub mod Capabilities
