-- ===== src/Security/Engine.antt =====
-- src/security-authority/state-machine/engine.mjs and decision-engine.mjs.
pub mod Transition
pub mod Steps
