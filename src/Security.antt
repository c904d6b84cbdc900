-- ===== src/Security.antt =====
-- The Security Authority (src/security-authority): its state machine, its authenticated storage,
-- the decision engine over both, and the clients of the engine.
pub mod State
pub mod Machine
pub mod Storage
pub mod Engine
pub mod Decision
pub mod Grace
pub mod Facade
pub mod Envelope
pub mod Tests
