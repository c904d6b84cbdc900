-- ===== src/Security/Tests.antt =====
-- Concrete runs of the Security Authority, and its theorems at concrete inputs.
pub mod Cipher
mod Machine
mod Storage
mod Engine
mod Envelope
pub mod Facade
mod Decision
mod Grace
