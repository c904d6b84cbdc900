-- ===== src/Security/Envelope.antt =====
-- src/security-authority/protocol/envelope.mjs: the check of an envelope from the backend.
pub mod Validator
pub mod Replays
pub mod Signed
