-- ===== src/Security/Facade.antt =====
-- src/security-authority/facade.mjs: the calls that the rest of the control plane makes.
pub mod Sessions
pub mod Lockdown
pub mod Exits
pub mod Commands
pub mod Revoked
pub mod Logins
pub mod Degraded
