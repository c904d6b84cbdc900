-- ===== src/Security/Grace.antt =====
-- src/security-authority/time/offline-grace.mjs: the clock and the end of the offline grace.
pub mod Monitor
pub mod Expiry
