-- ===== src/Store.antt =====
-- src/state-store/: the containers that the interface reads.
pub mod Notifications
pub mod Unread
pub mod Bounded
pub mod Evicted
pub mod Sanitizer
pub mod Secrets
pub mod Asserted
pub mod Export
pub mod Exported
pub mod Passwords
pub mod Accounts
mod Tests
