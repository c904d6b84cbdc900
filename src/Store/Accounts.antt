-- ===== src/Store/Accounts.antt =====
-- src/state-store/memory/AccountsContainer.mjs: the connected accounts and their balances.
pub mod Container
pub mod Changes
pub mod Unique
pub mod Sound
pub mod Kept
pub mod Hydrated
pub mod Runs
pub mod Stored
mod Tests
