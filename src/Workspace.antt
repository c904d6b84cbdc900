-- ===== src/Workspace.antt =====
-- src/state/: what the workspace shows and allows.
pub mod Tracker
pub mod Quarantine
pub mod Capabilities
pub mod Offers
pub mod Lifecycle
mod Tests
