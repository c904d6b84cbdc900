-- ===== src/Control.antt =====
-- src/command/registerCommands.mjs: the commands that start and stop the automation, over the
-- runtime manager, the lifecycle table and the workspace.
pub mod Lifecycle
pub mod Automation
pub mod Begun
pub mod Started
pub mod Stopped
mod Tests
