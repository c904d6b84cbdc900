-- ===== src/Shared.antt =====
-- src/shared/: what every part of the program uses.
pub mod Mutex
mod Tests
