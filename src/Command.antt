-- ===== src/Command.antt =====
-- Commands from the desktop (src/command): their schema, the router that admits them, and the
-- security authority that gates the router.
pub mod Schema
pub mod Router
pub mod Bounds
pub mod Gate
pub mod Counted
pub mod Degraded
mod Tests
