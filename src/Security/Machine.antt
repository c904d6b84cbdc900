-- ===== src/Security/Machine.antt =====
-- src/security-authority/state-machine: the transition table and what it allows.
pub mod Table
pub mod Graph
