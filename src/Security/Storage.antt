-- ===== src/Security/Storage.antt =====
-- src/security-authority/persistence/aead-storage-adapter.mjs: the authenticated state row.
pub mod Row
pub mod Laws
