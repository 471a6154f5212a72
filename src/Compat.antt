-- ===== src/Compat.antt =====
-- compat/: requests and responses of the older protocol versions.
pub mod V0
pub mod V1
