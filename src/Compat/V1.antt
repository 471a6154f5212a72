-- ===== src/Compat/V1.antt =====
-- compat/v1/: the state and the transactions of the version 1 protocol.
pub mod State
pub mod Store
