-- ===== src/Compat/V0.antt =====
-- compat/v0/: transactions of the version 0 protocol.
pub mod Hashes
pub mod Codec
pub mod Store
pub mod Mint
pub mod Burn
pub mod Submit
pub mod Convert
pub mod Fees
