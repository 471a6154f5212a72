-- ===== src/Compat/V0/Codec.antt =====
-- compat/v0/tx.go: the binary encoding of the transactions of version 0. A buffer is the list of
-- its remaining bytes; errors are told apart by their kind and not by the field they name.
pub mod Blocks
pub mod Args
pub mod RoundTrip
pub mod Equality
