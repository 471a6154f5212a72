-- ===== src/Abi.antt =====
-- compat/v0/abi.go and compat/v0/ext.go: the values of the ABI of version 0 with their JSON and
-- binary forms, and compat/v0/contract.go: the contracts that take them.
pub mod Types
pub mod Decimal
pub mod Numbers
pub mod Values
pub mod Codec
pub mod Contracts
pub mod Arguments
