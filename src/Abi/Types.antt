-- ===== src/Abi/Types.antt =====
-- compat/v0/abi.go and compat/v0/ext.go: the names of the types of values.
use lightnode.Common.Ascii.{codes}
use lightnode.Darknode.{Bytes}

abbrev pub type_address : Bytes
type_address = codes "address"

abbrev pub type_str : Bytes
type_str = codes "str"

abbrev pub type_b32 : Bytes
type_b32 = codes "b32"

abbrev pub type_b : Bytes
type_b = codes "b"

abbrev pub type_i8 : Bytes
type_i8 = codes "i8"

abbrev pub type_i16 : Bytes
type_i16 = codes "i16"

abbrev pub type_i32 : Bytes
type_i32 = codes "i32"

abbrev pub type_i64 : Bytes
type_i64 = codes "i64"

abbrev pub type_i128 : Bytes
type_i128 = codes "i128"

abbrev pub type_i256 : Bytes
type_i256 = codes "i256"

abbrev pub type_u8 : Bytes
type_u8 = codes "u8"

abbrev pub type_u16 : Bytes
type_u16 = codes "u16"

abbrev pub type_u32 : Bytes
type_u32 = codes "u32"

abbrev pub type_u64 : Bytes
type_u64 = codes "u64"

abbrev pub type_u128 : Bytes
type_u128 = codes "u128"

abbrev pub type_u256 : Bytes
type_u256 = codes "u256"

abbrev pub type_record : Bytes
type_record = codes "record"

abbrev pub type_list : Bytes
type_list = codes "list"

abbrev pub type_ext_eth_compat_address : Bytes
type_ext_eth_compat_address = codes "ext_ethCompatAddress"

abbrev pub type_ext_btc_compat_utxo : Bytes
type_ext_btc_compat_utxo = codes "ext_btcCompatUTXO"

abbrev pub type_ext_btc_compat_utxos : Bytes
type_ext_btc_compat_utxos = codes "ext_btcCompatUTXOs"

abbrev pub type_ext_eth_compat_tx : Bytes
type_ext_eth_compat_tx = codes "ext_ethCompatTx"

abbrev pub type_ext_eth_compat_payload : Bytes
type_ext_eth_compat_payload = codes "ext_ethCompatPayload"
