-- ===== src/Abi/Codec.antt =====
-- compat/v0/abi.go and compat/v0/ext.go: the binary forms of the values, and the switch over the
-- types by which compat/v0/tx.go decodes the value of an argument.
pub mod RoundTrip
use lightnode.Common.{ℕ, ◌*◌, Option, none, some, List, [], ◌∷◌, ◌++◌, ltb, length, if◌then◌else◌}
use lightnode.Common.Eq.{bytes_eq, ◌==◌}
use lightnode.Common.Int.{ℤ}
use lightnode.Common.Result.{Result, ok, err, ◌>>=◌}
use lightnode.Darknode.{Bytes}
use lightnode.Compat.V0.Codec.Blocks.{
  CodecError, little_endian, from_little_endian, zero_bytes, read_full, read_u64, read_some,
  write_block, read_block, write_each, write_list, read_each, read_list, read_full-append,
  append_assoc, append_none, read_u64-little_endian, read_some-append, within, read-write_block,
  read_last-write_block, IsReadBack, read-write_list, read_last-write_list, cannot_read, too_many,
  too_many_bytes, cannot_unmarshal,
}
use lightnode.Compat.V0.Codec.Args.{Values}
use lightnode.Abi.Types.{
  type_address, type_str, type_b32, type_b, type_i8, type_i16, type_i32, type_i64, type_i128,
  type_i256, type_u8, type_u16, type_u32, type_u64, type_u128, type_u256, type_record, type_list,
  type_ext_eth_compat_address, type_ext_btc_compat_utxo, type_ext_btc_compat_utxos,
  type_ext_eth_compat_tx, type_ext_eth_compat_payload,
}
use lightnode.Abi.Numbers.{
  NumberType, JsonError, same_pointer, Number, equal_pointers, int_of, quoted, read_by, from_text,
  from_quoted, positive, from_quoted_positive, int64, marshal_word, signed, unmarshal_signed,
  unmarshal_unsigned, from_big_endian, sign_byte, with_sign, unmarshal_wide, unmarshal_padded,
  marshal_wide, marshal_padded, number_i8, number_i16, number_i32, number_i64, number_i128,
  number_i256, number_u8, number_u16, number_u32, number_u64, number_u128, number_u256, methods, i8,
  i16, i32, i64, i128, i256, u8, u16, u32, u64, u128, u256, invalid_big_integer,
  expected_positive_integer,
}
use lightnode.Abi.Values.{
  Utxo, Payload, Scalar, kind_of, equal_address, equal_str, equal_b32, equal_b, equal_number,
  equal_eth_compat_address, equal_eth_compat_tx, equal_btc_compat_utxo, equal_btc_compat_utxos,
  equal_eth_compat_payload, equal, address, str, b32, b, eth_compat_address, eth_compat_tx, number,
  btc_compat_utxo, btc_compat_utxos, eth_compat_payload,
}

unfoldable pub marshal_address : Bytes → Bytes
marshal_address x = write_block x

unfoldable pub unmarshal_address : Bytes → Result CodecError Bytes
unmarshal_address data_bytes = read_block (10 * 1024) data_bytes >>= λ r. ok r.0

unfoldable pub marshal_str : Bytes → Bytes
marshal_str x = write_block x

unfoldable pub unmarshal_str : Bytes → Result CodecError Bytes
unmarshal_str data_bytes = read_block (10 * 1024) data_bytes >>= λ r. ok r.0

unfoldable pub marshal_b32 : Bytes → Bytes
marshal_b32 x = x

unfoldable pub unmarshal_b32 : Bytes → Result CodecError Bytes
unmarshal_b32 data_bytes = read_full 32 data_bytes >>= λ r. ok r.0

unfoldable pub marshal_b : Bytes → Bytes
marshal_b x = write_block x

-- Unlike the other slices, this one must be complete.
unfoldable pub unmarshal_b : Bytes → Result CodecError Bytes
unmarshal_b data_bytes = read_u64 data_bytes >>= λ r.
    if ltb (1024 * 1024) r.0 then err too_many_bytes else (read_full r.0 r.1 >>= λ s. ok s.0)

unfoldable pub marshal_eth_compat_address : Bytes → Bytes
marshal_eth_compat_address x = x

unfoldable pub unmarshal_eth_compat_address : Bytes → Result CodecError Bytes
unmarshal_eth_compat_address data_bytes = read_full 20 data_bytes >>= λ r. ok r.0

unfoldable pub marshal_eth_compat_tx : Bytes → Bytes
marshal_eth_compat_tx x = x

unfoldable pub unmarshal_eth_compat_tx : Bytes → Result CodecError Bytes
unmarshal_eth_compat_tx data_bytes = read_full 32 data_bytes >>= λ r. ok r.0

unfoldable pub marshal_eth_compat_payload : Payload → Bytes
marshal_eth_compat_payload p = marshal_b p.abi ++ (marshal_b p.value ++ marshal_b p.fn)

unfoldable pub unmarshal_eth_compat_payload : Bytes → Result CodecError Payload
unmarshal_eth_compat_payload data_bytes = read_block (1024 * 1024) data_bytes >>= λ abi.
    read_block (1024 * 1024) abi.1 >>= λ value.
    read_block 1024 value.1 >>= λ fn. ok record { abi = abi.0; value = value.0; fn = fn.0 }

module _ (padded_big_bytes : ℤ → ℕ → Bytes) where
  unfoldable pub marshal_btc_compat_utxo : Utxo ℤ → Bytes
  marshal_btc_compat_utxo u =
      u.tx_hash
      ++ ((number_u32 padded_big_bytes).marshal_binary u.v_out
          ++ (write_block u.script_pub_key
              ++ ((number_u256 padded_big_bytes).marshal_binary u.amount ++ u.g_hash)))

  unfoldable pub unmarshal_btc_compat_utxo : Bytes → Result CodecError (Utxo ℤ)
  unmarshal_btc_compat_utxo data_bytes = read_full 32 data_bytes >>= λ hash.
      read_some 4 hash.1 >>= λ v_out.
      (number_u32 padded_big_bytes).unmarshal_binary v_out.0 >>= λ v.
      read_block 1024 v_out.1 >>= λ script. read_some 32 script.1 >>= λ amount.
      (number_u256 padded_big_bytes).unmarshal_binary amount.0 >>= λ a.
      read_full 32 amount.1 >>= λ g_hash. ok record {
        tx_hash = hash.0;
        v_out = some v;
        script_pub_key = script.0;
        amount = some a;
        g_hash = g_hash.0;
      }

  unfoldable pub marshal_btc_compat_utxos : List (Utxo ℤ) → Bytes
  marshal_btc_compat_utxos us = write_list marshal_btc_compat_utxo us

  unfoldable pub unmarshal_btc_compat_utxos : Bytes → Result CodecError (List (Utxo ℤ))
  unmarshal_btc_compat_utxos data_bytes =
      read_list 4096 (10 * 1024) unmarshal_btc_compat_utxo data_bytes >>= λ r. ok r.0

  -- The dynamic dispatch of `MarshalBinary`.
  abbrev pub marshal_value : Scalar ℤ → Bytes
  marshal_value (address x) = marshal_address x
  marshal_value (str x) = marshal_str x
  marshal_value (b32 x) = marshal_b32 x
  marshal_value (b x) = marshal_b x
  marshal_value (eth_compat_address x) = marshal_eth_compat_address x
  marshal_value (eth_compat_tx x) = marshal_eth_compat_tx x
  marshal_value (number t x) = (methods padded_big_bytes t).marshal_binary x
  marshal_value (btc_compat_utxo u) = marshal_btc_compat_utxo u
  marshal_value (btc_compat_utxos us) = marshal_btc_compat_utxos us
  marshal_value (eth_compat_payload p) = marshal_eth_compat_payload p

  abbrev unmarshal_number : NumberType → Bytes → Result CodecError (Scalar ℤ)
  unmarshal_number t data_bytes =
      (methods padded_big_bytes t).unmarshal_binary data_bytes >>= λ x. ok (number t (some x))

  -- The switch over the type of an argument.
  unfoldable pub unmarshal_value : Bytes → Bytes → Result CodecError (Scalar ℤ)
  unmarshal_value kind data_bytes =
      if kind == type_address
      then (unmarshal_address data_bytes >>= λ x. ok (address x))
      else if kind == type_str
      then (unmarshal_str data_bytes >>= λ x. ok (str x))
      else if kind == type_b32
      then (unmarshal_b32 data_bytes >>= λ x. ok (b32 x))
      else if kind == type_b
      then (unmarshal_b data_bytes >>= λ x. ok (b x))
      else if kind == type_i8
      then unmarshal_number i8 data_bytes
      else if kind == type_i16
      then unmarshal_number i16 data_bytes
      else if kind == type_i32
      then unmarshal_number i32 data_bytes
      else if kind == type_i64
      then unmarshal_number i64 data_bytes
      else if kind == type_i128
      then unmarshal_number i128 data_bytes
      else if kind == type_i256
      then unmarshal_number i256 data_bytes
      else if kind == type_u8
      then unmarshal_number u8 data_bytes
      else if kind == type_u16
      then unmarshal_number u16 data_bytes
      else if kind == type_u32
      then unmarshal_number u32 data_bytes
      else if kind == type_u64
      then unmarshal_number u64 data_bytes
      else if kind == type_u128
      then unmarshal_number u128 data_bytes
      else if kind == type_u256
      then unmarshal_number u256 data_bytes
      else if kind == type_ext_eth_compat_address
      then (unmarshal_eth_compat_address data_bytes >>= λ x. ok (eth_compat_address x))
      else if kind == type_ext_btc_compat_utxo
      then (unmarshal_btc_compat_utxo data_bytes >>= λ x. ok (btc_compat_utxo x))
      else if kind == type_ext_btc_compat_utxos
      then (unmarshal_btc_compat_utxos data_bytes >>= λ x. ok (btc_compat_utxos x))
      else if kind == type_ext_eth_compat_tx
      then (unmarshal_eth_compat_tx data_bytes >>= λ x. ok (eth_compat_tx x))
      else if kind == type_ext_eth_compat_payload
      then (unmarshal_eth_compat_payload data_bytes >>= λ x. ok (eth_compat_payload x))
      else err cannot_unmarshal

  abbrev present : Scalar ℤ → Result CodecError (Option (Scalar ℤ))
  present v = ok (some v)

  -- The bytes of a value that is not nil; `none` stands for the nil interface, which no argument
  -- that is encoded holds.
  abbrev bytes_of : Option (Scalar ℤ) → Bytes
  bytes_of none = []
  bytes_of (some v) = marshal_value v

  -- The values of the ABI as the encoding of transactions takes them.
  abbrev pub abi_values : Values
  abi_values = record {
    Value = Option (Scalar ℤ);
    nil = none;
    marshal_value = bytes_of;
    unmarshal_value = λ kind data_bytes. unmarshal_value kind data_bytes >>= present;
  }
