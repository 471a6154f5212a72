-- ===== src/Abi/Values.antt =====
-- compat/v0/abi.go and compat/v0/ext.go: the values other than records and lists, with their types
-- and their equality. A value holds what its numbers point at: the integers for the codec, and the
-- pointers themselves for `Equal`, which does not look behind them.
pub mod Identity
use lightnode.Common.{ℕ, Bool, true, false, ◌&&◌, Option, List, [], ◌∷◌}
use lightnode.Common.Eq.{bytes_eq, ◌==◌}
use lightnode.Common.Int.{ℤ}
use lightnode.Darknode.{Bytes}
use lightnode.Abi.Types.{
  type_address, type_str, type_b32, type_b, type_i8, type_i16, type_i32, type_i64, type_i128,
  type_i256, type_u8, type_u16, type_u32, type_u64, type_u128, type_u256, type_record, type_list,
  type_ext_eth_compat_address, type_ext_btc_compat_utxo, type_ext_btc_compat_utxos,
  type_ext_eth_compat_tx, type_ext_eth_compat_payload,
}
use lightnode.Abi.Numbers.{
  NumberType, JsonError, same_pointer, Number, equal_pointers, int_of, quoted, read_by, from_text,
  from_quoted, positive, from_quoted_positive, int64, marshal_word, signed, unmarshal_signed,
  unmarshal_unsigned, from_big_endian, sign_byte, with_sign, unmarshal_wide, unmarshal_padded,
  marshal_wide, marshal_padded, number_i8, number_i16, number_i32, number_i64, number_i128,
  number_i256, number_u8, number_u16, number_u32, number_u64, number_u128, number_u256, methods, i8,
  i16, i32, i64, i128, i256, u8, u16, u32, u64, u128, u256, invalid_big_integer,
  expected_positive_integer,
}

module _ (N : Type 0) where
  pub record Utxo : Type 0 where
    pub tx_hash : Bytes
    pub v_out : Option N
    pub script_pub_key : Bytes
    pub amount : Option N
    pub g_hash : Bytes

pub record Payload : Type 0 where
  pub abi : Bytes
  pub value : Bytes
  pub fn : Bytes

pub data Scalar (N : Type 0) : Type 0 where
  address str b32 b eth_compat_address eth_compat_tx : Bytes → Scalar N
  number : NumberType → Option N → Scalar N
  btc_compat_utxo : Utxo N → Scalar N
  btc_compat_utxos : List (Utxo N) → Scalar N
  eth_compat_payload : Payload → Scalar N

module _ (padded_big_bytes : ℤ → ℕ → Bytes) where
  unfoldable pub kind_of : {N : Type 0} → Scalar N → Bytes
  kind_of (address _) = type_address
  kind_of (str _) = type_str
  kind_of (b32 _) = type_b32
  kind_of (b _) = type_b
  kind_of (eth_compat_address _) = type_ext_eth_compat_address
  kind_of (eth_compat_tx _) = type_ext_eth_compat_tx
  kind_of (number t _) = (methods padded_big_bytes t).kind
  kind_of (btc_compat_utxo _) = type_ext_btc_compat_utxo
  kind_of (btc_compat_utxos _) = type_ext_btc_compat_utxos
  kind_of (eth_compat_payload _) = type_ext_eth_compat_payload

  unfoldable pub equal_address : Bytes → Scalar ℕ → Bool
  equal_address x (address y) = x == y
  equal_address x _ = false

  unfoldable pub equal_str : Bytes → Scalar ℕ → Bool
  equal_str x (str y) = x == y
  equal_str x _ = false

  unfoldable pub equal_b32 : Bytes → Scalar ℕ → Bool
  equal_b32 x (b32 y) = x == y
  equal_b32 x _ = false

  unfoldable pub equal_b : Bytes → Scalar ℕ → Bool
  equal_b x (b y) = x == y
  equal_b x _ = false

  unfoldable pub equal_number : NumberType → Option ℕ → Scalar ℕ → Bool
  equal_number t p (number u q) =
      (methods padded_big_bytes t).equal p (methods padded_big_bytes u).kind q
  equal_number t p _ = false

  unfoldable pub equal_eth_compat_address : Bytes → Scalar ℕ → Bool
  equal_eth_compat_address x (eth_compat_address y) = x == y
  equal_eth_compat_address x _ = false

  unfoldable pub equal_eth_compat_tx : Bytes → Scalar ℕ → Bool
  equal_eth_compat_tx x (eth_compat_tx y) = equal_b32 x (b32 y)
  equal_eth_compat_tx x _ = false

  unfoldable pub equal_btc_compat_utxo : Utxo ℕ → Scalar ℕ → Bool
  equal_btc_compat_utxo x (btc_compat_utxo y) =
      equal_b32 x.tx_hash (b32 y.tx_hash)
      && (equal_number u32 x.v_out (number u32 y.v_out)
          && (equal_b x.script_pub_key (b y.script_pub_key)
              && (equal_number u256 x.amount (number u256 y.amount)
                  && equal_b32 x.g_hash (b32 y.g_hash))))
  equal_btc_compat_utxo x _ = false

  -- The lengths are compared first; the loop then stops at the first difference.
  abbrev pub equal_each : List (Utxo ℕ) → List (Utxo ℕ) → Bool
  equal_each [] [] = true
  equal_each (x ∷ xs) (y ∷ ys) = equal_btc_compat_utxo x (btc_compat_utxo y) && equal_each xs ys
  equal_each _ _ = false

  unfoldable pub equal_btc_compat_utxos : List (Utxo ℕ) → Scalar ℕ → Bool
  equal_btc_compat_utxos xs (btc_compat_utxos ys) = equal_each xs ys
  equal_btc_compat_utxos xs _ = false

  unfoldable pub equal_eth_compat_payload : Payload → Scalar ℕ → Bool
  equal_eth_compat_payload x (eth_compat_payload y) =
      equal_b x.abi (b y.abi) && (equal_b x.value (b y.value) && equal_b x.fn (b y.fn))
  equal_eth_compat_payload x _ = false

  -- The dynamic dispatch of `Equal`.
  abbrev pub equal : Scalar ℕ → Scalar ℕ → Bool
  equal (address x) w = equal_address x w
  equal (str x) w = equal_str x w
  equal (b32 x) w = equal_b32 x w
  equal (b x) w = equal_b x w
  equal (eth_compat_address x) w = equal_eth_compat_address x w
  equal (eth_compat_tx x) w = equal_eth_compat_tx x w
  equal (number t p) w = equal_number t p w
  equal (btc_compat_utxo x) w = equal_btc_compat_utxo x w
  equal (btc_compat_utxos xs) w = equal_btc_compat_utxos xs w
  equal (eth_compat_payload x) w = equal_eth_compat_payload x w
