-- ===== src/Tests/Abi.antt =====
-- The values of the ABI of version 0 with a big-endian encoder in place of go-ethereum's.
use lightnode.Common.{
  ℕ, zero, suc, ◌+◌, ◌*◌, ◌/◌, ◌%◌, ◌^◌, ◌<◌, ◌≤◌, ◌≡◌, ◌↔◌, refl, ap, subst, sym, none, some, [],
  ◌∷◌, arith, length, true,
}
use lightnode.Common.Ascii.{codes}
use lightnode.Common.Eq.{bytes_eq}
use lightnode.Common.Dict.{lookup}
use lightnode.Common.Int.{ℤ, pos, negsuc, absolute}
use lightnode.Common.Result.{ok, err}
use lightnode.Darknode.{Bytes}
use lightnode.Compat.V0.Codec.Blocks.{little_endian, zero_bytes, write_block}
use lightnode.Compat.V0.Codec.Args.{Arg, Tx, get, marshal_arg, marshal_tx, unmarshal_tx}
use lightnode.Abi.Types.{type_u64}
use lightnode.Abi.Decimal.{
  digits, decimal, scan_digits, natural, set_string, trim_left, trim_right, trim,
}
use lightnode.Abi.Numbers.{
  quoted, from_quoted, from_quoted_positive, marshal_word, from_big_endian, number_u64, methods, i8,
  u8, u64, expected_positive_integer,
}
use lightnode.Abi.Numbers.RoundTrip.{IsPadding, InRange, IsReadable, unmarshal-marshal_json}
use lightnode.Abi.Values.{Utxo, Scalar, kind_of, equal, number, btc_compat_utxo}
use lightnode.Abi.Values.Identity.{equal_iff}
use lightnode.Abi.Codec.{marshal_value, unmarshal_value, abi_values}
use lightnode.Abi.Codec.RoundTrip.{UtxoIsBounded, decoded, IsBounded, unmarshal-marshal_value}
use lightnode.Abi.Arguments.{IsTyped, unmarshal-marshal_typed_tx}
use lightnode.Abi.Contracts.{
  btc0_eth2btc, intrinsics, is_nil, check_formals, check_contract, validate_v0_tx,
}
use lightnode.Abi.Contracts.Validation.{IsTaken, validate_v0_tx_iff}

abbrev pub big_endian : ℕ → ℕ → Bytes → Bytes
big_endian zero n bs = bs
big_endian (suc k) n bs = big_endian k (n / 256) (n % 256 ∷ bs)

abbrev pub simple_padding : ℤ → ℕ → Bytes
simple_padding x n = big_endian n (absolute x) []

length-big_endian : (k n : ℕ) (bs : Bytes) → length (big_endian k n bs) ≡ k + length bs
length-big_endian zero n bs = omega arith
length-big_endian (suc k) n bs = omega (arith, length-big_endian k (n / 256) (n % 256 ∷ bs))

eight_more : (k : ℕ) → 8 * suc k ≡ suc (suc (suc (suc (suc (suc (suc (suc (8 * k))))))))
eight_more k = omega arith

pow_byte : (k : ℕ) → 2 ^ (8 * suc k) ≡ 256 * 2 ^ (8 * k)
pow_byte k = subst (λ m. 2 ^ m ≡ 256 * 2 ^ (8 * k)) (sym (eight_more k)) (omega arith)

from_big_endian-big_endian :
    (k n : ℕ) (bs : Bytes)
    → n < 2 ^ (8 * k)
    → from_big_endian 0 (big_endian k n bs) ≡ from_big_endian n bs
unfolding from_big_endian
from_big_endian-big_endian zero n bs h = ap (λ m. from_big_endian m bs) (omega (arith, h))
from_big_endian-big_endian (suc k) n bs h =
    rw (from_big_endian-big_endian k (n / 256) (n % 256 ∷ bs) (omega (arith, h, pow_byte k)))
      (ap (λ m. from_big_endian m bs) (omega arith))

simple_padding-IsPadding : IsPadding simple_padding
unfolding from_big_endian
simple_padding-IsPadding = record {
  padded_length = λ x n h. omega (arith, length-big_endian n (absolute x) []);
  padded_value = λ x n h. from_big_endian-big_endian n (absolute x) [] h;
}

abbrev spent : Utxo ℤ
spent = record {
  tx_hash = zero_bytes 32;
  v_out = some (pos 2);
  script_pub_key = 118 ∷ 169 ∷ [];
  amount = none;
  g_hash = zero_bytes 32;
}

spent-UtxoIsBounded : UtxoIsBounded spent
unfolding InRange
spent-UtxoIsBounded = record {
  tx_hash_size = refl;
  v_out_range = omega arith;
  script_size = omega arith;
  amount_range = omega arith;
  g_hash_size = refl;
}

spent-IsBounded : IsBounded (btc_compat_utxo spent)
unfolding IsBounded
spent-IsBounded = spent-UtxoIsBounded

unmarshal-marshal_value_example :
    unmarshal_value simple_padding
      (kind_of simple_padding (btc_compat_utxo spent))
      (marshal_value simple_padding (btc_compat_utxo spent))
    ≡ ok (decoded (btc_compat_utxo spent))
unmarshal-marshal_value_example =
    unmarshal-marshal_value simple_padding simple_padding-IsPadding (btc_compat_utxo spent)
      spent-IsBounded

small-IsReadable : IsReadable i8 (negsuc 499)
unfolding IsReadable
small-IsReadable = tt

unmarshal-marshal_json_example :
    (methods simple_padding i8).unmarshal_json
      ((methods simple_padding i8).marshal_json (some (negsuc 499)))
    ≡ ok (negsuc 499)
unmarshal-marshal_json_example =
    unmarshal-marshal_json simple_padding i8 (some (negsuc 499)) small-IsReadable

printed : quoted (some (negsuc 499)) ≡ codes "\"-500\""
unfolding quoted decimal digits
printed = refl

rejected : from_quoted_positive (codes "\"-5\"") ≡ err expected_positive_integer
unfolding from_quoted_positive from_quoted trim trim_left trim_right set_string natural scan_digits
rejected = refl

equal_iff_example :
    (equal simple_padding (number u8 (some 0)) (number u8 (some 1)) ≡ true)
    ↔ (◌≡◌ {A = Scalar ℕ} (number u8 (some 0)) (number u8 (some 1)))
equal_iff_example = equal_iff simple_padding (number u8 (some 0)) (number u8 (some 1))

-- A burn of Bitcoin on Ethereum.
abbrev pub burn_ref : Arg (abi_values simple_padding)
burn_ref = record { name = codes "ref"; kind = type_u64; value = some (number u64 (some (pos 7))) }

abbrev pub burn_tx : Tx (abi_values simple_padding)
burn_tx = record {
  hash = zero_bytes 32;
  to = btc0_eth2btc.address;
  ins = burn_ref ∷ [];
  autogen = [];
  outs = [];
}

validate_v0_tx_iff_example :
    (validate_v0_tx simple_padding burn_tx ≡ ok tt) ↔ IsTaken simple_padding burn_tx
validate_v0_tx_iff_example = validate_v0_tx_iff simple_padding burn_tx

pub burn_tx_valid : validate_v0_tx simple_padding burn_tx ≡ ok tt
unfolding validate_v0_tx check_contract check_formals intrinsics lookup get is_nil
burn_tx_valid = refl

burn_ref-IsTyped : IsTyped simple_padding burn_ref
unfolding IsBounded InRange kind_of number_u64 marshal_word little_endian
burn_ref-IsTyped = record {
  held = number u64 (some (pos 7));
  holds = refl;
  typed = refl;
  bounded = omega arith;
  no_nil = refl;
  name_size = omega arith;
  value_size = omega arith;
}

burn_ref_size : length (marshal_arg (abi_values simple_padding) burn_ref) ≤ 10 * 1024
unfolding marshal_arg write_block little_endian number_u64 marshal_word
burn_ref_size = omega arith

unmarshal-marshal_typed_tx_example :
    unmarshal_tx (abi_values simple_padding) (marshal_tx (abi_values simple_padding) burn_tx)
    ≡ ok burn_tx
unmarshal-marshal_typed_tx_example =
    unmarshal-marshal_typed_tx simple_padding simple_padding-IsPadding burn_tx record {
      hash_size = refl;
      to_size = omega arith;
      in_count = omega arith;
      in_fits = ((burn_ref-IsTyped, burn_ref_size), tt);
      autogen_count = omega arith;
      autogen_fits = tt;
      out_count = omega arith;
      out_fits = tt;
    }
