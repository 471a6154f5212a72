-- ===== src/Abi/Arguments.antt =====
-- Arguments and transactions of compat/v0/tx.go that hold the values of compat/v0/abi.go and
-- compat/v0/ext.go: what the values must satisfy for the binary encoding to give them back.
use lightnode.Common.{ℕ, ◌*◌, ◌≤◌, ◌≡◌, ap, subst, sym, some, List, [], ◌∷◌, arith, length, All}
use lightnode.Common.Int.{ℤ}
use lightnode.Common.Result.{ok}
use lightnode.Darknode.{Bytes}
use lightnode.Compat.V0.Codec.Args.{Arg, Tx, marshal_arg, marshal_tx, unmarshal_tx}
use lightnode.Compat.V0.Codec.RoundTrip.{IsStorable, Fits, unmarshal-marshal_tx}
use lightnode.Abi.Numbers.{
  number_i8, number_i16, number_i32, number_i64, number_i128, number_i256, number_u8, number_u16,
  number_u32, number_u64, number_u128, number_u256, i8, i16, i32, i64, i128, i256, u8, u16, u32,
  u64, u128, u256,
}
use lightnode.Abi.Numbers.RoundTrip.{IsPadding}
use lightnode.Abi.Values.{
  Scalar, kind_of, address, str, b32, b, eth_compat_address, eth_compat_tx, number, btc_compat_utxo,
  btc_compat_utxos, eth_compat_payload,
}
use lightnode.Abi.Codec.{marshal_value, abi_values}
use lightnode.Abi.Codec.RoundTrip.{decoded, IsBounded, unmarshal-marshal_value}

module _ (padded_big_bytes : ℤ → ℕ → Bytes) where
  -- An argument that holds a value of its own type within the bounds, without nil numbers.
  pub record IsTyped (arg : Arg (abi_values padded_big_bytes)) : Type 0 where
    pub held : Scalar ℤ
    pub holds : arg.value ≡ some held
    pub typed : arg.kind ≡ kind_of padded_big_bytes held
    pub bounded : IsBounded held
    pub no_nil : decoded held ≡ held
    pub name_size : length arg.name ≤ 1024
    pub value_size : length (marshal_value padded_big_bytes held) ≤ 1024 * 1024

  kind_size : (v : Scalar ℤ) → length (kind_of padded_big_bytes v) ≤ 1024
  unfolding kind_of number_i8 number_i16 number_i32 number_i64 number_i128 number_i256 number_u8
      number_u16 number_u32 number_u64 number_u128 number_u256
  kind_size (address x) = omega arith
  kind_size (str x) = omega arith
  kind_size (b32 x) = omega arith
  kind_size (b x) = omega arith
  kind_size (eth_compat_address x) = omega arith
  kind_size (eth_compat_tx x) = omega arith
  kind_size (number i8 x) = omega arith
  kind_size (number i16 x) = omega arith
  kind_size (number i32 x) = omega arith
  kind_size (number i64 x) = omega arith
  kind_size (number i128 x) = omega arith
  kind_size (number i256 x) = omega arith
  kind_size (number u8 x) = omega arith
  kind_size (number u16 x) = omega arith
  kind_size (number u32 x) = omega arith
  kind_size (number u64 x) = omega arith
  kind_size (number u128 x) = omega arith
  kind_size (number u256 x) = omega arith
  kind_size (btc_compat_utxo u) = omega arith
  kind_size (btc_compat_utxos us) = omega arith
  kind_size (eth_compat_payload p) = omega arith

  abbrev Fitting : ℕ → Arg (abi_values padded_big_bytes) → Type 0
  Fitting most arg = IsTyped arg × (length (marshal_arg (abi_values padded_big_bytes) arg) ≤ most)

  -- A transaction of such arguments within the bounds of the decoder.
  pub record IsTypedTx (tx : Tx (abi_values padded_big_bytes)) : Type 0 where
    pub hash_size : length tx.hash ≡ 32
    pub to_size : length tx.to ≤ 1024
    pub in_count : length tx.ins ≤ 64
    pub in_fits : All (Fitting (10 * 1024)) tx.ins
    pub autogen_count : length tx.autogen ≤ 64
    pub autogen_fits : All (Fitting (10 * 1024)) tx.autogen
    pub out_count : length tx.outs ≤ 16
    pub out_fits : All (Fitting 1024) tx.outs

  module _ (padding : IsPadding padded_big_bytes) where
    value_back :
        (v : Scalar ℤ)
        → IsBounded v
        → decoded v ≡ v
        → (abi_values padded_big_bytes).unmarshal_value
            (kind_of padded_big_bytes v)
            (marshal_value padded_big_bytes v)
          ≡ ok (some v)
    value_back v h e =
        rw (unmarshal-marshal_value padded_big_bytes padding v h) (ap (λ w. ok (some w)) e)

    typed-IsStorable :
        (arg : Arg (abi_values padded_big_bytes))
        → IsTyped arg
        → IsStorable (abi_values padded_big_bytes) arg
    typed-IsStorable arg t = record {
      name_size = t.name_size;
      kind_size = subst (λ k. length k ≤ 1024) (sym t.typed) (kind_size t.held);
      value_size =
          subst (λ v. length ((abi_values padded_big_bytes).marshal_value v) ≤ 1024 * 1024)
            (sym t.holds) t.value_size;
      value_back = rw (t.holds, t.typed) (value_back t.held t.bounded t.no_nil);
    }

    args-Fits :
        (most : ℕ) (args : List (Arg (abi_values padded_big_bytes)))
        → All (Fitting most) args
        → All (Fits (abi_values padded_big_bytes) most) args
    args-Fits most [] a = tt
    args-Fits most (arg ∷ args) a = ((typed-IsStorable arg a.0.0, a.0.1), args-Fits most args a.1)

    -- A transaction of typed arguments within the bounds of the decoder is decoded from its own
    -- encoding.
    pub unmarshal-marshal_typed_tx :
        (tx : Tx (abi_values padded_big_bytes))
        → IsTypedTx tx
        → unmarshal_tx (abi_values padded_big_bytes) (marshal_tx (abi_values padded_big_bytes) tx)
          ≡ ok tx
    unmarshal-marshal_typed_tx tx t = unmarshal-marshal_tx (abi_values padded_big_bytes) tx record {
      hash_size = t.hash_size;
      to_size = t.to_size;
      in_count = t.in_count;
      in_fits = args-Fits (10 * 1024) tx.ins t.in_fits;
      autogen_count = t.autogen_count;
      autogen_fits = args-Fits (10 * 1024) tx.autogen t.autogen_fits;
      out_count = t.out_count;
      out_fits = args-Fits 1024 tx.outs t.out_fits;
    }
