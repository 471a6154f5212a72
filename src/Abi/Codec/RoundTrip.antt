-- ===== src/Abi/Codec/RoundTrip.antt =====
-- What the binary forms of the values of compat/v0/abi.go and compat/v0/ext.go are decoded to.
use lightnode.Common.{
  ℕ, ◌+◌, ◌*◌, ◌^◌, ◌≤◌, ◌<◌, ◌≡◌, refl, sym, subst, Option, some, List, [], ◌∷◌, ◌++◌, arith,
  length, map, All, length-map, length-append,
}
use lightnode.Common.Eq.{bytes_eq}
use lightnode.Common.Int.{ℤ, pos, negsuc, absolute}
use lightnode.Common.Result.{ok, ◌>>=◌}
use lightnode.Darknode.{Bytes}
use lightnode.Compat.V0.Codec.Blocks.{
  little_endian, read_full, read_some, write_block, write_each, write_list, read_full-append,
  append_none, read_u64-little_endian, read_some-append, within, read-write_block,
  read_last-write_block, IsReadBack, read_last-write_list,
}
use lightnode.Abi.Numbers.{
  NumberType, int_of, marshal_word, unmarshal_unsigned, unmarshal_padded, marshal_padded, number_i8,
  number_i16, number_i32, number_i64, number_i128, number_i256, number_u8, number_u16, number_u32,
  number_u64, number_u128, number_u256, methods, i8, i16, i32, i64, i128, i256, u8, u16, u32, u64,
  u128, u256,
}
use lightnode.Abi.Numbers.RoundTrip.{IsPadding, InRange, unmarshal-marshal_number}
use lightnode.Abi.Values.{
  Utxo, Payload, Scalar, kind_of, address, str, b32, b, eth_compat_address, eth_compat_tx, number,
  btc_compat_utxo, btc_compat_utxos, eth_compat_payload,
}
use lightnode.Abi.Codec.{
  marshal_address, unmarshal_address, marshal_str, unmarshal_str, marshal_b32, unmarshal_b32,
  marshal_b, unmarshal_b, marshal_eth_compat_address, unmarshal_eth_compat_address,
  marshal_eth_compat_tx, unmarshal_eth_compat_tx, marshal_eth_compat_payload,
  unmarshal_eth_compat_payload, marshal_btc_compat_utxo, unmarshal_btc_compat_utxo,
  marshal_btc_compat_utxos, unmarshal_btc_compat_utxos, marshal_value, unmarshal_value,
}

read_full-exact : (n : ℕ) (a rest : Bytes) → length a ≡ n → read_full n (a ++ rest) ≡ ok (a, rest)
read_full-exact n a rest h =
    subst (λ k. read_full k (a ++ rest) ≡ ok (a, rest)) h (read_full-append a rest)

read_some-exact : (n : ℕ) (a rest : Bytes) → length a ≡ n → read_some n (a ++ rest) ≡ ok (a, rest)
read_some-exact n a rest h =
    subst (λ k. read_some k (a ++ rest) ≡ ok (a, rest)) h (read_some-append a rest)

pub read_full-last : (n : ℕ) (a : Bytes) → length a ≡ n → read_full n a ≡ ok (a, [])
read_full-last n a h =
    subst (λ b. read_full n b ≡ ok (a, [])) (append_none a) (read_full-exact n a [] h)

unmarshal-marshal_b : (x : Bytes) → length x ≤ 1024 * 1024 → unmarshal_b (marshal_b x) ≡ ok x
unfolding unmarshal_b marshal_b write_block
unmarshal-marshal_b x h =
    rw
      (
        read_u64-little_endian (length x) x (omega (arith, h)),
        within (1024 * 1024) (length x) h,
        read_full-last (length x) x refl,
      )
      refl

pub record PayloadIsBounded (p : Payload) : Type 0 where
  pub abi_size : length p.abi ≤ 1024 * 1024
  pub value_size : length p.value ≤ 1024 * 1024
  pub fn_size : length p.fn ≤ 1024

unmarshal-marshal_eth_compat_payload :
    (p : Payload)
    → PayloadIsBounded p
    → unmarshal_eth_compat_payload (marshal_eth_compat_payload p) ≡ ok p
unfolding unmarshal_eth_compat_payload marshal_eth_compat_payload marshal_b
unmarshal-marshal_eth_compat_payload p h =
    rw
      (
        read-write_block (1024 * 1024) p.abi (write_block p.value ++ write_block p.fn) h.abi_size
            (omega arith),
        read-write_block (1024 * 1024) p.value (write_block p.fn) h.value_size (omega arith),
        read_last-write_block 1024 p.fn h.fn_size (omega arith),
      )
      refl

pub record UtxoIsBounded (u : Utxo ℤ) : Type 0 where
  pub tx_hash_size : length u.tx_hash ≡ 32
  pub v_out_range : InRange u32 (int_of u.v_out)
  pub script_size : length u.script_pub_key ≤ 1024
  pub amount_range : InRange u256 (int_of u.amount)
  pub g_hash_size : length u.g_hash ≡ 32

-- A number that was decoded is not nil.
abbrev pub counted : Utxo ℤ → Utxo ℤ
counted u = record {
  tx_hash = u.tx_hash;
  v_out = some (int_of u.v_out);
  script_pub_key = u.script_pub_key;
  amount = some (int_of u.amount);
  g_hash = u.g_hash;
}

abbrev pub decoded : Scalar ℤ → Scalar ℤ
decoded (number t x) = number t (some (int_of x))
decoded (btc_compat_utxo u) = btc_compat_utxo (counted u)
decoded (btc_compat_utxos us) = btc_compat_utxos (map counted us)
decoded (address x) = address x
decoded (str x) = str x
decoded (b32 x) = b32 x
decoded (b x) = b x
decoded (eth_compat_address x) = eth_compat_address x
decoded (eth_compat_tx x) = eth_compat_tx x
decoded (eth_compat_payload p) = eth_compat_payload p

-- The values within the bounds of their decoders.
unfoldable pub IsBounded : Scalar ℤ → Type 0
IsBounded (address x) = length x ≤ 10 * 1024
IsBounded (str x) = length x ≤ 10 * 1024
IsBounded (b32 x) = length x ≡ 32
IsBounded (b x) = length x ≤ 1024 * 1024
IsBounded (eth_compat_address x) = length x ≡ 20
IsBounded (eth_compat_tx x) = length x ≡ 32
IsBounded (number t x) = InRange t (int_of x)
IsBounded (btc_compat_utxo u) = UtxoIsBounded u
IsBounded (btc_compat_utxos us) = (length us ≤ 4096) × All UtxoIsBounded us
IsBounded (eth_compat_payload p) = PayloadIsBounded p

length-write_block : (x : Bytes) → length (write_block x) ≡ 8 + length x
unfolding write_block little_endian
length-write_block x = omega arith

length-u32 : (x : Option ℤ) → length (marshal_word 4 x) ≡ 4
unfolding marshal_word little_endian
length-u32 x = refl

module _ (padded_big_bytes : ℤ → ℕ → Bytes) (padding : IsPadding padded_big_bytes) where
  amount_bound : (x : ℤ) → InRange u256 x → absolute x < 2 ^ 256
  unfolding InRange
  amount_bound (pos n) h = h
  amount_bound (negsuc n) h = absurd h

  length-amount :
      (x : Option ℤ) → InRange u256 (int_of x) → length (marshal_padded padded_big_bytes 32 x) ≡ 32
  unfolding marshal_padded
  length-amount x h = padding.padded_length (int_of x) 32 (amount_bound (int_of x) h)

  read-v_out :
      (x : Option ℤ)
      → InRange u32 (int_of x)
      → unmarshal_unsigned 4 (marshal_word 4 x) ≡ ok (int_of x)
  unfolding number_u32
  read-v_out x h = unmarshal-marshal_number padded_big_bytes padding u32 x h

  read-amount :
      (x : Option ℤ)
      → InRange u256 (int_of x)
      → unmarshal_padded 32 (marshal_padded padded_big_bytes 32 x) ≡ ok (int_of x)
  unfolding number_u256
  read-amount x h = unmarshal-marshal_number padded_big_bytes padding u256 x h

  -- A UTXO within the bounds of its decoder is decoded from its own bytes.
  pub unmarshal-marshal_btc_compat_utxo :
      (u : Utxo ℤ)
      → UtxoIsBounded u
      → unmarshal_btc_compat_utxo padded_big_bytes (marshal_btc_compat_utxo padded_big_bytes u)
        ≡ ok (counted u)
  unfolding unmarshal_btc_compat_utxo marshal_btc_compat_utxo number_u32 number_u256
  unmarshal-marshal_btc_compat_utxo u h =
      rw
        (
          read_full-exact 32 u.tx_hash
              (marshal_word 4 u.v_out
                ++ (write_block u.script_pub_key
                    ++ (marshal_padded padded_big_bytes 32 u.amount ++ u.g_hash)))
              h.tx_hash_size,
          read_some-exact 4 (marshal_word 4 u.v_out)
              (write_block u.script_pub_key
                ++ (marshal_padded padded_big_bytes 32 u.amount ++ u.g_hash))
              (length-u32 u.v_out),
          read-v_out u.v_out h.v_out_range,
          read-write_block 1024 u.script_pub_key
              (marshal_padded padded_big_bytes 32 u.amount ++ u.g_hash) h.script_size (omega arith),
          read_some-exact 32 (marshal_padded padded_big_bytes 32 u.amount) u.g_hash
              (length-amount u.amount h.amount_range),
          read-amount u.amount h.amount_range,
          read_full-last 32 u.g_hash h.g_hash_size,
        )
        refl

  marshal-counted :
      (u : Utxo ℤ)
      → marshal_btc_compat_utxo padded_big_bytes (counted u)
        ≡ marshal_btc_compat_utxo padded_big_bytes u
  unfolding marshal_btc_compat_utxo number_u32 number_u256 marshal_word marshal_padded
  marshal-counted u = refl

  write_each-counted :
      (us : List (Utxo ℤ))
      → write_each (marshal_btc_compat_utxo padded_big_bytes) (map counted us)
        ≡ write_each (marshal_btc_compat_utxo padded_big_bytes) us
  unfolding write_each
  write_each-counted [] = refl
  write_each-counted (u ∷ us) = rw (marshal-counted u, write_each-counted us) refl

  write_list-counted :
      (us : List (Utxo ℤ))
      → write_list (marshal_btc_compat_utxo padded_big_bytes) (map counted us)
        ≡ write_list (marshal_btc_compat_utxo padded_big_bytes) us
  unfolding write_list
  write_list-counted us = rw (length-map counted us, write_each-counted us) refl

  utxo_size :
      (u : Utxo ℤ)
      → UtxoIsBounded u
      → length (marshal_btc_compat_utxo padded_big_bytes u) ≤ 10 * 1024
  unfolding marshal_btc_compat_utxo number_u32 number_u256
  utxo_size u h =
      let script = write_block u.script_pub_key in
      let amount = marshal_padded padded_big_bytes 32 u.amount in
      omega (
        arith,
        h.tx_hash_size,
        h.script_size,
        h.g_hash_size,
        length-u32 u.v_out,
        length-amount u.amount h.amount_range,
        length-write_block u.script_pub_key,
        length-append amount u.g_hash,
        length-append script (amount ++ u.g_hash),
        length-append (marshal_word 4 u.v_out) (script ++ (amount ++ u.g_hash)),
        length-append u.tx_hash (marshal_word 4 u.v_out ++ (script ++ (amount ++ u.g_hash))),
      )

  utxos-IsReadBack :
      (us : List (Utxo ℤ))
      → All UtxoIsBounded us
      → All
          (IsReadBack
            (marshal_btc_compat_utxo padded_big_bytes)
            (unmarshal_btc_compat_utxo padded_big_bytes)
            (10 * 1024))
          (map counted us)
  utxos-IsReadBack [] a = tt
  utxos-IsReadBack (u ∷ us) a = (
    (
      subst (λ bs. length bs ≤ 10 * 1024) (sym (marshal-counted u)) (utxo_size u a.0),
      subst (λ bs. unmarshal_btc_compat_utxo padded_big_bytes bs ≡ ok (counted u))
          (sym (marshal-counted u)) (unmarshal-marshal_btc_compat_utxo u a.0),
    ),
    utxos-IsReadBack us a.1,
  )

  unmarshal-marshal_btc_compat_utxos :
      (us : List (Utxo ℤ))
      → length us ≤ 4096
      → All UtxoIsBounded us
      → unmarshal_btc_compat_utxos padded_big_bytes (marshal_btc_compat_utxos padded_big_bytes us)
        ≡ ok (map counted us)
  unfolding unmarshal_btc_compat_utxos marshal_btc_compat_utxos
  unmarshal-marshal_btc_compat_utxos us count a =
      rw
        (
          sym (write_list-counted us),
          read_last-write_list (marshal_btc_compat_utxo padded_big_bytes)
              (unmarshal_btc_compat_utxo padded_big_bytes) 4096 (10 * 1024) (map counted us)
              (subst (λ k. k ≤ 4096) (sym (length-map counted us)) count) (omega arith)
              (omega arith) (utxos-IsReadBack us a),
        )
        refl

  unmarshal_value-number :
      (t : NumberType) (data_bytes : Bytes)
      → unmarshal_value padded_big_bytes (methods padded_big_bytes t).kind data_bytes
        ≡ ((methods padded_big_bytes t).unmarshal_binary data_bytes >>= λ x. ok (number t (some x)))
  unfolding unmarshal_value number_i8 number_i16 number_i32 number_i64 number_i128 number_i256
      number_u8 number_u16 number_u32 number_u64 number_u128 number_u256
  unmarshal_value-number i8 data_bytes = refl
  unmarshal_value-number i16 data_bytes = refl
  unmarshal_value-number i32 data_bytes = refl
  unmarshal_value-number i64 data_bytes = refl
  unmarshal_value-number i128 data_bytes = refl
  unmarshal_value-number i256 data_bytes = refl
  unmarshal_value-number u8 data_bytes = refl
  unmarshal_value-number u16 data_bytes = refl
  unmarshal_value-number u32 data_bytes = refl
  unmarshal_value-number u64 data_bytes = refl
  unmarshal_value-number u128 data_bytes = refl
  unmarshal_value-number u256 data_bytes = refl

  -- A value within the bounds of its decoder is decoded from its own bytes under its own type, its
  -- nil numbers as zeros.
  pub unmarshal-marshal_value :
      (v : Scalar ℤ)
      → IsBounded v
      → unmarshal_value padded_big_bytes
          (kind_of padded_big_bytes v)
          (marshal_value padded_big_bytes v)
        ≡ ok (decoded v)
  unfolding IsBounded unmarshal_value kind_of marshal_address unmarshal_address marshal_str
      unmarshal_str marshal_b32 unmarshal_b32 marshal_eth_compat_address
      unmarshal_eth_compat_address marshal_eth_compat_tx unmarshal_eth_compat_tx
  unmarshal-marshal_value (address x) h =
      rw (read_last-write_block (10 * 1024) x h (omega arith)) refl
  unmarshal-marshal_value (str x) h = rw (read_last-write_block (10 * 1024) x h (omega arith)) refl
  unmarshal-marshal_value (b32 x) h = rw (read_full-last 32 x h) refl
  unmarshal-marshal_value (b x) h = rw (unmarshal-marshal_b x h) refl
  unmarshal-marshal_value (eth_compat_address x) h = rw (read_full-last 20 x h) refl
  unmarshal-marshal_value (eth_compat_tx x) h = rw (read_full-last 32 x h) refl
  unmarshal-marshal_value (number t x) h =
      rw
        (
          unmarshal_value-number t ((methods padded_big_bytes t).marshal_binary x),
          unmarshal-marshal_number padded_big_bytes padding t x h,
        )
        refl
  unmarshal-marshal_value (btc_compat_utxo u) h = rw (unmarshal-marshal_btc_compat_utxo u h) refl
  unmarshal-marshal_value (btc_compat_utxos us) h =
      rw (unmarshal-marshal_btc_compat_utxos us h.0 h.1) refl
  unmarshal-marshal_value (eth_compat_payload p) h =
      rw (unmarshal-marshal_eth_compat_payload p h) refl
