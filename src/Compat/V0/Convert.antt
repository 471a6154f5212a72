-- ===== src/Compat/V0/Convert.antt =====
-- compat/v0/compat.go, TxFromV1Tx and BurnTxFromV1Tx: what a client of version 0 is shown of a
-- transaction of version 1.
pub mod Back
use mathlib.Core.List.{reverse}
use lightnode.Common.{
  ℕ, String, Bool, Option, none, some, [], ◌∷◌, take, drop, get_elem?, length, if◌then◌else◌,
}
use lightnode.Common.Ascii.{codes}
use lightnode.Common.Dict.{lookup}
use lightnode.Common.Eq.{string_eq, number_eq, ◌==◌}
use lightnode.Common.Hex.{hex_encode, hex_decode}
use lightnode.Common.Int.{ℤ, pos}
use lightnode.Common.Result.{Result, ok, err, ◌>>=◌}
use lightnode.Darknode.{Bytes, Selector, PackValue, Typed, bytes, bytes32, bytes65, str, u32, u256}
use lightnode.Darknode as Engine
use lightnode.Database.Rows.{zeros, as_bytes, as_bytes32, as_string, as_u32, as_u256}
use lightnode.Abi.Types.{
  type_str, type_b32, type_b, type_u8, type_u64, type_u256, type_ext_eth_compat_address,
  type_ext_btc_compat_utxo, type_ext_eth_compat_payload,
}
use lightnode.Abi.Numbers as Numbers
use lightnode.Abi.Values as Values
use lightnode.Abi.Values.{Scalar, Utxo, b32, b, number, btc_compat_utxo, eth_compat_address}
use lightnode.Abi.Codec.{abi_values, unmarshal_b32}
use lightnode.Compat.V0.Codec.Blocks.{CodecError}
use lightnode.Compat.V0.Codec.Args.{Arg, set}
use lightnode.Compat.V0.Hashes.{to_from_v1_selector, burn_tx_hash, mint_tx_hash}
use lightnode.Compat.V0.Store.{CompatError, panicked, other, Texts, called, V0Tx}

-- What the conversion asks of the bindings: the token of the asset of a selector on Ethereum, the
-- check of an address, and the hash that is signed.
pub record Views : Type 0 where
  pub is_burn_or_release : Selector → Bool
  pub token_address : Selector → Result String Bytes
  pub new_address_from_hex : Bytes → Result String Bytes
  pub sighash_of : Bytes → ℕ → Bytes → Bytes → Bytes → Bytes

-- Get(name) with a type assertion, which panics on another type and on a name that is not there.
abbrev asserted {ℓ} : {A : Type ℓ} → Option A → Result CompatError A
asserted none = err panicked
asserted (some a) = ok a

abbrev pub packed {ℓ} :
    {A : Type ℓ} → (PackValue → Option A) → Option PackValue → Result CompatError A
packed assert none = err panicked
packed assert (some v) = asserted (assert v)

unfoldable pub input_of {ℓ} :
    {A : Type ℓ} → (PackValue → Option A) → String → Typed → Result CompatError A
input_of assert name input = packed assert (lookup name input)

abbrev as_bytes65 : PackValue → Option Bytes
as_bytes65 (bytes65 x) = some x
as_bytes65 _ = none

-- ExtEthCompatAddressFromHex
abbrev sized : Option Bytes → Result CompatError Bytes
sized none = err (other "encoding/hex")
sized (some h) = if length h == 20 then ok h else err (other "expected 20 bytes")

abbrev pub without_prefix : Bytes → Bytes
without_prefix (x ∷ (y ∷ rest)) =
    if x == 48 then (if y == 120 then rest else x ∷ (y ∷ rest)) else x ∷ (y ∷ rest)
without_prefix text = text

unfoldable pub eth_compat_address_from_hex : Bytes → Result CompatError Bytes
eth_compat_address_from_hex text = sized (hex_decode (without_prefix text))

module _ (texts : Texts) (padded_big_bytes : ℤ → ℕ → Bytes) (views : Views) where
  open texts use {naming}

  abbrev arg : String → Bytes → Scalar ℤ → Arg (abi_values padded_big_bytes)
  arg name kind v = record { name = codes name; kind = kind; value = some v }

  abbrev pub set_in : String → Bytes → Scalar ℤ → V0Tx padded_big_bytes → V0Tx padded_big_bytes
  set_in name kind v tx = record tx {
    ins = set (abi_values padded_big_bytes) (arg name kind v) tx.ins;
  }

  abbrev pub set_autogen : String → Bytes → Scalar ℤ → V0Tx padded_big_bytes → V0Tx padded_big_bytes
  set_autogen name kind v tx = record tx {
    autogen = set (abi_values padded_big_bytes) (arg name kind v) tx.autogen;
  }

  abbrev pub set_out : String → Bytes → Scalar ℤ → V0Tx padded_big_bytes → V0Tx padded_big_bytes
  set_out name kind v tx = record tx {
    outs = set (abi_values padded_big_bytes) (arg name kind v) tx.outs;
  }

  -- Tx{}
  abbrev pub empty_tx : V0Tx padded_big_bytes
  empty_tx = record { hash = zeros 32; to = []; ins = []; autogen = []; outs = [] }

  unfoldable pub burn_tx_from_v1_tx : Engine.Tx → Result CompatError (V0Tx padded_big_bytes)
  burn_tx_from_v1_tx t = do
    nonce ← input_of as_bytes32 "nonce" t.input
    let ref = naming.u256_of nonce
    let named = record empty_tx {
      hash = burn_tx_hash naming t.selector ref;
      to = codes (to_from_v1_selector naming t.selector);
    }
    let with_ref = set_in "ref" type_u64 (number Numbers.u64 (some (pos ref))) named
    to ← input_of as_string "to" t.input
    let with_to = set_in "to" type_b (b to) with_ref
    amount ← input_of as_u256 "amount" t.input
    ok (set_in "amount" type_u256 (number Numbers.u256 (some (pos amount))) with_to)

  -- The output, where it is asked for: each of its fields may be missing.
  abbrev with_amount :
      (ℕ → Bytes)
      → Option PackValue
      → V0Tx padded_big_bytes × Bytes
      → Result CompatError (V0Tx padded_big_bytes × Bytes)
  with_amount sighash none (tx, hash) = ok (tx, hash)
  with_amount sighash (some v) (tx, hash) = asserted (as_u256 v) >>= λ amount.
      ok (
        set_autogen "amount" type_u256 (number Numbers.u256 (some (pos amount))) tx,
        sighash amount,
      )

  abbrev with_revert :
      Option PackValue → V0Tx padded_big_bytes → Result CompatError (V0Tx padded_big_bytes)
  with_revert none tx = ok tx
  with_revert (some v) tx =
      asserted (as_string v) >>= λ reason. ok (set_out "revert" type_str (Values.str reason) tx)

  abbrev byte_at : ℕ → Bytes → ℕ
  byte_at i x = elim (get_elem? x i) [ some n ↦ n | none ↦ 0 ]

  abbrev with_sig :
      Option PackValue → V0Tx padded_big_bytes → Result CompatError (V0Tx padded_big_bytes)
  with_sig none tx = ok tx
  with_sig (some v) tx = asserted (as_bytes65 v) >>= λ sig. ok (
      set_out "v" type_u8 (number Numbers.u8 (some (pos (byte_at 64 sig)))) (
        set_out "s" type_b32 (b32 (take 32 (drop 32 sig)))
          (set_out "r" type_b32 (b32 (take 32 sig)) tx)))

  unfoldable pub with_output :
      Option Typed
      → (ℕ → Bytes)
      → V0Tx padded_big_bytes
      → Result CompatError (V0Tx padded_big_bytes)
  with_output none sighash tx = ok (set_autogen "sighash" type_b32 (b32 (zeros 32)) tx)
  with_output (some output) sighash tx = do
    (paid, hash) ← with_amount sighash (lookup "amount" output) (tx, zeros 32)
    reverted ← with_revert (lookup "revert" output) paid
    signed ← with_sig (lookup "sig" output) reverted
    ok (set_autogen "sighash" type_b32 (b32 hash) signed)

  -- The UTXO that a mint spends, without its amount and its ghash.
  abbrev pub spent_utxo : Bytes → ℕ → Utxo ℤ
  spent_utxo hash index = record {
    tx_hash = hash;
    v_out = some (pos index);
    script_pub_key = [];
    amount = none;
    g_hash = zeros 32;
  }

  -- The arguments of a mint, from the hashes and the UTXO on.
  module _ (t : Engine.Tx) (output : Option Typed) (phash ghash nhash txid tx_hash : Bytes) where
    unfoldable pub with_utxo : V0Tx padded_big_bytes → Result CompatError (V0Tx padded_big_bytes)
    with_utxo hashed = do
      txindex ← input_of as_u32 "txindex" t.input
      let utxo = spent_utxo tx_hash txindex
      let spending = set_in "utxo" type_ext_btc_compat_utxo (btc_compat_utxo utxo) hashed
      amount ← input_of as_u256 "amount" t.input
      let paying = record utxo { amount = some (pos amount); g_hash = ghash }
      let paid = set_autogen "utxo" type_ext_btc_compat_utxo (btc_compat_utxo paying) spending
      payload ← input_of as_bytes "payload" t.input
      let p : Values.Payload = record { abi = codes "{}"; value = payload; fn = [] }
      let called_with = set_in "p" type_ext_eth_compat_payload (Values.eth_compat_payload p) paid
      nonce ← input_of as_bytes32 "nonce" t.input
      let with_nonce = set_in "n" type_b32 (b32 nonce) called_with
      to ← input_of as_string "to" t.input
      to_addr ← eth_compat_address_from_hex to
      let sent = set_in "to" type_ext_eth_compat_address (eth_compat_address to_addr) with_nonce
      raw ← called (views.token_address t.selector)
      token_addr ← eth_compat_address_from_hex (hex_encode raw)
      let with_token =
          set_in "token" type_ext_eth_compat_address (eth_compat_address token_addr) sent
      let before =
          set_autogen "amount" type_u256 (number Numbers.u256 (some (pos amount))) with_token
      sender ← called (views.new_address_from_hex (hex_encode to_addr))
      token_eth_addr ← called (views.new_address_from_hex (hex_encode token_addr))
      let sighash = λ (out : ℕ). views.sighash_of phash out token_eth_addr sender nhash
      shown ← with_output output sighash before
      ok (record shown {
        hash = mint_tx_hash naming t.selector ghash txid txindex;
        to = codes (to_from_v1_selector naming t.selector);
      })

  abbrev with_hashes : Bytes → Bytes → Bytes → V0Tx padded_big_bytes
  with_hashes phash ghash nhash =
      set_autogen "nhash" type_b32 (b32 nhash) (
        set_autogen "ghash" type_b32 (b32 ghash)
          (set_autogen "phash" type_b32 (b32 phash) empty_tx))

  abbrev on_tx_hash :
      (V0Tx padded_big_bytes → Bytes → Result CompatError (V0Tx padded_big_bytes))
      → V0Tx padded_big_bytes
      → Result CodecError Bytes
      → Result CompatError (V0Tx padded_big_bytes)
  on_tx_hash continue hashed (err e) = ok hashed
  on_tx_hash continue hashed (ok tx_hash) = continue hashed tx_hash

  -- A transaction id that is too short ends the conversion without an error.
  unfoldable pub mint_tx_from_v1_tx :
      Engine.Tx → Option Typed → Result CompatError (V0Tx padded_big_bytes)
  mint_tx_from_v1_tx t output = do
    phash ← input_of as_bytes32 "phash" t.input
    ghash ← input_of as_bytes32 "ghash" t.input
    nhash ← input_of as_bytes32 "nhash" t.input
    txid ← input_of as_bytes "txid" t.input
    let hashed = with_hashes phash ghash nhash
    on_tx_hash (λ tx tx_hash. with_utxo t output phash ghash nhash txid tx_hash tx) hashed
        (unmarshal_b32 (reverse txid))

  -- With the output of the transaction, where the caller has one.
  unfoldable pub tx_from_v1_tx :
      Engine.Tx → Option Typed → Result CompatError (V0Tx padded_big_bytes)
  unfolding mint_tx_from_v1_tx burn_tx_from_v1_tx
  tx_from_v1_tx t output =
      if views.is_burn_or_release t.selector
      then burn_tx_from_v1_tx t
      else mint_tx_from_v1_tx t output
