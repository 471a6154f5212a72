-- ===== src/Compat/V0/Mint.antt =====
-- compat/v0/compat.go, V1TxFromV0Mint: the transaction of version 1 that a mint of version 0 stands
-- for, and its hash in version 0.
pub mod Fields
use Prim.Native.String.{◌++◌ as str_append}
use mathlib.Core.List.{reverse}
use lightnode.Common.{ℕ, ◌%◌, ◌^◌, String, take}
use lightnode.Common.Int.{ℤ, uint64_of}
use lightnode.Common.Hex.{hex_encode}
use lightnode.Common.Result.{Result, ok, ◌>>=◌}
use lightnode.Darknode.{Bytes, Selector, LockInput, Tx, Darknode}
use lightnode.Compat.V0.Hashes.{mint_tx_hash}
use lightnode.Compat.V0.Store.{
  CompatError, Texts, as_utxo, as_b32, as_address, as_payload, int_at, called, V0Tx, in_value,
}

-- What the conversion asks of the bindings and the engine: the value of an output of the chain of
-- the selector, the hashes of version 0, common.HexToAddress, and the compressed public key of the
-- distributed key.
pub record Mints : Type 0 where
  pub output : Selector → Bytes → ℕ → Result String ℕ
  pub v0_nhash : Bytes → Bytes → ℕ → Result String Bytes
  pub v0_ghash : Bytes → Bytes → Bytes → Bytes → Result String Bytes
  pub hex_to_address : Bytes → Bytes
  pub gpubkey : Bytes

unfoldable pub mint_selector : Texts → Bytes → Selector
mint_selector texts to = str_append (texts.text (take 3 to)) "/toEthereum"

module _ (texts : Texts) (padded_big_bytes : ℤ → ℕ → Bytes) (darknode : Darknode)
    (mints : Mints) where
  unfoldable pub mint_input : Selector → V0Tx padded_big_bytes → Result CompatError LockInput
  mint_input selector v0tx = do
    utxo ← as_utxo (in_value padded_big_bytes "utxo" v0tx)
    vout ← int_at utxo.v_out
    let txid = reverse utxo.tx_hash
    let txindex = uint64_of vout % 2 ^ 32
    amount ← called (mints.output selector txid txindex)
    token ← as_address (in_value padded_big_bytes "token" v0tx)
    p ← as_payload (in_value padded_big_bytes "p" v0tx)
    let phash = darknode.phash_of p.value
    to ← as_address (in_value padded_big_bytes "to" v0tx)
    nonce ← as_b32 (in_value padded_big_bytes "n" v0tx)
    nhash ← called (mints.v0_nhash nonce txid txindex)
    let minter = mints.hex_to_address (hex_encode to)
    ghash ← called (mints.v0_ghash token phash minter nonce)
    ok record {
      txid = txid;
      txindex = txindex;
      amount = amount;
      payload = p.value;
      phash = phash;
      to = hex_encode to;
      nonce = nonce;
      nhash = nhash;
      gpubkey = mints.gpubkey;
      ghash = ghash;
    }

  -- The transaction, and the hash of version 0.
  unfoldable pub v1_tx_from_v0_mint : V0Tx padded_big_bytes → Result CompatError (Tx × Bytes)
  v1_tx_from_v0_mint v0tx = do
    let selector = mint_selector texts v0tx.to
    i ← mint_input selector v0tx
    input ← called (darknode.encode i)
    v1tx ← called (darknode.new_tx selector input)
    ok (v1tx, mint_tx_hash texts.naming selector i.ghash i.txid i.txindex)
