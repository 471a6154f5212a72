-- ===== src/Compat/V0/Mint/Fields.antt =====
-- What the transaction of version 1 takes over from a mint of version 0.
use mathlib.Core.List.{reverse}
use lightnode.Common.{ℕ, ◌%◌, ◌^◌, ◌<◌, ◌≡◌, some, arith, length, All, inl, inr}
use lightnode.Common.Int.{ℤ, pos, uint64_of}
use lightnode.Common.Hex.{hex_encode}
use lightnode.Common.Result.{ok, Result-cases}
use lightnode.Darknode.{Bytes, Selector, Typed, LockInput, Tx, Darknode}
use lightnode.Abi.Values.{
  Utxo, Payload, b32, btc_compat_utxo, eth_compat_address, eth_compat_payload,
}
use lightnode.Compat.V0.Hashes.{mint_tx_hash}
use lightnode.Compat.V0.Store.{Texts, as_address, V0Tx, in_value}
use lightnode.Compat.V0.Mint.{Mints, mint_selector, mint_input, v1_tx_from_v0_mint}

module _ (padded_big_bytes : ℤ → ℕ → Bytes) where
  -- A mint with the arguments that its contract asks for, within their sizes.
  pub record IsMint (v0tx : V0Tx padded_big_bytes) : Type 0 where
    pub utxo : Utxo ℤ
    pub index : ℕ
    pub payload : Payload
    pub to : Bytes
    pub nonce : Bytes
    pub has_utxo : in_value padded_big_bytes "utxo" v0tx ≡ some (btc_compat_utxo utxo)
    pub has_index : utxo.v_out ≡ some (pos index)
    pub has_payload : in_value padded_big_bytes "p" v0tx ≡ some (eth_compat_payload payload)
    pub has_to : in_value padded_big_bytes "to" v0tx ≡ some (eth_compat_address to)
    pub has_nonce : in_value padded_big_bytes "n" v0tx ≡ some (b32 nonce)
    pub index_fits : index < 2 ^ 32
    pub hash_size : length utxo.tx_hash ≡ 32
    pub to_size : length to ≡ 20
    pub to_bytes : All (λ x. x < 256) to

  module _ (texts : Texts) (darknode : Darknode) (mints : Mints) where
    -- The fields of the input that are taken from the mint.
    pub record Takes {v0tx : V0Tx padded_big_bytes} (m : IsMint v0tx) (i : LockInput) : Type 0 where
      pub txid_lem : i.txid ≡ reverse m.utxo.tx_hash
      pub txindex_lem : i.txindex ≡ m.index
      pub payload_lem : i.payload ≡ m.payload.value
      pub to_lem : i.to ≡ hex_encode m.to
      pub nonce_lem : i.nonce ≡ m.nonce

    pub record Minted (v0tx : V0Tx padded_big_bytes) (t : Tx) (h : Bytes) : Type 0 where
      pub i : LockInput
      pub input : Typed
      pub made :
          mint_input texts padded_big_bytes darknode mints (mint_selector texts v0tx.to) v0tx ≡ ok i
      pub encoded : darknode.encode i ≡ ok input
      pub built : darknode.new_tx (mint_selector texts v0tx.to) input ≡ ok t
      pub hash_lem :
          h ≡ mint_tx_hash texts.naming (mint_selector texts v0tx.to) i.ghash i.txid i.txindex

    pub v1_tx_from_v0_mint-Minted :
        (v0tx : V0Tx padded_big_bytes) (t : Tx) (h : Bytes)
        → v1_tx_from_v0_mint texts padded_big_bytes darknode mints v0tx ≡ ok (t, h)
        → Minted v0tx t h
    unfolding v1_tx_from_v0_mint
    v1_tx_from_v0_mint-Minted v0tx t h e =
        let selector = mint_selector texts v0tx.to in
        elim (Result-cases (mint_input texts padded_big_bytes darknode mints selector v0tx)) [
          | inr (x, p) ↦ absurd (ground (arith, p))
          | inl (i, p) ↦ elim (Result-cases (darknode.encode i)) [
            | inr (x, q) ↦ absurd (ground (arith, p, q))
            | inl (input, q) ↦ elim (Result-cases (darknode.new_tx selector input)) [
              | inr (x, r) ↦ absurd (ground (arith, p, q, r))
              | inl (u, r) ↦ record {
                i = i;
                input = input;
                made = p;
                encoded = q;
                built = ground (arith, p, q, r);
                hash_lem = ground (arith, p, q, r);
              }
            ]
          ]
        ]

    index_kept : (n : ℕ) → n < 2 ^ 32 → uint64_of (pos n) % 2 ^ 32 ≡ n
    index_kept n h = omega arith

    pub mint_input-Takes :
        (selector : Selector) (v0tx : V0Tx padded_big_bytes) (m : IsMint v0tx) (i : LockInput)
        → mint_input texts padded_big_bytes darknode mints selector v0tx ≡ ok i
        → Takes m i
    unfolding mint_input
    mint_input-Takes selector v0tx m i h =
        let txid = reverse m.utxo.tx_hash in
        let phash = darknode.phash_of m.payload.value in
        let minter = mints.hex_to_address (hex_encode m.to) in
        let fits = index_kept m.index m.index_fits in
        elim (Result-cases (mints.output selector txid m.index)) [
          | inr (x, p) ↦ absurd (ground (arith, p, m.has_utxo, m.has_index, fits))
          | inl (amount, p) ↦
              elim (Result-cases (as_address (in_value padded_big_bytes "token" v0tx))) [
                | inr (x, q) ↦ absurd (ground (arith, p, q, m.has_utxo, m.has_index, fits))
                | inl (token, q) ↦ elim (Result-cases (mints.v0_nhash m.nonce txid m.index)) [
                  | inr (x, r) ↦ absurd (ground (arith, p, q, r, fits))
                  | inl (nhash, r) ↦
                      elim (Result-cases (mints.v0_ghash token phash minter m.nonce)) [
                        | inr (x, g) ↦ absurd (ground (arith, p, q, r, g, fits))
                        | inl (ghash, g) ↦ record {
                          txid_lem = ground (arith, p, q, r, g, fits);
                          txindex_lem = ground (arith, p, q, r, g, fits);
                          payload_lem = ground (arith, p, q, r, g, fits);
                          to_lem = ground (arith, p, q, r, g, fits);
                          nonce_lem = ground (arith, p, q, r, g, fits);
                        }
                      ]
                ]
              ]
        ]
