-- ===== src/Compat/V0/Convert/Back.antt =====
-- A mint of version 0 that was converted to version 1 and back.
use mathlib.Core.List.{reverse, reverse-reverse}
use lightnode.Common.{
  ℕ, ◌<◌, ◌≡◌, refl, ap, sym, ◌∙◌, subst, false, none, some, [], ◌∷◌, arith, length, All,
}
use lightnode.Common.Ascii.{codes}
use lightnode.Common.Dict.{lookup}
use lightnode.Common.Eq.{string_eq}
use lightnode.Common.Hex.{hex_encode, hex_decode-hex_encode}
use lightnode.Common.Int.{ℤ, pos}
use lightnode.Common.Result.{ok}
use lightnode.Darknode.{Bytes, Selector, Typed, LockInput, bytes, bytes32, str, u32, u256, Darknode}
use lightnode.Darknode as Engine
use lightnode.Database.Rows.{zeros}
use lightnode.Abi.Types.{
  type_b32, type_u256, type_ext_eth_compat_address, type_ext_btc_compat_utxo,
  type_ext_eth_compat_payload,
}
use lightnode.Abi.Numbers as Numbers
use lightnode.Abi.Values.{b32, number, btc_compat_utxo, eth_compat_address, eth_compat_payload}
use lightnode.Abi.Codec.{unmarshal_b32}
use lightnode.Abi.Codec.RoundTrip.{read_full-last}
use lightnode.Compat.V0.Codec.Args.{set, get}
use lightnode.Compat.V0.Hashes.{to_from_v1_selector, mint_tx_hash}
use lightnode.Compat.V0.Store.{Texts, V0Tx, in_value}
use lightnode.Compat.V0.Mint.{Mints, mint_selector, v1_tx_from_v0_mint}
use lightnode.Compat.V0.Mint.Fields.{IsMint, Takes, v1_tx_from_v0_mint-Minted, mint_input-Takes}
use lightnode.Compat.V0.Convert.{
  Views, eth_compat_address_from_hex, input_of, with_utxo, with_output, mint_tx_from_v1_tx,
  tx_from_v1_tx, set_in, set_autogen, spent_utxo, without_prefix, with_hashes,
}

-- Every field that pack.Encode has written is found under its name.
pub record HasFields (input : Typed) (i : LockInput) : Type 0 where
  pub txid_lem : lookup "txid" input ≡ some (bytes i.txid)
  pub txindex_lem : lookup "txindex" input ≡ some (u32 i.txindex)
  pub amount_lem : lookup "amount" input ≡ some (u256 i.amount)
  pub payload_lem : lookup "payload" input ≡ some (bytes i.payload)
  pub phash_lem : lookup "phash" input ≡ some (bytes32 i.phash)
  pub to_lem : lookup "to" input ≡ some (str i.to)
  pub nonce_lem : lookup "nonce" input ≡ some (bytes32 i.nonce)
  pub nhash_lem : lookup "nhash" input ≡ some (bytes32 i.nhash)
  pub ghash_lem : lookup "ghash" input ≡ some (bytes32 i.ghash)

-- What the bindings answer for a selector: an address of 20 bytes for its token, and that such an
-- address is one.
pub record Answers (views : Views) (selector : Selector) : Type 0 where
  pub token : Bytes
  pub token_lem : views.token_address selector ≡ ok token
  pub token_size : length token ≡ 20
  pub token_bytes : All (λ x. x < 256) token
  pub checked : Bytes → Bytes
  pub checked_lem :
      (a : Bytes) → length a ≡ 20 → views.new_address_from_hex (hex_encode a) ≡ ok (checked a)

without_prefix-hex_encode : (a : Bytes) → without_prefix (hex_encode a) ≡ hex_encode a
unfolding hex_encode
without_prefix-hex_encode [] = refl
without_prefix-hex_encode (x ∷ a) = ground arith

address_back :
    (a : Bytes)
    → length a ≡ 20
    → All (λ x. x < 256) a
    → eth_compat_address_from_hex (hex_encode a) ≡ ok a
unfolding eth_compat_address_from_hex
address_back a size small =
    rw (without_prefix-hex_encode a, hex_decode-hex_encode a small, size) refl

unmarshal_b32-full : (x : Bytes) → length x ≡ 32 → unmarshal_b32 x ≡ ok x
unfolding unmarshal_b32
unmarshal_b32-full x size = rw (read_full-last 32 x size) refl

module _ (texts : Texts) (padded_big_bytes : ℤ → ℕ → Bytes) (views : Views) where
  -- What is shown of a mint before it has an output.
  abbrev shown_mint : Engine.Tx → LockInput → Bytes → Bytes → Bytes → V0Tx padded_big_bytes
  shown_mint t i tx_hash to token =
      let tx = with_hashes texts padded_big_bytes views i.phash i.ghash i.nhash in
      let utxo = spent_utxo texts padded_big_bytes views tx_hash i.txindex in
      let a =
        set_in texts padded_big_bytes views "utxo" type_ext_btc_compat_utxo (btc_compat_utxo utxo)
          tx in
      let paying = record utxo { amount = some (pos i.amount); g_hash = i.ghash } in
      let b =
        set_autogen texts padded_big_bytes views "utxo" type_ext_btc_compat_utxo
          (btc_compat_utxo paying) a in
      let c =
        set_in texts padded_big_bytes views "p" type_ext_eth_compat_payload
          (eth_compat_payload (record { abi = codes "{}"; value = i.payload; fn = [] })) b in
      let d = set_in texts padded_big_bytes views "n" type_b32 (b32 i.nonce) c in
      let e =
        set_in texts padded_big_bytes views "to" type_ext_eth_compat_address (eth_compat_address to)
          d in
      let f =
        set_in texts padded_big_bytes views "token" type_ext_eth_compat_address
          (eth_compat_address token) e in
      let g =
        set_autogen texts padded_big_bytes views "amount" type_u256
          (number Numbers.u256 (some (pos i.amount))) f in
      let h = set_autogen texts padded_big_bytes views "sighash" type_b32 (b32 (zeros 32)) g in
      record h {
        hash = mint_tx_hash texts.naming t.selector i.ghash i.txid i.txindex;
        to = codes (to_from_v1_selector texts.naming t.selector);
      }

  mint_tx_from_v1_tx-shown_mint :
      (t : Engine.Tx) (i : LockInput) (tx_hash to : Bytes) (answers : Answers views t.selector)
      → HasFields t.input i
      → reverse i.txid ≡ tx_hash
      → length tx_hash ≡ 32
      → i.to ≡ hex_encode to
      → length to ≡ 20
      → All (λ x. x < 256) to
      → mint_tx_from_v1_tx texts padded_big_bytes views t none
        ≡ ok (shown_mint t i tx_hash to answers.token)
  unfolding mint_tx_from_v1_tx with_utxo input_of with_output
  mint_tx_from_v1_tx-shown_mint t i tx_hash to answers has back size to_lem to_size small =
      rw
        (
          has.phash_lem,
          has.ghash_lem,
          has.nhash_lem,
          has.txid_lem,
          back,
          unmarshal_b32-full tx_hash size,
          has.txindex_lem,
          has.amount_lem,
          has.payload_lem,
          has.nonce_lem,
          has.to_lem,
          to_lem,
          address_back to to_size small,
          answers.token_lem,
          address_back answers.token answers.token_size answers.token_bytes,
          answers.checked_lem to to_size,
          answers.checked_lem answers.token answers.token_size,
        )
        refl

  -- What a client of version 0 gets back of its mint: the UTXO, the payload without its ABI, the
  -- address, the nonce, and the hash.
  pub record Shows {v0tx : V0Tx padded_big_bytes} (m : IsMint padded_big_bytes v0tx) (h : Bytes)
      (w : V0Tx padded_big_bytes) : Type 0 where
    pub utxo_lem :
        in_value padded_big_bytes "utxo" w
        ≡ some (btc_compat_utxo (spent_utxo texts padded_big_bytes views m.utxo.tx_hash m.index))
    pub payload_lem :
        in_value padded_big_bytes "p" w
        ≡ some (eth_compat_payload (record { abi = codes "{}"; value = m.payload.value; fn = [] }))
    pub to_lem : in_value padded_big_bytes "to" w ≡ in_value padded_big_bytes "to" v0tx
    pub nonce_lem : in_value padded_big_bytes "n" w ≡ in_value padded_big_bytes "n" v0tx
    pub hash_lem : w.hash ≡ h

  -- What pack.Encode and tx.NewTx keep of what they are given.
  pub record Keeps (darknode : Darknode) : Type 0 where
    pub encode-HasFields :
        (i : LockInput) (input : Typed) → darknode.encode i ≡ ok input → HasFields input i
    pub new_tx-selector :
        (selector : Selector) (input : Typed) (t : Engine.Tx)
        → darknode.new_tx selector input ≡ ok t
        → t.selector ≡ selector
    pub new_tx-input :
        (selector : Selector) (input : Typed) (t : Engine.Tx)
        → darknode.new_tx selector input ≡ ok t
        → t.input ≡ input

  shown_mint-Shows :
      (darknode : Darknode) (mints : Mints) (v0tx : V0Tx padded_big_bytes)
      (m : IsMint padded_big_bytes v0tx) (t : Engine.Tx) (i : LockInput) (h token : Bytes)
      → Takes padded_big_bytes texts darknode mints m i
      → h ≡ mint_tx_hash texts.naming t.selector i.ghash i.txid i.txindex
      → Shows m h (shown_mint t i m.utxo.tx_hash m.to token)
  unfolding get set
  shown_mint-Shows darknode mints v0tx m t i h token takes hash = record {
    utxo_lem = rw takes.txindex_lem;
    payload_lem = rw takes.payload_lem;
    to_lem = sym m.has_to;
    nonce_lem = rw takes.nonce_lem (sym m.has_nonce);
    hash_lem = sym hash;
  }

  tx_from_v1_tx-mint :
      (t : Engine.Tx)
      → views.is_burn_or_release t.selector ≡ false
      → tx_from_v1_tx texts padded_big_bytes views t none
        ≡ mint_tx_from_v1_tx texts padded_big_bytes views t none
  unfolding tx_from_v1_tx
  tx_from_v1_tx-mint t h = rw h refl

  -- A mint that was converted to version 1 is shown again with its UTXO, payload, address, nonce and
  -- hash.
  pub tx_from_v1_tx-v1_tx_from_v0_mint :
      (darknode : Darknode) (mints : Mints) (v0tx : V0Tx padded_big_bytes)
      (m : IsMint padded_big_bytes v0tx) (t : Engine.Tx) (h : Bytes)
      → Keeps darknode
      → views.is_burn_or_release (mint_selector texts v0tx.to) ≡ false
      → Answers views (mint_selector texts v0tx.to)
      → v1_tx_from_v0_mint texts padded_big_bytes darknode mints v0tx ≡ ok (t, h)
      → (w : V0Tx padded_big_bytes) × (tx_from_v1_tx texts padded_big_bytes views t none ≡ ok w)
        × Shows m h w
  tx_from_v1_tx-v1_tx_from_v0_mint darknode mints v0tx m t h keeps mint answers converted =
      let made =
        v1_tx_from_v0_mint-Minted padded_big_bytes texts darknode mints v0tx t h converted in
      let selector = mint_selector texts v0tx.to in
      let i = made.i in
      let takes =
        mint_input-Takes padded_big_bytes texts darknode mints selector v0tx m i made.made in
      let same = keeps.new_tx-selector selector made.input t made.built in
      let has =
        subst (λ x. HasFields x i) (sym (keeps.new_tx-input selector made.input t made.built))
          (keeps.encode-HasFields i made.input made.encoded) in
      let back : reverse i.txid ≡ m.utxo.tx_hash =
        rw takes.txid_lem (reverse-reverse m.utxo.tx_hash) in
      let answers_t : Answers views t.selector = subst (Answers views) (sym same) answers in
      (
        shown_mint t i m.utxo.tx_hash m.to answers_t.token,
        tx_from_v1_tx-mint t (ap views.is_burn_or_release same ∙ mint)
            ∙ mint_tx_from_v1_tx-shown_mint t i m.utxo.tx_hash m.to answers_t has back m.hash_size
                takes.to_lem m.to_size m.to_bytes,
        shown_mint-Shows darknode mints v0tx m t i h answers_t.token takes (
            made.hash_lem
            ∙ ap (λ x. mint_tx_hash texts.naming x i.ghash i.txid i.txindex) (sym same)),
      )
