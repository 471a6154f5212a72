-- ===== src/Tests/Compat.antt =====
-- A mint of version 0 that is converted to version 1 and shown again.
use mathlib.Core.List.{reverse}
use lightnode.Common.{String, ◌≡◌, refl, subst, none, some, false, [], ◌∷◌, arith}
use lightnode.Common.Ascii.{codes}
use lightnode.Common.Dict.{lookup}
use lightnode.Common.Eq.{string_eq}
use lightnode.Common.Hex.{hex_encode}
use lightnode.Common.Int.{ℤ, pos}
use lightnode.Common.Result.{Result, ok}
use lightnode.Darknode.{Bytes, Typed, LockInput, Tx}
use lightnode.Database.Rows.{zeros}
use lightnode.Abi.Types.{
  type_b32, type_ext_eth_compat_address, type_ext_btc_compat_utxo, type_ext_eth_compat_payload,
}
use lightnode.Abi.Contracts.{btc0_btc2eth}
use lightnode.Abi.Values.{
  Utxo, Payload, b32, btc_compat_utxo, eth_compat_address, eth_compat_payload,
}
use lightnode.Compat.V0.Codec.Args.{get}
use lightnode.Compat.V0.Hashes.{mint_tx_hash}
use lightnode.Compat.V0.Store.{V0Tx}
use lightnode.Compat.V0.Mint.{mint_selector, mint_input, v1_tx_from_v0_mint}
use lightnode.Compat.V0.Mint.Fields.{IsMint}
use lightnode.Compat.V0.Convert.{Views, tx_from_v1_tx}
use lightnode.Compat.V0.Convert.Back.{
  HasFields, Answers, Shows, Keeps, tx_from_v1_tx-v1_tx_from_v0_mint,
}
use lightnode.Tests.Chain.{simple_darknode, fields, same_fields}
use lightnode.Tests.Abi.{simple_padding}
use lightnode.Tests.Mapping.{plain_texts, simple_mints}

abbrev spent : Utxo ℤ
spent = record {
  tx_hash = 7 ∷ zeros 31;
  v_out = some (pos 1);
  script_pub_key = [];
  amount = none;
  g_hash = zeros 32;
}

abbrev sent : Payload
sent = record { abi = codes "[]"; value = 9 ∷ []; fn = codes "mint" }

abbrev mint_tx : V0Tx simple_padding
mint_tx = record {
  hash = zeros 32;
  to = btc0_btc2eth.address;
  ins =
      (record {
        name = codes "p";
        kind = type_ext_eth_compat_payload;
        value = some (eth_compat_payload sent);
      })
      ∷ (record {
        name = codes "token";
        kind = type_ext_eth_compat_address;
        value = some (eth_compat_address (zeros 20));
      })
      ∷ (record {
        name = codes "to";
        kind = type_ext_eth_compat_address;
        value = some (eth_compat_address (255 ∷ zeros 19));
      })
      ∷ (record { name = codes "n"; kind = type_b32; value = some (b32 (zeros 32)) })
      ∷ (record {
        name = codes "utxo";
        kind = type_ext_btc_compat_utxo;
        value = some (btc_compat_utxo spent);
      })
      ∷ [];
  autogen = [];
  outs = [];
}

mint_tx-IsMint : IsMint simple_padding mint_tx
unfolding get
mint_tx-IsMint = record {
  utxo = spent;
  index = 1;
  payload = sent;
  to = 255 ∷ zeros 19;
  nonce = zeros 32;
  has_utxo = refl;
  has_index = refl;
  has_payload = refl;
  has_to = refl;
  has_nonce = refl;
  index_fits = omega arith;
  hash_size = refl;
  to_size = refl;
  to_bytes = omega arith;
}

abbrev simple_views : Views
simple_views = record {
  is_burn_or_release = λ s. false;
  token_address = λ s. ok (zeros 20);
  new_address_from_hex = λ a. ok a;
  sighash_of = λ p a t s n. zeros 32;
}

simple_views-Answers : (s : String) → Answers simple_views s
simple_views-Answers s = record {
  token = zeros 20;
  token_lem = refl;
  token_size = refl;
  token_bytes = omega arith;
  checked = hex_encode;
  checked_lem = λ a h. refl;
}

fields-HasFields : (i : LockInput) → HasFields (fields i) i
unfolding lookup
fields-HasFields i = record {
  txid_lem = refl;
  txindex_lem = refl;
  amount_lem = refl;
  payload_lem = refl;
  phash_lem = refl;
  to_lem = refl;
  nonce_lem = refl;
  nhash_lem = refl;
  ghash_lem = refl;
}

module _ (s : String) (t : Typed) (u : Tx)
    (h : ◌≡◌ {A = Result String Tx} (simple_darknode.new_tx s t) (ok u)) where
  same_selector : u.selector ≡ s
  same_selector = ground arith

  same_input : u.input ≡ t
  same_input = ground arith

simple_darknode-Keeps : Keeps plain_texts simple_padding simple_views simple_darknode
simple_darknode-Keeps = record {
  encode-HasFields = λ i t h. subst (λ x. HasFields x i) (same_fields i t h) (fields-HasFields i);
  new_tx-selector = same_selector;
  new_tx-input = same_input;
}

abbrev minted : LockInput
minted = record {
  txid = reverse (7 ∷ zeros 31);
  txindex = 1;
  amount = 5;
  payload = 9 ∷ [];
  phash = 9 ∷ [];
  to = hex_encode (255 ∷ zeros 19);
  nonce = zeros 32;
  nhash = zeros 32;
  gpubkey = 4 ∷ [];
  ghash = zeros 32;
}

abbrev minted_tx : Tx
minted_tx = record {
  hash = 2 ∷ [];
  version = "1";
  selector = mint_selector plain_texts mint_tx.to;
  input = fields minted;
}

abbrev minted_hash : Bytes
minted_hash = mint_tx_hash plain_texts.naming minted_tx.selector (zeros 32) minted.txid 1

mint_run :
    v1_tx_from_v0_mint plain_texts simple_padding simple_darknode simple_mints mint_tx
    ≡ ok (minted_tx, minted_hash)
unfolding v1_tx_from_v0_mint mint_input get
mint_run = refl

tx_from_v1_tx-v1_tx_from_v0_mint_example :
    (w : V0Tx simple_padding) × (tx_from_v1_tx plain_texts simple_padding simple_views minted_tx
        none
      ≡ ok w)
    × Shows plain_texts simple_padding simple_views mint_tx-IsMint minted_hash w
tx_from_v1_tx-v1_tx_from_v0_mint_example =
    tx_from_v1_tx-v1_tx_from_v0_mint plain_texts simple_padding simple_views simple_darknode
      simple_mints mint_tx mint_tx-IsMint minted_tx minted_hash simple_darknode-Keeps refl
      (simple_views-Answers minted_tx.selector) mint_run
