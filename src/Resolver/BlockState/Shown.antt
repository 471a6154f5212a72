-- ===== src/Resolver/BlockState/Shown.antt =====
-- What ren_queryState shows of each chain, by the entries of the block state.
use lightnode.Common.{String, ◌≡◌, none, ◌⊎◌}
use lightnode.Common.Dict.{Dict, lookup}
use lightnode.Common.Eq.{string_eq}
use lightnode.Common.Result.{Result, ok}
use lightnode.Compat.V1.State.{
  Chain, bitcoin, bitcoin_cash, digibyte, dogecoin, filecoin, terra, zcash, XState, UtxoState,
  AccountState, State, no_utxo_state, no_account_state, Reader, utxo_of_shards, account_of_shards,
}
use lightnode.Resolver.BlockState.Collected.{Has}

module _ (reader : Reader) (state : Dict String reader.Value) where
  open reader use {Value, native_asset}

  -- What is shown of a chain: what is made of the first shard of its asset, which the block state
  -- has, or the zero value where the block state does not have the asset.
  abbrev pub Shown : {P : Type 0} → P → (XState Value → Result String P) → String → P → Type 0
  Shown missing make asset part =
      ((lookup asset state ≡ none) × (part ≡ missing))
      ⊎ ((x : XState Value) × (Has reader state asset x) × (make x ≡ ok part))

  abbrev pub ShownUtxo : Chain → UtxoState → Type 0
  ShownUtxo chain part =
      Shown no_utxo_state (λ x. utxo_of_shards reader chain x x.shards) (native_asset chain) part

  abbrev pub ShownAccount : Chain → AccountState → Type 0
  ShownAccount chain part =
      Shown no_account_state (λ x. account_of_shards reader chain x x.shards) (native_asset chain)
        part

  pub record AllShown (r : State) : Type 0 where
    pub btc : ShownUtxo bitcoin r.bitcoin_state
    pub zec : ShownUtxo zcash r.zcash_state
    pub bch : ShownUtxo bitcoin_cash r.bitcoincash_state
    pub dgb : ShownUtxo digibyte r.digibyte_state
    pub doge : ShownUtxo dogecoin r.dogecoin_state
    pub luna : ShownAccount terra r.terra_state
    pub fil : ShownAccount filecoin r.filecoin_state

  -- The native assets of the seven chains.
  pub record Named : Type 0 where
    pub btc_name : native_asset bitcoin ≡ "BTC"
    pub zec_name : native_asset zcash ≡ "ZEC"
    pub bch_name : native_asset bitcoin_cash ≡ "BCH"
    pub dgb_name : native_asset digibyte ≡ "DGB"
    pub doge_name : native_asset dogecoin ≡ "DOGE"
    pub luna_name : native_asset terra ≡ "LUNA"
    pub fil_name : native_asset filecoin ≡ "FIL"
