-- ===== src/Tests/BlockState.antt =====
-- The block state of three assets.
use lightnode.Common.{ℕ, String, ◌≡◌, ◌↔◌, refl, [], ◌∷◌}
use lightnode.Common.Dict.{Dict, lookup, insert}
use lightnode.Common.Result.{ok}
use lightnode.Compat.V1.State.{
  Chain, bitcoin, bitcoin_cash, digibyte, dogecoin, filecoin, terra, zcash, XState, Reader, State,
  UtxoState, no_utxo_state, no_account_state, shard_address, utxo_state, account_state,
  query_state_response_from_state,
}
use lightnode.Compat.V0.Fees.{ResponseQueryFees, fees_of, query_fees_response_from_state}
use lightnode.Resolver.BlockState.{collect_states, fees_of_block_state, state_of_block_state}
use lightnode.Resolver.BlockState.Legacy.{Answered, fees_of_block_state_iff}

abbrev names : Chain → String
names bitcoin = "BTC"
names bitcoin_cash = "BCH"
names digibyte = "DGB"
names dogecoin = "DOGE"
names filecoin = "FIL"
names terra = "LUNA"
names zcash = "ZEC"

abbrev capped_state : ℕ → XState ℕ
capped_state n = record {
  dust_amount = 1;
  gas_cap = n;
  gas_limit = 2;
  gas_price = 1;
  latest_height = 9;
  minimum_amount = 1;
  shards = [];
}

abbrev simple_reader : Reader
simple_reader = record {
  Value = ℕ;
  decode_xstate = λ v. ok (capped_state v);
  decode_utxo = λ v. ok (record { hash = []; index = 0; pub_key_script = []; value = v });
  decode_account = λ v. ok (record { nonce = v; gnonces = [] });
  pub_key_of = λ b. ok b;
  address_from_pub_key = λ c b. ok "address";
  native_asset = names;
  number_text = λ n. "1";
  bytes_text = λ b. "b";
}

abbrev three_assets : Dict String ℕ
three_assets = ("BTC", 3) ∷ ("ZEC", 4) ∷ ("BCH", 5) ∷ []

abbrev three_fees : ResponseQueryFees
three_fees = record {
  btc = fees_of (capped_state 3);
  zec = fees_of (capped_state 4);
  bch = fees_of (capped_state 5);
}

fees_of_block_state_iff_example :
    (fees_of_block_state simple_reader three_assets ≡ ok three_fees)
    ↔ Answered simple_reader three_assets three_fees
fees_of_block_state_iff_example =
    fees_of_block_state_iff simple_reader three_assets refl refl refl three_fees

fees_run : fees_of_block_state simple_reader three_assets ≡ ok three_fees
unfolding fees_of_block_state collect_states lookup insert query_fees_response_from_state
fees_run = refl

abbrev sharded : ℕ → XState ℕ
sharded n = record (capped_state n) { shards = (n, 7 ∷ []) ∷ (n, []) ∷ [] }

abbrev shard_reader : Reader
shard_reader = record simple_reader { decode_xstate = λ v. ok (sharded v) }

abbrev shown : UtxoState
shown = record {
  address = "address";
  dust = "1";
  gascap = "1";
  gaslimit = "1";
  gasprice = "1";
  latestchainheight = "1";
  minimumamount = "1";
  output = record { hash = "b"; index = "1"; pubkeyscript = "b"; value = "1" };
  pubkey = "b";
}

-- Three chains are shown.
abbrev three_shown : State
three_shown = record {
  bitcoin_state = shown;
  bitcoincash_state = shown;
  digibyte_state = no_utxo_state;
  dogecoin_state = no_utxo_state;
  filecoin_state = no_account_state;
  terra_state = no_account_state;
  zcash_state = shown;
}

shown_run : state_of_block_state shard_reader three_assets ≡ ok three_shown
unfolding state_of_block_state collect_states lookup insert query_state_response_from_state
    utxo_state account_state shard_address
shown_run = refl
