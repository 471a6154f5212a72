-- ===== src/Compat/V1/State.antt =====
-- compat/v1/compat.go: the state of the chains as ren_queryState answers it, for each chain from the
-- first shard of its asset. The errors are those of the shards and of the decoders, without the text
-- that the code writes before the latter.
use lightnode.Common.{ℕ, String, Option, none, some, List, [], ◌∷◌, map}
use lightnode.Common.Dict.{Dict, lookup}
use lightnode.Common.Eq.{string_eq}
use lightnode.Common.Result.{Result, ok, err, ◌>>=◌}
use lightnode.Darknode.{Bytes}

-- The chains that the response has a field for.
pub data Chain : Type 0 where
  bitcoin bitcoin_cash digibyte dogecoin filecoin terra zcash : Chain

abbrev pub no_shards : Chain → String
no_shards bitcoin = "No Bitcoin Shards"
no_shards bitcoin_cash = "No BitcoinCash Shards"
no_shards digibyte = "No Digibyte Shards"
no_shards dogecoin = "No Dogecoin Shards"
no_shards filecoin = "No Filecoin Shards"
no_shards terra = "No Terra Shards"
no_shards zcash = "No Zcash Shards"

-- engine.XStateShardUTXO and engine.XStateShardAccount
pub record UtxoShard : Type 0 where
  pub hash : Bytes
  pub index : ℕ
  pub pub_key_script : Bytes
  pub value : ℕ

pub record AccountShard : Type 0 where
  pub nonce : ℕ
  pub gnonces : List (Bytes × ℕ)

-- engine.XState, with a shard's state as a value of the package `pack`.
pub record XState (V : Type 0) : Type 0 where
  pub dust_amount : ℕ
  pub gas_cap : ℕ
  pub gas_limit : ℕ
  pub gas_price : ℕ
  pub latest_height : ℕ
  pub minimum_amount : ℕ
  pub shards : List (V × Bytes)

pub record Output : Type 0 where
  pub hash : String
  pub index : String
  pub pubkeyscript : String
  pub value : String

pub record UtxoState : Type 0 where
  pub address : String
  pub dust : String
  pub gascap : String
  pub gaslimit : String
  pub gasprice : String
  pub latestchainheight : String
  pub minimumamount : String
  pub output : Output
  pub pubkey : String

pub record AccountState : Type 0 where
  pub address : String
  pub gascap : String
  pub gaslimit : String
  pub gasprice : String
  pub gnonces : List (String × String)
  pub latestchainheight : String
  pub minimumamount : String
  pub nonce : String
  pub pubkey : String

pub record State : Type 0 where
  pub bitcoin_state : UtxoState
  pub bitcoincash_state : UtxoState
  pub digibyte_state : UtxoState
  pub dogecoin_state : UtxoState
  pub filecoin_state : AccountState
  pub terra_state : AccountState
  pub zcash_state : UtxoState

-- The zero values, which are left out of the JSON or stand for a missing chain.
abbrev pub no_utxo_state : UtxoState
no_utxo_state = record {
  address = "";
  dust = "";
  gascap = "";
  gaslimit = "";
  gasprice = "";
  latestchainheight = "";
  minimumamount = "";
  output = record { hash = ""; index = ""; pubkeyscript = ""; value = "" };
  pubkey = "";
}

abbrev pub no_account_state : AccountState
no_account_state = record {
  address = "";
  gascap = "";
  gaslimit = "";
  gasprice = "";
  gnonces = [];
  latestchainheight = "";
  minimumamount = "";
  nonce = "";
  pubkey = "";
}

-- The values of a state and their decoders, the public key of bytes, the address of a key on a
-- chain, the native assets, and the texts of numbers and bytes.
pub record Reader : Type 1 where
  pub Value : Type 0
  pub decode_xstate : Value → Result String (XState Value)
  pub decode_utxo : Value → Result String UtxoShard
  pub decode_account : Value → Result String AccountShard
  pub pub_key_of : Bytes → Result String Bytes
  pub address_from_pub_key : Chain → Bytes → Result String String
  pub native_asset : Chain → String
  pub number_text : ℕ → String
  pub bytes_text : Bytes → String

module _ (reader : Reader) where
  open reader use {
    Value, decode_utxo, decode_account, pub_key_of, address_from_pub_key, native_asset, number_text,
    bytes_text,
  }

  -- The address of the public key of a shard.
  unfoldable pub shard_address : Chain → Bytes → Result String String
  shard_address chain key = do pub_key ← pub_key_of key; address_from_pub_key chain pub_key

  abbrev pub utxo_of_shards : Chain → XState Value → List (Value × Bytes) → Result String UtxoState
  utxo_of_shards chain x [] = err (no_shards chain)
  utxo_of_shards chain x ((state, key) ∷ shards) = do
    output ← decode_utxo state
    address ← shard_address chain key
    ok record {
      address = address;
      dust = number_text x.dust_amount;
      gascap = number_text x.gas_cap;
      gaslimit = number_text x.gas_limit;
      gasprice = number_text x.gas_price;
      latestchainheight = number_text x.latest_height;
      minimumamount = number_text x.minimum_amount;
      output = record {
        hash = bytes_text output.hash;
        index = number_text output.index;
        pubkeyscript = bytes_text output.pub_key_script;
        value = number_text output.value;
      };
      pubkey = bytes_text key;
    }

  abbrev pub utxo_of : Chain → Option (XState Value) → Result String UtxoState
  utxo_of chain none = ok no_utxo_state
  utxo_of chain (some x) = utxo_of_shards chain x x.shards

  -- The part of a chain of UTXOs, and of one of accounts.
  unfoldable pub utxo_state : Chain → Dict String (XState Value) → Result String UtxoState
  unfolding shard_address
  utxo_state chain state = utxo_of chain (lookup (native_asset chain) state)

  abbrev pub account_of_shards :
      Chain → XState Value → List (Value × Bytes) → Result String AccountState
  account_of_shards chain x [] = err (no_shards chain)
  account_of_shards chain x ((state, key) ∷ shards) = do
    account ← decode_account state
    address ← shard_address chain key
    ok record {
      address = address;
      gascap = number_text x.gas_cap;
      gaslimit = number_text x.gas_limit;
      gasprice = number_text x.gas_price;
      gnonces = map (λ (g : Bytes × ℕ). (bytes_text g.0, number_text g.1)) account.gnonces;
      latestchainheight = number_text x.latest_height;
      minimumamount = number_text x.minimum_amount;
      nonce = number_text account.nonce;
      pubkey = bytes_text key;
    }

  abbrev pub account_of : Chain → Option (XState Value) → Result String AccountState
  account_of chain none = ok no_account_state
  account_of chain (some x) = account_of_shards chain x x.shards

  unfoldable pub account_state : Chain → Dict String (XState Value) → Result String AccountState
  unfolding shard_address
  account_state chain state = account_of chain (lookup (native_asset chain) state)

  unfoldable pub query_state_response_from_state : Dict String (XState Value) → Result String State
  unfolding utxo_state account_state
  query_state_response_from_state state = do
    btc ← utxo_state bitcoin state
    zec ← utxo_state zcash state
    bch ← utxo_state bitcoin_cash state
    dgb ← utxo_state digibyte state
    doge ← utxo_state dogecoin state
    luna ← account_state terra state
    fil ← account_state filecoin state
    ok record {
      bitcoin_state = btc;
      bitcoincash_state = bch;
      digibyte_state = dgb;
      dogecoin_state = doge;
      filecoin_state = fil;
      terra_state = luna;
      zcash_state = zec;
    }
