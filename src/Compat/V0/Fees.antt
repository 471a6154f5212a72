-- ===== src/Compat/V0/Fees.antt =====
-- compat/v0/compat.go: the responses to ren_queryFees and ren_queryShards, made of the state of the
-- chains and of the system.
use lightnode.Common.{
  ℕ, ◌*◌, ◌%◌, ◌^◌, ◌<◌, String, ◌≡◌, true, Bool, Option, none, some, List, [], ◌∷◌, arith,
}
use lightnode.Common.Dict.{Dict, lookup}
use lightnode.Common.Eq.{string_eq}
use lightnode.Common.Int.{ℤ, pos}
use lightnode.Common.Result.{Result, ok, err, ◌>>=◌}
use lightnode.Abi.Numbers.{signed}
use lightnode.Compat.V1.State.{XState, Chain, bitcoin, zcash, bitcoin_cash}

pub record MintAndBurnFees : Type 0 where
  pub mint : ℤ
  pub burn : ℤ

pub record Fees : Type 0 where
  pub lock : ℤ
  pub release : ℤ
  pub ethereum : MintAndBurnFees

pub record ResponseQueryFees : Type 0 where
  pub btc : Fees
  pub zec : Fees
  pub bch : Fees

-- int64(cap.Uint64() * limit.Uint64()): the product wraps, and is read as signed.
unfoldable pub underlying : {V : Type 0} → XState V → ℤ
underlying x = signed 64 ((x.gas_cap % 2 ^ 64 * (x.gas_limit % 2 ^ 64)) % 2 ^ 64)

abbrev pub fees_of : {V : Type 0} → XState V → Fees
fees_of x = record {
  lock = underlying x;
  release = underlying x;
  ethereum = record { mint = pos 25; burn = pos 10 };
}

module _ (native_asset : Chain → String) {V : Type 0} where
  abbrev or_missing : String → Option (XState V) → Result String (XState V)
  or_missing message none = err message
  or_missing message (some x) = ok x

  abbrev state_of : Chain → String → Dict String (XState V) → Result String (XState V)
  state_of chain message state = or_missing message (lookup (native_asset chain) state)

  unfoldable pub query_fees_response_from_state :
      Dict String (XState V) → Result String ResponseQueryFees
  query_fees_response_from_state state = do
    bitcoin_s ← state_of bitcoin "Missing Bitcoin State" state
    zcash_s ← state_of zcash "Missing ZCash State" state
    bitcoin_cash_s ← state_of bitcoin_cash "Missing BitcoinCash State" state
    ok record { btc = fees_of bitcoin_s; zec = fees_of zcash_s; bch = fees_of bitcoin_cash_s }

pub record Gateway : Type 0 where
  pub asset : String
  pub hosts : List String
  pub locked : String
  pub origin : String
  pub pub_key : String

pub record CompatShard : Type 0 where
  pub darknodes_root_hash : String
  pub gateways : List Gateway
  pub gateways_root_hash : String
  pub primary : Bool
  pub pub_key : String

abbrev gateway_of : String → String → String → Gateway
gateway_of key asset origin = record {
  asset = asset;
  hosts = "Ethereum" ∷ [];
  locked = "0";
  origin = origin;
  pub_key = key;
}

-- The shards, of the public keys of the primary shards: the index of the first panics where there
-- is none.
unfoldable pub shards_response_from_system_state : List String → Option (List CompatShard)
shards_response_from_system_state [] = none
shards_response_from_system_state (key ∷ keys) = some (
    record {
      darknodes_root_hash = "AAAAAAAAAAAAAAAAAAAAAAAAAAAAAAAAAAAAAAAAAAA";
      gateways =
          gateway_of key "BTC" "Bitcoin"
          ∷ gateway_of key "ZEC" "Zcash"
          ∷ gateway_of key "BCH" "BitcoinCash"
          ∷ [];
      gateways_root_hash = "AAAAAAAAAAAAAAAAAAAAAAAAAAAAAAAAAAAAAAAAAAA";
      primary = true;
      pub_key = key;
    }
    ∷ [])

small_mod : (n : ℕ) → n < 2 ^ 64 → n % 2 ^ 64 ≡ n
small_mod n h = omega arith

small_signed : (n : ℕ) → n < 2 ^ 63 → signed 64 (n % 2 ^ 64) ≡ pos n
small_signed n h = ground arith

-- The fee is the product of the cap and the limit where it fits an int64.
pub underlying_exact :
    {V : Type 0} (x : XState V)
    → x.gas_cap < 2 ^ 64
    → x.gas_limit < 2 ^ 64
    → x.gas_cap * x.gas_limit < 2 ^ 63
    → underlying x ≡ pos (x.gas_cap * x.gas_limit)
unfolding underlying
underlying_exact x cap limit product =
    rw (small_mod x.gas_cap cap, small_mod x.gas_limit limit)
      (small_signed (x.gas_cap * x.gas_limit) product)
