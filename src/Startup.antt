-- ===== src/Startup.antt =====
-- opt.go: the options of the lightnode and their defaults. Durations are in nanoseconds; the numbers
-- of type int are integers.
pub mod Environment
pub mod Settings
pub mod Bootstrap
use lightnode.Common.{ℕ, ◌*◌, ◌^◌, String, Option, none, some, List, [], ◌∷◌}
use lightnode.Common.Ascii.{codes}
use lightnode.Common.Dict.{Dict}
use lightnode.Common.Int.{ℤ, pos}
use lightnode.Common.Result.{Result}
use lightnode.Darknode.{Bytes}

-- The chains that have a variable for their node.
pub data SupportedChain : Type 0 where
  arbitrum avalanche binance_smart_chain bitcoin bitcoin_cash digibyte dogecoin ethereum fantom
        filecoin goerli polygon solana terra zcash :
      SupportedChain

-- multichain.Network
pub data Network : Type 0 where
  unset devnet testnet mainnet localnet : Network

-- binding.ChainOptions, as far as the environment sets them.
pub record ChainOptions : Type 0 where
  pub rpc : Bytes
  pub protocol : Bytes
  pub extras : Dict String Bytes

-- The types of other packages, wire.DecodeString, and the conversion to rate.Limit.
pub record Packages : Type 1 where
  pub PubKey : Type 0
  pub Address : Type 0
  pub Limit : Type 0
  pub decode_string : Bytes → Result String Address
  pub limit : ℤ → Limit

module _ (packages : Packages) where
  open packages use {PubKey, Address, Limit, limit}

  pub record Options : Type 0 where
    pub network : Network
    pub dist_pub_key : Option PubKey
    pub port : Bytes
    pub cap : ℤ
    pub max_batch_size : ℤ
    pub max_page_size : ℤ
    pub max_gateway_count : ℤ
    pub server_timeout : ℤ
    pub client_timeout : ℤ
    pub ttl : ℤ
    pub updater_poll_rate : ℤ
    pub confirmer_poll_rate : ℤ
    pub watcher_poll_rate : ℤ
    pub watcher_max_block_advance : ℕ
    pub watcher_confidence_interval : ℕ
    pub transaction_expiry : ℤ
    pub bootstrap_addrs : List Address
    pub chains : List (SupportedChain × ChainOptions)
    pub whitelist : List Bytes
    pub limiter_global_rates : Dict Bytes Limit
    pub limiter_ip_rates : Dict Bytes Limit
    pub limiter_ttl : ℤ
    pub limiter_max_clients : ℤ

  abbrev pub seconds : ℕ → ℤ
  seconds n = pos (n * 10 ^ 9)

  unfoldable pub default_options : Options
  default_options = record {
    network = unset;
    dist_pub_key = none;
    port = codes "5000";
    cap = pos 128;
    max_batch_size = pos 10;
    max_page_size = pos 10;
    max_gateway_count = pos 10000;
    server_timeout = seconds 15;
    client_timeout = seconds 15;
    ttl = seconds 3;
    updater_poll_rate = seconds 300;
    confirmer_poll_rate = seconds 30;
    watcher_poll_rate = seconds 15;
    watcher_max_block_advance = 1000;
    watcher_confidence_interval = 6;
    transaction_expiry = seconds 2592000;
    bootstrap_addrs = [];
    chains = [];
    whitelist = [];
    limiter_global_rates = (codes "fallback", limit (pos 1000)) ∷ [];
    limiter_ip_rates = (codes "fallback", limit (pos 10)) ∷ [];
    limiter_ttl = seconds 60;
    limiter_max_clients = pos 1000;
  }

  abbrev pub with_network : Network → Options → Options
  with_network v opts = record opts { network = v }

  abbrev pub with_dist_pub_key : Option PubKey → Options → Options
  with_dist_pub_key v opts = record opts { dist_pub_key = v }

  abbrev pub with_port : Bytes → Options → Options
  with_port v opts = record opts { port = v }

  abbrev pub with_cap : ℤ → Options → Options
  with_cap v opts = record opts { cap = v }

  abbrev pub with_max_batch_size : ℤ → Options → Options
  with_max_batch_size v opts = record opts { max_batch_size = v }

  abbrev pub with_max_page_size : ℤ → Options → Options
  with_max_page_size v opts = record opts { max_page_size = v }

  abbrev pub with_server_timeout : ℤ → Options → Options
  with_server_timeout v opts = record opts { server_timeout = v }

  abbrev pub with_client_timeout : ℤ → Options → Options
  with_client_timeout v opts = record opts { client_timeout = v }

  abbrev pub with_ttl : ℤ → Options → Options
  with_ttl v opts = record opts { ttl = v }

  abbrev pub with_updater_poll_rate : ℤ → Options → Options
  with_updater_poll_rate v opts = record opts { updater_poll_rate = v }

  abbrev pub with_confirmer_poll_rate : ℤ → Options → Options
  with_confirmer_poll_rate v opts = record opts { confirmer_poll_rate = v }

  abbrev pub with_watcher_poll_rate : ℤ → Options → Options
  with_watcher_poll_rate v opts = record opts { watcher_poll_rate = v }

  abbrev pub with_watcher_max_block_advance : ℕ → Options → Options
  with_watcher_max_block_advance v opts = record opts { watcher_max_block_advance = v }

  abbrev pub with_watcher_confidence_interval : ℕ → Options → Options
  with_watcher_confidence_interval v opts = record opts { watcher_confidence_interval = v }

  abbrev pub with_transaction_expiry : ℤ → Options → Options
  with_transaction_expiry v opts = record opts { transaction_expiry = v }

  abbrev pub with_bootstrap_addrs : List Address → Options → Options
  with_bootstrap_addrs v opts = record opts { bootstrap_addrs = v }

  abbrev pub with_chains : List (SupportedChain × ChainOptions) → Options → Options
  with_chains v opts = record opts { chains = v }

  abbrev pub with_whitelist : List Bytes → Options → Options
  with_whitelist v opts = record opts { whitelist = v }

  abbrev pub with_limiter_global_rates : Dict Bytes Limit → Options → Options
  with_limiter_global_rates v opts = record opts { limiter_global_rates = v }

  abbrev pub with_limiter_ip_rates : Dict Bytes Limit → Options → Options
  with_limiter_ip_rates v opts = record opts { limiter_ip_rates = v }

  abbrev pub with_limiter_ttl : ℤ → Options → Options
  with_limiter_ttl v opts = record opts { limiter_ttl = v }

  abbrev pub with_limiter_max_clients : ℤ → Options → Options
  with_limiter_max_clients v opts = record opts { limiter_max_clients = v }

  abbrev pub with_max_gateway_count : ℤ → Options → Options
  with_max_gateway_count v opts = record opts { max_gateway_count = v }
