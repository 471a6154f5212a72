-- ===== src/Startup/Environment.antt =====
-- cmd/lightnode/lightnode.go: the options that the environment sets. A variable that is not set is
-- an empty text, and a panic is the answer `none`.
use lightnode.Common.{
  ℕ, suc, ◌*◌, ◌-◌, ◌^◌, ◌%◌, String, Bool, true, false, ◌||◌, ◌&&◌, Option, none, some, List, [],
  ◌∷◌, if◌then◌else◌,
}
use lightnode.Common.Ascii.{codes, split}
use lightnode.Common.Dict.{Dict, insert}
use lightnode.Common.Eq.{number_eq, bytes_eq, ◌==◌}
use lightnode.Common.Int.{ℤ, pos, negsuc}
use lightnode.Common.Result.{Result, ok}
use lightnode.Darknode.{Bytes}
use lightnode.Abi.Decimal.{set_string}
use lightnode.Abi.Numbers.{signed}
use lightnode.Dispatcher.Requests.{in_int64}
use lightnode.Startup.{
  SupportedChain, arbitrum, avalanche, binance_smart_chain, bitcoin, bitcoin_cash, digibyte,
  dogecoin, ethereum, fantom, filecoin, goerli, polygon, solana, terra, zcash, Network, devnet,
  testnet, mainnet, localnet, ChainOptions, Packages, Options, default_options,
  with_bootstrap_addrs, with_cap, with_chains, with_client_timeout, with_confirmer_poll_rate,
  with_limiter_global_rates, with_limiter_ip_rates, with_limiter_ttl, with_max_batch_size,
  with_max_gateway_count, with_network, with_port, with_server_timeout, with_transaction_expiry,
  with_ttl, with_updater_poll_rate, with_watcher_max_block_advance, with_watcher_poll_rate,
}

-- os.Getenv
abbrev pub Environment : Type 0
Environment = String → Bytes

abbrev atoi : Bytes → Option ℤ
atoi text = in_int64 (set_string text)

abbrev or_zero : Option ℤ → ℤ
or_zero none = pos 0
or_zero (some value) = value

unfoldable pub parse_int : Bytes → ℤ
parse_int text = or_zero (atoi text)

-- The product with time.Second, an int64, wraps.
abbrev in_seconds : ℤ → ℤ
in_seconds (pos n) = signed 64 (n * 10 ^ 9 % 2 ^ 64)
in_seconds (negsuc n) = signed 64 ((2 ^ 64 - suc n * 10 ^ 9 % 2 ^ 64) % 2 ^ 64)

unfoldable pub parse_time : Bytes → ℤ
parse_time text = in_seconds (or_zero (atoi text))

abbrev pub uint64 : ℤ → ℕ
uint64 (pos n) = n
uint64 (negsuc n) = 2 ^ 64 - suc n

-- strings.Contains
unfoldable pub has_prefix : Bytes → Bytes → Bool
has_prefix [] text = true
has_prefix (c ∷ word) [] = false
has_prefix (c ∷ word) (d ∷ text) = (c == d) && has_prefix word text

unfoldable pub contains : Bytes → Bytes → Bool
unfolding has_prefix
contains word [] = has_prefix word []
contains word (d ∷ text) = has_prefix word (d ∷ text) || contains word text

unfoldable pub parse_network : Bytes → Network
unfolding contains
parse_network app_name =
    if contains (codes "devnet") app_name
    then devnet
    else if contains (codes "testnet") app_name
    then testnet
    else if contains (codes "mainnet") app_name
    then mainnet
    else localnet

module _ (packages : Packages) where
  open packages use {Address, Limit, decode_string, limit}

  abbrev on_address : Result String Address → Option (List Address) → Option (List Address)
  on_address (ok address) (some addresses) = some (address ∷ addresses)
  on_address _ _ = none

  unfoldable pub decode_all : List Bytes → Option (List Address)
  decode_all [] = some []
  decode_all (text ∷ texts) = on_address (decode_string text) (decode_all texts)

  unfoldable pub parse_addresses : Bytes → Option (List Address)
  unfolding decode_all
  parse_addresses text = decode_all (split 44 text)

  abbrev on_rate : Bytes → Option ℤ → Dict Bytes Limit → Option (Dict Bytes Limit)
  on_rate method none rates = none
  on_rate method (some parsed) rates = some (insert method (limit parsed) rates)

  abbrev on_pair : List Bytes → Dict Bytes Limit → Option (Dict Bytes Limit)
  on_pair (method ∷ (text ∷ [])) rates = on_rate method (atoi text) rates
  on_pair _ rates = none

  unfoldable pub read_rates : List Bytes → Dict Bytes Limit → Option (Dict Bytes Limit)
  read_rates [] rates = some rates
  read_rates (pair ∷ pairs) rates = elim (on_pair (split 58 pair) rates) [
    | none ↦ none
    | some more ↦ read_rates pairs more
  ]

  unfoldable pub parse_rates : Bytes → Option (Dict Bytes Limit)
  unfolding read_rates
  parse_rates text = read_rates (split 44 text) []

  -- One `if` of parseOptions: the text of the variable, and what it makes of the options where the
  -- text is not empty, unless reading it panics.
  abbrev pub Setting : Type 0
  Setting = Bytes × Option (Options packages → Options packages)

  abbrev pub read_to {ℓ} :
      {A : Type ℓ}
      → (A → Options packages → Options packages)
      → Option A
      → Option (Options packages → Options packages)
  read_to set none = none
  read_to set (some a) = some (set a)

  unfoldable pub settings : Environment → List Setting
  settings env =
      (env "PORT", some (with_port packages (env "PORT")))
      ∷ (env "CAP", some (with_cap packages (parse_int (env "CAP"))))
      ∷ (
        env "MAX_BATCH_SIZE",
        some (with_max_batch_size packages (parse_int (env "MAX_BATCH_SIZE"))),
      )
      ∷ (env "MAX_PAGE_SIZE", some (with_max_batch_size packages (parse_int (env "MAX_PAGE_SIZE"))))
      ∷ (
        env "MAX_GATEWAY_COUNT",
        some (with_max_gateway_count packages (parse_int (env "MAX_GATEWAY_COUNT"))),
      )
      ∷ (
        env "SERVER_TIMEOUT",
        some (with_server_timeout packages (parse_time (env "SERVER_TIMEOUT"))),
      )
      ∷ (
        env "CLIENT_TIMEOUT",
        some (with_client_timeout packages (parse_time (env "CLIENT_TIMEOUT"))),
      )
      ∷ (env "TTL", some (with_ttl packages (parse_time (env "TTL"))))
      ∷ (
        env "UPDATER_POLL_RATE",
        some (with_updater_poll_rate packages (parse_time (env "UPDATER_POLL_RATE"))),
      )
      ∷ (
        env "CONFIRMER_POLL_RATE",
        some (with_confirmer_poll_rate packages (parse_time (env "CONFIRMER_POLL_RATE"))),
      )
      ∷ (
        env "WATCHER_POLL_RATE",
        some (with_watcher_poll_rate packages (parse_time (env "WATCHER_POLL_RATE"))),
      )
      ∷ (
        env "WATCHER_MAX_BLOCK_ADVANCE",
        some (
            with_watcher_max_block_advance packages
              (uint64 (parse_int (env "WATCHER_MAX_BLOCK_ADVANCE")))),
      )
      ∷ (
        env "WATCHER_CONFIDENCE_INTERVAL",
        some (
            with_watcher_max_block_advance packages
              (uint64 (parse_int (env "WATCHER_CONFIDENCE_INTERVAL")))),
      )
      ∷ (env "EXPIRY", some (with_transaction_expiry packages (parse_time (env "EXPIRY"))))
      ∷ (
        env "ADDRESSES",
        read_to (with_bootstrap_addrs packages) (parse_addresses (env "ADDRESSES")),
      )
      ∷ (env "LIMITER_TTL", some (with_limiter_ttl packages (parse_time (env "LIMITER_TTL"))))
      ∷ (
        env "LIMITER_IP_RATE",
        read_to (with_limiter_ip_rates packages) (parse_rates (env "LIMITER_IP_RATE")),
      )
      ∷ (
        env "LIMITER_GLOBAL_RATE",
        read_to (with_limiter_global_rates packages) (parse_rates (env "LIMITER_GLOBAL_RATE")),
      )
      ∷ []

  unfoldable pub apply_settings : List Setting → Options packages → Option (Options packages)
  apply_settings [] o = some o
  apply_settings ((text, set) ∷ rest) o =
      if text == []
      then apply_settings rest o
      else elim set [ none ↦ none | some f ↦ apply_settings rest (f o) ]

  abbrev with_chain :
      SupportedChain
      → Bytes
      → Bytes
      → Dict String Bytes
      → List (SupportedChain × ChainOptions)
      → List (SupportedChain × ChainOptions)
  with_chain chain rpc protocol extras chains =
      if rpc == []
      then chains
      else (chain, record { rpc = rpc; protocol = protocol; extras = extras }) ∷ chains

  -- The map of the chains, as the list of its entries.
  unfoldable pub chains_of : Environment → List (SupportedChain × ChainOptions)
  chains_of env = with_chain arbitrum (env "RPC_ARBITRUM") (env "GATEWAY_ARBITRUM") [] (
      with_chain avalanche (env "RPC_AVALANCHE") (env "GATEWAY_AVALANCHE") [] (
        with_chain binance_smart_chain (env "RPC_BINANCE") (env "GATEWAY_BINANCE") [] (
          with_chain bitcoin (env "RPC_BITCOIN") [] [] (
            with_chain bitcoin_cash (env "RPC_BITCOIN_CASH") [] [] (
              with_chain digibyte (env "RPC_DIGIBYTE") [] [] (
                with_chain dogecoin (env "RPC_DOGECOIN") [] [] (
                  with_chain ethereum (env "RPC_ETHEREUM") (env "GATEWAY_ETHEREUM") [] (
                    with_chain fantom (env "RPC_FANTOM") (env "GATEWAY_FANTOM") [] (
                      with_chain filecoin (env "RPC_FILECOIN") []
                        (("authToken", env "EXTRAS_FILECOIN_AUTH") ∷ [])
                        (with_chain goerli (env "RPC_GOERLI") (env "GATEWAY_GOERLI") [] (
                          with_chain polygon (env "RPC_POLYGON") (env "GATEWAY_POLYGON") [] (
                            with_chain solana (env "RPC_SOLANA") (env "GATEWAY_SOLANA") [] (
                              with_chain terra (env "RPC_TERRA") [] []
                                (with_chain zcash (env "RPC_ZCASH") [] [] []))))))))))))))

  abbrev pub on_settings : Environment → Option (Options packages) → Option (Options packages)
  on_settings env none = none
  on_settings env (some o) = some (with_chains packages (chains_of env) o)

  unfoldable pub parse_options : Environment → Option (Options packages)
  unfolding default_options settings apply_settings chains_of
  parse_options env = on_settings env (
      apply_settings (settings env)
        (with_network packages (parse_network (env "HEROKU_APP_NAME")) (default_options packages)))
