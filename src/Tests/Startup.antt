-- ===== src/Tests/Startup.antt =====
-- An environment that sets the page size, the confidence interval and the global rates.
use lightnode.Common.{
  ℕ, String, ◌≡◌, ◌↔◌, ◌≢◌, refl, Option, none, some, [], ◌∷◌, arith, if◌then◌else◌,
}
use lightnode.Common.Ascii.{codes, split}
use lightnode.Common.Dict.{insert}
use lightnode.Common.Eq.{string_eq, bytes_eq, ◌==◌}
use lightnode.Common.Int.{ℤ, pos}
use lightnode.Common.Result.{Result, ok, err}
use lightnode.Darknode.{Bytes}
use lightnode.Abi.Decimal.{set_string, natural, scan_digits, decimal, digits}
use lightnode.Dispatcher.Requests.{http_url, next_port}
use lightnode.Startup.{Packages, Options, default_options, testnet}
use lightnode.Startup.Environment.{
  Environment, parse_int, parse_network, contains, has_prefix, parse_rates, read_rates, settings,
  apply_settings, parse_options,
}
use lightnode.Startup.Settings.{Misread, parse_options-Misread}
use lightnode.Startup.Bootstrap.{
  addr_to_url, get_config_from_bootstrap, Answers, get_config_from_bootstrap_iff,
}

abbrev simple_packages : Packages
simple_packages = record {
  PubKey = ℕ;
  Address = Bytes;
  Limit = ℤ;
  decode_string = λ b. ok b;
  limit = λ z. z;
}

abbrev simple_env : Environment
simple_env name =
    if name == "MAX_PAGE_SIZE"
    then codes "20"
    else if name == "WATCHER_CONFIDENCE_INTERVAL"
    then codes "8"
    else if name == "HEROKU_APP_NAME"
    then codes "a-testnet-b"
    else if name == "LIMITER_GLOBAL_RATE"
    then codes "fallback:5"
    else []

abbrev read : Option (Options simple_packages) → Options simple_packages
read none = default_options simple_packages
read (some o) = o

abbrev simple_options : Options simple_packages
simple_options = read (parse_options simple_packages simple_env)

simple_run : parse_options simple_packages simple_env ≡ some simple_options
unfolding parse_options settings apply_settings parse_rates read_rates split set_string natural
    scan_digits insert
simple_run = refl

page_given : simple_env "MAX_PAGE_SIZE" ≢ []
page_given h = absurd (ground (arith, h))

interval_given : simple_env "WATCHER_CONFIDENCE_INTERVAL" ≢ []
interval_given h = absurd (ground (arith, h))

parse_options-Misread_example : Misread simple_packages simple_env simple_options
parse_options-Misread_example =
    parse_options-Misread simple_packages simple_env simple_options page_given interval_given
      simple_run

parse_int_run : parse_int (codes "20") ≡ pos 20
unfolding parse_int set_string natural scan_digits
parse_int_run = refl

parse_network_run : parse_network (codes "a-testnet-b") ≡ testnet
unfolding parse_network contains has_prefix
parse_network_run = refl

abbrev answers : Bytes → Result String ℕ
answers url = if url == [] then err "no URL" else ok 3

-- Of two nodes, the second answers.
second_run : get_config_from_bootstrap answers ((1 ∷ []) ∷ codes "host:1" ∷ []) ≡ ok 3
unfolding get_config_from_bootstrap addr_to_url http_url split set_string natural scan_digits
    next_port decimal digits
second_run = refl

get_config_from_bootstrap_iff_example :
    (get_config_from_bootstrap answers ((1 ∷ []) ∷ codes "host:1" ∷ []) ≡ ok 3)
    ↔ Answers answers ((1 ∷ []) ∷ codes "host:1" ∷ []) 3
get_config_from_bootstrap_iff_example =
    get_config_from_bootstrap_iff answers ((1 ∷ []) ∷ codes "host:1" ∷ []) 3
