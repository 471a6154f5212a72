-- ===== src/Tests/RateLimiter.antt =====
-- The rate limiter with buckets that are never refilled.
use lightnode.Common.{
  ℕ, zero, suc, ◌*◌, ◌^◌, ◌≤◌, String, ◌≡◌, ◌≢◌, refl, Bool, true, false, none, some, [], ◌∷◌,
  arith, length,
}
use lightnode.Common.Dict.{lookup, insert, delete}
use lightnode.Common.Eq.{string_eq, ==_iff}
use lightnode.RateLimiter.{
  Rates, LightnodeRateLimiter, default_rate_limit_conf, new_rate_limit_conf, new_limiters,
  new_rate_limiter, configured, ip_bucket, allow_ip, allow_global, allow, prune_entries, prune,
}
use lightnode.RateLimiter.Clients.{Reachable, started, answered, requests_answered}
use lightnode.RateLimiter.Isolation.{other_address_kept}

abbrev take_token : ℕ → Bool × ℕ
take_token zero = (false, zero)
take_token (suc n) = (true, n)

abbrev simple_rates : Rates
simple_rates = record {
  Limit = ℕ;
  Limiter = ℕ;
  limit = λ n. n;
  new_limiter = λ n. n;
  allow = λ now n. take_token n;
}

abbrev first_limiter : LightnodeRateLimiter simple_rates
first_limiter = new_rate_limiter simple_rates (default_rate_limit_conf simple_rates)

-- After one request of an address.
abbrev second_limiter : LightnodeRateLimiter simple_rates
second_limiter = record first_limiter {
  global_limit = ("fallback", 999) ∷ [];
  ip_limiters = ("fallback", ("10.0.0.1", 9) ∷ []) ∷ [];
  ip_last_seen = ("10.0.0.1", 5) ∷ [];
}

first_request :
    allow simple_rates 5 "ren_queryTx" "10.0.0.1" first_limiter ≡ some (true, second_limiter)
unfolding allow allow_global allow_ip ip_bucket configured lookup insert new_rate_limiter
    new_limiters default_rate_limit_conf new_rate_limit_conf
first_request = refl

second_limiter-Reachable :
    Reachable simple_rates (default_rate_limit_conf simple_rates) second_limiter
second_limiter-Reachable =
    answered 5 "ren_queryTx" "10.0.0.1" true first_limiter second_limiter started first_request

has_fallback : lookup "fallback" (default_rate_limit_conf simple_rates).global_method_rate ≢ none
unfolding lookup default_rate_limit_conf new_rate_limit_conf
has_fallback h = ground (arith, h)

requests_answered_example : allow simple_rates 6 "ren_submitTx" "10.0.0.2" second_limiter ≢ none
requests_answered_example =
    requests_answered simple_rates (default_rate_limit_conf simple_rates) 6 "ren_submitTx"
      "10.0.0.2" second_limiter has_fallback second_limiter-Reachable

first_room : length first_limiter.ip_limiters ≤ first_limiter.max_clients
unfolding new_rate_limiter default_rate_limit_conf new_rate_limit_conf
first_room = omega arith

addresses_differ : ◌≢◌ {A = String} "10.0.0.1" "10.0.0.2"
addresses_differ = ground (arith, ==_iff {T = String} "10.0.0.1" "10.0.0.2")

other_address_kept_example :
    ip_bucket simple_rates "fallback" "10.0.0.2" second_limiter
    ≡ ip_bucket simple_rates "fallback" "10.0.0.2" first_limiter
other_address_kept_example =
    other_address_kept simple_rates 5 "ren_queryTx" "10.0.0.1" "fallback" "10.0.0.2" true
      first_limiter second_limiter addresses_differ first_room first_request

first_bucket :
    lookup
      (configured simple_rates "ren_queryTx" first_limiter.conf.global_method_rate)
      first_limiter.global_limit
    ≡ some 1000
unfolding configured lookup insert new_rate_limiter new_limiters default_rate_limit_conf
    new_rate_limit_conf
first_bucket = refl

unseen : lookup "fallback" second_limiter.ip_last_seen ≡ none
unfolding lookup
unseen = refl

-- The address itself is forgotten by then.
pruned_run :
    lookup "10.0.0.1" (prune simple_rates (10 * 10 ^ 12) second_limiter).1.ip_last_seen ≡ none
unfolding prune prune_entries lookup delete new_rate_limiter default_rate_limit_conf
    new_rate_limit_conf
pruned_run = refl
