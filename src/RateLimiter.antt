-- ===== src/RateLimiter.antt =====
-- resolver/rate_limiter.go: the limits on requests, per method and per method and IP address. The
-- token buckets of golang.org/x/time/rate are an interface, and a time is a number of nanoseconds.
-- A call through a nil pointer of the code is `none`: the panic leaves the state as it is.
pub mod Clients
pub mod Isolation
pub mod Pruning
use lightnode.Common.{
  ℕ, ◌+◌, ◌-◌, ◌*◌, ◌^◌, String, ◌≡◌, Bool, true, false, Option, none, some, List, [], ◌∷◌, ltb,
  length, if◌then◌else◌,
}
use lightnode.Common.Dict.{Dict, delete, lookup, insert}
use lightnode.Common.Eq.{string_eq}

-- rate.Limit and rate.Limiter: `new_limiter r` is NewLimiter(r, int(r)), and `allow` is Allow at a
-- time, with the bucket that is left.
pub record Rates : Type 1 where
  pub Limit : Type 0
  pub Limiter : Type 0
  pub limit : ℕ → Limit
  pub new_limiter : Limit → Limiter
  pub allow : ℕ → Limiter → Bool × Limiter

module _ (rates : Rates) where
  -- MaxClients and Ttl are not negative.
  pub record RateLimiterConf : Type 0 where
    pub global_method_rate : Dict String rates.Limit
    pub ip_method_rate : Dict String rates.Limit
    pub ttl : ℕ
    pub max_clients : ℕ

  abbrev Buckets : Type 0
  Buckets = Dict String rates.Limiter

  pub record LightnodeRateLimiter : Type 0 where
    pub conf : RateLimiterConf
    pub global_limit : Buckets
    pub ip_limiters : Dict String Buckets
    pub ip_last_seen : Dict String ℕ
    pub max_clients : ℕ
    pub ttl : ℕ

  unfoldable pub new_rate_limit_conf : rates.Limit → rates.Limit → ℕ → ℕ → RateLimiterConf
  new_rate_limit_conf global ip ttl max_clients = record {
    global_method_rate = ("fallback", global) ∷ [];
    ip_method_rate = ("fallback", ip) ∷ [];
    ttl = ttl;
    max_clients = max_clients;
  }

  unfoldable pub default_rate_limit_conf : RateLimiterConf
  unfolding new_rate_limit_conf
  default_rate_limit_conf =
      new_rate_limit_conf (rates.limit 1000) (rates.limit 10) (60 * 10 ^ 9) 1000

  -- The loop over the configured rates.
  unfoldable pub new_limiters : Dict String rates.Limit → Buckets
  new_limiters [] = []
  new_limiters ((method, r) ∷ rest) = insert method (rates.new_limiter r) (new_limiters rest)

  unfoldable pub new_rate_limiter : RateLimiterConf → LightnodeRateLimiter
  unfolding new_limiters
  new_rate_limiter conf = record {
    conf = conf;
    global_limit = new_limiters conf.global_method_rate;
    ip_limiters = [];
    ip_last_seen = [];
    max_clients = conf.max_clients;
    ttl = conf.ttl;
  }

  -- The loop of Prune over the entries of the map as it was: what it counts, and what it leaves.
  unfoldable pub prune_entries : ℕ → Dict String ℕ → LightnodeRateLimiter → ℕ × LightnodeRateLimiter
  prune_entries now [] limiter = (0, limiter)
  prune_entries now ((ip, last_seen) ∷ rest) limiter =
      let pruned = prune_entries now rest (record limiter {
        ip_limiters = delete ip limiter.ip_limiters;
        ip_last_seen = delete ip limiter.ip_last_seen;
      }) in
      let kept = prune_entries now rest limiter in
      if ltb limiter.ttl (now - last_seen) then (pruned.0 + 1, pruned.1) else kept

  unfoldable pub prune : ℕ → LightnodeRateLimiter → ℕ × LightnodeRateLimiter
  unfolding prune_entries
  prune now limiter = prune_entries now limiter.ip_last_seen limiter

  -- The method itself where it is configured.
  unfoldable pub configured : String → Dict String rates.Limit → String
  configured method d = elim (lookup method d) [ none ↦ "fallback" | some r ↦ method ]

  -- The rate of a method; the zero Limit where there is none.
  unfoldable pub method_limit : String → Dict String rates.Limit → rates.Limit
  method_limit method d = elim (lookup method d) [ none ↦ rates.limit 0 | some r ↦ r ]

  abbrev pub buckets_of : String → Dict String Buckets → Buckets
  buckets_of method d = elim (lookup method d) [ none ↦ [] | some m ↦ m ]

  -- The bucket of an address under a (configured) method: the one it has, or a new one.
  unfoldable pub ip_bucket : String → String → LightnodeRateLimiter → rates.Limiter
  unfolding method_limit
  ip_bucket method ip limiter = elim (lookup ip (buckets_of method limiter.ip_limiters)) [
    | none ↦ rates.new_limiter (method_limit method limiter.conf.ip_method_rate)
    | some l ↦ l
  ]

  -- The part of Allow behind the global limit.
  unfoldable pub allow_ip : ℕ → String → String → LightnodeRateLimiter → Bool × LightnodeRateLimiter
  unfolding ip_bucket
  allow_ip now method ip limiter =
      let answer = rates.allow now (ip_bucket method ip limiter) in
      (
        answer.0,
        record limiter {
          ip_limiters =
              insert method (insert ip answer.1 (buckets_of method limiter.ip_limiters))
                limiter.ip_limiters;
          ip_last_seen = insert ip now limiter.ip_last_seen;
        },
      )

  -- The part of Allow behind the test on the number of clients, with the bucket of the method.
  unfoldable pub allow_global :
      ℕ
      → String
      → String
      → String
      → Option rates.Limiter
      → LightnodeRateLimiter
      → Option (Bool × LightnodeRateLimiter)
  unfolding allow_ip configured
  allow_global now method ip global none limiter = none
  allow_global now method ip global (some l) limiter =
      let answer = rates.allow now l in
      let next = record limiter { global_limit = insert global answer.1 limiter.global_limit } in
      if answer.0
      then some (allow_ip now (configured method limiter.conf.ip_method_rate) ip next)
      else some (false, next)

  unfoldable pub allow :
      ℕ → String → String → LightnodeRateLimiter → Option (Bool × LightnodeRateLimiter)
  unfolding allow_global prune configured
  allow now method ip limiter =
      let global = configured method limiter.conf.global_method_rate in
      if ltb limiter.max_clients (length limiter.ip_limiters)
      then some (false, (prune now limiter).1)
      else allow_global now method ip global (lookup global limiter.global_limit) limiter
