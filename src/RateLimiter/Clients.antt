-- ===== src/RateLimiter/Clients.antt =====
-- What every reachable state of the rate limiter keeps, and what it means for the number of
-- entries that Allow compares with MaxClients.
use lightnode.Common.{
  ℕ, ◌+◌, ◌-◌, ◌≤◌, String, ◌≡◌, ◌≢◌, refl, sym, subst, Bool, Option, none, some, [], ◌∷◌, arith,
  ltb, length, inl, inr, Bool-cases,
}
use lightnode.Common.Dict.{
  Dict, lookup, insert, delete, lookup-insert, lookup-delete, length-insert,
}
use lightnode.Common.Keys.{
  Distinct, Covers, insert-Distinct, delete-Distinct, Covers-insert, Covers-insert_known,
  length-Covers,
}
use lightnode.Common.Eq.{string_eq, ==_iff, ==_refl}
use lightnode.RateLimiter.{
  Rates, RateLimiterConf, LightnodeRateLimiter, new_limiters, new_rate_limiter, prune_entries,
  prune, configured, allow_ip, allow_global, allow,
}

module _ (rates : Rates) where
  -- The states that requests and prunings lead to.
  pub data Reachable (conf : RateLimiterConf rates) : LightnodeRateLimiter rates → Type 0 where
    started : Reachable conf (new_rate_limiter rates conf)
    answered :
        (now : ℕ) (method ip : String) (answer : Bool) (l next : LightnodeRateLimiter rates)
        → Reachable conf l
        → allow rates now method ip l ≡ some (answer, next)
        → Reachable conf next
    pruned :
        (now : ℕ) (l : LightnodeRateLimiter rates)
        → Reachable conf l
        → Reachable conf (prune rates now l).1

  -- The methods that may have buckets per address: the configured ones and "fallback".
  abbrev pub methods : RateLimiterConf rates → Dict String rates.Limit
  methods conf = insert "fallback" (rates.limit 0) conf.ip_method_rate

  pub record IsValid (conf : RateLimiterConf rates) (l : LightnodeRateLimiter rates) : Type 0 where
    pub same_conf : l.conf ≡ conf
    pub known_methods : Covers (methods conf) l.ip_limiters
    pub distinct_methods : Distinct l.ip_limiters
    pub distinct_addresses : Distinct l.ip_last_seen
    pub global_buckets : Covers l.global_limit conf.global_method_rate

  Covers-new_limiters : (d : Dict String rates.Limit) → Covers (new_limiters rates d) d
  unfolding new_limiters lookup
  Covers-new_limiters [] k h = refl
  Covers-new_limiters ((m, r) ∷ d) k h = ground (
    arith,
    lookup-insert m k (rates.new_limiter r) (new_limiters rates d),
    Covers-new_limiters d k,
    ==_iff k m,
  )

  new-IsValid : (conf : RateLimiterConf rates) → IsValid conf (new_rate_limiter rates conf)
  unfolding new_rate_limiter Distinct lookup
  new-IsValid conf = record {
    same_conf = refl;
    known_methods = λ k h. refl;
    distinct_methods = tt;
    distinct_addresses = tt;
    global_buckets = Covers-new_limiters conf.global_method_rate;
  }

  abbrev pub forget : String → LightnodeRateLimiter rates → LightnodeRateLimiter rates
  forget ip l = record l {
    ip_limiters = delete ip l.ip_limiters;
    ip_last_seen = delete ip l.ip_last_seen;
  }

  forget-IsValid :
      (conf : RateLimiterConf rates) (ip : String) (l : LightnodeRateLimiter rates)
      → IsValid conf l
      → IsValid conf (forget ip l)
  forget-IsValid conf ip l v = record {
    same_conf = v.same_conf;
    known_methods = λ k h. ground (arith, v.known_methods k h, lookup-delete ip k l.ip_limiters);
    distinct_methods = delete-Distinct ip l.ip_limiters v.distinct_methods;
    distinct_addresses = delete-Distinct ip l.ip_last_seen v.distinct_addresses;
    global_buckets = v.global_buckets;
  }

  prune_entries-IsValid :
      (conf : RateLimiterConf rates) (now : ℕ) (entries : Dict String ℕ)
      (l : LightnodeRateLimiter rates)
      → IsValid conf l
      → IsValid conf (prune_entries rates now entries l).1
  unfolding prune_entries
  prune_entries-IsValid conf now [] l v = v
  prune_entries-IsValid conf now ((ip, seen) ∷ rest) l v =
      elim (Bool-cases (ltb l.ttl (now - seen))) [
        | inl p ↦
            rw p (prune_entries-IsValid conf now rest (forget ip l) (forget-IsValid conf ip l v))
        | inr p ↦ rw p (prune_entries-IsValid conf now rest l v)
      ]

  configured-known :
      (conf : RateLimiterConf rates) (method : String)
      → lookup (configured rates method conf.ip_method_rate) (methods conf) ≢ none
  unfolding configured
  configured-known conf method h = ground (
    arith,
    lookup-insert "fallback" method (rates.limit 0) conf.ip_method_rate,
    lookup-insert "fallback" "fallback" (rates.limit 0) conf.ip_method_rate,
    ==_refl {T = String} "fallback",
  )

  -- The state after the bucket of a known method was written.
  allow_ip-IsValid :
      (conf : RateLimiterConf rates) (now : ℕ) (method ip : String) (l : LightnodeRateLimiter rates)
      → IsValid conf l
      → IsValid conf (allow_ip rates now (configured rates method l.conf.ip_method_rate) ip l).1
  unfolding allow_ip
  allow_ip-IsValid conf now method ip l v = record {
    same_conf = v.same_conf;
    known_methods =
        Covers-insert_known (methods conf) l.ip_limiters
          (configured rates method l.conf.ip_method_rate) _ v.known_methods
          (subst (λ c. lookup (configured rates method c.ip_method_rate) (methods conf) ≢ none)
            (sym v.same_conf) (configured-known conf method));
    distinct_methods =
        insert-Distinct (configured rates method l.conf.ip_method_rate) _ l.ip_limiters
          v.distinct_methods;
    distinct_addresses = insert-Distinct ip now l.ip_last_seen v.distinct_addresses;
    global_buckets = v.global_buckets;
  }

  pub answered_state : (x y : Bool × LightnodeRateLimiter rates) → some x ≡ some y → x.1 ≡ y.1
  answered_state x y h = ground (arith, h)

  -- The state after the global bucket was asked.
  abbrev pub ask_global :
      ℕ → String → rates.Limiter → LightnodeRateLimiter rates → LightnodeRateLimiter rates
  ask_global now global b l = record l {
    global_limit = insert global (rates.allow now b).1 l.global_limit;
  }

  ask_global-IsValid :
      (conf : RateLimiterConf rates) (now : ℕ) (global : String) (b : rates.Limiter)
      (l : LightnodeRateLimiter rates)
      → IsValid conf l
      → IsValid conf (ask_global now global b l)
  ask_global-IsValid conf now global b l v = record {
    same_conf = v.same_conf;
    known_methods = v.known_methods;
    distinct_methods = v.distinct_methods;
    distinct_addresses = v.distinct_addresses;
    global_buckets = Covers-insert l.global_limit conf.global_method_rate global _ v.global_buckets;
  }

  allow_global-IsValid :
      (conf : RateLimiterConf rates) (now : ℕ) (method ip global : String)
      (bucket : Option rates.Limiter) (answer : Bool) (l next : LightnodeRateLimiter rates)
      → IsValid conf l
      → allow_global rates now method ip global bucket l ≡ some (answer, next)
      → IsValid conf next
  unfolding allow_global
  allow_global-IsValid conf now method ip global none answer l next v h = absurd (ground (arith, h))
  allow_global-IsValid conf now method ip global (some b) answer l next v h =
      elim (Bool-cases (rates.allow now b).0) [
        | inl p ↦ subst (IsValid conf) (answered_state _ (answer, next) (rw p at h)) (
            allow_ip-IsValid conf now method ip (ask_global now global b l)
              (ask_global-IsValid conf now global b l v))
        | inr p ↦
            subst (IsValid conf) (answered_state _ (answer, next) (rw p at h))
              (ask_global-IsValid conf now global b l v)
      ]

  allow-IsValid :
      (conf : RateLimiterConf rates) (now : ℕ) (method ip : String) (answer : Bool)
      (l next : LightnodeRateLimiter rates)
      → IsValid conf l
      → allow rates now method ip l ≡ some (answer, next)
      → IsValid conf next
  unfolding allow prune
  allow-IsValid conf now method ip answer l next v h =
      elim (Bool-cases (ltb l.max_clients (length l.ip_limiters))) [
        | inl p ↦
            subst (IsValid conf) (answered_state _ (answer, next) (rw p at h))
              (prune_entries-IsValid conf now l.ip_last_seen l v)
        | inr p ↦
            allow_global-IsValid conf now method ip
              (configured rates method l.conf.global_method_rate) _ answer l next v (rw p at h)
      ]

  pub Reachable-IsValid :
      (conf : RateLimiterConf rates) (l : LightnodeRateLimiter rates)
      → Reachable conf l
      → IsValid conf l
  unfolding prune
  Reachable-IsValid conf _ started = new-IsValid conf
  Reachable-IsValid conf _ (answered now method ip answer l next r h) =
      allow-IsValid conf now method ip answer l next (Reachable-IsValid conf l r) h
  Reachable-IsValid conf _ (pruned now l r) =
      prune_entries-IsValid conf now l.ip_last_seen l (Reachable-IsValid conf l r)

  -- The entries that Allow compares with MaxClients are methods, not clients: in every reachable
  -- state there are at most as many as configured methods, and one for the fallback.
  pub clients_bound :
      (conf : RateLimiterConf rates) (l : LightnodeRateLimiter rates)
      → Reachable conf l
      → length l.ip_limiters ≤ length conf.ip_method_rate + 1
  clients_bound conf l r =
      let v = Reachable-IsValid conf l r in
      omega (
        arith,
        length-Covers (methods conf) l.ip_limiters v.distinct_methods v.known_methods,
        length-insert "fallback" (rates.limit 0) conf.ip_method_rate,
      )

  configured_rate :
      (method : String) (d : Dict String rates.Limit)
      → lookup "fallback" d ≢ none
      → lookup (configured rates method d) d ≢ none
  unfolding configured
  configured_rate method d fallback h = ground arith

  allow_global_answers :
      (now : ℕ) (method ip global : String) (bucket : Option rates.Limiter)
      (l : LightnodeRateLimiter rates)
      → bucket ≢ none
      → allow_global rates now method ip global bucket l ≢ none
  unfolding allow_global
  allow_global_answers now method ip global bucket l found h = ground arith

  -- With a global rate for "fallback", every request in every reachable state is answered: no
  -- limiter that Allow reads is nil.
  pub requests_answered :
      (conf : RateLimiterConf rates) (now : ℕ) (method ip : String) (l : LightnodeRateLimiter rates)
      → lookup "fallback" conf.global_method_rate ≢ none
      → Reachable conf l
      → allow rates now method ip l ≢ none
  unfolding allow
  requests_answered conf now method ip l fallback r h =
      let v = Reachable-IsValid conf l r in
      let rate =
        subst (λ c. lookup "fallback" c.global_method_rate ≢ none) (sym v.same_conf) fallback in
      let global = configured rates method l.conf.global_method_rate in
      elim (Bool-cases (ltb l.max_clients (length l.ip_limiters))) [
        | inl p ↦ ground (arith, p, h)
        | inr p ↦
            allow_global_answers now method ip global (lookup global l.global_limit) l
              (λ q. configured_rate method l.conf.global_method_rate rate (
                subst (λ c. lookup global c.global_method_rate ≡ none) (sym v.same_conf)
                  (v.global_buckets global q)))
              (rw p at h)
      ]
