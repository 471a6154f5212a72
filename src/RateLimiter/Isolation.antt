-- ===== src/RateLimiter/Isolation.antt =====
-- What one answered request changes: the buckets that it asks and no other.
use lightnode.Common.{
  ℕ, String, ◌≡◌, ◌≢◌, ◌∙◌, sym, ap, Bool, ◌&&◌, Option, none, some, arith, length, inl, inr,
  Bool-cases, ◌≤◌,
}
use lightnode.Common.Dict.{lookup, insert, lookup-insert}
use lightnode.Common.Eq.{string_eq, ==_iff}
use lightnode.RateLimiter.{
  Rates, LightnodeRateLimiter, configured, ip_bucket, allow_ip, allow_global, allow, buckets_of,
}
use lightnode.RateLimiter.Clients.{answered_state, ask_global}

module _ (rates : Rates) where
  ip_bucket-allow_ip :
      (now : ℕ) (method ip other_method other : String) (l : LightnodeRateLimiter rates)
      → ip ≢ other
      → ip_bucket rates other_method other (allow_ip rates now method ip l).1
        ≡ ip_bucket rates other_method other l
  unfolding ip_bucket allow_ip
  ip_bucket-allow_ip now method ip other_method other l apart = ground (
    arith,
    apart,
    lookup-insert method other_method
        (insert ip (rates.allow now (ip_bucket rates method ip l)).1
          (buckets_of rates method l.ip_limiters))
        l.ip_limiters,
    lookup-insert ip other (rates.allow now (ip_bucket rates method ip l)).1
        (buckets_of rates method l.ip_limiters),
    ==_iff other_method method,
    ==_iff other ip,
  )

  allow_global-kept :
      (now : ℕ) (method ip global other_method other : String) (bucket : Option rates.Limiter)
      (answer : Bool) (l next : LightnodeRateLimiter rates)
      → ip ≢ other
      → allow_global rates now method ip global bucket l ≡ some (answer, next)
      → ip_bucket rates other_method other next ≡ ip_bucket rates other_method other l
  unfolding allow_global ip_bucket
  allow_global-kept now method ip global other_method other none answer l next apart h =
      absurd (ground (arith, h))
  allow_global-kept now method ip global other_method other (some b) answer l next apart h =
      let m = configured rates method l.conf.ip_method_rate in
      elim (Bool-cases (rates.allow now b).0) [
        | inl p ↦
            ap (ip_bucket rates other_method other)
              (sym (answered_state rates _ (answer, next) (rw p at h)))
            ∙ ip_bucket-allow_ip now m ip other_method other (ask_global rates now global b l) apart
        | inr p ↦
            ap (ip_bucket rates other_method other)
              (sym (answered_state rates _ (answer, next) (rw p at h)))
      ]

  -- A request that is answered while there is room leaves the bucket of every other address, under
  -- every method.
  pub other_address_kept :
      (now : ℕ) (method ip other_method other : String) (answer : Bool)
      (l next : LightnodeRateLimiter rates)
      → ip ≢ other
      → length l.ip_limiters ≤ l.max_clients
      → allow rates now method ip l ≡ some (answer, next)
      → ip_bucket rates other_method other next ≡ ip_bucket rates other_method other l
  unfolding allow
  other_address_kept now method ip other_method other answer l next apart room h =
      allow_global-kept now method ip (configured rates method l.conf.global_method_rate)
        other_method other
        (lookup (configured rates method l.conf.global_method_rate) l.global_limit) answer l next
        apart (ground (arith, room, h))

  -- A request passes exactly where the global bucket of its method lets it, and then the bucket
  -- that its address has under the method, or a new one at the rate of the method.
  pub allow_lem :
      (now : ℕ) (method ip : String) (bucket : rates.Limiter) (answer : Bool)
      (l next : LightnodeRateLimiter rates)
      → length l.ip_limiters ≤ l.max_clients
      → lookup (configured rates method l.conf.global_method_rate) l.global_limit ≡ some bucket
      → allow rates now method ip l ≡ some (answer, next)
      → answer ≡ (
          (rates.allow now bucket).0
          && (rates.allow now
              (ip_bucket rates (configured rates method l.conf.ip_method_rate) ip l)).0)
  unfolding allow allow_global allow_ip
  allow_lem now method ip bucket answer l next room found h = ground (arith, room, found, h)
