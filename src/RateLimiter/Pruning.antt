-- ===== src/RateLimiter/Pruning.antt =====
-- What Prune drops, and what it does not free.
use lightnode.Common.{
  ℕ, ◌-◌, String, ◌≡◌, refl, Bool, false, Option, none, some, [], ◌∷◌, arith, ltb, if◌then◌else◌,
}
use lightnode.Common.Dict.{Dict, lookup, lookup-delete}
use lightnode.Common.Keys.{Distinct}
use lightnode.Common.Eq.{string_eq, ==_iff}
use lightnode.RateLimiter.{Rates, RateLimiterConf, LightnodeRateLimiter, prune_entries, prune}
use lightnode.RateLimiter.Clients.{Reachable, Reachable-IsValid, forget}

module _ (rates : Rates) where
  -- The test on an address that was last seen at a time.
  abbrev pub is_stale : ℕ → ℕ → Option ℕ → Bool
  is_stale now ttl none = false
  is_stale now ttl (some t) = ltb ttl (now - t)

  prune_entries-limiters :
      (now : ℕ) (entries : Dict String ℕ) (l : LightnodeRateLimiter rates) (m : String)
      → lookup m entries ≡ none
      → lookup m (prune_entries rates now entries l).1.ip_limiters ≡ lookup m l.ip_limiters
  unfolding prune_entries lookup
  prune_entries-limiters now [] l m h = refl
  prune_entries-limiters now ((ip, t) ∷ rest) l m h = ground (
    arith,
    prune_entries-limiters now rest l m,
    prune_entries-limiters now rest (forget rates ip l) m,
    lookup-delete ip m l.ip_limiters,
  )

  prune_entries-seen :
      (now : ℕ) (entries : Dict String ℕ) (l : LightnodeRateLimiter rates) (ip : String)
      → Distinct entries
      → lookup ip (prune_entries rates now entries l).1.ip_last_seen
        ≡ (if is_stale now l.ttl (lookup ip entries) then none else lookup ip l.ip_last_seen)
  unfolding prune_entries lookup Distinct
  prune_entries-seen now [] l ip d = refl
  prune_entries-seen now ((other, t) ∷ rest) l ip d = ground (
    arith,
    prune_entries-seen now rest l ip d.1,
    prune_entries-seen now rest (forget rates other l) ip d.1,
    lookup-delete other ip l.ip_last_seen,
    ==_iff ip other,
  )

  -- Prune forgets exactly the addresses that were last seen longer ago than the time to live.
  pub prune_exact :
      (conf : RateLimiterConf rates) (now : ℕ) (l : LightnodeRateLimiter rates) (ip : String)
      → Reachable rates conf l
      → lookup ip (prune rates now l).1.ip_last_seen
        ≡ (if is_stale now l.ttl (lookup ip l.ip_last_seen) then none else lookup ip l.ip_last_seen)
  unfolding prune
  prune_exact conf now l ip r =
      prune_entries-seen now l.ip_last_seen l ip
        (Reachable-IsValid rates conf l r).distinct_addresses

  -- Prune frees no bucket of a method whose name is not the text of an address: it deletes the
  -- addresses from a map whose keys are methods.
  pub prune_frees_no_bucket :
      (now : ℕ) (method : String) (l : LightnodeRateLimiter rates)
      → lookup method l.ip_last_seen ≡ none
      → lookup method (prune rates now l).1.ip_limiters ≡ lookup method l.ip_limiters
  unfolding prune
  prune_frees_no_bucket now method l h = prune_entries-limiters now l.ip_last_seen l method h
