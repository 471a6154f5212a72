-- ===== src/Dispatcher/Iterator/Quorum.antt =====
-- The majority strategy: when more than the threshold agree, their response is returned.
use mathlib.Core.List.{append_assoc, append-nil}
use lightnode.Common.{
  ℕ, ◌+◌, ◌*◌, ◌≤◌, ◌<◌, ◌≡◌, refl, subst, false, List, [], ◌∷◌, ◌++◌, arith, ltb, ltb→lt, length,
  ◌⊎◌, inl, inr, Bool-cases, ◌≢◌,
}
use lightnode.Common.Eq.{Eq, ◌==◌, ==_iff}
use lightnode.JsonRpc.{JsonRpc}
use lightnode.Dispatcher.InterfaceMap.{
  InterfaceMap, new_interface_map, threshold_of, increment, store,
}
use lightnode.Dispatcher.InterfaceMap.Tally.{
  count, count-append, count-add-le, Counts, new_interface_map-Counts, store-Counts,
  store-threshold, threshold-store,
}
use lightnode.Dispatcher.InterfaceMap.Most.{most-plurality}
use lightnode.Dispatcher.Iterator.{majority_loop, collect_majority}

module _ (rpc : JsonRpc) where
  open rpc use {RequestId, Response}

  instance abbrev response_eq : Eq Response
  response_eq = rpc.response_eq

  -- The response `r` has passed the threshold `t` among `rs`.
  abbrev pub Passes : ℕ → List Response → Response → Type 0
  Passes t rs r = t < count r rs

  abbrev pub IsPlurality : List Response → Response → Type 0
  IsPlurality rs r = (b : Response) → count b rs ≤ count r rs

  -- What the loop promises of all responses, the seen and the coming ones.
  abbrev pub Agreed : ℕ → List Response → Response → Type 0
  Agreed t rs r = Passes t rs r ⊎ (((b : Response) → count b rs ≤ t) × IsPlurality rs r)

  count_other : (b r : Response) → (b == r) ≡ false → count b (r ∷ []) ≡ 0
  unfolding count
  count_other b r p = rw p

  below_store :
      (t : ℕ) (seen : List Response) (r : Response)
      → ((b : Response) → count b seen ≤ t)
      → ltb t (count r (seen ++ r ∷ [])) ≡ false
      → (b : Response) → count b (seen ++ r ∷ []) ≤ t
  below_store t seen r below e b = elim (Bool-cases (b == r)) [
    | inl p ↦ rw ((==_iff b r).0 p) (ground arith)
    | inr p ↦ ground (arith, below b, count-append b seen (r ∷ []), count_other b r p)
  ]

  majority_loop-Agreed :
      (id : RequestId) (t : ℕ) (m : InterfaceMap Response) (x : Response) (seen rs : List Response)
      → m.threshold ≡ t
      → Counts m (x ∷ seen)
      → ((b : Response) → count b (x ∷ seen) ≤ t)
      → Agreed t ((x ∷ seen) ++ rs) (majority_loop rpc id m rs)
  unfolding majority_loop
  majority_loop-Agreed id t m x seen [] ht h below =
      rw (append-nil seen) (let (a, e, p) = most-plurality m x seen h in rw e (inr (below, p)))
  majority_loop-Agreed id t m x seen (r ∷ rs) ht h below = elim (Bool-cases (store m r).1) [
    | inl p ↦
        rw (p, ← append_assoc seen (r ∷ []) rs)
          (inl (
            omega (
              arith,
              ltb→lt t (count r ((x ∷ seen) ++ r ∷ []))
                  (rw (← ht, ← store-threshold m r (x ∷ seen) h) p),
              count-append r ((x ∷ seen) ++ r ∷ []) rs,
            )))
    | inr p ↦
        rw (p, ← append_assoc seen (r ∷ []) rs)
          (majority_loop-Agreed id t (store m r).0 x (seen ++ r ∷ []) rs
            (rw (threshold-store m r) ht) (store-Counts m r (x ∷ seen) h)
            (below_store t (x ∷ seen) r below (rw (← ht, ← store-threshold m r (x ∷ seen) h) p)))
  ]

  count-nil : (b : Response) → count b [] ≡ 0
  unfolding count
  count-nil b = refl

  -- The first round: the responses seen before it are none.
  majority_loop_start :
      (id : RequestId) (t : ℕ) (m : InterfaceMap Response) (r : Response) (rs : List Response)
      → m.threshold ≡ t
      → Counts m []
      → Agreed t (r ∷ rs) (majority_loop rpc id m (r ∷ rs))
  unfolding majority_loop
  majority_loop_start id t m r rs ht h = elim (Bool-cases (store m r).1) [
    | inl p ↦ rw p (
        inl (
          omega (
            arith,
            ltb→lt t (count r (r ∷ [])) (rw (← ht, ← store-threshold m r [] h) p),
            count-append r (r ∷ []) rs,
          )))
    | inr p ↦ rw p (
        majority_loop-Agreed id t (store m r).0 r [] rs (rw (threshold-store m r) ht)
          (store-Counts m r [] h)
          (below_store t [] r (λ b. omega (arith, count-nil b))
            (rw (← ht, ← store-threshold m r [] h) p)))
  ]

  -- Whatever at least one Darknode answers: the majority strategy returns a response that has more
  -- occurrences than the threshold of the channel's capacity, or, where no response has, one that
  -- occurs at least as often as every other.
  pub collect_majority-Agreed :
      (total : ℕ) (id : RequestId) (r : Response) (rs : List Response)
      → Agreed (threshold_of total) (r ∷ rs) (collect_majority rpc total id (r ∷ rs))
  unfolding collect_majority new_interface_map
  collect_majority-Agreed total id r rs =
      majority_loop_start id (threshold_of total) _ r rs refl (new_interface_map-Counts total)

  threshold_quorum : (f : ℕ) → threshold_of (3 * f + 1) ≡ 2 * f
  unfolding threshold_of
  threshold_quorum f = omega arith

  low_threshold : (total : ℕ) → total ≤ 3 → threshold_of total ≡ 0
  unfolding threshold_of
  low_threshold total h = omega arith

  -- A response that differs from a quorum has neither passed the threshold nor left all below it.
  not_rival :
      (f : ℕ) (b res : Response) (rs : List Response)
      → length rs ≤ 3 * f + 1
      → 2 * f + 1 ≤ count b rs
      → res ≢ b
      → ¬ Agreed (2 * f) rs res
  not_rival f b res rs h k e (inl q) = omega (arith, count-add-le res b rs e)
  not_rival f b res rs h k e (inr q) = omega (arith, q.0 b)

  -- With 3f + 1 Darknodes asked, and at most that many responses: a response that 2f + 1 of them
  -- give is the one returned, whatever the others say and in whatever order the responses come.
  pub quorum_wins :
      (f : ℕ) (id : RequestId) (b : Response) (rs : List Response)
      → length rs ≤ 3 * f + 1
      → 2 * f + 1 ≤ count b rs
      → collect_majority rpc (3 * f + 1) id rs ≡ b
  quorum_wins f id b [] h k = absurd (omega (arith, count-nil b))
  quorum_wins f id b (r ∷ rs) h k =
      let res = collect_majority rpc (3 * f + 1) id (r ∷ rs) in
      let agreed : Agreed (2 * f) (r ∷ rs) res =
        subst (λ t. Agreed t (r ∷ rs) res) (threshold_quorum f)
          (collect_majority-Agreed (3 * f + 1) id r rs) in
      elim (Bool-cases (res == b)) [
        | inl p ↦ (==_iff res b).0 p
        | inr p ↦ absurd (not_rival f b res (r ∷ rs) h k (λ e. ground (arith, ==_iff res b)) agreed)
      ]

  -- With three Darknodes asked or fewer, the threshold is 0: the strategy returns the response that
  -- comes first, whatever the others say.
  pub few_nodes_no_majority :
      (total : ℕ) (id : RequestId) (r : Response) (rs : List Response)
      → total ≤ 3
      → collect_majority rpc total id (r ∷ rs) ≡ r
  unfolding collect_majority new_interface_map store increment
  few_nodes_no_majority total id r rs h = rw (low_threshold total h)
