-- ===== src/MultiAddrStore/Bootstrap.antt =====
-- What New makes sure of, and which bootstrap addresses may be chosen.
use lightnode.Common.{
  ℕ, zero, suc, ◌≤◌, ◌<◌, ◌≡◌, refl, false, List, [], ◌∷◌, arith, All, length, take, get_elem?, ltb,
}
use lightnode.MultiAddrStore.{Table, MultiAddrStore, at_indexes, random_bootstrap_addrs}

module _ (table : Table) where
  get_elem?-take :
      (n i : ℕ) (addrs : List table.Address)
      → i < n
      → get_elem? addrs i ≡ get_elem? (take n addrs) i
  get_elem?-take zero i addrs h = absurd (ground (arith, h))
  get_elem?-take (suc n) i [] h = refl
  get_elem?-take (suc n) zero (a ∷ addrs) h = refl
  get_elem?-take (suc n) (suc i) (a ∷ addrs) h = get_elem?-take n i addrs (omega (arith, h))

  not_above : (n most : ℕ) → n ≤ most → ltb most n ≡ false
  not_above n most h = ground (arith, h)

  at_indexes-take :
      (n : ℕ) (indexes : List ℕ) (addrs : List table.Address)
      → All (λ i. i < n) indexes
      → at_indexes table indexes addrs ≡ at_indexes table indexes (take n addrs)
  unfolding at_indexes
  at_indexes-take n [] addrs h = refl
  at_indexes-take n (i ∷ indexes) addrs h =
      rw (get_elem?-take n i addrs h.0, at_indexes-take n indexes addrs h.1) refl

  -- Asked for no more addresses than there are, and with a permutation of the numbers below the
  -- number asked for, the choice is made among the first so many bootstrap addresses only: every
  -- later address is never chosen.
  pub random_bootstrap_addrs-take :
      (perm : ℕ → List ℕ) (n : ℕ) (m : MultiAddrStore table)
      → n ≤ length m.bootstrap_addrs
      → All (λ i. i < n) (perm n)
      → random_bootstrap_addrs table perm n m ≡ at_indexes table (perm n) (take n m.bootstrap_addrs)
  unfolding random_bootstrap_addrs
  random_bootstrap_addrs-take perm n m bound below =
      rw (not_above n (length m.bootstrap_addrs) bound)
        (at_indexes-take n (perm n) m.bootstrap_addrs below)
