-- ===== src/Dispatcher/Iterator/First.antt =====
-- The strategy that returns the first successful response.
use mathlib.Core.List.{append_assoc, append-nil}
use lightnode.Common.{ℕ, ◌≤◌, ◌≡◌, true, false, List, [], ◌∷◌, ◌++◌, All}
use lightnode.Common.Eq.{Eq}
use lightnode.JsonRpc.{JsonRpc}
use lightnode.Dispatcher.InterfaceMap.{InterfaceMap, new_interface_map, store}
use lightnode.Dispatcher.InterfaceMap.Tally.{count, Counts, new_interface_map-Counts, store-Counts}
use lightnode.Dispatcher.InterfaceMap.Most.{most-plurality}
use lightnode.Dispatcher.Iterator.{is_error, first_loop, collect_first}

module _ (rpc : JsonRpc) where
  open rpc use {RequestId, Response}

  instance abbrev response_eq : Eq Response
  response_eq = rpc.response_eq

  abbrev AllErrors : List Response → Type 0
  AllErrors = All (λ r. is_error rpc r ≡ true)

  first_loop-success :
      (id : RequestId) (m : InterfaceMap Response) (bad rest : List Response) (r : Response)
      → AllErrors bad
      → is_error rpc r ≡ false
      → first_loop rpc id m (bad ++ r ∷ rest) ≡ r
  unfolding first_loop
  first_loop-success id m [] rest r h g = rw g
  first_loop-success id m (x ∷ bad) rest r h g =
      rw h.0 (first_loop-success id (store m x).0 bad rest r h.1 g)

  -- The first response without an error is the one returned, however many errors come before it
  -- and whatever comes after it.
  pub first_success_wins :
      (total : ℕ) (id : RequestId) (bad rest : List Response) (r : Response)
      → AllErrors bad
      → is_error rpc r ≡ false
      → collect_first rpc total id (bad ++ r ∷ rest) ≡ r
  unfolding collect_first
  first_success_wins total id bad rest r h g =
      first_loop-success id (new_interface_map total) bad rest r h g

  first_loop-plurality :
      (id : RequestId) (m : InterfaceMap Response) (x : Response) (seen rs : List Response)
      → Counts m (x ∷ seen)
      → AllErrors rs
      → let res = first_loop rpc id m rs in
        (b : Response) → count b ((x ∷ seen) ++ rs) ≤ count res ((x ∷ seen) ++ rs)
  unfolding first_loop
  first_loop-plurality id m x seen [] h g =
      rw (append-nil seen) (let (a, e, p) = most-plurality m x seen h in rw e p)
  first_loop-plurality id m x seen (r ∷ rs) h g =
      rw (g.0, ← append_assoc seen (r ∷ []) rs)
        (first_loop-plurality id (store m r).0 x (seen ++ r ∷ []) rs (store-Counts m r (x ∷ seen) h)
          g.1)

  -- Where every Darknode answers an error and at least one answers, the error that is returned
  -- occurs among the answers at least as often as every other.
  pub most_common_error :
      (total : ℕ) (id : RequestId) (r : Response) (rs : List Response)
      → AllErrors (r ∷ rs)
      → (b : Response) → count b (r ∷ rs) ≤ count (collect_first rpc total id (r ∷ rs)) (r ∷ rs)
  unfolding collect_first first_loop
  most_common_error total id r rs h = rw h.0 (
      first_loop-plurality id _ r [] rs
        (store-Counts (new_interface_map total) r [] (new_interface_map-Counts total)) h.1)
