-- ===== src/Dispatcher/Iterator.antt =====
-- dispatcher/iterator.go: the two strategies by which the responses of the Darknodes become one.
-- A channel of responses is the list of what it delivers until it is closed; a loop that returns
-- early leaves the rest of the channel unread. Both strategies cancel the context on return.
pub mod Quorum
pub mod First
use lightnode.Common.{ℕ, Bool, true, false, Option, none, some, List, [], ◌∷◌, if◌then◌else◌}
use lightnode.Common.Eq.{Eq}
use lightnode.JsonRpc.{JsonRpc, Error, internal}
use lightnode.Dispatcher.InterfaceMap.{InterfaceMap, new_interface_map, store, most}

module _ (rpc : JsonRpc) where
  open rpc use {RequestId, Response, response_eq, new_response, error}

  -- response.Error != nil
  abbrev pub is_error : Response → Bool
  is_error r = elim (error r) [ none ↦ false | some e ↦ true ]

  -- The response where no Darknode gave one.
  unfoldable pub unable_to_query : RequestId → Response
  unable_to_query id =
      new_response id none
        (some (record { code = internal; message = "unable to query the network" }))

  abbrev pub or_unable : RequestId → Option Response → Response
  or_unable id none = unable_to_query id
  or_unable id (some r) = r

  -- The loop of firstResponseIterator.Collect, and what follows it.
  unfoldable pub first_loop : RequestId → InterfaceMap Response → List Response → Response
  first_loop id m [] = or_unable id (most m)
  first_loop id m (r ∷ rs) =
      let rest = first_loop id (store ⦃e = response_eq⦄ m r).0 rs in if is_error r then rest else r

  -- firstResponseIterator.Collect; `total` is the capacity of the channel.
  unfoldable pub collect_first : ℕ → RequestId → List Response → Response
  unfolding first_loop
  collect_first total id rs = first_loop id (new_interface_map total) rs

  -- The loop of majorityResponseIterator.Collect, and what follows it.
  unfoldable pub majority_loop : RequestId → InterfaceMap Response → List Response → Response
  majority_loop id m [] = or_unable id (most m)
  majority_loop id m (r ∷ rs) =
      let (m', enough) = store ⦃e = response_eq⦄ m r in
      let rest = majority_loop id m' rs in if enough then r else rest

  -- majorityResponseIterator.Collect.
  unfoldable pub collect_majority : ℕ → RequestId → List Response → Response
  unfolding majority_loop
  collect_majority total id rs = majority_loop id (new_interface_map total) rs
