-- ===== src/Dispatcher/Requests/Majority.antt =====
-- What dispatcher/dispatcher.go answers to ren_queryTx.
use lightnode.Common.{
  ℕ, suc, ◌+◌, ◌*◌, ◌≤◌, ◌≡◌, ap, Option, none, some, List, [], ◌∷◌, arith, length,
}
use lightnode.Darknode.{Bytes}
use lightnode.JsonRpc.{JsonRpc}
use lightnode.MultiAddrStore.{Table, MultiAddrStore}
use lightnode.Dispatcher.Iterator.Quorum.{quorum_wins}
use lightnode.Dispatcher.InterfaceMap.Tally.{count}
use lightnode.Dispatcher.Requests.{
  http_url, response_at, deliver, responses_of, Chance, multi_addrs, collect, handle_request,
}

module _ (rpc : JsonRpc) (table : Table) (value_of : table.Address → Bytes) where
  length-deliver :
      (response : Option rpc.Response) (rest : List rpc.Response)
      → length (deliver rpc table value_of response rest) ≤ suc (length rest)
  length-deliver none rest = omega arith
  length-deliver (some response) rest = omega arith

  length-responses_of :
      (send : Bytes → Option rpc.Response) (addresses : List table.Address)
      → length (responses_of rpc table value_of send addresses) ≤ length addresses
  unfolding responses_of
  length-responses_of send [] = omega arith
  length-responses_of send (a ∷ addresses) = omega (
    arith,
    length-responses_of send addresses,
    length-deliver (response_at rpc table value_of send (http_url (value_of a)))
        (responses_of rpc table value_of send addresses),
  )

  -- The responses arrive in some order.
  pub record IsArrival (arrive : List rpc.Response → List rpc.Response) : Type 0 where
    pub same_length : (rs : List rpc.Response) → length (arrive rs) ≡ length rs
    pub same_count :
        (b : rpc.Response) (rs : List rpc.Response)
        → count ⦃e = rpc.response_eq⦄ b (arrive rs) ≡ count ⦃e = rpc.response_eq⦄ b rs

  -- With 3f + 1 bootstrap nodes, a response to ren_queryTx that 2f + 1 of them give is the answer,
  -- whatever the others do and in whatever order the responses arrive.
  pub handle_request_quorum :
      (f : ℕ) (send : Bytes → Option rpc.Response) (chance : Chance rpc table value_of)
      (id : rpc.RequestId) (m : MultiAddrStore table) (b : rpc.Response)
      → IsArrival chance.arrive
      → length m.bootstrap_addrs ≡ 3 * f + 1
      → 2 * f + 1
        ≤ count ⦃e = rpc.response_eq⦄ b (responses_of rpc table value_of send m.bootstrap_addrs)
      → handle_request rpc table value_of send chance id "ren_queryTx" "" m ≡ some b
  unfolding handle_request multi_addrs collect
  handle_request_quorum f send chance id m b arrival nodes enough =
      let responses = responses_of rpc table value_of send m.bootstrap_addrs in
      rw nodes (
        ap some (
          quorum_wins rpc f id b (chance.arrive responses)
            (omega (
              arith,
              arrival.same_length responses,
              length-responses_of send m.bootstrap_addrs,
              nodes,
            ))
            (omega (arith, arrival.same_count b responses, enough))))
