-- ===== src/Resolver.antt =====
-- resolver/resolver.go: where a request goes and what it is answered. What the rest of the program
-- does meanwhile is an argument: whether the cacher takes the request, and the response that
-- arrives before the context is done.
pub mod Routing
pub mod Validation
pub mod Gateways
pub mod Queries
pub mod Bounds
pub mod BlockState
use lightnode.Common.{String, Bool, true, false, not, ◌&&◌, Option, none, some, if◌then◌else◌}
use lightnode.Common.Eq.{string_eq, ◌==◌}
use lightnode.Common.Result.{Result, ok, err}
use lightnode.Darknode.{Tx, Darknode}
use lightnode.JsonRpc.{JsonRpc, Error, ErrorCode, internal, invalid_params}
use lightnode.Cacher.{method_submit_tx}

-- The task that a request is given to.
pub data Destination : Type 0 where
  nowhere tx_checker cacher : Destination

module _ (rpc : JsonRpc) where
  pub data Wait : Type 0 where
    timed_out : Wait
    responded : rpc.Response → Wait

  -- A call: the id of the request, the Darknode that its query asks for, where it has a query, and
  -- what the rest of the program does.
  pub record Call : Type 0 where
    pub id : rpc.RequestId
    pub darknode_id : Option String
    pub is_sent : Bool
    pub wait : Wait

  unfoldable pub failed : rpc.RequestId → ErrorCode → String → rpc.Response
  failed id code message = rpc.new_response id none (some record { code = code; message = message })

  unfoldable pub await_response : rpc.RequestId → Wait → rpc.Response
  await_response id timed_out = failed id internal "request timed out"
  await_response id (responded response) = response

  -- The check of the Darknode by the store of addresses.
  unfoldable pub is_unknown : (String → Bool) → Option String → Bool
  is_unknown known none = false
  is_unknown known (some darknode_id) = if darknode_id == "" then false else not (known darknode_id)

  module _ (known : String → Bool) where
    unfoldable pub handle_message : Call → String → Bool → Destination × rpc.Response
    handle_message call method cross_chain =
        if is_unknown known call.darknode_id
        then (nowhere, failed call.id invalid_params "unknown darknode id")
        else if (method == method_submit_tx) && cross_chain
        then (tx_checker, await_response call.id call.wait)
        else if not call.is_sent
        then (nowhere, failed call.id internal "too much back pressure")
        else (cacher, await_response call.id call.wait)

    unfoldable pub query_block : Call → Destination × rpc.Response
    query_block call = handle_message call "ren_queryBlock" false

    unfoldable pub query_blocks : Call → Destination × rpc.Response
    query_blocks call = handle_message call "ren_queryBlocks" false

    unfoldable pub query_peers : Call → Destination × rpc.Response
    query_peers call = handle_message call "ren_queryPeers" false

    unfoldable pub query_num_peers : Call → Destination × rpc.Response
    query_num_peers call = handle_message call "ren_queryNumPeers" false

    unfoldable pub query_stat : Call → Destination × rpc.Response
    query_stat call = handle_message call "ren_queryStat" false

    unfoldable pub query_config : Call → Destination × rpc.Response
    query_config call = handle_message call "ren_queryConfig" false

    unfoldable pub query_block_state : Call → Destination × rpc.Response
    query_block_state call = handle_message call "ren_queryBlockState" false

    module _ (darknode : Darknode) (tx_from_v1_tx : Tx → Bool → Result String rpc.Value) where
      -- A burn of version 0 is submitted as one of version 1, which the Darknodes accept.
      unfoldable pub submitted_tx : Tx → Tx
      submitted_tx tx =
          if (tx.version == darknode.version0) && darknode.is_burn tx.selector
          then record tx { version = darknode.version1 }
          else tx

      abbrev pub v0_result : Call → rpc.Response → Result String rpc.Value → rpc.Response
      v0_result call response (err e) = failed call.id internal "failed to convert v1 tx to v0"
      v0_result call response (ok v0tx) = rpc.new_response (rpc.id response) (some v0tx) none

      abbrev pub unless_refused : Call → Tx → rpc.Response → Option Error → rpc.Response
      unless_refused call tx response (some e) = response
      unless_refused call tx response none = v0_result call response (tx_from_v1_tx tx false)

      -- The destination, the transaction that is submitted, and the response.
      unfoldable pub submit_tx : Call → Tx → Destination × (Tx × rpc.Response)
      submit_tx call tx =
          let submitted = submitted_tx tx in
          let sent =
            handle_message call method_submit_tx (darknode.is_cross_chain submitted.selector) in
          (
            sent.0,
            (
              submitted,
              if not (tx.version == darknode.version0)
                  then sent.1
                  else unless_refused call submitted sent.1 (rpc.error sent.1),
            ),
          )
