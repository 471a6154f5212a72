-- ===== src/Resolver/BlockState.antt =====
-- resolver/resolver.go: ren_queryShards, ren_queryFees and ren_queryState, which ask the Darknodes
-- for the block state and convert it to the response of an older version. A panic is the answer
-- `none`.
pub mod Collected
pub mod Legacy
pub mod Shown
use lightnode.Common.{String, not, Option, none, some, List, [], ◌∷◌, if◌then◌else◌}
use lightnode.Common.Dict.{Dict, lookup, insert}
use lightnode.Common.Eq.{string_eq}
use lightnode.Common.Result.{Result, ok, err, ◌>>=◌}
use lightnode.JsonRpc.{JsonRpc, internal}
use lightnode.Resolver.{Destination, nowhere, cacher, Wait, timed_out, responded, Call, failed}
use lightnode.Compat.V1.State.{XState, Reader, State, query_state_response_from_state}
use lightnode.Compat.V0.Fees.{
  ResponseQueryFees, CompatShard, query_fees_response_from_state, shards_response_from_system_state,
}

abbrev pub legacy_assets : List String
legacy_assets = "BTC" ∷ "ZEC" ∷ "BCH" ∷ []

abbrev pub v2_assets : List String
v2_assets = "BTC" ∷ "ZEC" ∷ "BCH" ∷ "DGB" ∷ "DOGE" ∷ "LUNA" ∷ "FIL" ∷ []

-- A Go map that is filled by a loop over assets, each under its name, from what the block state has.
module _ (reader : Reader) where
  open reader use {Value, decode_xstate}

  unfoldable pub collect_states :
      List String
      → Dict String Value
      → Dict String (XState Value)
      → Result String (Dict String (XState Value))
  collect_states [] state collected = ok collected
  collect_states (asset ∷ assets) state collected = elim (lookup asset state) [
    | none ↦ collect_states assets state collected
    | some val ↦ elim (decode_xstate val) [
      | err e ↦ err "failed to decode block state"
      | ok x ↦ collect_states assets state (insert asset x collected)
    ]
  ]

  -- The error of a conversion is answered by a message of the handler.
  abbrev pub or_message {ℓ} : {A : Type ℓ} → String → Result String A → Result String A
  or_message message (ok a) = ok a
  or_message message (err e) = err message

  unfoldable pub fees_of_block_state : Dict String Value → Result String ResponseQueryFees
  unfolding collect_states
  fees_of_block_state state = do
    collected ← collect_states legacy_assets state []
    or_message "failed compatibility conversion"
        (query_fees_response_from_state reader.native_asset collected)

  unfoldable pub state_of_block_state : Dict String Value → Result String State
  unfolding collect_states
  state_of_block_state state = do
    collected ← collect_states v2_assets state []
    or_message "failed compatibility conversion" (query_state_response_from_state reader collected)

  -- What the handlers use of JSON, and of the package `pack`: marshalling a result, reading a block
  -- state, decoding the state of the system to the public keys of its primary shards, and the
  -- results of the responses.
  pub record BlockStates (rpc : JsonRpc) : Type 0 where
    pub marshal : Option rpc.Value → Result String String
    pub unmarshal : String → Result String (Dict String Value)
    pub decode_system : Option Value → Result String (List String)
    pub shards_result : List CompatShard → rpc.Value
    pub fees_result : ResponseQueryFees → rpc.Value
    pub state_result : State → rpc.Value

  module _ (rpc : JsonRpc) (blocks : BlockStates rpc) where
    open blocks use {marshal, unmarshal, decode_system, shards_result, fees_result, state_result}

    abbrev answer : rpc.RequestId → Result String rpc.Value → rpc.Response
    answer id (ok v) = rpc.new_response id (some v) none
    answer id (err message) = failed rpc id internal message

    -- The block state of a result, with the messages of a handler for its two errors.
    unfoldable pub read_block_state :
        String → String → Option rpc.Value → Result String (Dict String Value)
    read_block_state unmarshalled unread result = do
      raw ← or_message unmarshalled (marshal result)
      or_message unread (unmarshal raw)

    abbrev on_system : rpc.RequestId → Result String (List String) → Option rpc.Response
    on_system id (err e) = some (failed rpc id internal e)
    on_system id (ok keys) = elim (shards_response_from_system_state keys) [
      | none ↦ none
      | some shards ↦ some (rpc.new_response id (some (shards_result shards)) none)
    ]

    -- What the error of a response says is not looked at: its result is nil.
    unfoldable pub convert_shards : rpc.RequestId → Option rpc.Value → Option rpc.Response
    unfolding read_block_state
    convert_shards id result = on_system id (do
      state ←
          read_block_state "failed compatibility conversion" "failed compatibility conversion"
            result
      or_message "failed compatibility conversion" (decode_system (lookup "System" state)))

    unfoldable pub convert_fees : rpc.RequestId → Option rpc.Value → Option rpc.Response
    unfolding read_block_state
    convert_fees id result = some (
        answer id (do
          state ←
              read_block_state "failed to marshal darknode queryBlockState for legacy assets"
                "failed unmarshal darknode queryBlockState" result
          fees ← fees_of_block_state state
          ok (fees_result fees)))

    unfoldable pub convert_state : rpc.RequestId → Option rpc.Value → Option rpc.Response
    unfolding read_block_state
    convert_state id result = some (
        answer id (do
          state ←
              read_block_state "failed marshal darknode queryBlockState"
                "failed unmarshal darknode queryBlockState" result
          shown ← state_of_block_state state
          ok (state_result shown)))

    abbrev on_wait :
        (Option rpc.Value → Option rpc.Response) → rpc.RequestId → Wait rpc → Option rpc.Response
    on_wait convert id timed_out = some (failed rpc id internal "request timed out")
    on_wait convert id (responded response) = convert (rpc.result response)

    abbrev ask_block_state :
        (Option rpc.Value → Option rpc.Response) → Call rpc → Destination × Option rpc.Response
    ask_block_state convert call =
        if not call.is_sent
        then (nowhere, some (failed rpc call.id internal "too much back pressure"))
        else (cacher, on_wait convert call.id call.wait)

    unfoldable pub query_shards : Call rpc → Destination × Option rpc.Response
    unfolding convert_shards
    query_shards call = ask_block_state (convert_shards call.id) call

    unfoldable pub query_fees : Call rpc → Destination × Option rpc.Response
    unfolding convert_fees
    query_fees call = ask_block_state (convert_fees call.id) call

    unfoldable pub query_state : Call rpc → Destination × Option rpc.Response
    unfolding convert_state
    query_state call = ask_block_state (convert_state call.id) call
