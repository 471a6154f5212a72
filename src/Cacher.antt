-- ===== src/Cacher.antt =====
-- cacher/cacher.go: responses are kept in a table whose entries expire, under a key made of the
-- hash of the request and of the Darknode that it asks for.
pub mod Specification
use lightnode.Common.{
  String, Bool, true, false, not, Option, none, some, List, [], ◌∷◌, ◌++◌, ◌≡◌, ◌≢◌, ◌⊎◌,
  if◌then◌else◌,
}
use lightnode.Common.Eq.{string_eq, ◌==◌}
use lightnode.Common.Result.{Result, ok, err}
use lightnode.Darknode.{Bytes}
use lightnode.JsonRpc.{JsonRpc, Error, invalid_params}

-- The table (github.com/renproject/kv with a time to live): what is read under a key was the last
-- value that was written there, unless it has expired.
pub record TtlTable (V : Type 0) : Type 1 where
  pub State : Type 0
  pub get_value : String → State → Option V
  pub put_value : String → V → State → Option String × State
  pub expire : State → State
  pub get-put :
      (k : String) (v : V) (s : State)
      → (put_value k v s).0 ≡ none
      → get_value k (put_value k v s).1 ≡ some v
  pub put_sound :
      (k j : String) (v w : V) (s : State)
      → get_value j (put_value k v s).1 ≡ some w
      → ((k ≡ j) × (v ≡ w)) ⊎ (get_value j s ≡ some w)
  pub expire_sound :
      (j : String) (w : V) (s : State) → get_value j (expire s) ≡ some w → get_value j s ≡ some w

-- What the cacher uses of other packages: the JSON of parameters, the hash, the concatenation of
-- texts, and the results of ren_queryTx, which are marshalled and read back. `with_v1_output`
-- replaces the output by its form of version 1.
pub record Requests (rpc : JsonRpc) : Type 1 where
  pub Params : Type 0
  pub QueryTx : Type 0
  pub Output : Type 0
  pub marshal_params : Params → Result String Bytes
  pub codes_of : String → Bytes
  pub sha3 : Bytes → Bytes
  pub hex : Bytes → String
  pub append : String → String → String
  pub read_query_tx : Option rpc.Value → Option QueryTx
  pub is_cross_chain : QueryTx → Bool
  pub has_no_output : QueryTx → Bool
  pub decode_output : QueryTx → Option Output
  pub no_revert : Output → Bool
  pub with_v1_output : QueryTx → Output → QueryTx
  pub result_of : QueryTx → rpc.Value

abbrev pub method_submit_tx : String
method_submit_tx = "ren_submitTx"

abbrev pub method_query_tx : String
method_query_tx = "ren_queryTx"

module _ (rpc : JsonRpc) (requests : Requests rpc) where
  -- A request, with the Darknode that its query asks for, empty where it asks for none.
  pub record Request : Type 0 where
    pub id : rpc.RequestId
    pub method : String
    pub params : requests.Params
    pub darknode_id : String

  unfoldable pub request_id : Bytes → String → Bytes
  request_id params_bytes method = requests.sha3 (params_bytes ++ requests.codes_of method)

  unfoldable pub cache_key : Bytes → String → String
  cache_key req_id darknode_id = requests.append (requests.hex req_id) darknode_id

  -- Whether the response is kept out of the cache, and the response, which may be replaced.
  abbrev on_output :
      Request → requests.QueryTx → rpc.Response → Option requests.Output → Bool × rpc.Response
  on_output msg found response none = (false, response)
  on_output msg found response (some output) =
      if requests.no_revert output
      then (
        false,
        rpc.new_response msg.id (some (requests.result_of (requests.with_v1_output found output)))
            none,
      )
      else (false, response)

  abbrev on_query_tx : Request → rpc.Response → Option requests.QueryTx → Bool × rpc.Response
  on_query_tx msg response none = (true, response)
  on_query_tx msg response (some found) =
      if not (requests.is_cross_chain found)
      then (false, response)
      else if requests.has_no_output found
      then (true, response)
      else on_output msg found response (requests.decode_output found)

  abbrev unless_error : Request → rpc.Response → Option Error → Bool × rpc.Response
  unless_error msg response (some e) = (false, response)
  unless_error msg response none =
      on_query_tx msg response (requests.read_query_tx (rpc.result response))

  unfoldable pub skip_cache : Request → rpc.Response → Bool × rpc.Response
  skip_cache msg response =
      if msg.method == method_query_tx
      then unless_error msg response (rpc.error response)
      else (false, response)

  module _ (table : TtlTable rpc.Response) where
    -- An error of the table is logged.
    unfoldable pub insert_response : Bytes → String → rpc.Response → table.State → table.State
    insert_response req_id darknode_id response s =
        (table.put_value (cache_key req_id darknode_id) response s).1

    unfoldable pub cached_response : Bytes → String → table.State → Option rpc.Response
    cached_response req_id darknode_id s = table.get_value (cache_key req_id darknode_id) s

    -- A request is answered, or goes on to the dispatcher under its request id.
    pub data Outcome : Type 0 where
      answered : rpc.Response → Outcome
      dispatched : Bytes → Outcome

    abbrev pub or_dispatch : Bytes → Option rpc.Response → Outcome
    or_dispatch req_id none = dispatched req_id
    or_dispatch req_id (some response) = answered response

    abbrev pub on_marshalled : Request → table.State → Result String Bytes → Outcome
    on_marshalled msg s (err e) =
        answered (rpc.new_response msg.id none (some record { code = invalid_params; message = e }))
    on_marshalled msg s (ok params_bytes) =
        let req_id = request_id params_bytes msg.method in
        if msg.method == method_submit_tx
        then dispatched req_id
        else or_dispatch req_id (cached_response req_id msg.darknode_id s)

    unfoldable pub handle : Request → table.State → Outcome
    handle msg s = on_marshalled msg s (requests.marshal_params msg.params)

    -- The goroutine of `dispatch`, with the response of the dispatcher: what is sent to the client,
    -- and the table.
    unfoldable pub on_response :
        Bytes → Request → rpc.Response → table.State → rpc.Response × table.State
    on_response req_id msg response s =
        let skipped = skip_cache msg response in
        let stored = insert_response req_id msg.darknode_id skipped.1 s in
        (skipped.1, if skipped.0 then s else stored)
