-- ===== src/Resolver/Queries.antt =====
-- resolver/resolver.go: the requests that read the database, and ren_queryTx, which asks the
-- Darknodes for what the database does not answer. A panic is the answer `none`.
pub mod Local
use lightnode.Common.{
  ℕ, String, Bool, true, false, not, ◌&&◌, Option, none, some, List, nat_beq, if◌then◌else◌,
}
use lightnode.Common.Eq.{string_eq, bytes_eq, ◌==◌}
use lightnode.Common.Result.{Result, ok, err}
use lightnode.Darknode.{Bytes, Selector, Tx, Darknode}
use lightnode.JsonRpc.{JsonRpc, Error, internal, invalid_params}
use lightnode.Database.{
  DbError, no_rows, nil_dereference, Columns, Database, TxStatus, status_confirmed,
}
use lightnode.Database.Txs.{tx, tx_status, txs, txs_by_txid}
use lightnode.Database.Gateways.{gateway}
use lightnode.Resolver.{Destination, nowhere, cacher, Wait, timed_out, responded, Call, failed}

-- The answer of the mapping store for a hash of version 0.
pub data Mapping : Type 0 where
  unmapped : Mapping
  mapped : Bytes → Mapping
  unreadable : String → Mapping

-- What the queries use of other packages: transactions of version 0, and the results of
-- ren_queryTx, which are marshalled and read back. `executing` sets the status of a result.
pub record Results (rpc : JsonRpc) : Type 1 where
  pub V0Tx : Type 0
  pub QueryTx : Type 0
  pub tx_from_v1_tx : Tx → Bool → Result String V0Tx
  -- What the conversion has made of a transaction when it fails.
  pub partial_v0_tx : Tx → V0Tx
  pub read_query_tx : Option rpc.Value → Option QueryTx
  pub tx_of : QueryTx → Tx
  pub is_intrinsic : Selector → Bool
  pub has_no_output : QueryTx → Bool
  pub executing : QueryTx → QueryTx
  pub confirming : Tx → QueryTx
  pub status_text : QueryTx → String
  pub confirming_text : String
  pub result_of : QueryTx → rpc.Value
  pub v0_result_of : V0Tx → String → rpc.Value
  pub tx_result : Tx → rpc.Value
  pub txs_result : List Tx → rpc.Value

module _ (rpc : JsonRpc) (results : Results rpc) (columns : Columns) (darknode : Darknode) where
  abbrev pub on_txs : rpc.RequestId → String → Result DbError (List Tx) → Option rpc.Response
  on_txs id message (ok found) = some (rpc.new_response id (some (results.txs_result found)) none)
  on_txs id message (err nil_dereference) = none
  on_txs id message (err e) = some (failed rpc id internal message)

  abbrev pub on_gateway : rpc.RequestId → Result DbError Tx → Option rpc.Response
  on_gateway id (ok found) = some (rpc.new_response id (some (results.tx_result found)) none)
  on_gateway id (err nil_dereference) = none
  on_gateway id (err e) = some (failed rpc id internal "failed to query txid")

  unfoldable pub query_gateway :
      Option String → rpc.RequestId → String → Database → Option rpc.Response
  query_gateway fault id address db = on_gateway id (gateway columns darknode fault address db)

  unfoldable pub query_tx_by_txid :
      Option String → rpc.RequestId → Bytes → Database → Option rpc.Response
  query_tx_by_txid fault id txid db =
      on_txs id "failed to query txid" (txs_by_txid columns darknode fault txid db)

  abbrev or_default {ℓ} : {A : Type ℓ} → A → Option A → A
  or_default a none = a
  or_default a (some b) = b

  unfoldable pub query_txs :
      Option String
      → rpc.RequestId
      → Option ℕ
      → Option ℕ
      → Option Bool
      → Database
      → Option rpc.Response
  query_txs fault id offset limit latest db = on_txs id "failed to fetch txs" (
      txs columns darknode fault (or_default 0 offset) (or_default 8 limit)
        (or_default false latest) db)

  -- The transaction of the database, in the version of the query. The error of the conversion is
  -- ignored.
  abbrev pub v0_or_partial : Tx → Result String results.V0Tx → results.V0Tx
  v0_or_partial t (ok v0tx) = v0tx
  v0_or_partial t (err e) = results.partial_v0_tx t

  unfoldable pub confirming_response : rpc.RequestId → Bool → Tx → rpc.Response
  confirming_response id is_v0 t =
      rpc.new_response id
        (some (
          if is_v0
          then results.v0_result_of (v0_or_partial t (results.tx_from_v1_tx t false))
              results.confirming_text
          else results.result_of (results.confirming t)))
        none

  -- The response of the Darknodes, in the version of the query.
  abbrev pub on_v0 : rpc.RequestId → results.QueryTx → Result String results.V0Tx → rpc.Response
  on_v0 id found (err e) = failed rpc id internal "failed to cast v1 to v0 tx"
  on_v0 id found (ok v0tx) =
      rpc.new_response id (some (results.v0_result_of v0tx (results.status_text found))) none

  unfoldable pub with_status : results.QueryTx → results.QueryTx
  with_status found =
      if not (results.is_intrinsic (results.tx_of found).selector) && results.has_no_output found
      then results.executing found
      else found

  abbrev pub on_found : rpc.RequestId → Bool → results.QueryTx → rpc.Response
  on_found id is_v0 found =
      if is_v0
      then on_v0 id found (results.tx_from_v1_tx (results.tx_of found) true)
      else rpc.new_response id (some (results.result_of found)) none

  abbrev pub on_read :
      rpc.RequestId → Bool → Bytes → rpc.Response → Option results.QueryTx → rpc.Response
  on_read id is_v0 hash response none = response
  on_read id is_v0 hash response (some found) =
      if not ((results.tx_of found).hash == hash)
      then response
      else on_found id is_v0 (with_status found)

  abbrev pub on_error : rpc.RequestId → Bool → Bytes → rpc.Response → Option Error → rpc.Response
  on_error id is_v0 hash response (some e) = rpc.new_response id none (some e)
  on_error id is_v0 hash response none =
      on_read id is_v0 hash response (results.read_query_tx (rpc.result response))

  abbrev pub on_wait : rpc.RequestId → Bool → Bytes → Wait rpc → rpc.Response
  on_wait id is_v0 hash timed_out = failed rpc id internal "request timed out"
  on_wait id is_v0 hash (responded response) = on_error id is_v0 hash response (rpc.error response)

  unfoldable pub ask_darknodes : Call rpc → Bool → Bytes → Destination × rpc.Response
  ask_darknodes call is_v0 hash =
      if not call.is_sent
      then (nowhere, failed rpc call.id internal "too much back pressure")
      else (cacher, on_wait call.id is_v0 hash call.wait)

  module _ (call : Call rpc) (status_fault tx_fault : Option String) (db : Database) where
    abbrev pub Queried : Type 0
    Queried = Option (Destination × rpc.Response)

    abbrev pub on_tx : Bool → Bytes → Result DbError Tx → Queried
    on_tx is_v0 hash (ok t) = some (nowhere, confirming_response call.id is_v0 t)
    on_tx is_v0 hash (err nil_dereference) = none
    on_tx is_v0 hash (err e) = some (ask_darknodes call is_v0 hash)

    -- A transaction that is not confirmed is read from the database.
    abbrev pub unless_confirmed : Bool → Bytes → TxStatus → Queried
    unless_confirmed is_v0 hash status =
        if not (nat_beq status status_confirmed)
        then on_tx is_v0 hash (tx columns darknode tx_fault hash db)
        else some (ask_darknodes call is_v0 hash)

    abbrev pub on_status : Bool → Bytes → Result DbError TxStatus → Queried
    on_status is_v0 hash (ok status) = unless_confirmed is_v0 hash status
    on_status is_v0 hash (err no_rows) = unless_confirmed is_v0 hash 0
    on_status is_v0 hash (err e) =
        some (nowhere, failed rpc call.id internal "failed to read tx from db")

    abbrev pub on_updated : Bool → Bytes → Result String Bytes → Queried
    on_updated is_v0 hash (ok new) =
        on_status is_v0 new (tx_status status_fault (columns.base64 new) db)
    on_updated is_v0 hash (err e) =
        on_status is_v0 hash (tx_status status_fault (columns.base64 hash) db)

    abbrev pub on_mapping : (Bytes → Result String Bytes) → Bytes → Mapping → Queried
    on_mapping updated_hash hash unmapped = on_updated false hash (updated_hash hash)
    on_mapping updated_hash hash (mapped v1_hash) = on_updated true v1_hash (updated_hash v1_hash)
    on_mapping updated_hash hash (unreadable e) =
        some (nowhere, failed rpc call.id internal "failed to read tx mapping from store")

    -- With the answers of the two stores of hashes.
    unfoldable pub query_tx : (Bytes → Mapping) → (Bytes → Result String Bytes) → Bytes → Queried
    query_tx v1_hash updated_hash hash = on_mapping updated_hash hash (v1_hash hash)

  abbrev pub or_invalid {ℓ} :
      {A : Type ℓ} → rpc.RequestId → (rpc.Response → A) → Result String A → A
  or_invalid id reply (ok answer) = answer
  or_invalid id reply (err e) = reply (failed rpc id invalid_params e)

  -- Fallback, with the answers of the three handlers where the JSON of their parameters is read.
  unfoldable pub fallback {ℓ} :
      {A : Type ℓ}
      → rpc.RequestId
      → (rpc.Response → A)
      → String
      → Result String A
      → Result String A
      → Result String A
      → A
  fallback id reply method submit query by_txid =
      if method == "ren_submitGateway"
      then or_invalid id reply submit
      else if method == "ren_queryGateway"
      then or_invalid id reply query
      else if method == "ren_queryTxsByTxid"
      then or_invalid id reply by_txid
      else reply (rpc.new_response id none none)
