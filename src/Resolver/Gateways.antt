-- ===== src/Resolver/Gateways.antt =====
-- resolver/resolver.go: the requests that store and read gateways, over the database of db/db.go.
-- The errors of the driver are arguments, and a panic is the answer `none`.
pub mod Accepted
use lightnode.Common.{ℕ, String, Option, none, some, ltb, if◌then◌else◌}
use lightnode.Common.Result.{Result, ok, err}
use lightnode.Darknode.{Tx, Darknode}
use lightnode.JsonRpc.{JsonRpc, internal, invalid_request}
use lightnode.Database.{DbError, no_rows, nil_dereference, Columns, Database}
use lightnode.Database.Gateways.{gateway, gateway_count, insert_gateway}
use lightnode.Resolver.{failed}
use lightnode.Resolver.Validation.{Gateway, Problem, problem, out_of_range, validate_gateway}

-- The errors that the driver reports for the three statements.
pub record Faults : Type 0 where
  pub on_read : Option String
  pub on_count : Option String
  pub on_insert : Option String

module _ (rpc : JsonRpc) (columns : Columns) (darknode : Darknode) (chain : Gateway)
    (submitted : rpc.Value) where
  abbrev pub Answered : Type 0
  Answered = Option (rpc.Response × Database)

  unfoldable pub refuse : rpc.RequestId → Database → Answered
  refuse id db = some (failed rpc id internal "failed to insert gateway", db)

  unfoldable pub accept : rpc.RequestId → Database → Answered
  accept id db = some (rpc.new_response id (some submitted) none, db)

  abbrev pub on_insertion : rpc.RequestId → Option DbError × Database → Answered
  on_insertion id (some e, db) = refuse id db
  on_insertion id (none, db) = accept id db

  module _ (faults : Faults) (now : ℕ) (id : rpc.RequestId) where
    abbrev pub on_count : String → Tx → Database → Result DbError ℕ → Answered
    on_count address tx db (err e) = refuse id db
    on_count address tx db (ok count) =
        if ltb db.max_gateway_count count
        then refuse id db
        else on_insertion id (insert_gateway columns faults.on_insert now address tx db)

    -- A gateway that is there already is kept.
    abbrev pub on_existing : String → Tx → Database → Result DbError Tx → Answered
    on_existing address tx db (ok found) = accept id db
    on_existing address tx db (err no_rows) =
        on_count address tx db (gateway_count faults.on_count db)
    on_existing address tx db (err nil_dereference) = none
    on_existing address tx db (err e) = refuse id db

    abbrev pub on_validation : String → Tx → Database → Result Problem (Unit {0}) → Answered
    on_validation address tx db (err out_of_range) = none
    on_validation address tx db (err (problem e)) =
        some (failed rpc id invalid_request "Incorrect gateway tx", db)
    on_validation address tx db (ok _) =
        on_existing address tx db (gateway columns darknode faults.on_read address db)

    abbrev pub on_input : String → Tx → Database → Result String chain.Input → Answered
    on_input address tx db (err e) = some (failed rpc id invalid_request "Incorrect gateway tx", db)
    on_input address tx db (ok input) =
        on_validation address tx db (validate_gateway darknode chain address tx input)

    unfoldable pub submit_gateway : String → Tx → Database → Answered
    submit_gateway address tx db = on_input address tx db (chain.decode_input tx.input)
