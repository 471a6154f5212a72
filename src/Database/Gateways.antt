-- ===== src/Database/Gateways.antt =====
-- db/db.go: the operations on the table of gateways.
use lightnode.Common.{
  ℕ, String, Option, none, some, List, [], ◌∷◌, ◌++◌, ltb, length, take, drop, if◌then◌else◌,
}
use lightnode.Common.Eq.{string_eq, ◌==◌}
use lightnode.Common.Result.{Result, ok, err}
use lightnode.Darknode.{Tx, Darknode}
use lightnode.Database.{DbError, driver, no_rows, primary_key, Columns, GatewayRow, Database}
use lightnode.Database.Rows.{gateway_fields, gateway_row, row_to_gateway}
use lightnode.Database.Txs.{read_rows}

unfoldable pub find_gateway : String → List GatewayRow → Option GatewayRow
find_gateway address [] = none
find_gateway address (row ∷ rows) =
    if row.gateway_address == address then some row else find_gateway address rows

unfoldable pub exec_insert_gateway :
    Option String → GatewayRow → Database → Option DbError × Database
unfolding find_gateway
exec_insert_gateway (some e) row db = (some (driver e), db)
exec_insert_gateway none row db = elim (find_gateway row.gateway_address db.gateways) [
  | none ↦ (none, record db { gateways = db.gateways ++ row ∷ [] })
  | some taken ↦ (some primary_key, db)
]

-- ORDER BY created_time DESC
unfoldable pub order_gateway : GatewayRow → List GatewayRow → List GatewayRow
order_gateway row [] = row ∷ []
order_gateway row (r ∷ rows) =
    if ltb row.created_time r.created_time then r ∷ order_gateway row rows else row ∷ r ∷ rows

unfoldable pub latest_gateways : List GatewayRow → List GatewayRow
unfolding order_gateway
latest_gateways [] = []
latest_gateways (row ∷ rows) = order_gateway row (latest_gateways rows)

-- The count, or -1 with the error of the driver.
unfoldable pub gateway_count : Option String → Database → Result DbError ℕ
gateway_count (some e) db = err (driver e)
gateway_count none db = ok (length db.gateways)

module _ (columns : Columns) where
  unfoldable pub insert_gateway :
      Option String → ℕ → String → Tx → Database → Option DbError × Database
  insert_gateway fault now address tx db = elim (gateway_fields tx.input) [
    | err e ↦ (some e, db)
    | ok i ↦ exec_insert_gateway fault (gateway_row columns now address tx i) db
  ]

  module _ (darknode : Darknode) where
    unfoldable pub gateway : Option String → String → Database → Result DbError Tx
    unfolding find_gateway row_to_gateway
    gateway (some e) address db = err (driver e)
    gateway none address db = elim (find_gateway address db.gateways) [
      | none ↦ err no_rows
      | some row ↦ row_to_gateway columns darknode row
    ]

    unfoldable pub gateways : Option String → ℕ → ℕ → Database → Result DbError (List Tx)
    unfolding latest_gateways read_rows row_to_gateway
    gateways (some e) offset limit db = err (driver e)
    gateways none offset limit db =
        read_rows (row_to_gateway columns darknode)
          (take limit (drop offset (latest_gateways db.gateways)))
