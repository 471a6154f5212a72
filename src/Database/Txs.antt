-- ===== src/Database/Txs.antt =====
-- db/db.go: the operations on the table of transactions. Where the creation times of two rows are
-- equal, SQL leaves their order open; here it is that of the table.
use lightnode.Common.{
  ℕ, ◌+◌, String, Bool, ◌&&◌, Option, none, some, List, [], ◌∷◌, ◌++◌, ltb, nat_beq, take, drop,
  filter, if◌then◌else◌,
}
use lightnode.Common.Eq.{string_eq, ◌==◌}
use lightnode.Common.Result.{Result, ok, err, ◌>>=◌}
use lightnode.Darknode.{Bytes, Tx, Darknode}
use lightnode.Database.{
  DbError, driver, no_rows, primary_key, rows_updated, nil_dereference, Columns, TxStatus, TxRow,
  Database, status_confirming,
}
use lightnode.Database.Rows.{tx_fields, tx_row, row_to_tx}

-- WHERE hash = $1
unfoldable pub find_tx : String → List TxRow → Option TxRow
find_tx hash [] = none
find_tx hash (row ∷ rows) = if row.hash == hash then some row else find_tx hash rows

-- The statement INSERT under the primary key.
unfoldable pub exec_insert : Option String → TxRow → Database → Option DbError × Database
unfolding find_tx
exec_insert (some e) row db = (some (driver e), db)
exec_insert none row db = elim (find_tx row.hash db.txs) [
  | none ↦ (none, record db { txs = db.txs ++ row ∷ [] })
  | some taken ↦ (some primary_key, db)
]

-- ORDER BY created_time: whether the first row comes before the second whatever their order is.
unfoldable pub is_before : Bool → TxRow → TxRow → Bool
is_before latest r q =
    if latest then ltb q.created_time r.created_time else ltb r.created_time q.created_time

unfoldable pub order_row : Bool → TxRow → List TxRow → List TxRow
unfolding is_before
order_row latest row [] = row ∷ []
order_row latest row (r ∷ rows) =
    if is_before latest r row then r ∷ order_row latest row rows else row ∷ r ∷ rows

unfoldable pub order_by : Bool → List TxRow → List TxRow
unfolding order_row
order_by latest [] = []
order_by latest (row ∷ rows) = order_row latest row (order_by latest rows)

-- The loops over the rows of an answer, with the early return of the first error.
unfoldable pub read_rows {ℓ} :
    {R : Type ℓ} → (R → Result DbError Tx) → List R → Result DbError (List Tx)
read_rows read [] = ok []
read_rows read (row ∷ rows) = read row >>= λ t. read_rows read rows >>= λ ts. ok (t ∷ ts)

-- The rows that UPDATE ... WHERE hash = $2 AND status < $1 changes, and their number.
unfoldable pub is_updated : String → TxStatus → TxRow → Bool
is_updated hash status row = (row.hash == hash) && ltb row.status status

unfoldable pub exec_update : String → TxStatus → List TxRow → List TxRow
unfolding is_updated
exec_update hash status [] = []
exec_update hash status (row ∷ rows) =
    (if is_updated hash status row then record row { status = status } else row)
    ∷ exec_update hash status rows

unfoldable pub rows_affected : String → TxStatus → List TxRow → ℕ
unfolding is_updated
rows_affected hash status [] = 0
rows_affected hash status (row ∷ rows) =
    if is_updated hash status row
    then rows_affected hash status rows + 1
    else rows_affected hash status rows

-- A driver's error leaves the result nil, whose RowsAffected is called all the same.
unfoldable pub update_status :
    Option String → String → TxStatus → Database → Option DbError × Database
unfolding exec_update rows_affected
update_status (some e) hash status db = (some nil_dereference, db)
update_status none hash status db =
    let updated = rows_affected hash status db.txs in
    (
      if nat_beq updated 1 then none else some (rows_updated updated),
      record db { txs = exec_update hash status db.txs },
    )

-- $1 - created_time < $3 on a row that is confirming.
unfoldable pub is_pending : ℕ → ℕ → TxRow → Bool
is_pending now expiry row =
    nat_beq row.status status_confirming && ltb now (expiry + row.created_time)

-- $1 - created_time > $2
unfoldable pub is_expired : ℕ → ℕ → TxRow → Bool
is_expired now expiry row = ltb (expiry + row.created_time) now

unfoldable pub kept : ℕ → ℕ → List TxRow → List TxRow
unfolding is_expired
kept now expiry [] = []
kept now expiry (row ∷ rows) =
    let rest = kept now expiry rows in if is_expired now expiry row then rest else row ∷ rest

unfoldable pub prune : Option String → ℕ → ℕ → Database → Option DbError × Database
unfolding kept
prune (some e) now expiry db = (some (driver e), db)
prune none now expiry db = (none, record db { txs = kept now expiry db.txs })

unfoldable pub tx_status : Option String → String → Database → Result DbError TxStatus
unfolding find_tx
tx_status (some e) hash db = err (driver e)
tx_status none hash db = elim (find_tx hash db.txs) [
  | none ↦ err no_rows
  | some row ↦ ok row.status
]

module _ (columns : Columns) where
  unfoldable pub insert_tx : Option String → ℕ → Tx → Database → Option DbError × Database
  insert_tx fault now tx db = elim (tx_fields tx.input) [
    | err e ↦ (some e, db)
    | ok i ↦ exec_insert fault (tx_row columns now tx i) db
  ]

  module _ (darknode : Darknode) where
    unfoldable pub tx : Option String → Bytes → Database → Result DbError Tx
    unfolding find_tx row_to_tx
    tx (some e) hash db = err (driver e)
    tx none hash db = elim (find_tx (columns.base64 hash) db.txs) [
      | none ↦ err no_rows
      | some row ↦ row_to_tx columns darknode row
    ]

    unfoldable pub query_txs : Option String → List TxRow → Result DbError (List Tx)
    unfolding read_rows row_to_tx
    query_txs (some e) rows = err (driver e)
    query_txs none rows = read_rows (row_to_tx columns darknode) rows

    unfoldable pub txs : Option String → ℕ → ℕ → Bool → Database → Result DbError (List Tx)
    unfolding query_txs order_by
    txs fault offset limit latest db =
        query_txs fault (take limit (drop offset (order_by latest db.txs)))

    unfoldable pub txs_by_txid : Option String → Bytes → Database → Result DbError (List Tx)
    unfolding query_txs
    txs_by_txid fault txid db =
        query_txs fault (filter (λ row. row.txid == columns.base64 txid) db.txs)

    unfoldable pub pending_txs : Option String → ℕ → ℕ → Database → Result DbError (List Tx)
    unfolding query_txs is_pending
    pending_txs fault now expiry db = query_txs fault (filter (is_pending now expiry) db.txs)
