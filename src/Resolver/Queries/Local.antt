-- ===== src/Resolver/Queries/Local.antt =====
-- ren_queryTx of resolver/resolver.go on the transactions that the lightnode has stored.
use lightnode.Common.Eq.{string_eq, ◌==◌, ==_iff, ==_refl}
use lightnode.Common.{
  ◌<◌, ◌∙◌, ℕ, ◌≡◌, refl, ap, String, false, Option, none, some, length, arith, if◌then◌else◌,
}
use lightnode.Common.Result.{Result, ok, err}
use lightnode.Darknode.{Bytes, LockInput, Tx, Darknode}
use lightnode.JsonRpc.{JsonRpc}
use lightnode.Database.{Columns, Database, TxRow, status_confirmed, status_confirming}
use lightnode.Database.Rows.{tx_fields, tx_row}
use lightnode.Database.Txs.{tx_status, insert_tx, update_status, find_tx, is_updated}
use lightnode.Database.RoundTrip.{HasSizes, read_back, tx-insert_tx, insert_tx-find}
use lightnode.Database.Invariant.{IsUnique, raised?}
use lightnode.Database.Status.{update_status_lem}
use lightnode.Resolver.{nowhere, Call}
use lightnode.Resolver.Queries.{
  Mapping, Results, confirming_response, ask_darknodes, query_tx, unmapped,
}

module _ (rpc : JsonRpc) (results : Results rpc) (columns : Columns) (darknode : Darknode)
    (call : Call rpc) (v1_hash : Bytes → Mapping) (updated_hash : Bytes → Result String Bytes) where
  status-find_tx :
      (hash : String) (row : TxRow) (db : Database)
      → find_tx hash db.txs ≡ some row
      → tx_status none hash db ≡ ok row.status
  unfolding tx_status
  status-find_tx hash row db h = rw (h, tx_status) refl

  status-insert_tx :
      (fault : Option String) (now : ℕ) (t : Tx) (i : LockInput) (db next : Database)
      → tx_fields t.input ≡ ok i
      → insert_tx columns fault now t db ≡ (none, next)
      → tx_status none (columns.base64 t.hash) next ≡ ok status_confirming
  unfolding tx_row
  status-insert_tx fault now t i db next fields h =
      status-find_tx (columns.base64 t.hash) (tx_row columns now t i) next
        (insert_tx-find columns fault now t i db next fields h)

  -- A transaction that was stored is the answer to ren_queryTx, as one that is confirming and
  -- without a request to the Darknodes.
  pub query_tx-insert_tx :
      (fault : Option String) (now : ℕ) (t stored : Tx) (i : LockInput) (e : String)
      (db next : Database)
      → length t.hash ≡ 32
      → HasSizes i
      → tx_fields t.input ≡ ok i
      → insert_tx columns fault now t db ≡ (none, next)
      → read_back columns darknode t i ≡ ok stored
      → v1_hash t.hash ≡ unmapped
      → updated_hash t.hash ≡ err e
      → query_tx rpc results columns darknode call none none next v1_hash updated_hash t.hash
        ≡ some (nowhere, confirming_response rpc results columns darknode call.id false stored)
  unfolding query_tx
  query_tx-insert_tx fault now t stored i e db next size sizes fields h back no_mapping no_update =
      rw
        (
          no_mapping,
          no_update,
          status-insert_tx fault now t i db next fields h,
          tx-insert_tx columns darknode fault now t i db next size sizes fields h,
          back,
        )
        refl

  own_row : {A : Type 0} (hash : String) (a b : A) → (if hash == hash then a else b) ≡ a
  own_row hash a b = rw (==_refl hash) refl

  raised_status :
      (hash : String) (row : TxRow)
      → row.hash ≡ hash
      → row.status < status_confirmed
      → raised? hash status_confirmed (some row) ≡ some (record row { status = status_confirmed })
  unfolding is_updated
  raised_status hash row same low = ground (arith, same, low, ==_iff row.hash hash)

  status-update_status :
      (hash : String) (row : TxRow) (db next : Database)
      → IsUnique db.txs
      → find_tx hash db.txs ≡ some row
      → row.hash ≡ hash
      → row.status < status_confirmed
      → update_status none hash status_confirmed db ≡ (none, next)
      → tx_status none hash next ≡ ok status_confirmed
  status-update_status hash row db next u found same low h =
      status-find_tx hash (record row { status = status_confirmed }) next
        (update_status_lem hash hash status_confirmed db next u h
          ∙ own_row hash (raised? hash status_confirmed (find_tx hash db.txs)) (find_tx hash db.txs)
          ∙ ap (raised? hash status_confirmed) found
          ∙ raised_status hash row same low)

  -- Once a stored transaction has been marked as confirmed, ren_queryTx asks the Darknodes for it.
  pub query_tx-update_status :
      (fault : Option String) (now : ℕ) (t : Tx) (i : LockInput) (e : String)
      (db next final : Database)
      → tx_fields t.input ≡ ok i
      → insert_tx columns fault now t db ≡ (none, next)
      → IsUnique next.txs
      → update_status none (columns.base64 t.hash) status_confirmed next ≡ (none, final)
      → v1_hash t.hash ≡ unmapped
      → updated_hash t.hash ≡ err e
      → query_tx rpc results columns darknode call none none final v1_hash updated_hash t.hash
        ≡ some (ask_darknodes rpc results columns darknode call false t.hash)
  unfolding query_tx tx_row
  query_tx-update_status fault now t i e db next final fields h u updated no_mapping no_update =
      rw
        (
          no_mapping,
          no_update,
          status-update_status (columns.base64 t.hash) (tx_row columns now t i) next final u
              (insert_tx-find columns fault now t i db next fields h) refl (omega arith) updated,
        )
        refl
