-- ===== src/TxChecker/Duplicates.antt =====
-- A transaction that is submitted twice.
use lightnode.Common.{ℕ, String, ◌≡◌, ◌∙◌, sym, refl, Option, none, length, arith}
use lightnode.Common.Result.{ok, err}
use lightnode.Darknode.{LockInput, Tx, Darknode}
use lightnode.Database.{Columns, Database, no_rows}
use lightnode.Database.Rows.{tx_fields}
use lightnode.Database.Txs.{find_tx, tx, insert_tx}
use lightnode.Database.RoundTrip.{HasSizes, read_back, tx-insert_tx}
use lightnode.TxChecker.{on_read, check_duplicate}

module _ (columns : Columns) (darknode : Darknode) where
  tx-absent :
      (t : Tx) (db : Database)
      → find_tx (columns.base64 t.hash) db.txs ≡ none
      → tx columns darknode none t.hash db ≡ err no_rows
  unfolding tx
  tx-absent t db h = ground (arith, h)

  check_duplicate-inserts :
      (fault : Option String) (now : ℕ) (t : Tx) (db : Database)
      → find_tx (columns.base64 t.hash) db.txs ≡ none
      → check_duplicate columns darknode none fault now t db ≡ insert_tx columns fault now t db
  unfolding check_duplicate on_read
  check_duplicate-inserts fault now t db h = rw (tx-absent t db h) refl

  -- A new transaction that was stored, and that reads back as a transaction, is not stored again: at
  -- any later time its submission succeeds and leaves the database as it is.
  pub check_duplicate_again :
      (fault later_fault : Option String) (now later : ℕ) (t restored : Tx) (i : LockInput)
      (db next : Database)
      → find_tx (columns.base64 t.hash) db.txs ≡ none
      → length t.hash ≡ 32
      → HasSizes i
      → tx_fields t.input ≡ ok i
      → read_back columns darknode t i ≡ ok restored
      → check_duplicate columns darknode none fault now t db ≡ (none, next)
      → check_duplicate columns darknode none later_fault later t next ≡ (none, next)
  unfolding check_duplicate on_read
  check_duplicate_again fault later_fault now later t restored i db next new size sizes fields back
        h =
      rw
        (tx-insert_tx columns darknode fault now t i db next size sizes fields
            (sym (check_duplicate-inserts fault now t db new) ∙ h)
          ∙ back)
        refl
