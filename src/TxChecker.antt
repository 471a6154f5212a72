-- ===== src/TxChecker.antt =====
-- resolver/txChecker.go: a transaction that is submitted is verified, and stored unless it is there
-- already. The mutex makes each check of duplicates one step.
pub mod Duplicates
use lightnode.Common.{ℕ, String, Option, none, some}
use lightnode.Common.Result.{Result, ok, err}
use lightnode.Darknode.{Tx, Darknode}
use lightnode.Database.{DbError, no_rows, Columns, Database}
use lightnode.Database.Txs.{tx, insert_tx}

-- The answer to the request: an empty response, or an error with its code.
pub data Answer : Type 0 where
  submitted : Answer
  invalid_tx : String → Answer
  internal_error : DbError → Answer

module _ (columns : Columns) (darknode : Darknode) where
  -- An error of the read is returned, except that there is no such row.
  unfoldable pub on_read :
      Option String → ℕ → Tx → Database → Result DbError Tx → Option DbError × Database
  on_read fault now t db (ok found) = (none, db)
  on_read fault now t db (err no_rows) = insert_tx columns fault now t db
  on_read fault now t db (err e) = (some e, db)

  -- With the errors of the driver in the read and in the insertion.
  unfoldable pub check_duplicate :
      Option String → Option String → ℕ → Tx → Database → Option DbError × Database
  check_duplicate read_fault fault now t db =
      on_read fault now t db (tx columns darknode read_fault t.hash db)

  abbrev pub answer_of : Option DbError → Answer
  answer_of none = submitted
  answer_of (some e) = internal_error e

  -- One request, with the answer of VerifyTx.
  unfoldable pub check_request :
      Option String → Option String → Option String → ℕ → Tx → Database → Answer × Database
  check_request (some e) read_fault fault now t db = (invalid_tx e, db)
  check_request none read_fault fault now t db =
      let checked = check_duplicate read_fault fault now t db in (answer_of checked.0, checked.1)
