-- ===== src/Confirmer/Polling.antt =====
-- When a poll changes the status of a transaction.
use lightnode.Common.{
  ◌<◌, String, ◌≡◌, ◌≢◌, refl, ◌∙◌, ap, true, false, Option, none, some, arith, Option-cases, inl,
  inr,
}
use lightnode.Common.Eq.{string_eq, ==_iff}
use lightnode.JsonRpc.{Error}
use lightnode.Darknode.{Bytes, LockInput, Tx, Darknode}
use lightnode.Database.{Columns, TxRow, Database, status_confirmed}
use lightnode.Database.Txs.{find_tx, exec_update, update_status, is_updated}
use lightnode.Database.Status.{find_tx-hash}
use lightnode.Database.Invariant.{raised?, find_tx-exec_update}
use lightnode.Confirmer.{
  Chains, ConfirmerState, responded, contains, is_submitted, mark_confirmed, on_submission, confirm,
  on_utxo, lock_tx_confirmed, nonce_of, burn_tx_confirmed, tx_confirmed, check_tx,
}

module _ (columns : Columns) (chains : Chains) (darknode : Darknode) where
  -- No chain vouches for a transaction: its lookup answers an error, other than that the output is
  -- spent.
  pub record IsUnconfirmed (tx : Tx) : Type 0 where
    pub utxo :
        (i : LockInput)
        → chains.decode tx.input ≡ some i
        → (e : String) × (chains.utxo_lock_info tx.selector i.txid i.txindex ≡ some e)
          × (contains e "result is nil" ≡ false)
    pub account :
        (i : LockInput)
        → chains.decode tx.input ≡ some i
        → chains.account_lock_info tx.selector i.txid ≢ none
    pub burn :
        (n : Bytes)
        → nonce_of columns chains tx.input ≡ some n
        → chains.account_burn_info tx.selector n ≢ none

  lock-unconfirmed :
      (fault : Option String) (tx : Tx) (db : Database)
      → IsUnconfirmed tx
      → lock_tx_confirmed columns chains fault tx db ≡ (false, (none, db))
  unfolding lock_tx_confirmed on_utxo
  lock-unconfirmed fault tx db u = elim (Option-cases (chains.decode tx.input)) [
    | inl p ↦ ground (arith, p)
    | inr (i, p) ↦ let spent = u.utxo i p in ground (arith, p, spent.1, spent.2, u.account i p)
  ]

  burn-unconfirmed :
      (tx : Tx) (db : Database)
      → IsUnconfirmed tx
      → burn_tx_confirmed columns chains tx db ≡ (false, (none, db))
  unfolding burn_tx_confirmed
  burn-unconfirmed tx db u = elim (Option-cases (nonce_of columns chains tx.input)) [
    | inl p ↦ ground (arith, p)
    | inr (n, p) ↦ ground (arith, p, u.burn n p)
  ]

  -- A transaction that no chain vouches for is neither sent to the dispatcher nor marked.
  pub unconfirmed_kept :
      (fault : Option String) (tx : Tx) (s : ConfirmerState)
      → IsUnconfirmed tx
      → check_tx columns chains darknode fault tx s ≡ (none, s)
  unfolding check_tx tx_confirmed
  unconfirmed_kept fault tx s u =
      ground (arith, lock-unconfirmed fault tx s.database u, burn-unconfirmed tx s.database u)

  confirm-marks :
      (tx : Tx) (s : ConfirmerState) (answer : Option Error)
      → chains.marshal_error tx ≡ none
      → chains.dispatch tx ≡ responded answer
      → is_submitted answer ≡ true
      → (confirm columns chains none tx s).1.database
        ≡ (mark_confirmed columns chains none tx s.database).1
  unfolding confirm on_submission
  confirm-marks tx s answer marshalled sent accepted =
      rw (marshalled, confirm) (rw sent (rw (accepted, on_submission) refl))

  check_tx-marks :
      (tx : Tx) (s : ConfirmerState) (answer : Option Error)
      → tx_confirmed columns chains darknode none tx s.database ≡ (true, (none, s.database))
      → chains.marshal_error tx ≡ none
      → chains.dispatch tx ≡ responded answer
      → is_submitted answer ≡ true
      → (check_tx columns chains darknode none tx s).1.database.txs
        ≡ exec_update (columns.base64 tx.hash) status_confirmed s.database.txs
  unfolding check_tx update_status
  check_tx-marks tx s answer seen marshalled sent accepted =
      rw seen (ap (λ d. d.txs) (confirm-marks tx s answer marshalled sent accepted))

  raised-stored :
      (tx : Tx) (row : TxRow) (db : Database)
      → find_tx (columns.base64 tx.hash) db.txs ≡ some row
      → row.status < status_confirmed
      → raised? (columns.base64 tx.hash) status_confirmed (find_tx (columns.base64 tx.hash) db.txs)
        ≡ some (record row { status = status_confirmed })
  unfolding is_updated
  raised-stored tx row db stored lower = ground (
    arith,
    stored,
    lower,
    find_tx-hash (columns.base64 tx.hash) db.txs row stored,
    ==_iff row.hash (columns.base64 tx.hash),
  )

  -- A confirmed lock or burn that the Darknodes accept has the status confirmed afterwards, where it
  -- was stored with a lower one.
  pub confirmed_marked :
      (tx : Tx) (row : TxRow) (s : ConfirmerState) (answer : Option Error)
      → tx_confirmed columns chains darknode none tx s.database ≡ (true, (none, s.database))
      → chains.marshal_error tx ≡ none
      → chains.dispatch tx ≡ responded answer
      → is_submitted answer ≡ true
      → find_tx (columns.base64 tx.hash) s.database.txs ≡ some row
      → row.status < status_confirmed
      → find_tx (columns.base64 tx.hash) (check_tx columns chains darknode none tx s).1.database.txs
        ≡ some (record row { status = status_confirmed })
  confirmed_marked tx row s answer seen marshalled sent accepted stored lower =
      ap (find_tx (columns.base64 tx.hash))
        (check_tx-marks tx s answer seen marshalled sent accepted)
      ∙ (find_tx-exec_update (columns.base64 tx.hash) (columns.base64 tx.hash) status_confirmed
            s.database.txs
          ∙ raised-stored tx row s.database stored lower)
