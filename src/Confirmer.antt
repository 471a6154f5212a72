-- ===== src/Confirmer.antt =====
-- confirmer/confirmer.go: pending transactions are submitted to the Darknodes once their chain has
-- confirmed them. Every transaction of a poll is handled in one step, in the order of the query.
-- The result of a step is the error that the code logs, if any, with the database or with the state.
pub mod Polling
use text.Mathlib.Text.{find?}
use lightnode.Common.{
  ℕ, ◌*◌, String, Bool, true, false, ◌||◌, Option, none, some, List, [], ◌∷◌, if◌then◌else◌,
}
use lightnode.Common.Dict.{lookup}
use lightnode.Common.Eq.{string_eq}
use lightnode.Common.Result.{Result, ok, err}
use lightnode.JsonRpc.{Error}
use lightnode.Darknode.{Bytes, Selector, Typed, LockInput, Tx, Darknode}
use lightnode.Database.{DbError, Columns, Database, status_confirmed}
use lightnode.Database.Rows.{as_bytes32}
use lightnode.Database.Txs.{update_status, prune, pending_txs}

-- What becomes of a request that is sent to the dispatcher.
pub data Submission : Type 0 where
  back_pressure timed_out : Submission
  responded : Option Error → Submission

-- The chains (binding.Bindings, with the source and asset of a selector), pack.Decode, json.Marshal
-- and the dispatcher. A lookup on a chain answers an error, or none where the chain has confirmed.
pub record Chains : Type 0 where
  pub is_utxo_based : Selector → Bool
  pub is_account_based : Selector → Bool
  pub decode : Typed → Option LockInput
  pub utxo_lock_info : Selector → Bytes → ℕ → Option String
  pub account_lock_info : Selector → Bytes → Option String
  pub account_burn_info : Selector → Bytes → Option String
  pub marshal_error : Tx → Option String
  pub dispatch : Tx → Submission

-- What the confirmer changes: the database, and what the dispatcher was sent, newest first.
pub record ConfirmerState : Type 0 where
  pub database : Database
  pub sent : List Tx

-- strings.Contains
abbrev pub contains : String → String → Bool
contains s part = elim (find? s part) [ none ↦ false | some i ↦ true ]

unfoldable pub is_submitted : Option Error → Bool
is_submitted none = true
is_submitted (some e) = contains e.message "status=done" || contains e.message "status = done"

module _ (columns : Columns) (chains : Chains) where
  abbrev pub mark_confirmed : Option String → Tx → Database → Option DbError × Database
  mark_confirmed fault tx db = update_status fault (columns.base64 tx.hash) status_confirmed db

  -- The answer of the dispatcher.
  unfoldable pub on_submission :
      Option String → Tx → Database → Submission → Option DbError × Database
  on_submission fault tx db back_pressure = (none, db)
  on_submission fault tx db timed_out = (none, db)
  on_submission fault tx db (responded e) =
      if is_submitted e then mark_confirmed fault tx db else (none, db)

  abbrev pub with_database :
      ConfirmerState → Option DbError × Database → Option DbError × ConfirmerState
  with_database s (e, db) = (e, record s { database = db })

  abbrev pub on_answer :
      Option String → Tx → ConfirmerState → Submission → Option DbError × ConfirmerState
  on_answer fault tx s answer = with_database s (on_submission fault tx s.database answer)

  -- A request is sent where its channel takes it, whatever is answered to it.
  abbrev pub after_send : Tx → ConfirmerState → Submission → ConfirmerState
  after_send tx s back_pressure = s
  after_send tx s timed_out = record s { sent = tx ∷ s.sent }
  after_send tx s (responded e) = record s { sent = tx ∷ s.sent }

  unfoldable pub confirm : Option String → Tx → ConfirmerState → Option DbError × ConfirmerState
  confirm fault tx s = elim (chains.marshal_error tx) [
    | none ↦ on_answer fault tx (after_send tx s (chains.dispatch tx)) (chains.dispatch tx)
    | some e ↦ (none, s)
  ]

  -- A spent output was handled by RenVM already, so its transaction is marked.
  unfoldable pub on_utxo :
      Option String → Tx → Database → Option String → Bool × (Option DbError × Database)
  on_utxo fault tx db none = (true, (none, db))
  on_utxo fault tx db (some e) =
      if contains e "result is nil"
      then (false, mark_confirmed fault tx db)
      else (false, (none, db))

  -- The lookup of a lock on an account-based chain, and of a burn.
  abbrev pub on_lookup : Database → Option String → Bool × (Option DbError × Database)
  on_lookup db none = (true, (none, db))
  on_lookup db (some e) = (false, (none, db))

  unfoldable pub lock_tx_confirmed :
      Option String → Tx → Database → Bool × (Option DbError × Database)
  lock_tx_confirmed fault tx db =
      if chains.is_utxo_based tx.selector
      then elim (chains.decode tx.input) [
        | none ↦ (false, (none, db))
        | some i ↦ on_utxo fault tx db (chains.utxo_lock_info tx.selector i.txid i.txindex)
      ]
      else (if chains.is_account_based tx.selector
          then elim (chains.decode tx.input) [
            | none ↦ (false, (none, db))
            | some i ↦ on_lookup db (chains.account_lock_info tx.selector i.txid)
          ]
          else (false, (none, db)))

  abbrev pub nonce_of : Typed → Option Bytes
  nonce_of input = elim (lookup "nonce" input) [ none ↦ none | some v ↦ as_bytes32 v ]

  unfoldable pub burn_tx_confirmed : Tx → Database → Bool × (Option DbError × Database)
  burn_tx_confirmed tx db = elim (nonce_of tx.input) [
    | none ↦ (false, (none, db))
    | some nonce ↦ on_lookup db (chains.account_burn_info tx.selector nonce)
  ]

  module _ (darknode : Darknode) where
    unfoldable pub tx_confirmed : Option String → Tx → Database → Bool × (Option DbError × Database)
    tx_confirmed fault tx db =
        if darknode.is_lock tx.selector
        then lock_tx_confirmed fault tx db
        else (if darknode.is_burn tx.selector then burn_tx_confirmed tx db else (false, (none, db)))

    -- One transaction of a poll.
    unfoldable pub check_tx : Option String → Tx → ConfirmerState → Option DbError × ConfirmerState
    check_tx fault tx s =
        let checked = tx_confirmed fault tx s.database in
        let after = with_database s checked.1 in
        if checked.0 then confirm fault tx after.1 else after

    unfoldable pub check_txs : Option String → List Tx → ConfirmerState → ConfirmerState
    check_txs fault [] s = s
    check_txs fault (tx ∷ txs) s = check_txs fault txs (check_tx fault tx s).1

    -- The transactions of the last 72 hours.
    unfoldable pub check_pending_txs : Option String → ℕ → ConfirmerState → ConfirmerState
    check_pending_txs fault now s =
        elim (pending_txs columns darknode fault now (72 * 3600) s.database) [
          | err e ↦ s
          | ok txs ↦ check_txs fault txs s
        ]
