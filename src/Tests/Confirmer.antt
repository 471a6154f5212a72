-- ===== src/Tests/Confirmer.antt =====
-- The confirmer and the transaction checker on one stored transaction.
use lightnode.Common.{◌<◌, ◌≡◌, refl, true, false, none, some, [], ◌∷◌, arith}
use lightnode.Common.Dict.{lookup}
use lightnode.Common.Eq.{string_eq}
use lightnode.Database.Rows.{field, tx_fields, tx_row, zeros}
use lightnode.Database.Txs.{find_tx, exec_insert, insert_tx, tx}
use lightnode.Confirmer.{
  Chains, ConfirmerState, confirm, on_submission, responded, is_submitted, on_utxo,
  lock_tx_confirmed, tx_confirmed, check_tx,
}
use lightnode.Confirmer.Polling.{IsUnconfirmed, unconfirmed_kept, confirmed_marked}
use lightnode.TxChecker.{on_read, check_duplicate}
use lightnode.TxChecker.Duplicates.{check_duplicate_again}
use lightnode.Tests.Chain.{simple_darknode}
use lightnode.Tests.Database.{
  simple_columns, sample_input, sample_tx, sample-HasSizes, sample_fields, empty_database, one_tx,
}

-- Every output is confirmed, and every request is accepted.
abbrev ready_chains : Chains
ready_chains = record {
  is_utxo_based = λ s. true;
  is_account_based = λ s. false;
  decode = λ t. some sample_input;
  utxo_lock_info = λ s t i. none;
  account_lock_info = λ s t. none;
  account_burn_info = λ s n. none;
  marshal_error = λ t. none;
  dispatch = λ t. responded none;
}

-- No chain has enough confirmations.
abbrev waiting_chains : Chains
waiting_chains = record ready_chains {
  utxo_lock_info = λ s t i. some "insufficient confirmations";
  account_lock_info = λ s t. some "insufficient confirmations";
  account_burn_info = λ s n. some "insufficient confirmations";
}

waiting-IsUnconfirmed : IsUnconfirmed simple_columns waiting_chains simple_darknode sample_tx
waiting-IsUnconfirmed = record {
  utxo = λ i p. ("insufficient confirmations", refl, refl);
  account = λ i p h. ground (arith, h);
  burn = λ n p h. ground (arith, h);
}

abbrev one_pending : ConfirmerState
one_pending = record { database = one_tx; sent = [] }

unconfirmed_kept_example :
    check_tx simple_columns waiting_chains simple_darknode none sample_tx one_pending
    ≡ (none, one_pending)
unconfirmed_kept_example =
    unconfirmed_kept simple_columns waiting_chains simple_darknode none sample_tx one_pending
      waiting-IsUnconfirmed

ready_confirmed :
    tx_confirmed simple_columns ready_chains simple_darknode none sample_tx one_tx
    ≡ (true, (none, one_tx))
unfolding tx_confirmed lock_tx_confirmed on_utxo
ready_confirmed = refl

one_tx_found :
    find_tx (simple_columns.base64 (zeros 32)) one_tx.txs
    ≡ some (tx_row simple_columns 5 sample_tx sample_input)
unfolding find_tx tx_row
one_tx_found = refl

accepted : is_submitted none ≡ true
unfolding is_submitted
accepted = refl

confirming_below : (tx_row simple_columns 5 sample_tx sample_input).status < 2
unfolding tx_row
confirming_below = omega arith

confirmed_marked_example :
    find_tx
      (simple_columns.base64 (zeros 32))
      (check_tx simple_columns ready_chains simple_darknode none sample_tx
        one_pending).1.database.txs
    ≡ some (record (tx_row simple_columns 5 sample_tx sample_input) { status = 2 })
confirmed_marked_example =
    confirmed_marked simple_columns ready_chains simple_darknode sample_tx
      (tx_row simple_columns 5 sample_tx sample_input) one_pending none ready_confirmed refl refl
      accepted one_tx_found confirming_below

-- What is confirmed is sent once.
sent_run :
    (check_tx simple_columns ready_chains simple_darknode none sample_tx one_pending).1.sent
    ≡ sample_tx ∷ []
unfolding check_tx tx_confirmed lock_tx_confirmed on_utxo confirm on_submission is_submitted
sent_run = refl

nothing_stored : find_tx (simple_columns.base64 (zeros 32)) empty_database.txs ≡ none
unfolding find_tx
nothing_stored = refl

first_submission :
    check_duplicate simple_columns simple_darknode none none 5 sample_tx empty_database
    ≡ (none, one_tx)
unfolding check_duplicate on_read tx insert_tx tx_fields field lookup exec_insert find_tx
first_submission = refl

check_duplicate_again_example :
    check_duplicate simple_columns simple_darknode none none 6 sample_tx one_tx ≡ (none, one_tx)
check_duplicate_again_example =
    check_duplicate_again simple_columns simple_darknode none none 5 6 sample_tx sample_tx
      sample_input empty_database one_tx nothing_stored refl sample-HasSizes sample_fields refl
      first_submission
