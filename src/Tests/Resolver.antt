-- ===== src/Tests/Resolver.antt =====
-- The resolver over a database in memory, with chains whose addresses are fixed.
use lightnode.Common.{
  ℕ, ◌≡◌, ◌≢◌, refl, String, Bool, true, false, none, some, [], ◌∷◌, arith, length,
}
use lightnode.Common.Dict.{lookup}
use lightnode.Common.Eq.{string_eq, bytes_eq, ◌==◌}
use lightnode.Common.Result.{Result, ok, err}
use lightnode.Darknode.{Tx}
use lightnode.Database.{Database, no_rows}
use lightnode.Database.Rows.{zeros, tx_row, gateway_fields, field}
use lightnode.Database.Txs.{update_status, rows_affected, exec_update, is_updated}
use lightnode.Database.Gateways.{
  find_gateway, exec_insert_gateway, gateway_count, insert_gateway, gateway,
}
use lightnode.Database.RoundTrip.{gateway_back}
use lightnode.Resolver.{Call, submit_tx, nowhere, responded}
use lightnode.Resolver.Routing.{submit_tx_burn}
use lightnode.Resolver.Validation.{
  Gateway, mainnet_encoding, check_script, check_pub_key, validate_gateway, BelongsTo,
  validate_gateway-BelongsTo, out_of_range,
}
use lightnode.Resolver.Gateways.{Faults, accept, submit_gateway}
use lightnode.Resolver.Gateways.Accepted.{gateway-submit_gateway}
use lightnode.Resolver.Bounds.{IsWithinMax, submit_gateway-IsWithinMax}
use lightnode.Resolver.Queries.{Results, confirming_response, ask_darknodes, query_tx, unmapped}
use lightnode.Resolver.Queries.Local.{query_tx-insert_tx, query_tx-update_status}
use lightnode.Tests.Samples.{Reply, simple_rpc}
use lightnode.Tests.Chain.{simple_darknode}
use lightnode.Tests.Database.{
  simple_columns, sample_input, sample-HasSizes, sample_tx, sample_fields, empty_database, one_tx,
  insert_run, gateway_fields_kept, gateway-HasSizes, sample_gateway_fields, one_gateway,
  one_tx-IsUnique, sample_key,
}

abbrev simple_call : Call simple_rpc
simple_call = record {
  id = 7;
  darknode_id = none;
  is_sent = true;
  wait = responded record { id = 7; value = some 1; problem = none };
}

abbrev all_known : String → Bool
all_known s = true

abbrev simple_v0 : Tx → Bool → Result String ℕ
simple_v0 t b = ok 4

abbrev burn : Tx
burn = record { hash = zeros 32; version = "0"; selector = "BTC/fromEthereum"; input = [] }

submit_tx_burn_example :
    let submitted =
      (submit_tx simple_rpc all_known simple_darknode simple_v0 simple_call burn).1.0 in
    (submitted.version ≢ simple_darknode.version0)
    × ((submitted.hash ≡ burn.hash)
        × ((submitted.selector ≡ burn.selector) × (submitted.input ≡ burn.input)))
submit_tx_burn_example =
    submit_tx_burn simple_rpc all_known simple_darknode simple_v0 simple_call burn refl

abbrev simple_gateway : Gateway
simple_gateway = record {
  Input = ℕ;
  decode_input = λ t. ok 0;
  is_utxo_based = λ s. s == "BTC/toEthereum";
  is_account_based = λ s. s == "FIL/toEthereum";
  is_fil = λ s. s == "FIL/toEthereum";
  script_address = λ s i. ok "g";
  pub_key_address = λ s i. ok "fg";
}

valid_run : validate_gateway simple_darknode simple_gateway "g" sample_tx 0 ≡ ok tt
unfolding validate_gateway check_script
valid_run = refl

validate_gateway-BelongsTo_example : BelongsTo simple_darknode simple_gateway "g" sample_tx 0
validate_gateway-BelongsTo_example =
    validate_gateway-BelongsTo simple_darknode simple_gateway "g" sample_tx 0 valid_run

abbrev fil_tx : Tx
fil_tx = record { hash = zeros 32; version = "1"; selector = "FIL/toEthereum"; input = [] }

-- An empty gateway address on FIL indexes out of range.
empty_gateway_panics :
    validate_gateway simple_darknode simple_gateway "" fil_tx 0 ≡ err out_of_range
unfolding validate_gateway check_pub_key mainnet_encoding
empty_gateway_panics = refl

abbrev no_faults : Faults
no_faults = record { on_read = none; on_count = none; on_insert = none }

abbrev accepted : Reply
accepted = record { id = 7; value = some 9; problem = none }

submit_run :
    submit_gateway simple_rpc simple_columns simple_darknode simple_gateway 9 no_faults 5 7 "g"
      sample_tx empty_database
    ≡ some (accepted, one_gateway)
unfolding submit_gateway validate_gateway check_script gateway find_gateway gateway_count
    insert_gateway gateway_fields field lookup exec_insert_gateway accept
submit_run = refl

submit_gateway-IsWithinMax_example : IsWithinMax one_gateway
submit_gateway-IsWithinMax_example =
    submit_gateway-IsWithinMax simple_rpc simple_columns simple_darknode simple_gateway 9 no_faults
      5 7 "g" sample_tx empty_database accepted one_gateway (omega arith) submit_run

-- A database whose maximum is reached takes one more gateway.
full :
    submit_gateway simple_rpc simple_columns simple_darknode simple_gateway 9 no_faults 5 7 "g"
      sample_tx
      (record empty_database { max_gateway_count = 0 })
    ≡ some (accepted, record one_gateway { max_gateway_count = 0 })
unfolding submit_gateway validate_gateway check_script gateway find_gateway gateway_count
    insert_gateway gateway_fields field lookup exec_insert_gateway accept
full = refl

nothing_there : gateway simple_columns simple_darknode none "g" empty_database ≡ err no_rows
unfolding gateway find_gateway
nothing_there = refl

gateway-submit_gateway_example :
    gateway simple_columns simple_darknode none "g" one_gateway
    ≡ gateway_back simple_columns simple_darknode sample_tx gateway_fields_kept
gateway-submit_gateway_example =
    gateway-submit_gateway simple_rpc simple_columns simple_darknode simple_gateway 9 no_faults 5 7
      "g" sample_tx gateway_fields_kept empty_database accepted one_gateway submit_run refl
      nothing_there gateway-HasSizes sample_gateway_fields

abbrev simple_results : Results simple_rpc
simple_results = record {
  V0Tx = ℕ;
  QueryTx = Tx;
  partial_v0_tx = λ t. 0;
  tx_from_v1_tx = λ t b. ok 4;
  read_query_tx = λ v. some sample_tx;
  tx_of = λ t. t;
  is_intrinsic = λ s. false;
  has_no_output = λ t. false;
  executing = λ t. t;
  confirming = λ t. t;
  status_text = λ t. "done";
  confirming_text = "confirming";
  result_of = λ t. length t.hash;
  v0_result_of = λ n s. n;
  tx_result = λ t. length t.hash;
  txs_result = λ ts. length ts;
}

query_tx-insert_tx_example :
    query_tx simple_rpc simple_results simple_columns simple_darknode simple_call none none one_tx
      (λ h. unmapped)
      (λ h. err "nil")
      sample_tx.hash
    ≡ some (
      nowhere,
      confirming_response simple_rpc simple_results simple_columns simple_darknode 7 false
          sample_tx,
    )
query_tx-insert_tx_example =
    query_tx-insert_tx simple_rpc simple_results simple_columns simple_darknode simple_call
      (λ h. unmapped) (λ h. err "nil") none 5 sample_tx sample_tx sample_input "nil" empty_database
      one_tx refl sample-HasSizes sample_fields insert_run refl refl refl

abbrev confirmed_tx : Database
confirmed_tx = record empty_database {
  txs = record (tx_row simple_columns 5 sample_tx sample_input) { status = 2 } ∷ [];
}

confirm_run : update_status none sample_key 2 one_tx ≡ (none, confirmed_tx)
unfolding update_status rows_affected exec_update is_updated tx_row
confirm_run = refl

query_tx-update_status_example :
    query_tx simple_rpc simple_results simple_columns simple_darknode simple_call none none
      confirmed_tx
      (λ h. unmapped)
      (λ h. err "nil")
      sample_tx.hash
    ≡ some (
        ask_darknodes simple_rpc simple_results simple_columns simple_darknode simple_call false
          sample_tx.hash)
query_tx-update_status_example =
    query_tx-update_status simple_rpc simple_results simple_columns simple_darknode simple_call
      (λ h. unmapped) (λ h. err "nil") none 5 sample_tx sample_input "nil" empty_database one_tx
      confirmed_tx sample_fields insert_run one_tx-IsUnique confirm_run refl refl
