-- ===== src/Tests/Mapping.antt =====
-- The mapping of transactions of version 0, over Redis in memory.
use Prim.Native.String.{◌++◌ as str_append, [] as empty, ◌∷◌ as ◌∷ˢ◌}
use Prim.Native.Char.{code}
use text.Mathlib.TextLemmas.{cons-ne-nil, append-eq-nil_iff}
use lightnode.Common.{
  sym, zero, String, ◌≡◌, ◌≢◌, refl, ap, Option, none, some, [], ◌∷◌, arith, nat_beq, if◌then◌else◌,
  false,
}
use lightnode.Common.Ascii.{codes}
use lightnode.Common.Eq.{bytes_eq, ◌==◌}
use lightnode.Common.Dict.{lookup, insert}
use lightnode.Common.Int.{pos}
use lightnode.Common.Result.{ok, err}
use lightnode.Darknode.{Bytes, Darknode, Tx, LockInput}
use lightnode.Database.{Columns, Database}
use lightnode.Database.Rows.{zeros, tx_fields, field}
use lightnode.Database.Txs as Txs
use lightnode.Database.Txs.{insert_tx, find_tx, exec_insert}
use lightnode.Database.RoundTrip.{HasSizes}
use lightnode.Abi.Contracts.{
  is_shift_in, validate_v0_tx, check_contract, intrinsics, check_formals, is_nil,
}
use lightnode.Compat.V0.Hashes.{burn_tx_hash, to_from_v1_selector}
use lightnode.Compat.V0.Codec.Args.{get}
use lightnode.Compat.V0.Store.{
  Texts, not_found, lookup_string, ref_lookup_string, burn_selector, int_string, write_hash,
  read_hash, persist_tx_mappings, get_v1_hash_from_hash, get_v1_tx_from_tx, from_db, in_value,
}
use lightnode.Abi.Numbers.{u64}
use lightnode.Abi.Values.{number}
use lightnode.Compat.V0.Store.Mapping.{IsPlain, get_v1_hash_from_hash-persist_tx_mappings}
use lightnode.Compat.V0.Mint.{Mints}
use lightnode.Compat.V0.Burn.{Burns, v1_tx_from_v0_burn, v0_tx_hash_from_tx, burn_input}
use lightnode.Compat.V0.Burn.Hash.{v0_tx_hash_from_tx-burn_tx_hash}
use lightnode.Compat.V0.Submit.{Compat, mapped_txs, v1_tx_params_from_tx}
use lightnode.Compat.V0.Submit.Again.{v1_tx_params_from_tx_again}
use lightnode.Watcher.Burns.{BurnContext, burn_transaction, burn_to_params, handle_asset_addr}
use lightnode.Watcher.Mapping.{IsPadded, get_v1_tx_from_tx-burn_to_params}
use lightnode.Tests.Samples.{Cells, mem_redis}
use lightnode.Tests.Chain.{simple_darknode, simple_naming, fields}
use lightnode.Tests.Database.{
  simple_columns, sample_tx, empty_database, unary, parse_unary, parse-unary,
}
use lightnode.Tests.Watcher.{context, burn, burned}
use lightnode.Tests.Abi.{simple_padding, burn_tx, burn_tx_valid}

-- Hashes of version 0 have an empty text, which no key of what is spent equals.
abbrev pub plain_texts : Texts
plain_texts = record {
  naming = record simple_naming { b32_string = λ b. ""; keccak = λ s. zeros 32 };
  text = λ b. if b == codes "BTC" then "BTC" else "BTC0Eth2Btc";
  decode_std = λ s. some (zeros 32);
}

underscore : (x y : String) → "" ≢ str_append x (str_append "_" y)
underscore x y h = cons-ne-nil "_" "" (append-eq-nil_iff.0 (append-eq-nil_iff.0 (sym h)).1).0

plain_texts-IsPlain : IsPlain plain_texts
plain_texts-IsPlain b x y = underscore x y

abbrev pub no_cells : Cells
no_cells = record { texts = []; numbers = [] }

abbrev kept : Cells
kept =
    (persist_tx_mappings plain_texts simple_padding mem_redis simple_columns burn_tx sample_tx
      no_cells).1

persist_run :
    persist_tx_mappings plain_texts simple_padding mem_redis simple_columns burn_tx sample_tx
      no_cells
    ≡ (none, kept)
unfolding persist_tx_mappings lookup_string ref_lookup_string burn_selector int_string is_shift_in
    get write_hash
persist_run = refl

get_v1_hash_from_hash-persist_tx_mappings_example :
    get_v1_hash_from_hash plain_texts mem_redis simple_columns burn_tx.hash kept ≡ ok (zeros 32)
get_v1_hash_from_hash-persist_tx_mappings_example =
    get_v1_hash_from_hash-persist_tx_mappings plain_texts simple_padding mem_redis simple_columns
      plain_texts-IsPlain burn_tx sample_tx no_cells kept refl persist_run

abbrev no_burns : Burns
no_burns = record {
  get_burn = λ s n. ok (record { block_number = 10; amount = 3; payload = []; to = 65 ∷ [] });
  latest_block = ok 12;
  max_confirmations = 5;
  filter_log_burn = λ s n r. ok (some (record { tx_hashes = (1 ∷ []) ∷ []; error = none }));
  decode_address = λ s b. ok b;
  base58_encode = λ b. b;
  u256_bytes = λ z. zeros 32;
}

burn_tx_burns : is_shift_in burn_tx.to ≡ some false
unfolding is_shift_in
burn_tx_burns = refl

burn_tx_to : plain_texts.text burn_tx.to ≡ to_from_v1_selector plain_texts.naming "BTC/fromEthereum"
unfolding to_from_v1_selector
burn_tx_to = refl

burn_tx_value : in_value simple_padding "ref" burn_tx ≡ some (number u64 (some (pos 7)))
unfolding get
burn_tx_value = refl

v0_tx_hash_from_tx-burn_tx_hash_example :
    v0_tx_hash_from_tx plain_texts simple_padding simple_darknode no_burns burn_tx
    ≡ ok (burn_tx_hash plain_texts.naming "BTC/fromEthereum" 7)
v0_tx_hash_from_tx-burn_tx_hash_example =
    v0_tx_hash_from_tx-burn_tx_hash plain_texts simple_padding simple_darknode no_burns burn_tx
      "BTC/fromEthereum" 7 burn_tx_burns burn_tx_to burn_tx_value (omega arith)

-- Hashes of 32 zeros, so that what is converted is stored.
abbrev zero_darknode : Darknode
zero_darknode = record simple_darknode {
  new_tx_hash = λ v s t. ok (zeros 32);
  phash_of = λ p. zeros 32;
  nhash_of = λ n t i. zeros 32;
  ghash_of = λ s p d n. zeros 32;
}

abbrev pub simple_mints : Mints
simple_mints = record {
  output = λ s t i. ok 5;
  v0_nhash = λ n t i. ok (zeros 32);
  v0_ghash = λ t p m n. ok (zeros 32);
  hex_to_address = λ b. b;
  gpubkey = 4 ∷ [];
}

abbrev pub compat : Compat
compat = record {
  texts = plain_texts;
  padded_big_bytes = simple_padding;
  redis = mem_redis;
  columns = simple_columns;
  darknode = zero_darknode;
  mints = simple_mints;
  burns = no_burns;
}

abbrev burn_lock : LockInput
burn_lock = record {
  txid = 1 ∷ [];
  txindex = 0;
  amount = 3;
  payload = [];
  phash = zeros 32;
  to = 65 ∷ [];
  nonce = zeros 32;
  nhash = zeros 32;
  gpubkey = [];
  ghash = zeros 32;
}

abbrev submitted : Tx
submitted = record {
  hash = zeros 32;
  version = "0";
  selector = "BTC/fromEthereum";
  input = fields burn_lock;
}

burn_lock-HasSizes : HasSizes burn_lock
burn_lock-HasSizes = record {
  amount_fits = omega arith;
  phash_size = refl;
  nonce_size = refl;
  nhash_size = refl;
  ghash_size = refl;
}

submitted_fields : tx_fields submitted.input ≡ ok burn_lock
unfolding tx_fields field lookup
submitted_fields = refl

abbrev mapped : Cells
mapped = record {
  texts = ("", unary (zeros 32)) ∷ ("BTC/fromEthereum_1", unary (zeros 32)) ∷ [];
  numbers = [];
}

burn_new :
    get_v1_tx_from_tx plain_texts simple_padding mem_redis simple_columns zero_darknode none burn_tx
      empty_database no_cells
    ≡ err not_found
unfolding get_v1_tx_from_tx lookup_string ref_lookup_string burn_selector int_string is_shift_in get
    read_hash lookup
burn_new = refl

submit_run :
    v1_tx_params_from_tx compat none burn_tx empty_database no_cells ≡ (ok submitted, mapped)
unfolding v1_tx_params_from_tx get_v1_tx_from_tx lookup_string ref_lookup_string burn_selector
    int_string is_shift_in get read_hash lookup persist_tx_mappings write_hash mapped_txs
    v1_tx_from_v0_burn v0_tx_hash_from_tx burn_input validate_v0_tx check_contract intrinsics
    check_formals is_nil insert
submit_run = refl

abbrev stored : Database
stored = (insert_tx simple_columns none 5 submitted empty_database).1

store_run : insert_tx simple_columns none 5 submitted empty_database ≡ (none, stored)
unfolding insert_tx tx_fields field lookup exec_insert find_tx
store_run = refl

v1_tx_params_from_tx_again_example :
    v1_tx_params_from_tx compat none burn_tx stored mapped ≡ (ok submitted, mapped)
v1_tx_params_from_tx_again_example =
    v1_tx_params_from_tx_again compat none none 5 burn_tx burn_tx submitted burn_lock
      (fields burn_lock) empty_database stored no_cells mapped burn_new submit_run refl
      burn_lock-HasSizes submitted_fields refl store_run burn_tx_valid refl

-- The watcher of Tests.Watcher with hashes of 32 zeros, and columns that refuse its texts.
abbrev zero_context : BurnContext
zero_context = record context { naming = record simple_naming { keccak = λ s. zeros 32 } }

abbrev strict_decode : String → Option Bytes
strict_decode empty = none
strict_decode (c ∷ˢ s) = if nat_beq (code c) 114 then some (parse_unary zero s) else none

abbrev strict_columns : Columns
strict_columns = record simple_columns {
  base64 = λ b. "r" ∷ˢ unary b;
  decode_base64 = strict_decode;
  decode-base64 = λ b. ap some (parse-unary b);
}

zero_hash-IsPadded : IsPadded zero_context.naming.b32_string plain_texts strict_columns (zeros 32)
zero_hash-IsPadded = record { size = refl; refused = refl; decoded = refl }

burn_hash-IsPadded :
    IsPadded zero_context.naming.b32_string plain_texts strict_columns
      (burn_tx_hash zero_context.naming "BTC/fromEthereum" 1)
unfolding burn_tx_hash
burn_hash-IsPadded = zero_hash-IsPadded

burned_run : burn_transaction mem_redis zero_context burn ≡ ok burned
unfolding burn_transaction handle_asset_addr
burned_run = refl

burn_spends : lookup_string plain_texts simple_padding burn_tx ≡ ok "BTC/fromEthereum_1"
unfolding lookup_string ref_lookup_string burn_selector int_string is_shift_in get
burn_spends = refl

get_v1_tx_from_tx-burn_to_params_example :
    get_v1_tx_from_tx plain_texts simple_padding mem_redis strict_columns simple_darknode none
      burn_tx empty_database
      (burn_to_params mem_redis zero_context burn no_cells).1
    ≡ from_db plain_texts simple_padding mem_redis strict_columns simple_darknode (
        Txs.tx strict_columns simple_darknode none
          (burn_tx_hash zero_context.naming "BTC/fromEthereum" 1)
          empty_database)
get_v1_tx_from_tx-burn_to_params_example =
    get_v1_tx_from_tx-burn_to_params plain_texts simple_padding mem_redis strict_columns
      zero_context simple_darknode burn burned burn_tx none empty_database no_cells
      burn_hash-IsPadded burned_run refl burn_spends
