-- ===== src/Tests/Database.antt =====
-- The database with columns in unary digits.
use Prim.Native.Char.{code}
use Prim.Native.String.{[] as empty, ◌∷◌ as ◌∷ˢ◌}
use lightnode.Common.{
  ℕ, zero, suc, ◌+◌, String, ◌≡◌, refl, ◌∙◌, ap, none, some, [], ◌∷◌, arith, nat_beq, if◌then◌else◌,
}
use lightnode.Common.Dict.{lookup}
use lightnode.Common.Eq.{string_eq}
use lightnode.Common.Result.{ok}
use lightnode.Darknode.{Bytes, LockInput, Tx}
use lightnode.Database.{Columns, Database}
use lightnode.Database.Rows.{field, tx_fields, gateway_fields, tx_row, gateway_row, zeros}
use lightnode.Database.Txs.{
  find_tx, exec_insert, insert_tx, tx, is_updated, rows_affected, update_status, prune, pending_txs,
}
use lightnode.Database.Gateways.{find_gateway, exec_insert_gateway, insert_gateway}
use lightnode.Database.RoundTrip.{HasSizes, read_back, tx-insert_tx}
use lightnode.Database.Invariant.{IsUnique, updated, pruned, Step-IsUnique}
use lightnode.Database.Status.{NotLower, Step-NotLower, pending_txs-prune}
use lightnode.Tests.Chain.{fields, simple_darknode}

abbrev pub ones : ℕ → String → String
ones zero s = s
ones (suc n) s = "1" ∷ˢ ones n s

abbrev pub unary : Bytes → String
unary [] = empty
unary (b ∷ bs) = ones b ("," ∷ˢ unary bs)

abbrev pub parse_unary : ℕ → String → Bytes
parse_unary n empty = []
parse_unary n (c ∷ˢ s) =
    let next = parse_unary zero s in
    let more = parse_unary (suc n) s in if nat_beq (code c) 44 then n ∷ next else more

pub parse_unary-ones : (n m : ℕ) (s : String) → parse_unary n (ones m s) ≡ parse_unary (n + m) s
parse_unary-ones n zero s = ap (λ k. parse_unary k s) (omega arith)
parse_unary-ones n (suc m) s =
    parse_unary-ones (suc n) m s ∙ ap (λ k. parse_unary k s) (omega arith)

pub parse-unary : (b : Bytes) → parse_unary zero (unary b) ≡ b
parse-unary [] = refl
parse-unary (n ∷ b) =
    parse_unary-ones zero n ("," ∷ˢ unary b)
    ∙ (ap (λ k. k ∷ parse_unary zero (unary b)) (omega arith) ∙ ap (λ t. n ∷ t) (parse-unary b))

abbrev tally : String → ℕ
tally empty = zero
tally (c ∷ˢ s) = suc (tally s)

pub tally-ones : (n : ℕ) → tally (ones n empty) ≡ n
tally-ones zero = refl
tally-ones (suc n) = ap suc (tally-ones n)

abbrev pub simple_columns : Columns
simple_columns = record {
  base64 = unary;
  decode_base64 = λ s. some (parse_unary zero s);
  decimal = λ n. ones n empty;
  parse_decimal = λ s. some (tally s);
  decode-base64 = λ b. ap some (parse-unary b);
  parse-decimal = λ n _. ap some (tally-ones n);
}

abbrev pub sample_input : LockInput
sample_input = record {
  txid = 1 ∷ [];
  txindex = 2;
  amount = 3;
  payload = [];
  phash = zeros 32;
  to = 65 ∷ [];
  nonce = zeros 32;
  nhash = zeros 32;
  gpubkey = [];
  ghash = zeros 32;
}

pub sample-HasSizes : HasSizes sample_input
sample-HasSizes = record {
  amount_fits = omega arith;
  phash_size = refl;
  nonce_size = refl;
  nhash_size = refl;
  ghash_size = refl;
}

abbrev pub sample_tx : Tx
sample_tx = record {
  hash = zeros 32;
  version = "0";
  selector = "BTC/toEthereum";
  input = fields sample_input;
}

pub sample_fields : tx_fields sample_tx.input ≡ ok sample_input
unfolding tx_fields field lookup
sample_fields = refl

pub sample_gateway_fields :
    gateway_fields sample_tx.input ≡ ok (record sample_input { txid = []; txindex = 0; amount = 0 })
unfolding gateway_fields field lookup
sample_gateway_fields = refl

abbrev pub empty_database : Database
empty_database = record { txs = []; gateways = []; max_gateway_count = 10 }

abbrev pub one_tx : Database
one_tx = record empty_database { txs = tx_row simple_columns 5 sample_tx sample_input ∷ [] }

pub insert_run : insert_tx simple_columns none 5 sample_tx empty_database ≡ (none, one_tx)
unfolding insert_tx tx_fields field lookup exec_insert find_tx
insert_run = refl

tx-insert_tx_example :
    tx simple_columns simple_darknode none sample_tx.hash one_tx
    ≡ read_back simple_columns simple_darknode sample_tx sample_input
tx-insert_tx_example =
    tx-insert_tx simple_columns simple_darknode none 5 sample_tx sample_input empty_database one_tx
      refl sample-HasSizes sample_fields insert_run

abbrev pub gateway_fields_kept : LockInput
gateway_fields_kept = record sample_input { txid = []; txindex = 0; amount = 0 }

pub gateway-HasSizes : HasSizes gateway_fields_kept
gateway-HasSizes = record {
  amount_fits = omega arith;
  phash_size = refl;
  nonce_size = refl;
  nhash_size = refl;
  ghash_size = refl;
}

abbrev pub one_gateway : Database
one_gateway = record empty_database {
  gateways = gateway_row simple_columns 5 "g" sample_tx gateway_fields_kept ∷ [];
}

pub gateway_run :
    insert_gateway simple_columns none 5 "g" sample_tx empty_database ≡ (none, one_gateway)
unfolding insert_gateway gateway_fields field lookup exec_insert_gateway find_gateway
gateway_run = refl

abbrev pub sample_key : String
sample_key = simple_columns.base64 (zeros 32)

pub one_tx-IsUnique : IsUnique one_tx.txs
unfolding find_tx
one_tx-IsUnique = (refl, tt)

-- The update is accepted, and its repetition is not.
update_run : (update_status none sample_key 2 one_tx).0 ≡ none
unfolding update_status rows_affected is_updated tx_row
update_run = refl

Step-IsUnique_example : IsUnique (prune none 9 3 one_tx).1.txs
Step-IsUnique_example =
    Step-IsUnique simple_columns one_tx (prune none 9 3 one_tx).1 (pruned none 9 3) one_tx-IsUnique

Step-NotLower_example :
    NotLower
      (find_tx sample_key one_tx.txs)
      (find_tx sample_key (update_status none sample_key 2 one_tx).1.txs)
Step-NotLower_example =
    Step-NotLower simple_columns one_tx (update_status none sample_key 2 one_tx).1 sample_key
      one_tx-IsUnique (updated none sample_key 2)

pending_txs-prune_example :
    pending_txs simple_columns simple_darknode none 6 3 (prune none 6 4 one_tx).1
    ≡ pending_txs simple_columns simple_darknode none 6 3 one_tx
pending_txs-prune_example =
    pending_txs-prune simple_columns simple_darknode 6 3 4 one_tx (omega arith)
