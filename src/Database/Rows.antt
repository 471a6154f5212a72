-- ===== src/Database/Rows.antt =====
-- db/db.go: the fields of a transaction as columns, and a row as a transaction.
use lightnode.Common.{
  ℕ, zero, suc, ◌-◌, String, Option, none, some, [], ◌∷◌, ◌++◌, take, length, if◌then◌else◌,
}
use lightnode.Common.Dict.{lookup}
use lightnode.Common.Eq.{string_eq, ◌==◌}
use lightnode.Common.Result.{Result, ok, err, ◌>>=◌}
use lightnode.Darknode.{
  Bytes, PackValue, bytes, bytes32, str, u32, u256, Typed, LockInput, Tx, Darknode,
}
use lightnode.Database.{
  DbError, other, unexpected_type, bad_column, nil_dereference, Columns, TxRow, GatewayRow,
  status_confirming, gateway_empty,
}

-- The type assertions of Go on a pack.Value.
abbrev pub as_bytes : PackValue → Option Bytes
as_bytes (bytes b) = some b
as_bytes _ = none

abbrev pub as_bytes32 : PackValue → Option Bytes
as_bytes32 (bytes32 b) = some b
as_bytes32 _ = none

abbrev pub as_string : PackValue → Option Bytes
as_string (str s) = some s
as_string _ = none

abbrev pub as_u32 : PackValue → Option ℕ
as_u32 (u32 n) = some n
as_u32 _ = none

abbrev pub as_u256 : PackValue → Option ℕ
as_u256 (u256 n) = some n
as_u256 _ = none

-- Input.Get(name).(T): the error of a value of another type reads its type, which panics where
-- there is no value.
unfoldable pub field {ℓ} : {A : Type ℓ} → (PackValue → Option A) → String → Typed → Result DbError A
field assert name input = elim (lookup name input) [
  | none ↦ err nil_dereference
  | some v ↦ elim (assert v) [ none ↦ err (unexpected_type name) | some a ↦ ok a ]
]

-- The fields that InsertTx reads, in its order.
unfoldable pub tx_fields : Typed → Result DbError LockInput
unfolding field
tx_fields input = field as_bytes "txid" input >>= λ txid.
    field as_u32 "txindex" input >>= λ txindex. field as_u256 "amount" input >>= λ amount.
    field as_bytes "payload" input >>= λ payload. field as_bytes32 "phash" input >>= λ phash.
    field as_string "to" input >>= λ to. field as_bytes32 "nonce" input >>= λ nonce.
    field as_bytes32 "nhash" input >>= λ nhash. field as_bytes "gpubkey" input >>= λ gpubkey.
    field as_bytes32 "ghash" input >>= λ ghash. ok record {
      txid = txid;
      txindex = txindex;
      amount = amount;
      payload = payload;
      phash = phash;
      to = to;
      nonce = nonce;
      nhash = nhash;
      gpubkey = gpubkey;
      ghash = ghash;
    }

abbrev pub zeros : ℕ → Bytes
zeros zero = []
zeros (suc n) = 0 ∷ zeros n

-- The fields that InsertGateway reads, in its order; it has no deposit.
unfoldable pub gateway_fields : Typed → Result DbError LockInput
unfolding field
gateway_fields input = field as_bytes "payload" input >>= λ payload.
    field as_bytes32 "phash" input >>= λ phash. field as_string "to" input >>= λ to.
    field as_bytes32 "nonce" input >>= λ nonce. field as_bytes32 "nhash" input >>= λ nhash.
    field as_bytes "gpubkey" input >>= λ gpubkey. field as_bytes32 "ghash" input >>= λ ghash.
    ok record {
      txid = [];
      txindex = 0;
      amount = 0;
      payload = payload;
      phash = phash;
      to = to;
      nonce = nonce;
      nhash = nhash;
      gpubkey = gpubkey;
      ghash = ghash;
    }

module _ (columns : Columns) where
  unfoldable pub tx_row : ℕ → Tx → LockInput → TxRow
  tx_row now tx i = record {
    hash = columns.base64 tx.hash;
    status = status_confirming;
    created_time = now;
    selector = tx.selector;
    txid = columns.base64 i.txid;
    txindex = i.txindex;
    amount = columns.decimal i.amount;
    payload = columns.base64 i.payload;
    phash = columns.base64 i.phash;
    to_address = i.to;
    nonce = columns.base64 i.nonce;
    nhash = columns.base64 i.nhash;
    gpubkey = columns.base64 i.gpubkey;
    ghash = columns.base64 i.ghash;
    version = tx.version;
  }

  unfoldable pub gateway_row : ℕ → String → Tx → LockInput → GatewayRow
  gateway_row now address tx i = record {
    gateway_address = address;
    status = gateway_empty;
    created_time = now;
    selector = tx.selector;
    payload = columns.base64 i.payload;
    phash = columns.base64 i.phash;
    to_address = i.to;
    nonce = columns.base64 i.nonce;
    nhash = columns.base64 i.nhash;
    gpubkey = columns.base64 i.gpubkey;
    ghash = columns.base64 i.ghash;
    version = tx.version;
  }

  unfoldable pub decode_bytes : String → String → Result DbError Bytes
  decode_bytes column s = elim (columns.decode_base64 s) [
    | none ↦ err (bad_column column)
    | some b ↦ ok b
  ]

  -- copy(res[:], b) into 32 zero bytes.
  unfoldable pub copy32 : Bytes → Bytes
  copy32 b = take 32 (b ++ zeros (32 - length b))

  unfoldable pub decode_bytes32 : String → String → Result DbError Bytes
  unfolding decode_bytes copy32
  decode_bytes32 column s = decode_bytes column s >>= λ b. ok (copy32 b)

  unfoldable pub decode_u256 : String → Result DbError ℕ
  decode_u256 s = elim (columns.parse_decimal s) [
    | none ↦ err (bad_column "amount")
    | some n ↦ ok n
  ]

  -- The columns of a row that decode, in the order of rowToTx.
  unfoldable pub tx_input : TxRow → Result DbError LockInput
  unfolding decode_bytes decode_bytes32 decode_u256
  tx_input row = decode_bytes "txid" row.txid >>= λ txid. decode_u256 row.amount >>= λ amount.
      decode_bytes "payload" row.payload >>= λ payload.
      decode_bytes32 "phash" row.phash >>= λ phash. decode_bytes32 "nonce" row.nonce >>= λ nonce.
      decode_bytes32 "nhash" row.nhash >>= λ nhash.
      decode_bytes "gpubkey" row.gpubkey >>= λ gpubkey.
      decode_bytes32 "ghash" row.ghash >>= λ ghash. ok record {
        txid = txid;
        txindex = row.txindex;
        amount = amount;
        payload = payload;
        phash = phash;
        to = row.to_address;
        nonce = nonce;
        nhash = nhash;
        gpubkey = gpubkey;
        ghash = ghash;
      }

  unfoldable pub gateway_input : GatewayRow → Result DbError LockInput
  unfolding decode_bytes decode_bytes32
  gateway_input row = decode_bytes "payload" row.payload >>= λ payload.
      decode_bytes32 "phash" row.phash >>= λ phash. decode_bytes32 "nonce" row.nonce >>= λ nonce.
      decode_bytes32 "nhash" row.nhash >>= λ nhash.
      decode_bytes "gpubkey" row.gpubkey >>= λ gpubkey.
      decode_bytes32 "ghash" row.ghash >>= λ ghash. ok record {
        txid = [];
        txindex = 0;
        amount = 0;
        payload = payload;
        phash = phash;
        to = row.to_address;
        nonce = nonce;
        nhash = nhash;
        gpubkey = gpubkey;
        ghash = ghash;
      }

  module _ (darknode : Darknode) where
    abbrev pub as_other : {A : Type 0} → Result String A → Result DbError A
    as_other (err e) = err (other e)
    as_other (ok a) = ok a

    -- The transaction of a row: version 0 keeps the hash of the row, and any other version is made
    -- again by tx.NewTx.
    unfoldable pub restored : String → String → String → Typed → Result DbError Tx
    unfolding decode_bytes32
    restored hash version selector input =
        if version == darknode.version0
        then (decode_bytes32 "hash" hash >>= λ h.
            ok record { hash = h; version = version; selector = selector; input = input })
        else as_other (darknode.new_tx selector input)

    unfoldable pub row_to_tx : TxRow → Result DbError Tx
    unfolding tx_input restored
    row_to_tx row = tx_input row >>= λ i.
        as_other (darknode.encode i) >>= λ input. restored row.hash row.version row.selector input

    -- The hash and the version of the result are the zero values.
    unfoldable pub row_to_gateway : GatewayRow → Result DbError Tx
    unfolding gateway_input
    row_to_gateway row = gateway_input row >>= λ i. as_other (darknode.encode i) >>= λ input.
        ok record { hash = zeros 32; version = ""; selector = row.selector; input = input }
