-- ===== src/Database.antt =====
-- db/db.go: the transactions and gateways that the lightnode keeps in a SQL database. Each table is
-- a list of rows, and each statement is a function on it; the error that the driver reports for a
-- statement is an argument, none where it runs. Times are in seconds.
pub mod Rows
pub mod Txs
pub mod Gateways
pub mod Invariant
pub mod RoundTrip
pub mod Status
pub mod Pages
use lightnode.Common.{ℕ, ◌+◌, ◌^◌, ◌<◌, String, ◌≡◌, Option, none, some, List}
use lightnode.Common.Result.{Result, ok, err}
use lightnode.Darknode.{Bytes}

-- The errors, by where they come from: the driver, sql.ErrNoRows, the constraint of a primary key, a
-- field of another type, a column that does not decode, pack and tx, and the number of updated rows.
-- The last is no error value but the panic of a call through nil.
pub data DbError : Type 0 where
  driver other : String → DbError
  no_rows primary_key : DbError
  unexpected_type bad_column : String → DbError
  rows_updated : ℕ → DbError
  nil_dereference : DbError

-- The texts of the columns, of encoding/base64 (RawURLEncoding) and math/big.
pub record Columns : Type 0 where
  pub base64 : Bytes → String
  pub decode_base64 : String → Option Bytes
  pub decimal : ℕ → String
  pub parse_decimal : String → Option ℕ
  pub decode-base64 : (b : Bytes) → decode_base64 (base64 b) ≡ some b
  pub parse-decimal : (n : ℕ) → n < 2 ^ 256 → parse_decimal (decimal n) ≡ some n

-- TxStatus, and GatewayStatus, as the numbers of the columns.
abbrev pub TxStatus : Type 0
TxStatus = ℕ

abbrev pub status_confirming : TxStatus
status_confirming = 1

abbrev pub status_confirmed : TxStatus
status_confirmed = 2

abbrev pub status_submitted : TxStatus
status_submitted = 3

abbrev pub gateway_empty : ℕ
gateway_empty = 1

-- The columns of the tables.
pub record TxRow : Type 0 where
  pub hash : String
  pub status : TxStatus
  pub created_time : ℕ
  pub selector : String
  pub txid : String
  pub txindex : ℕ
  pub amount : String
  pub payload : String
  pub phash : String
  pub to_address : Bytes
  pub nonce : String
  pub nhash : String
  pub gpubkey : String
  pub ghash : String
  pub version : String

pub record GatewayRow : Type 0 where
  pub gateway_address : String
  pub status : ℕ
  pub created_time : ℕ
  pub selector : String
  pub payload : String
  pub phash : String
  pub to_address : Bytes
  pub nonce : String
  pub nhash : String
  pub gpubkey : String
  pub ghash : String
  pub version : String

pub record Database : Type 0 where
  pub txs : List TxRow
  pub gateways : List GatewayRow
  pub max_gateway_count : ℕ
