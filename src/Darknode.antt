-- ===== src/Darknode.antt =====
-- What the program uses of the Darknode's packages `tx`, `pack`, `engine` and `binding`, which the
-- repository does not hold: the types whose fields it reads and writes, and an interface for the
-- functions that it calls.
use lightnode.Common.{ℕ, String, ◌≡◌, ◌≢◌, Bool, List, some}
use lightnode.Common.Dict.{Dict, lookup}
use lightnode.Common.Eq.{string_eq}
use lightnode.Common.Result.{Result, ok}

-- A byte slice, and a Go string where its bytes are looked at.
abbrev pub Bytes : Type 0
Bytes = List ℕ

-- tx.Selector and tx.Version are strings in Go.
abbrev pub Selector : Type 0
Selector = String

-- The values that a typed struct of the package `pack` holds.
pub data PackValue : Type 0 where
  bytes bytes32 bytes65 str : Bytes → PackValue
  u32 u256 : ℕ → PackValue

-- pack.Typed: the fields of a struct by name. `Get` returns nil for a name that is not there.
abbrev pub Typed : Type 0
Typed = Dict String PackValue

-- engine.LockMintBurnReleaseInput
pub record LockInput : Type 0 where
  pub txid : Bytes
  pub txindex : ℕ
  pub amount : ℕ
  pub payload : Bytes
  pub phash : Bytes
  pub to : Bytes
  pub nonce : Bytes
  pub nhash : Bytes
  pub gpubkey : Bytes
  pub ghash : Bytes

-- The fields of tx.Tx that the program uses.
pub record Tx : Type 0 where
  pub hash : Bytes
  pub version : String
  pub selector : Selector
  pub input : Typed

-- The functions. `encode` is pack.Encode on a LockMintBurnReleaseInput: each field of what it
-- returns is found under the name of its tag.
pub record Darknode : Type 0 where
  pub is_lock : Selector → Bool
  pub is_burn : Selector → Bool
  pub is_cross_chain : Selector → Bool
  pub version0 : String
  pub version1 : String
  pub versions_differ : version0 ≢ version1
  pub encode : LockInput → Result String Typed
  pub new_tx_hash : String → Selector → Typed → Result String Bytes
  pub new_tx : Selector → Typed → Result String Tx
  pub hash_string : Bytes → String
  pub phash_of : Bytes → Bytes
  pub nhash_of : Bytes → Bytes → ℕ → Bytes
  pub ghash_of : Selector → Bytes → Bytes → Bytes → Bytes
  pub encode-txid :
      (i : LockInput) (t : Typed) → encode i ≡ ok t → lookup "txid" t ≡ some (bytes i.txid)
  pub encode-amount :
      (i : LockInput) (t : Typed) → encode i ≡ ok t → lookup "amount" t ≡ some (u256 i.amount)
  pub encode-to : (i : LockInput) (t : Typed) → encode i ≡ ok t → lookup "to" t ≡ some (str i.to)
  pub encode-nonce :
      (i : LockInput) (t : Typed) → encode i ≡ ok t → lookup "nonce" t ≡ some (bytes32 i.nonce)
