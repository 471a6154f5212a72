-- ===== src/Compat/V0/Burn.antt =====
-- compat/v0/compat.go, V1TxFromV0Burn and V0TxHashFromTx: the transaction of version 1 that a burn
-- of version 0 stands for, and its hash in version 0.
pub mod Hash
use Prim.Native.String.{◌++◌ as str_append}
use lightnode.Common.{
  ℕ, ◌+◌, ◌-◌, ◌%◌, ◌^◌, String, true, false, Option, none, some, List, [], ◌∷◌, ltb, if◌then◌else◌,
}
use lightnode.Common.Int.{ℤ}
use lightnode.Common.Result.{Result, ok, err, ◌>>=◌}
use lightnode.Darknode.{Bytes, Selector, LockInput, Tx, Darknode}
use lightnode.Abi.Numbers.{int64, signed}
use lightnode.Abi.Contracts.{is_shift_in}
use lightnode.Compat.V0.Store.{
  CompatError, panicked, other, Texts, as_u64, int_at, called, int_string, burn_selector, V0Tx,
  in_value,
}

-- The burn that the gateway contract has under a reference.
pub record BurnDetails : Type 0 where
  pub block_number : ℕ
  pub amount : ℕ
  pub payload : Bytes
  pub to : Bytes

-- What a log iterator delivers: the hashes of transactions, and its error.
pub record LogIterator : Type 0 where
  pub tx_hashes : List Bytes
  pub error : Option String

-- The gateway contract of the asset of a selector, the Ethereum client, the decoder of the origin
-- chain, base58, and the bytes of a pack.U256.
pub record Burns : Type 0 where
  pub get_burn : Selector → ℤ → Result String BurnDetails
  pub latest_block : Result String ℕ
  pub max_confirmations : ℕ
  pub filter_log_burn : Selector → ℕ → ℤ → Result String (Option LogIterator)
  pub decode_address : Selector → Bytes → Result String Bytes
  pub base58_encode : Bytes → Bytes
  pub u256_bytes : ℤ → Bytes

-- The low 64 bits of the distance: the uint64 of the difference of two big integers.
unfoldable pub confirmations : ℕ → ℕ → ℕ
confirmations latest block = ((latest - block) + (block - latest)) % 2 ^ 64

abbrev first_hash : List Bytes → Bytes
first_hash [] = []
first_hash (hash ∷ hashes) = hash

-- The id of the first log, empty where there is none.
unfoldable pub log_txid : Result String (Option LogIterator) → Result CompatError Bytes
log_txid (err e) = err (other e)
log_txid (ok none) = err (other "no burn logs")
log_txid (ok (some iter)) = elim iter.error [
  | some e ↦ err (other "getting burn log details")
  | none ↦ ok (first_hash iter.tx_hashes)
]

module _ (texts : Texts) (padded_big_bytes : ℤ → ℕ → Bytes) (darknode : Darknode)
    (burns : Burns) where
  -- The address as it is, or in base58, with what it decodes to.
  unfoldable pub burn_address : Selector → Bytes → Result CompatError (Bytes × Bytes)
  burn_address selector to_bytes = elim (burns.decode_address selector to_bytes) [
    | ok decoded ↦ ok (to_bytes, decoded)
    | err _ ↦ called (burns.decode_address selector (burns.base58_encode to_bytes)) >>= λ decoded.
        ok (burns.base58_encode to_bytes, decoded)
  ]

  abbrev recent : ℕ → ℕ → Result CompatError (Unit {0})
  recent latest block =
      if ltb burns.max_confirmations (confirmations latest block)
      then err (other "burn too old")
      else ok tt

  unfoldable pub burn_input : Selector → ℤ → Result CompatError LockInput
  unfolding confirmations log_txid burn_address
  burn_input selector ref = do
    let nonce = burns.u256_bytes ref
    details ← called (burns.get_burn selector ref)
    latest ← called burns.latest_block
    checked ← recent latest details.block_number
    txid ← log_txid (burns.filter_log_burn selector (details.block_number % 2 ^ 64) ref)
    (to, decoded) ← burn_address selector details.to
    let phash = darknode.phash_of details.payload
    ok record {
      txid = txid;
      txindex = 0;
      amount = details.amount;
      payload = details.payload;
      phash = phash;
      to = to;
      nonce = nonce;
      nhash = darknode.nhash_of nonce txid 0;
      gpubkey = [];
      ghash = darknode.ghash_of selector phash decoded nonce;
    }

  unfoldable pub v1_tx_from_v0_burn : V0Tx padded_big_bytes → Result CompatError Tx
  v1_tx_from_v0_burn v0tx = do
    let selector = burn_selector texts v0tx.to
    pointer ← as_u64 (in_value padded_big_bytes "ref" v0tx)
    ref ← int_at pointer
    i ← burn_input selector ref
    input ← called (darknode.encode i)
    called (darknode.new_tx selector input)

  abbrev burn_hash : V0Tx padded_big_bytes → ℤ → Bytes
  burn_hash v0tx ref = texts.naming.keccak (
      str_append "txHash_" (
        str_append (texts.text v0tx.to)
          (str_append "_" (int_string texts (some (signed 64 (int64 ref)))))))

  unfoldable pub v0_tx_hash_from_tx : V0Tx padded_big_bytes → Result CompatError Bytes
  unfolding int_string int64
  v0_tx_hash_from_tx v0tx = elim (is_shift_in v0tx.to) [
    | none ↦ err panicked
    | some true ↦ err panicked
    | some false ↦ as_u64 (in_value padded_big_bytes "ref" v0tx) >>= λ pointer.
        int_at pointer >>= λ ref. ok (burn_hash v0tx ref)
  ]
