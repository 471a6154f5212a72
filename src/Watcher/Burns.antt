-- ===== src/Watcher/Burns.antt =====
-- watcher/watcher.go, burnToParams and handleAssetAddr: a burn event becomes the transaction that
-- is submitted, and the hash of version 0 is mapped to it in Redis.
use Prim.Native.String.{◌++◌ as str_append}
use lightnode.Common.{
  ℕ, String, ◌≡◌, ◌≢◌, Bool, some, [], arith, if◌then◌else◌, refl, true, ◌∙◌, ◌⊎◌, inl, inr,
}
use lightnode.Common.Result.{Result, ok, err, ◌>>=◌, Result-cases}
use lightnode.Common.Dict.{lookup}
use lightnode.Common.Eq.{string_eq}
use lightnode.Redis.{Redis}
use lightnode.Darknode.{Darknode, Bytes, Selector, LockInput, Tx, bytes, bytes32, u256, str}
use lightnode.Compat.V0.Hashes.{Naming, burn_tx_hash}

pub record BurnInfo : Type 0 where
  pub txid : Bytes
  pub amount : ℕ
  pub to_bytes : Bytes
  pub nonce : Bytes

-- The addresses of the origin chain: its decoder, base58, the address codec of the bindings for
-- the destination of the selector, and whether the asset is BTC, BCH or ZEC.
pub record Addresses : Type 0 where
  pub may_be_base58 : Bool
  pub decode_address : Bytes → Result String Bytes
  pub base58_encode : Bytes → Bytes
  pub bindings_decode : Bytes → Result String Bytes

module _ (a : Addresses) where
  open a use {may_be_base58, decode_address, base58_encode, bindings_decode}

  -- The `switch` of handleAssetAddr: the text of the address.
  unfoldable pub asset_address : Bytes → Result String Bytes
  asset_address to_bytes =
      if may_be_base58
      then elim (decode_address to_bytes) [
        | ok _ ↦ ok to_bytes
        | err _ ↦ do decoded ← decode_address (base58_encode to_bytes); ok (base58_encode to_bytes)
      ]
      else ok to_bytes

  unfoldable pub handle_asset_addr : Bytes → Result String (Bytes × Bytes)
  unfolding asset_address
  handle_asset_addr to_bytes = do
    to ← asset_address to_bytes
    decoded ← bindings_decode to
    ok (to, decoded)

-- The collaborators of one watcher: `selector` is its selector.
pub record BurnContext : Type 0 where
  pub selector : Selector
  pub darknode : Darknode
  pub naming : Naming
  pub addresses : Addresses

module _ (redis : Redis) (c : BurnContext) where
  open c use {selector, darknode, naming, addresses}

  unfoldable pub burn_input : Bytes → ℕ → Bytes → Bytes → Bytes → LockInput
  burn_input txid amount to decoded nonce =
      let phash = darknode.phash_of [] in
      record {
        txid = txid;
        txindex = 0;
        amount = amount;
        payload = [];
        phash = phash;
        to = to;
        nonce = nonce;
        nhash = darknode.nhash_of nonce txid 0;
        gpubkey = [];
        ghash = darknode.ghash_of selector phash decoded nonce;
      }

  unfoldable pub input_transaction : LockInput → Result String Tx
  input_transaction i = do
    input ← darknode.encode i
    hash ← darknode.new_tx_hash darknode.version1 selector input
    ok (record { hash = hash; version = darknode.version1; selector = selector; input = input })

  -- The transaction, or the error of the first step that fails.
  unfoldable pub burn_transaction : BurnInfo → Result String Tx
  unfolding burn_input input_transaction
  burn_transaction b = do
    (to, decoded) ← handle_asset_addr addresses b.to_bytes
    input_transaction (burn_input b.txid b.amount to decoded b.nonce)

  -- The keys of the two mappings.
  abbrev pub v0_key : BurnInfo → String
  v0_key b = naming.b32_string (burn_tx_hash naming selector (naming.u256_of b.nonce))

  abbrev pub ref_key : BurnInfo → String
  ref_key b = str_append selector (str_append "_" (naming.decimal (naming.u256_of b.nonce)))

  -- The mappings are written only if the transaction is made, and their errors are dropped.
  unfoldable pub record_mapping : BurnInfo → Result String Tx → redis.State → redis.State
  record_mapping b (err e) s = s
  record_mapping b (ok tx) s =
      let s' = (redis.set (v0_key b) (darknode.hash_string tx.hash) s).1 in
      (redis.set (ref_key b) (v0_key b) s').1

  unfoldable pub burn_to_params : BurnInfo → redis.State → Result String Tx × redis.State
  burn_to_params b s = (burn_transaction b, record_mapping b (burn_transaction b) s)

  -- The mapping of a burn leaves every other key as it was.
  get_uint64-record_mapping :
      (k : String) (b : BurnInfo) (r : Result String Tx) (s : redis.State)
      → v0_key b ≢ k
      → ref_key b ≢ k
      → redis.get_uint64 k (record_mapping b r s) ≡ redis.get_uint64 k s
  unfolding record_mapping
  get_uint64-record_mapping k b (err e) s h g = refl
  get_uint64-record_mapping k b (ok tx) s h g =
      redis.get_uint64-set_ne _ k _ _ g ∙ redis.get_uint64-set_ne _ k _ s h

  pub get_uint64-burn_to_params :
      (k : String) (b : BurnInfo) (s : redis.State)
      → v0_key b ≢ k
      → ref_key b ≢ k
      → redis.get_uint64 k (burn_to_params b s).1 ≡ redis.get_uint64 k s
  unfolding burn_to_params
  get_uint64-burn_to_params k b s h g = get_uint64-record_mapping k b (burn_transaction b) s h g

  abbrev pub Carries : LockInput → Tx → Type 0
  Carries i tx =
      (tx.selector ≡ selector)
      × (lookup "txid" tx.input ≡ some (bytes i.txid))
      × (lookup "amount" tx.input ≡ some (u256 i.amount))
      × (lookup "to" tx.input ≡ some (str i.to))
      × (lookup "nonce" tx.input ≡ some (bytes32 i.nonce))

  input_transaction-Carries : (i : LockInput) (tx : Tx) → input_transaction i ≡ ok tx → Carries i tx
  unfolding input_transaction
  input_transaction-Carries i tx h = elim (Result-cases (darknode.encode i)) [
    | inl (t, e) ↦ ground (
      arith,
      darknode.encode-txid i t e,
      darknode.encode-amount i t e,
      darknode.encode-to i t e,
      darknode.encode-nonce i t e,
    )
    | inr (x, e) ↦ ground (arith, e)
  ]

  -- The transaction that a burn becomes has the watcher's selector and carries the burn's
  -- transaction id, amount and nonce, and the address that was made of the burn's bytes.
  pub burn_transaction-Carries :
      (b : BurnInfo) (tx : Tx)
      → burn_transaction b ≡ ok tx
      → (to : Bytes) × (decoded : Bytes) × (handle_asset_addr addresses b.to_bytes
          ≡ ok (to, decoded))
        × Carries (burn_input b.txid b.amount to decoded b.nonce) tx
  unfolding burn_transaction
  burn_transaction-Carries b tx h = elim (Result-cases (handle_asset_addr addresses b.to_bytes)) [
    | inl ((to, decoded), e) ↦ (
      to,
      decoded,
      e,
      input_transaction-Carries (burn_input b.txid b.amount to decoded b.nonce) tx
          (ground (arith, e)),
    )
    | inr (x, e) ↦ absurd (ground (arith, e))
  ]

-- Where an asset may be addressed in base58, the address that is returned is one that the decoder
-- of its chain accepts: the bytes of the event themselves, or their base58 text.
pub asset_address-decodes :
    (a : Addresses) (to_bytes to decoded : Bytes)
    → a.may_be_base58 ≡ true
    → handle_asset_addr a to_bytes ≡ ok (to, decoded)
    → ((to ≡ to_bytes) ⊎ (to ≡ a.base58_encode to_bytes))
      × ((d : Bytes) × (a.decode_address to ≡ ok d))
      × (a.bindings_decode to ≡ ok decoded)
unfolding handle_asset_addr
asset_address-decodes a to_bytes to decoded m h = elim (Result-cases (a.decode_address to_bytes)) [
  | inl (d, e) ↦ (ground arith, (d, ground arith), ground arith)
  | inr (x, e) ↦ elim (Result-cases (a.decode_address (a.base58_encode to_bytes))) [
    | inl (d, e') ↦ (ground arith, (d, ground arith), ground arith)
    | inr (y, e') ↦ absurd (ground arith)
  ]
]
