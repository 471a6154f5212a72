-- ===== src/Watcher/Mapping.antt =====
-- What the mapping store of compat/v0/store.go makes of the entries that the watcher writes for a
-- burn.
use lightnode.Common.{ℕ, String, ◌≡◌, refl, ap, Option, none, some, length}
use lightnode.Common.Int.{ℤ}
use lightnode.Common.Result.{ok}
use lightnode.Darknode.{Bytes, Darknode, Tx}
use lightnode.Redis.{Redis}
use lightnode.Database.{Columns, Database}
use lightnode.Database.RoundTrip.{copy32_full}
use lightnode.Database.Txs as Txs
use lightnode.Compat.V0.Hashes.{burn_tx_hash}
use lightnode.Compat.V0.Store.{
  Texts, V0Tx, lookup_string, decode_hash_string, from_db, get_v1_tx_from_tx,
}
use lightnode.Watcher.Burns.{
  BurnInfo, BurnContext, burn_transaction, v0_key, ref_key, record_mapping, burn_to_params,
}

-- Standard base64 of 32 bytes ends in a padding, which the raw URL decoder refuses.
pub record IsPadded (b32_string : Bytes → String) (texts : Texts) (columns : Columns) (b : Bytes)
    : Type 0 where
  pub size : length b ≡ 32
  pub refused : columns.decode_base64 (b32_string b) ≡ none
  pub decoded : texts.decode_std (b32_string b) ≡ some b

decode_hash_string-b32_string :
    (b32_string : Bytes → String) (texts : Texts) (columns : Columns) (b : Bytes)
    → IsPadded b32_string texts columns b
    → decode_hash_string texts columns (b32_string b) ≡ ok b
unfolding decode_hash_string
decode_hash_string-b32_string b32_string texts columns b padded =
    rw (padded.refused, decode_hash_string)
      (rw padded.decoded (ap ok (copy32_full columns b padded.size)))

module _ (texts : Texts) (padded_big_bytes : ℤ → ℕ → Bytes) (redis : Redis) (columns : Columns)
    (c : BurnContext) where
  abbrev pub v0_hash_of : BurnInfo → Bytes
  v0_hash_of b = burn_tx_hash c.naming c.selector (c.naming.u256_of b.nonce)

  -- After the watcher has recorded a burn without an error, a submission of version 0 that spends
  -- its reference is looked up in the database under the hash of version 0, and not under that of
  -- the transaction that the watcher submitted.
  pub get_v1_tx_from_tx-burn_to_params :
      (darknode : Darknode) (b : BurnInfo) (tx : Tx) (w : V0Tx padded_big_bytes)
      (fault : Option String) (db : Database) (s : redis.State)
      → IsPadded c.naming.b32_string texts columns (v0_hash_of b)
      → burn_transaction redis c b ≡ ok tx
      → (redis.set
          (ref_key redis c b)
          (v0_key redis c b)
          (redis.set (v0_key redis c b) (c.darknode.hash_string tx.hash) s).1).0
        ≡ none
      → lookup_string texts padded_big_bytes w ≡ ok (ref_key redis c b)
      → get_v1_tx_from_tx texts padded_big_bytes redis columns darknode fault w db
          (burn_to_params redis c b s).1
        ≡ from_db texts padded_big_bytes redis columns darknode
            (Txs.tx columns darknode fault (v0_hash_of b) db)
  unfolding burn_to_params record_mapping get_v1_tx_from_tx
  get_v1_tx_from_tx-burn_to_params darknode b tx w fault db s padded made written spent =
      rw
        (
          made,
          spent,
          redis.get-set_self _ _ _ written,
          decode_hash_string-b32_string c.naming.b32_string texts columns (v0_hash_of b) padded,
        )
        refl
