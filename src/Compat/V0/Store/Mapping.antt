-- ===== src/Compat/V0/Store/Mapping.antt =====
-- What the mapping store answers after a mapping was persisted.
use Prim.Native.String.{◌++◌ as str_append}
use lightnode.Common.{
  ℕ, String, ◌≡◌, ◌≢◌, ap, sym, ◌∙◌, true, false, Option, none, arith, inl, inr, length,
  Option-cases,
}
use lightnode.Common.Int.{ℤ}
use lightnode.Common.Result.{ok, Result-cases}
use lightnode.Darknode.{Bytes, Darknode}
use lightnode.Darknode as Engine
use lightnode.Redis.{Redis}
use lightnode.Database.{Columns, Database}
use lightnode.Database.RoundTrip.{copy32_full}
use lightnode.Database.Txs as Txs
use lightnode.Compat.V0.Store.{
  Texts, utxo_lookup_string, ref_lookup_string, decode_hash_string, V0Tx, lookup_string, read_hash,
  get_v1_hash_from_hash, write_hash, persist_tx_mappings, from_db, get_v1_tx_from_tx, as_utxo,
  as_u64, in_value, burn_selector, int_string,
}
use lightnode.Abi.Contracts.{is_shift_in}

-- Standard base64 has no underscore.
abbrev pub IsPlain : Texts → Type 0
IsPlain texts =
    (b : Bytes) (x y : String) → texts.naming.b32_string b ≢ str_append x (str_append "_" y)

module _ (texts : Texts) (padded_big_bytes : ℤ → ℕ → Bytes) (redis : Redis)
    (columns : Columns) where
  lookup_string-ne :
      IsPlain texts
      → (v0tx : V0Tx padded_big_bytes) (b : Bytes) (key : String)
      → lookup_string texts padded_big_bytes v0tx ≡ ok key
      → texts.naming.b32_string b ≢ key
  unfolding lookup_string utxo_lookup_string ref_lookup_string
  lookup_string-ne plain v0tx b key h same = elim (Option-cases (is_shift_in v0tx.to)) [
    | inl p ↦ absurd (ground (arith, p))
    | inr (true, p) ↦ elim (Result-cases (as_utxo (in_value padded_big_bytes "utxo" v0tx))) [
      | inl (u, q) ↦
          plain b (texts.naming.b32_string u.tx_hash) (int_string texts u.v_out)
            (ground (arith, p, q))
      | inr (e, q) ↦ ground (arith, p, q)
    ]
    | inr (false, p) ↦ elim (Result-cases (as_u64 (in_value padded_big_bytes "ref" v0tx))) [
      | inl (r, q) ↦
          plain b (burn_selector texts v0tx.to) (int_string texts r) (ground (arith, p, q))
      | inr (e, q) ↦ ground (arith, p, q)
    ]
  ]

  read_hash-write_hash_self :
      (key : String) (hash : Bytes) (s s' : redis.State)
      → length hash ≡ 32
      → write_hash texts redis columns key hash s ≡ (none, s')
      → read_hash texts redis columns key s' ≡ ok hash
  unfolding write_hash read_hash decode_hash_string
  read_hash-write_hash_self key hash s s' size h =
      elim (Option-cases (redis.set key (columns.base64 hash) s).0) [
        | inl p ↦ ground (
          arith,
          redis.get-set_self key (columns.base64 hash) s p,
          columns.decode-base64 hash,
          copy32_full columns hash size,
        )
        | inr (e, p) ↦ absurd (ground (arith, p))
      ]

  read_hash-write_hash_ne :
      (key j : String) (hash : Bytes) (s : redis.State)
      → key ≢ j
      → read_hash texts redis columns j (write_hash texts redis columns key hash s).1
        ≡ read_hash texts redis columns j s
  unfolding write_hash read_hash
  read_hash-write_hash_ne key j hash s h = rw (redis.get-set_ne key j (columns.base64 hash) s h)

  -- The two writes of a mapping that was persisted.
  record Persisted (v0tx : V0Tx padded_big_bytes) (hash : Bytes) (s s' : redis.State) : Type 0 where
    spent : String
    between : redis.State
    spent_lem : lookup_string texts padded_big_bytes v0tx ≡ ok spent
    first :
        write_hash texts redis columns (texts.naming.b32_string v0tx.hash) hash s ≡ (none, between)
    second : write_hash texts redis columns spent hash between ≡ (none, s')

  persisted :
      (v0tx : V0Tx padded_big_bytes) (v1tx : Engine.Tx) (s s' : redis.State)
      → persist_tx_mappings texts padded_big_bytes redis columns v0tx v1tx s ≡ (none, s')
      → Persisted v0tx v1tx.hash s s'
  unfolding persist_tx_mappings write_hash
  persisted v0tx v1tx s s' h =
      let key = texts.naming.b32_string v0tx.hash in
      let value = columns.base64 v1tx.hash in
      elim (Option-cases (redis.set key value s).0) [
        | inr (e, p) ↦ absurd (ground (arith, p))
        | inl p ↦ elim (Result-cases (lookup_string texts padded_big_bytes v0tx)) [
          | inr (e, q) ↦ absurd (ground (arith, p, q))
          | inl (spent, q) ↦ record {
            spent = spent;
            between = (redis.set key value s).1;
            spent_lem = q;
            first = ground (arith, p);
            second = ground (arith, p, q);
          }
        ]
      ]

  -- A persisted mapping is answered for the hash of version 0.
  pub get_v1_hash_from_hash-persist_tx_mappings :
      IsPlain texts
      → (v0tx : V0Tx padded_big_bytes) (v1tx : Engine.Tx) (s s' : redis.State)
      → length v1tx.hash ≡ 32
      → persist_tx_mappings texts padded_big_bytes redis columns v0tx v1tx s ≡ (none, s')
      → get_v1_hash_from_hash texts redis columns v0tx.hash s' ≡ ok v1tx.hash
  unfolding get_v1_hash_from_hash
  get_v1_hash_from_hash-persist_tx_mappings plain v0tx v1tx s s' size h =
      let p = persisted v0tx v1tx s s' h in
      let key = texts.naming.b32_string v0tx.hash in
      let other = lookup_string-ne plain v0tx v0tx.hash p.spent p.spent_lem in
      ap (λ r. read_hash texts redis columns key r.1) (sym p.second)
      ∙ read_hash-write_hash_ne p.spent key v1tx.hash p.between (λ e. other (sym e))
      ∙ read_hash-write_hash_self key v1tx.hash s p.between size p.first

  -- A transaction that spends the same as one whose mapping was persisted is answered by what the
  -- database has under the persisted hash.
  pub get_v1_tx_from_tx-persist_tx_mappings :
      (darknode : Darknode) (v0tx w : V0Tx padded_big_bytes) (v1tx : Engine.Tx)
      (fault : Option String) (db : Database) (s s' : redis.State)
      → length v1tx.hash ≡ 32
      → persist_tx_mappings texts padded_big_bytes redis columns v0tx v1tx s ≡ (none, s')
      → lookup_string texts padded_big_bytes w ≡ lookup_string texts padded_big_bytes v0tx
      → get_v1_tx_from_tx texts padded_big_bytes redis columns darknode fault w db s'
        ≡ from_db texts padded_big_bytes redis columns darknode
            (Txs.tx columns darknode fault v1tx.hash db)
  unfolding get_v1_tx_from_tx
  get_v1_tx_from_tx-persist_tx_mappings darknode v0tx w v1tx fault db s s' size h same =
      let p = persisted v0tx v1tx s s' h in
      rw (same, p.spent_lem, read_hash-write_hash_self p.spent v1tx.hash p.between s' size p.second)
