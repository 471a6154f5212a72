-- ===== src/Compat/V1/Store.antt =====
-- compat/v1/store.go: burns are submitted again without their public key, and the hash of what was
-- submitted is mapped to that of the new transaction in Redis.
use lightnode.Common.{
  String, ◌≡◌, ap, ◌∙◌, Option, none, some, [], arith, inl, inr, length, Option-cases,
}
use lightnode.Common.Result.{Result, ok, err, ◌>>=◌, Result-cases}
use lightnode.Darknode.{Bytes, Typed, LockInput, Tx, Darknode}
use lightnode.Redis.{Redis, RedisError}
use lightnode.Database.{Columns}
use lightnode.Database.Rows.{copy32}
use lightnode.Database.RoundTrip.{copy32_full}

pub data StoreError : Type 0 where
  redis_failed : RedisError → StoreError
  bad_hash other : String → StoreError

-- pack.Decode on a LockMintBurnReleaseInput is an argument.
module _ (redis : Redis) (columns : Columns) (darknode : Darknode)
    (decode : Typed → Result String LockInput) where
  abbrev pub called {ℓ} : {A : Type ℓ} → Result String A → Result StoreError A
  called (ok a) = ok a
  called (err e) = err (other e)

  unfoldable pub without_gpubkey : Tx → Result StoreError Tx
  without_gpubkey transaction = do
    input ← called (decode transaction.input)
    encoded ← called (darknode.encode (record input { gpubkey = [] }))
    called (darknode.new_tx transaction.selector encoded)

  abbrev on_set : Tx → Option RedisError × redis.State → Result StoreError Tx × redis.State
  on_set new_tx (none, s) = (ok new_tx, s)
  on_set new_tx (some e, s) = (err (redis_failed e), s)

  abbrev on_built : Tx → Result StoreError Tx → redis.State → Result StoreError Tx × redis.State
  on_built transaction (err e) s = (err e, s)
  on_built transaction (ok new_tx) s =
      on_set new_tx (redis.set (columns.base64 transaction.hash) (columns.base64 new_tx.hash) s)

  unfoldable pub remove_gpubkey : Tx → redis.State → Result StoreError Tx × redis.State
  remove_gpubkey transaction s = on_built transaction (without_gpubkey transaction) s

  abbrev or_bad : String → Option Bytes → Result StoreError Bytes
  or_bad hash_str none = err (bad_hash hash_str)
  or_bad hash_str (some b) = ok (copy32 columns b)

  abbrev on_hash_str : Result RedisError String → Result StoreError Bytes
  on_hash_str (err e) = err (redis_failed e)
  on_hash_str (ok hash_str) = or_bad hash_str (columns.decode_base64 hash_str)

  unfoldable pub updated_hash : Bytes → redis.State → Result StoreError Bytes
  updated_hash hash s = on_hash_str (redis.get (columns.base64 hash) s)

  -- What a burn was submitted again as: its own fields without the public key.
  pub record Rebuilt (transaction new : Tx) : Type 0 where
    pub input : LockInput
    pub encoded : Typed
    pub decoded : decode transaction.input ≡ ok input
    pub encoded_lem : darknode.encode (record input { gpubkey = [] }) ≡ ok encoded
    pub built : darknode.new_tx transaction.selector encoded ≡ ok new

  without_gpubkey-Rebuilt :
      (transaction new : Tx) → without_gpubkey transaction ≡ ok new → Rebuilt transaction new
  unfolding without_gpubkey
  without_gpubkey-Rebuilt transaction new h = elim (Result-cases (decode transaction.input)) [
    | inr (e, p) ↦ absurd (ground (arith, p))
    | inl (i, p) ↦ elim (Result-cases (darknode.encode (record i { gpubkey = [] }))) [
      | inr (e, q) ↦ absurd (ground (arith, p, q))
      | inl (t, q) ↦ elim (Result-cases (darknode.new_tx transaction.selector t)) [
        | inr (e, r) ↦ absurd (ground (arith, p, q, r))
        | inl (u, r) ↦ record {
          input = i;
          encoded = t;
          decoded = p;
          encoded_lem = q;
          built = ground (arith, p, q, r);
        }
      ]
    ]
  ]

  pub remove_gpubkey-Rebuilt :
      (transaction new : Tx) (s s' : redis.State)
      → remove_gpubkey transaction s ≡ (ok new, s')
      → Rebuilt transaction new
  unfolding remove_gpubkey
  remove_gpubkey-Rebuilt transaction new s s' h =
      elim (Result-cases (without_gpubkey transaction)) [
        | inr (e, p) ↦ absurd (ground (arith, p))
        | inl (u, p) ↦
            elim (Option-cases
              (redis.set (columns.base64 transaction.hash) (columns.base64 u.hash) s).0) [
                | inr (e, q) ↦ absurd (ground (arith, p, q))
                | inl q ↦ without_gpubkey-Rebuilt transaction new (ground (arith, p, q))
              ]
      ]

  remembered :
      (transaction new u : Tx) (s s' : redis.State)
      → without_gpubkey transaction ≡ ok u
      → (redis.set (columns.base64 transaction.hash) (columns.base64 u.hash) s).0 ≡ none
      → u ≡ new
      → (redis.set (columns.base64 transaction.hash) (columns.base64 u.hash) s).1 ≡ s'
      → length new.hash ≡ 32
      → Rebuilt transaction new × (updated_hash transaction.hash s' ≡ ok new.hash)
  unfolding updated_hash
  remembered transaction new u s s' p q same kept size = (
    without_gpubkey-Rebuilt transaction new (p ∙ ap ok same),
    rw (← kept) (
        rw
          (
            redis.get-set_self (columns.base64 transaction.hash) (columns.base64 u.hash) s q,
            columns.decode-base64 u.hash,
            same,
          )
          (ap ok (copy32_full columns new.hash size))),
  )

  -- A burn whose public key was removed without an error is the burn with its own fields and no
  -- public key, and its old hash is answered by the new one.
  pub updated_hash-remove_gpubkey :
      (transaction new : Tx) (s s' : redis.State)
      → remove_gpubkey transaction s ≡ (ok new, s')
      → length new.hash ≡ 32
      → Rebuilt transaction new × (updated_hash transaction.hash s' ≡ ok new.hash)
  unfolding remove_gpubkey
  updated_hash-remove_gpubkey transaction new s s' h size =
      elim (Result-cases (without_gpubkey transaction)) [
        | inr (e, p) ↦ absurd (ground (arith, p))
        | inl (u, p) ↦
            elim (Option-cases
              (redis.set (columns.base64 transaction.hash) (columns.base64 u.hash) s).0) [
                | inr (e, q) ↦ absurd (ground (arith, p, q))
                | inl q ↦
                    remembered transaction new u s s' p q (ground (arith, p, q))
                      (ground (arith, p, q)) size
              ]
      ]
