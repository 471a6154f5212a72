-- ===== src/Compat/V0/Submit.antt =====
-- compat/v0/compat.go, V1TxParamsFromTx: a submission of version 0 becomes one of version 1, the
-- one that the database has where the transaction was submitted before.
pub mod Again
use lightnode.Common.{ℕ, String, true, false, Option, none, some}
use lightnode.Common.Int.{ℤ}
use lightnode.Common.Result.{Result, ok, err, ◌>>=◌}
use lightnode.Darknode.{Bytes, Tx, Darknode}
use lightnode.Redis.{Redis}
use lightnode.Database.{Columns, Database}
use lightnode.Abi.Contracts.{ValidationError, is_shift_in, validate_v0_tx}
use lightnode.Compat.V0.Store.{
  CompatError, not_found, panicked, not_valid, Texts, called, V0Tx, get_v1_tx_from_tx,
  persist_tx_mappings,
}
use lightnode.Compat.V0.Mint.{Mints, v1_tx_from_v0_mint}
use lightnode.Compat.V0.Burn.{Burns, v1_tx_from_v0_burn, v0_tx_hash_from_tx}

-- The parameters that the functions share: texts, the values of the ABI, Redis, the columns of the
-- database, the engine and the chains.
pub record Compat : Type 1 where
  pub texts : Texts
  pub padded_big_bytes : ℤ → ℕ → Bytes
  pub redis : Redis
  pub columns : Columns
  pub darknode : Darknode
  pub mints : Mints
  pub burns : Burns

module _ (c : Compat) where
  open c use {texts, padded_big_bytes, redis, columns, darknode, mints, burns}

  -- The transaction of version 1, its hash in version 0, and the version that it is hashed in.
  unfoldable pub converted : V0Tx padded_big_bytes → Result CompatError (Tx × (Bytes × String))
  converted v0tx = elim (is_shift_in v0tx.to) [
    | none ↦ err panicked
    | some true ↦ do
      (v1tx, hash) ← v1_tx_from_v0_mint texts padded_big_bytes darknode mints v0tx
      ok (v1tx, (hash, darknode.version0))
    | some false ↦ do
      v1tx ← v1_tx_from_v0_burn texts padded_big_bytes darknode burns v0tx
      hash ← v0_tx_hash_from_tx texts padded_big_bytes darknode burns v0tx
      ok (v1tx, (hash, darknode.version1))
  ]

  -- The transactions of both versions whose mapping is stored.
  unfoldable pub mapped_txs :
      V0Tx padded_big_bytes → Result CompatError (V0Tx padded_big_bytes × Tx)
  unfolding converted
  mapped_txs v0tx = do
    (v1tx, (v0hash, version)) ← converted v0tx
    h ← called (darknode.new_tx_hash version v1tx.selector v1tx.input)
    ok (
      record v0tx { hash = v0hash },
      record {
        hash = h;
        version = darknode.version0;
        selector = v1tx.selector;
        input = v1tx.input;
      },
    )

  abbrev on_persisted : Tx → Option CompatError × redis.State → Result CompatError Tx × redis.State
  on_persisted v1tx (none, s) = (ok v1tx, s)
  on_persisted v1tx (some e, s) = (err e, s)

  abbrev on_mapped :
      Result CompatError (V0Tx padded_big_bytes × Tx)
      → redis.State
      → Result CompatError Tx × redis.State
  on_mapped (err e) s = (err e, s)
  on_mapped (ok (v0tx, v1tx)) s =
      on_persisted v1tx (persist_tx_mappings texts padded_big_bytes redis columns v0tx v1tx s)

  abbrev unless_known :
      V0Tx padded_big_bytes
      → Result CompatError Tx
      → redis.State
      → Result CompatError Tx × redis.State
  unless_known v0tx (ok v1tx) s = (ok v1tx, s)
  unless_known v0tx (err not_found) s = on_mapped (mapped_txs v0tx) s
  unless_known v0tx (err e) s = (err e, s)

  abbrev if_valid :
      Option String
      → V0Tx padded_big_bytes
      → Database
      → redis.State
      → Result ValidationError (Unit {0})
      → Result CompatError Tx × redis.State
  if_valid fault v0tx db s (err e) = (err (not_valid e), s)
  if_valid fault v0tx db s (ok valid) =
      unless_known v0tx
        (get_v1_tx_from_tx texts padded_big_bytes redis columns darknode fault v0tx db s) s

  -- With the fault of the driver, if any.
  unfoldable pub v1_tx_params_from_tx :
      Option String
      → V0Tx padded_big_bytes
      → Database
      → redis.State
      → Result CompatError Tx × redis.State
  v1_tx_params_from_tx fault v0tx db s =
      if_valid fault v0tx db s (validate_v0_tx padded_big_bytes v0tx)
