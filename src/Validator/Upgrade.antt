-- ===== src/Validator/Upgrade.antt =====
-- resolver/validator.go: the parameters of a request of an older version become those of version 1
-- before the request is checked by the package `jsonrpc`.
use lightnode.Common.{String, ◌≡◌, not, Option, none, some, [], if◌then◌else◌}
use lightnode.Common.Eq.{string_eq, bytes_eq, ◌==◌}
use lightnode.Common.Result.{Result, ok, err}
use lightnode.Darknode.{Bytes, Typed, LockInput, Tx}
use lightnode.Database.{Database}
use lightnode.Database.Rows.{copy32}
use lightnode.Compat.V0.Store.{CompatError, V0Tx}
use lightnode.Compat.V0.Submit.{Compat, v1_tx_params_from_tx}
use lightnode.Compat.V1.Store.{StoreError, remove_gpubkey, updated_hash, Rebuilt}

-- The errors that are answered as invalid parameters.
pub data UpgradeError : Type 0 where
  undecoded unwritten : String → UpgradeError
  not_upgraded : CompatError → UpgradeError
  not_rebuilt : StoreError → UpgradeError

-- The parameters as JSON: whether they are those of a request, and those of a request as JSON.
pub record Params (c : Compat) : Type 1 where
  pub Json : Type 0
  pub query_v1 : Json → Option Bytes
  pub query_v0 : Json → Option Bytes
  pub write_query : Bytes → Result String Json
  pub submit_v1 : Json → Option Tx
  pub submit_v0 : Json → Option (V0Tx c.padded_big_bytes)
  pub write_submit : Tx → Result String Json

module _ (c : Compat) (params : Params c) (decode : Typed → Result String LockInput) where
  open params use {Json, query_v1, query_v0, write_query, submit_v1, submit_v0, write_submit}
  open c use {redis, columns, darknode}

  abbrev written : Result String Json → Result UpgradeError Json
  written (ok raw) = ok raw
  written (err e) = err (unwritten e)

  -- V1QueryTxFromQueryTx copies the hash.
  abbrev from_query_v0 : Json → Option Bytes → Result UpgradeError Json
  from_query_v0 raw none = ok raw
  from_query_v0 raw (some hash) = written (write_query (copy32 columns hash))

  unfoldable pub upgrade_query : Json → Result UpgradeError Json
  upgrade_query raw = elim (query_v1 raw) [
    | some hash ↦ ok raw
    | none ↦ from_query_v0 raw (query_v0 raw)
  ]

  abbrev pub Upgraded : Type 0
  Upgraded = Result UpgradeError Json × redis.State

  abbrev on_upgraded : Result CompatError Tx × redis.State → Upgraded
  on_upgraded (ok v1tx, s) = (written (write_submit v1tx), s)
  on_upgraded (err e, s) = (err (not_upgraded e), s)

  abbrev from_submit_v0 :
      Option String → Json → Database → redis.State → Option (V0Tx c.padded_big_bytes) → Upgraded
  from_submit_v0 fault raw db s none = (ok raw, s)
  from_submit_v0 fault raw db s (some v0tx) = on_upgraded (v1_tx_params_from_tx c fault v0tx db s)

  abbrev on_rebuilt : Result StoreError Tx × redis.State → Upgraded
  on_rebuilt (ok new, s) = (written (write_submit new), s)
  on_rebuilt (err e, s) = (err (not_rebuilt e), s)

  abbrev on_input : Json → Tx → redis.State → Result String LockInput → Upgraded
  on_input raw tx s (err e) = (err (undecoded e), s)
  on_input raw tx s (ok input) =
      if input.gpubkey == []
      then (ok raw, s)
      else on_rebuilt (remove_gpubkey redis columns darknode decode tx s)

  -- A burn of version 1 is submitted without its public key.
  unfoldable pub from_burn_v1 : Json → Tx → redis.State → Upgraded
  from_burn_v1 raw tx s =
      if darknode.is_lock tx.selector then (ok raw, s) else on_input raw tx s (decode tx.input)

  abbrev on_submit_v1 : Option String → Json → Database → redis.State → Option Tx → Upgraded
  on_submit_v1 fault raw db s none = from_submit_v0 fault raw db s (submit_v0 raw)
  on_submit_v1 fault raw db s (some tx) =
      if not (darknode.is_cross_chain tx.selector)
      then (ok raw, s)
      else if tx.version == darknode.version1
      then from_burn_v1 raw tx s
      else from_submit_v0 fault raw db s (submit_v0 raw)

  unfoldable pub upgrade_submit : Option String → Json → Database → redis.State → Upgraded
  unfolding from_burn_v1
  upgrade_submit fault raw db s = on_submit_v1 fault raw db s (submit_v1 raw)

  -- The switch over the method.
  unfoldable pub upgrade_params : Option String → String → Json → Database → redis.State → Upgraded
  unfolding upgrade_query upgrade_submit
  upgrade_params fault method raw db s =
      if method == "ren_queryTx"
      then (upgrade_query raw, s)
      else if method == "ren_submitTx"
      then upgrade_submit fault raw db s
      else (ok raw, s)

  -- What a burn of version 1 is passed on as: itself, where it has no public key, or the burn with
  -- its own fields and no public key, whose hash is then answered by the new one.
  pub record IsKept (raw raw' : Json) (tx : Tx) : Type 0 where
    pub input : LockInput
    pub decoded : decode tx.input ≡ ok input
    pub no_gpubkey : input.gpubkey ≡ []
    pub unchanged : raw' ≡ raw

  pub record IsReplaced (raw' : Json) (tx : Tx) (s' : redis.State) : Type 0 where
    pub new : Tx
    pub passed_on : write_submit new ≡ ok raw'
    pub rebuilt : Rebuilt redis columns darknode decode tx new
    pub answered : updated_hash redis columns darknode decode tx.hash s' ≡ ok new.hash
