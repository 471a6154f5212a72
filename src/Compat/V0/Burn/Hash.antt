-- ===== src/Compat/V0/Burn/Hash.antt =====
-- The two computations of the hash of a burn in version 0, that of a submission and that of the
-- watcher.
use lightnode.Common.{ℕ, ◌^◌, ◌<◌, ◌≡◌, false, some, arith}
use lightnode.Common.Int.{ℤ, pos}
use lightnode.Common.Result.{ok}
use lightnode.Darknode.{Bytes, Selector, Darknode}
use lightnode.Abi.Contracts.{is_shift_in}
use lightnode.Abi.Numbers.{int64, signed, u64}
use lightnode.Abi.Values.{number}
use lightnode.Compat.V0.Hashes.{burn_tx_hash, to_from_v1_selector}
use lightnode.Compat.V0.Store.{Texts, V0Tx, in_value}
use lightnode.Compat.V0.Burn.{Burns, v0_tx_hash_from_tx}

small_int64 : (n : ℕ) → n < 2 ^ 63 → signed 64 (int64 (pos n)) ≡ pos n
unfolding int64
small_int64 n h = ground arith

module _ (texts : Texts) (padded_big_bytes : ℤ → ℕ → Bytes) (darknode : Darknode)
    (burns : Burns) where
  -- For a burn whose address is the one made of a selector, and whose reference is below 2 ^ 63, a
  -- submission computes the hash that the watcher computes of the selector and the reference.
  pub v0_tx_hash_from_tx-burn_tx_hash :
      (v0tx : V0Tx padded_big_bytes) (sel : Selector) (n : ℕ)
      → is_shift_in v0tx.to ≡ some false
      → texts.text v0tx.to ≡ to_from_v1_selector texts.naming sel
      → in_value padded_big_bytes "ref" v0tx ≡ some (number u64 (some (pos n)))
      → n < 2 ^ 63
      → v0_tx_hash_from_tx texts padded_big_bytes darknode burns v0tx
        ≡ ok (burn_tx_hash texts.naming sel n)
  unfolding v0_tx_hash_from_tx burn_tx_hash
  v0_tx_hash_from_tx-burn_tx_hash v0tx sel n burn address ref small =
      ground (arith, burn, ref, address, small_int64 n small)
