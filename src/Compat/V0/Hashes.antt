-- ===== src/Compat/V0/Hashes.antt =====
-- compat/v0/compat.go: the names and hashes that version 0 gives to the transactions of version 1.
use Prim.Native.String.{◌++◌ as str_append}
use mathlib.Core.List.{reverse}
use lightnode.Common.{ℕ, String}
use lightnode.Darknode.{Bytes, Selector}

-- What the hashes are made from: of the selector, the asset and the native assets of the two
-- chains; Go's strings.Title(strings.ToLower(s)); a number in decimals; and Keccak256.
pub record Naming : Type 0 where
  pub asset : Selector → String
  pub source_asset : Selector → String
  pub destination_asset : Selector → String
  pub title_lower : String → String
  pub decimal : ℕ → String
  -- pack.NewU256 of 32 bytes.
  pub u256_of : Bytes → ℕ
  pub keccak : String → Bytes
  -- B32.String(): standard base64.
  pub b32_string : Bytes → String

module _ (n : Naming) where
  open n use {asset, source_asset, destination_asset, title_lower, decimal, keccak, b32_string}

  unfoldable pub to_from_v1_selector : Selector → String
  to_from_v1_selector sel = str_append (asset sel) (
      str_append "0" (
        str_append (title_lower (source_asset sel))
          (str_append "2" (title_lower (destination_asset sel)))))

  unfoldable pub burn_tx_hash : Selector → ℕ → Bytes
  unfolding to_from_v1_selector
  burn_tx_hash sel ref =
      keccak
        (str_append "txHash_" (str_append (to_from_v1_selector sel) (str_append "_" (decimal ref))))

  -- The transaction id of version 1 is that of version 0 backwards.
  unfoldable pub mint_tx_hash : Selector → Bytes → Bytes → ℕ → Bytes
  unfolding to_from_v1_selector
  mint_tx_hash sel ghash txid txindex =
      let v0_deposit_id =
        str_append (b32_string (reverse txid)) (str_append "_" (decimal txindex)) in
      keccak (
        str_append "txHash_" (
          str_append (to_from_v1_selector sel)
            (str_append "_" (str_append (b32_string ghash) (str_append "_" v0_deposit_id)))))
