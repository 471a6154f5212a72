-- ===== src/Watcher/Window.antt =====
-- watchLogShiftOuts, the part that chooses the last block of a poll. The heights are uint64.
use lightnode.Common.{
  ℕ, ◌+◌, ◌-◌, ◌%◌, ◌^◌, ◌≤◌, ◌<◌, ◌≡◌, Bool, true, false, not, arith, ltb, if◌then◌else◌, min,
}

abbrev pub u64_mod : ℕ
u64_mod = 2 ^ 64

-- The fields of `Watcher` that a window depends on; `is_solana` says that the source of the
-- selector is Solana.
pub record Settings : Type 0 where
  pub max_block_advance : ℕ
  pub confidence_interval : ℕ
  pub is_solana : Bool

-- `step := lastHeight + maxBlockAdvance; if step < currentHeight { currentHeight = step }`
unfoldable pub capped : Settings → ℕ → ℕ → ℕ
capped w last current =
    let step = (last + w.max_block_advance) % u64_mod in if ltb step current then step else current

-- The end of the window, after the confidence interval has been taken off.
unfoldable pub window_end : Settings → ℕ → ℕ → ℕ
unfolding capped
window_end w last current =
    let top = capped w last current in
    if not w.is_solana then (top + u64_mod - w.confidence_interval) % u64_mod else top

module _ (w : Settings) (last current : ℕ) where
  pub window_end-lt : current < u64_mod → window_end w last current < u64_mod
  unfolding window_end
  window_end-lt c = ground arith

  -- Where the sums do not pass 2^64 and the chain is as long as the confidence interval, the window
  -- of an EVM chain ends the confidence interval below the nearer of the height of the chain and
  -- the block that lies `max_block_advance` above the last one checked.
  pub window_end-min :
      w.is_solana ≡ false
      → last + w.max_block_advance < u64_mod
      → current < u64_mod
      → w.confidence_interval ≤ min (last + w.max_block_advance) current
      → window_end w last current ≡ min (last + w.max_block_advance) current - w.confidence_interval
  unfolding window_end
  window_end-min s a b c = ground arith

  -- A poll of Solana advances to the height, or by `max_block_advance`.
  pub window_end-solana :
      w.is_solana ≡ true
      → last + w.max_block_advance < u64_mod
      → window_end w last current ≡ min (last + w.max_block_advance) current
  unfolding window_end
  window_end-solana s a = ground arith

  -- The window of an EVM chain ends below the block where it starts whenever the chain has grown
  -- by less than the confidence interval.
  pub window_regresses :
      w.is_solana ≡ false
      → last + w.max_block_advance < u64_mod
      → current < u64_mod
      → w.confidence_interval ≤ current
      → w.confidence_interval ≤ last
      → current < last + w.confidence_interval
      → window_end w last current < last
  unfolding window_end
  window_regresses s a b c d e = ground arith

  -- On a chain that is shorter than the confidence interval the subtraction wraps.
  pub window_wraps :
      w.is_solana ≡ false
      → last + w.max_block_advance < u64_mod
      → current < w.confidence_interval
      → w.confidence_interval < u64_mod
      → u64_mod - w.confidence_interval ≤ window_end w last current
  unfolding window_end
  window_wraps s a b c = ground arith

  -- With a confidence interval as large as the advance of one poll or larger, no window of an EVM
  -- chain ends above the block where it starts, however far the chain has grown.
  pub window_never_advances :
      w.is_solana ≡ false
      → last + w.max_block_advance < u64_mod
      → current < u64_mod
      → w.confidence_interval ≤ last
      → last ≤ current
      → w.max_block_advance ≤ w.confidence_interval
      → window_end w last current ≤ last
  unfolding window_end
  window_never_advances s a b c d e = ground arith
