-- ===== src/Watcher/Checkpoint.antt =====
-- The last checked block over a poll: it moves only after every burn of the window was submitted
-- and accepted, and where it moves to.
use lightnode.Common.{
  ℕ, ◌+◌, ◌-◌, ◌≤◌, ◌<◌, String, ◌≡◌, ◌≢◌, refl, ◌∙◌, Bool, true, false, Option, none, List, [],
  ◌∷◌, arith, leb, le→leb, lt→leb_false, if◌then◌else◌, Bool-cases, Option-cases, inl, inr,
}
use lightnode.Common.Result.{Result, ok, err}
use lightnode.Redis.{Redis, RedisError}
use lightnode.Darknode.{Tx}
use lightnode.Watcher.Window.{u64_mod, window_end, window_end-lt, window_regresses, window_wraps}
use lightnode.Watcher.Burns.{BurnInfo, burn_transaction, v0_key, ref_key, burn_to_params}
use lightnode.Watcher.Poll.{
  Watcher, WatcherState, key, submit_params, submit_burn, submit_burns, finish, process_window,
  watch_log_shift_outs,
}

module _ {redis : Redis} (w : Watcher redis) where
  abbrev pub checkpoint : WatcherState redis → Result RedisError ℕ
  checkpoint s = redis.get_uint64 (key w) s.cache

  -- The burn mappings use other keys than the last checked block.
  abbrev pub KeysApart : Type 0
  KeysApart =
      (b : BurnInfo) → (v0_key redis w.context b ≢ key w) × (ref_key redis w.context b ≢ key w)

  -- The events of a channel that delivered no error.
  abbrev pub IsClean : List (Result String BurnInfo) → Type 0
  IsClean [] = Unit {0}
  IsClean (ok b ∷ rest) = IsClean rest
  IsClean (err e ∷ rest) = ⊥

  abbrev pub add_transaction : Result String Tx → List Tx → List Tx
  add_transaction (ok tx) txs = tx ∷ txs
  add_transaction (err e) txs = txs

  -- The transactions of the events that make one, in order.
  abbrev pub transactions : List (Result String BurnInfo) → List Tx
  transactions [] = []
  transactions (ok b ∷ rest) =
      add_transaction (burn_transaction redis w.context b) (transactions rest)
  transactions (err e ∷ rest) = transactions rest

  -- The resolver accepts each of them, given those before it.
  abbrev pub AllAccepted : List Tx → List Tx → Type 0
  AllAccepted before [] = Unit {0}
  AllAccepted before (tx ∷ txs) = (w.submit_tx before tx ≡ none) × AllAccepted (tx ∷ before) txs

  abbrev pub rev_append : List Tx → List Tx → List Tx
  rev_append [] ys = ys
  rev_append (x ∷ xs) ys = rev_append xs (x ∷ ys)

  -- What a finished loop has done.
  abbrev pub Handled : List (Result String BurnInfo) → List Tx → List Tx → Type 0
  Handled logs before after =
      IsClean logs
      × AllAccepted before (transactions logs)
      × (after ≡ rev_append (transactions logs) before)

  abbrev HandledFrom : List (Result String BurnInfo) → List Tx → List Tx → List Tx → Type 0
  HandledFrom logs txs before after =
      IsClean logs × AllAccepted before txs × (after ≡ rev_append txs before)

  -- An event that does not end the loop adds its transaction to what was handled.
  submit_params-Handled :
      (r : Result String Tx) (cache : redis.State) (before after : List Tx)
      (rest : List (Result String BurnInfo))
      → (submit_params w r cache before).0 ≡ true
      → HandledFrom rest (transactions rest) (submit_params w r cache before).1.submitted after
      → HandledFrom rest (add_transaction r (transactions rest)) before after
  unfolding submit_params
  submit_params-Handled (err e) cache before after rest g h = h
  submit_params-Handled (ok tx) cache before after rest g h =
      elim (Option-cases (w.submit_tx before tx)) [
        | inl p ↦ (h.0, (p, h.1), h.2)
        | inr (x, p) ↦ absurd (ground (arith, p))
      ]

  pub submit_burns-Handled :
      (logs : List (Result String BurnInfo)) (s : WatcherState redis)
      → (submit_burns w logs s).0 ≡ true
      → Handled logs s.submitted (submit_burns w logs s).1.submitted
  unfolding submit_burns submit_burn burn_to_params
  submit_burns-Handled [] s h = (tt, tt, refl)
  submit_burns-Handled (err e ∷ rest) s h = absurd (ground arith)
  submit_burns-Handled (ok b ∷ rest) s h = elim (Bool-cases (submit_burn w b s).0) [
    | inr stop ↦ absurd (ground (arith, stop))
    | inl go_on ↦ rw go_on (
        submit_params-Handled (burn_transaction redis w.context b) _ s.submitted _ rest go_on
          (submit_burns-Handled rest (submit_burn w b s).1 (rw go_on at h)))
  ]

  abbrev pub window_to : ℕ → ℕ → ℕ
  window_to = window_end w.settings

  -- A poll whose last checked block is known.
  pub watch_known :
      (s : WatcherState redis) (last current : ℕ)
      → checkpoint s ≡ ok last
      → watch_log_shift_outs w (ok current) s
        ≡ (if leb current last then s else process_window w last (window_to last current) s)
  unfolding watch_log_shift_outs
  watch_known s last current c = rw c

  pub process_fetched :
      (s : WatcherState redis) (from to : ℕ) (logs : List (Result String BurnInfo))
      → w.fetch_burn_logs from to ≡ ok logs
      → process_window w from to s ≡ finish w to (submit_burns w logs s)
  unfolding process_window
  process_fetched s from to logs f = rw (f, process_window)

  pub finish_stopped : (to : ℕ) (r : Bool × WatcherState redis) → r.0 ≡ false → finish w to r ≡ r.1
  unfolding finish
  finish_stopped to (true, s) h = cc
  finish_stopped to (false, s) h = refl

  abbrev pub write_error : ℕ → WatcherState redis → Option RedisError
  write_error to s = (redis.set_uint64 (key w) to s.cache).0

  finish_done :
      (to : ℕ) (r : Bool × WatcherState redis)
      → r.0 ≡ true
      → to < u64_mod
      → write_error to r.1 ≡ none
      → checkpoint (finish w to r) ≡ ok to
  unfolding finish
  finish_done to (false, s) h b e = cc
  finish_done to (true, s) h b e = redis.get_uint64-set_uint64_self (key w) to s.cache b e

  submitted-finish :
      (to : ℕ) (r : Bool × WatcherState redis) → (finish w to r).submitted ≡ r.1.submitted
  unfolding finish
  submitted-finish to (true, s) = refl
  submitted-finish to (false, s) = refl

  finish-Handled :
      (to : ℕ) (logs : List (Result String BurnInfo)) (s : WatcherState redis)
      → (submit_burns w logs s).0 ≡ true
      → Handled logs s.submitted (finish w to (submit_burns w logs s)).submitted
  finish-Handled to logs s h =
      rw (submitted-finish to (submit_burns w logs s)) (submit_burns-Handled logs s h)

  -- A height that is not above the last checked block changes nothing and submits nothing.
  pub old_blocks_ignored :
      (s : WatcherState redis) (last current : ℕ)
      → checkpoint s ≡ ok last
      → current ≤ last
      → watch_log_shift_outs w (ok current) s ≡ s
  old_blocks_ignored s last current c h =
      watch_known s last current c ∙ (rw (le→leb current last h))

  -- A poll whose loop runs to the end, and whose last write succeeds, moves the last checked block
  -- to the end of its window; by then every event of the channel was read, none was an error, and
  -- the resolver has accepted every transaction that the events make, in order.
  pub finished_poll :
      (s : WatcherState redis) (last current : ℕ) (logs : List (Result String BurnInfo))
      → checkpoint s ≡ ok last
      → last < current
      → current < u64_mod
      → w.fetch_burn_logs last (window_to last current) ≡ ok logs
      → (submit_burns w logs s).0 ≡ true
      → write_error (window_to last current) (submit_burns w logs s).1 ≡ none
      → (checkpoint (watch_log_shift_outs w (ok current) s) ≡ ok (window_to last current))
        × Handled logs s.submitted (watch_log_shift_outs w (ok current) s).submitted
  finished_poll s last current logs c h u f d e =
      rw
        (watch_known s last current c, lt→leb_false last current h, process_fetched s last _ logs f)
        (
          finish_done (window_to last current) (submit_burns w logs s) d
              (window_end-lt w.settings last current u) e,
          finish-Handled (window_to last current) logs s d,
        )

  -- On a chain that has grown by less than the confidence interval since the last checked block, a
  -- finished poll of an EVM chain moves the last checked block down.
  pub finished_poll_regresses :
      (s : WatcherState redis) (last current : ℕ) (logs : List (Result String BurnInfo))
      → w.settings.is_solana ≡ false
      → last + w.settings.max_block_advance < u64_mod
      → current < u64_mod
      → w.settings.confidence_interval ≤ last
      → last < current
      → current < last + w.settings.confidence_interval
      → checkpoint s ≡ ok last
      → w.fetch_burn_logs last (window_to last current) ≡ ok logs
      → (submit_burns w logs s).0 ≡ true
      → write_error (window_to last current) (submit_burns w logs s).1 ≡ none
      → (to : ℕ) × (to < last) × (checkpoint (watch_log_shift_outs w (ok current) s) ≡ ok to)
  finished_poll_regresses s last current logs evm a u k h g c f d e = (
    window_to last current,
    window_regresses w.settings last current evm a u (omega arith) k g,
    (finished_poll s last current logs c h u f d e).0,
  )

  -- On an EVM chain that is shorter than the confidence interval, a finished poll stores a block
  -- near 2^64: every later poll at a height up to 2^64 less the confidence interval changes nothing.
  pub short_chain_stops_watcher :
      (s : WatcherState redis) (last current later : ℕ) (logs : List (Result String BurnInfo))
      → w.settings.is_solana ≡ false
      → last + w.settings.max_block_advance < u64_mod
      → w.settings.confidence_interval < u64_mod
      → current < w.settings.confidence_interval
      → last < current
      → checkpoint s ≡ ok last
      → w.fetch_burn_logs last (window_to last current) ≡ ok logs
      → (submit_burns w logs s).0 ≡ true
      → write_error (window_to last current) (submit_burns w logs s).1 ≡ none
      → later ≤ u64_mod - w.settings.confidence_interval
      → let s' = watch_log_shift_outs w (ok current) s in watch_log_shift_outs w (ok later) s' ≡ s'
  short_chain_stops_watcher s last current later logs evm a b k h c f d e l =
      old_blocks_ignored _ (window_to last current) later
        (finished_poll s last current logs c h (omega arith) f d e).0
        (omega (arith, window_wraps w.settings last current evm a k b))
