-- ===== src/Watcher/Failures.antt =====
-- Polls of watcher/watcher.go that an error ends before the last checked block is written.
use lightnode.Common.{
  ℕ, String, ◌≡◌, refl, ◌∙◌, ap, false, List, [], ◌∷◌, leb, Bool-cases, inl, inr,
}
use lightnode.Common.Result.{Result, ok, err}
use lightnode.Redis.{Redis, failure}
use lightnode.Darknode.{Tx}
use lightnode.Watcher.Window.{window_end}
use lightnode.Watcher.Burns.{BurnInfo, burn_to_params, get_uint64-burn_to_params}
use lightnode.Watcher.Poll.{
  Watcher, WatcherState, key, submit_params, submit_burn, submit_burns, process_window,
  watch_log_shift_outs,
}
use lightnode.Watcher.Checkpoint.{
  checkpoint, KeysApart, IsClean, transactions, AllAccepted, submit_burns-Handled, watch_known,
  process_fetched, finish_stopped,
}

module _ {redis : Redis} (w : Watcher redis) where
  -- The errors that a poll may meet before its last write, by the height that the chain reports: of
  -- the height, of reading the last checked block, of fetching the events of the window, one that
  -- the channel delivers, and the refusal of a transaction by the resolver.
  pub data Stopped (s : WatcherState redis) : Result String ℕ → Type 0 where
    no_height : (e : String) → Stopped s (err e)
    no_checkpoint :
        (current : ℕ) (e : String) → checkpoint w s ≡ err (failure e) → Stopped s (ok current)
    no_events :
        (last current : ℕ) (e : String)
        → checkpoint w s ≡ ok last
        → w.fetch_burn_logs last (window_end w.settings last current) ≡ err e
        → Stopped s (ok current)
    bad_event :
        (last current : ℕ) (logs : List (Result String BurnInfo))
        → checkpoint w s ≡ ok last
        → w.fetch_burn_logs last (window_end w.settings last current) ≡ ok logs
        → ¬ IsClean w logs
        → Stopped s (ok current)
    refused :
        (last current : ℕ) (logs : List (Result String BurnInfo))
        → checkpoint w s ≡ ok last
        → w.fetch_burn_logs last (window_end w.settings last current) ≡ ok logs
        → ¬ AllAccepted w s.submitted (transactions w logs)
        → Stopped s (ok current)

  stopped_loop :
      (logs : List (Result String BurnInfo)) (s : WatcherState redis)
      → ¬ (IsClean w logs × AllAccepted w s.submitted (transactions w logs))
      → (submit_burns w logs s).0 ≡ false
  stopped_loop logs s bad = elim (Bool-cases (submit_burns w logs s).0) [
    | inr p ↦ p
    | inl p ↦ let done = submit_burns-Handled w logs s p in absurd (bad (done.0, done.1))
  ]

  submit_params-checkpoint :
      (r : Result String Tx) (cache : redis.State) (before : List Tx)
      → (submit_params w r cache before).1.cache ≡ cache
  unfolding submit_params
  submit_params-checkpoint (ok tx) cache before = refl
  submit_params-checkpoint (err e) cache before = refl

  module _ (apart : KeysApart w) where
    checkpoint-submit_burn :
        (b : BurnInfo) (s : WatcherState redis)
        → checkpoint w (submit_burn w b s).1 ≡ checkpoint w s
    unfolding submit_burn
    checkpoint-submit_burn b s =
        ap (redis.get_uint64 (key w))
          (submit_params-checkpoint (burn_to_params redis w.context b s.cache).0 _ s.submitted)
        ∙ get_uint64-burn_to_params redis w.context (key w) b s.cache (apart b).0 (apart b).1

    -- Submitting burns, all of them or not, leaves the last checked block as it was.
    checkpoint-submit_burns :
        (logs : List (Result String BurnInfo)) (s : WatcherState redis)
        → checkpoint w (submit_burns w logs s).1 ≡ checkpoint w s
    unfolding submit_burns
    checkpoint-submit_burns [] s = refl
    checkpoint-submit_burns (err e ∷ rest) s = refl
    checkpoint-submit_burns (ok b ∷ rest) s = elim (Bool-cases (submit_burn w b s).0) [
      | inl p ↦
          rw p (checkpoint-submit_burns rest (submit_burn w b s).1 ∙ checkpoint-submit_burn b s)
      | inr p ↦ rw p (checkpoint-submit_burn b s)
    ]

    stopped_window :
        (s : WatcherState redis) (from to : ℕ) (logs : List (Result String BurnInfo))
        → w.fetch_burn_logs from to ≡ ok logs
        → ¬ (IsClean w logs × AllAccepted w s.submitted (transactions w logs))
        → checkpoint w (process_window w from to s) ≡ checkpoint w s
    stopped_window s from to logs f bad =
        rw
          (
            process_fetched w s from to logs f,
            finish_stopped w to (submit_burns w logs s) (stopped_loop logs s bad),
          )
          (checkpoint-submit_burns logs s)

    -- Whether a window is processed or skipped as old.
    kept_by_window :
        (s : WatcherState redis) (last current : ℕ)
        → checkpoint w s ≡ ok last
        → checkpoint w (process_window w last (window_end w.settings last current) s)
          ≡ checkpoint w s
        → checkpoint w (watch_log_shift_outs w (ok current) s) ≡ checkpoint w s
    kept_by_window s last current c same =
        rw (watch_known w s last current c)
          (elim (Bool-cases (leb current last)) [ inl p ↦ rw p refl | inr p ↦ rw p same ])

    -- Where the mappings of burns use other keys than the last checked block, a poll that is stopped by
    -- an error of the height, of reading the last checked block (other than that Redis has none), of
    -- fetching the events, of an event that the channel delivers, or of the resolver, leaves the last
    -- checked block as it was.
    pub failed_poll_keeps_checkpoint :
        (s : WatcherState redis) (height : Result String ℕ)
        → Stopped s height
        → checkpoint w (watch_log_shift_outs w height s) ≡ checkpoint w s
    unfolding watch_log_shift_outs process_window
    failed_poll_keeps_checkpoint s _ (no_height e) = refl
    failed_poll_keeps_checkpoint s _ (no_checkpoint current e c) = rw c c
    failed_poll_keeps_checkpoint s _ (no_events last current e c f) =
        kept_by_window s last current c (rw (process_window, f) refl)
    failed_poll_keeps_checkpoint s _ (bad_event last current logs c f bad) =
        kept_by_window s last current c
          (stopped_window s last (window_end w.settings last current) logs f (λ d. bad d.0))
    failed_poll_keeps_checkpoint s _ (refused last current logs c f bad) =
        kept_by_window s last current c
          (stopped_window s last (window_end w.settings last current) logs f (λ d. bad d.1))
