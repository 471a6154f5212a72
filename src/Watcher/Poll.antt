-- ===== src/Watcher/Poll.antt =====
-- watcher/watcher.go, lastCheckedBlockNumber and watchLogShiftOuts: one poll of the watcher.
use Prim.Native.String.{◌++◌ as str_append}
use lightnode.Common.{
  ℕ, String, Bool, true, false, Option, none, some, List, [], ◌∷◌, leb, if◌then◌else◌,
}
use lightnode.Common.Result.{Result, ok, err}
use lightnode.Redis.{Redis, RedisError, nil_reply, failure}
use lightnode.JsonRpc.{Error}
use lightnode.Darknode.{Tx}
use lightnode.Watcher.Window.{Settings, window_end}
use lightnode.Watcher.Burns.{BurnInfo, BurnContext, burn_to_params}

-- The state that a watcher changes: the Redis cache, and the transactions that it has submitted to
-- the resolver, newest first.
pub record WatcherState (redis : Redis) : Type 0 where
  pub cache : redis.State
  pub submitted : List Tx

-- The fields of `Watcher`. `fetch_burn_logs` gives what the channel delivers until it is closed;
-- `submit_tx` is the error of the resolver's response, given what was submitted before.
pub record Watcher (redis : Redis) : Type 0 where
  pub settings : Settings
  pub context : BurnContext
  pub fetch_burn_logs : ℕ → ℕ → Result String (List (Result String BurnInfo))
  pub submit_tx : List Tx → Tx → Option Error

module _ {redis : Redis} (w : Watcher redis) where
  unfoldable pub key : String
  key = str_append w.context.selector "_lastCheckedBlock"

  abbrev cached : Option RedisError → ℕ → Result RedisError ℕ
  cached none height = ok height
  cached (some e) height = err e

  -- The case of lastCheckedBlockNumber by the reply of Redis.
  unfoldable pub last_checked_from :
      Result RedisError ℕ → ℕ → redis.State → Result RedisError ℕ × redis.State
  last_checked_from (ok last) current s = (ok last, s)
  last_checked_from (err nil_reply) current s =
      let (e, s') = redis.set_uint64 key current s in (cached e current, s')
  last_checked_from (err (failure e)) current s = (err (failure e), s)

  unfoldable pub last_checked_block_number : ℕ → redis.State → Result RedisError ℕ × redis.State
  unfolding last_checked_from
  last_checked_block_number current s = last_checked_from (redis.get_uint64 key s) current s

  -- One event of the loop, by what burnToParams made of it: whether the loop goes on, and the new
  -- state. An event that makes no transaction is skipped; one that the resolver refuses ends the
  -- poll.
  unfoldable pub submit_params :
      Result String Tx → redis.State → List Tx → Bool × WatcherState redis
  submit_params (err e) cache submitted = (true, record { cache = cache; submitted = submitted })
  submit_params (ok tx) cache submitted = (
    elim (w.submit_tx submitted tx) [ none ↦ true | some e ↦ false ],
    record { cache = cache; submitted = tx ∷ submitted },
  )

  unfoldable pub submit_burn : BurnInfo → WatcherState redis → Bool × WatcherState redis
  unfolding submit_params
  submit_burn b s =
      let (r, cache) = burn_to_params redis w.context b s.cache in submit_params r cache s.submitted

  -- The loop over the channel: whether it ran to the end, and the state.
  unfoldable pub submit_burns :
      List (Result String BurnInfo) → WatcherState redis → Bool × WatcherState redis
  submit_burns [] s = (true, s)
  submit_burns (err e ∷ rest) s = (false, s)
  submit_burns (ok b ∷ rest) s =
      let (go_on, s') = submit_burn b s in
      let after = submit_burns rest s' in if go_on then after else (false, s')

  -- The end of a poll: the last checked block is stored if the loop ran to the end.
  unfoldable pub finish : ℕ → Bool × WatcherState redis → WatcherState redis
  finish to (true, s) = record s { cache = (redis.set_uint64 key to s.cache).1 }
  finish to (false, s) = s

  unfoldable pub process_window : ℕ → ℕ → WatcherState redis → WatcherState redis
  process_window from to s = elim (w.fetch_burn_logs from to) [
    | err e ↦ s
    | ok logs ↦ finish to (submit_burns logs s)
  ]

  unfoldable pub watch_from : Result RedisError ℕ → ℕ → WatcherState redis → WatcherState redis
  watch_from (err e) current s = s
  watch_from (ok last) current s =
      if leb current last then s else process_window last (window_end w.settings last current) s

  -- watchLogShiftOuts, given the height that the chain reports.
  unfoldable pub watch_log_shift_outs : Result String ℕ → WatcherState redis → WatcherState redis
  unfolding watch_from last_checked_block_number
  watch_log_shift_outs (err e) s = s
  watch_log_shift_outs (ok current) s =
      let (last, cache) = last_checked_block_number current s.cache in
      watch_from last current (record s { cache = cache })
