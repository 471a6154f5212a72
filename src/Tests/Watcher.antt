-- ===== src/Tests/Watcher.antt =====
-- A watcher of a small chain, with Redis in memory.
use lightnode.Common.{
  ℕ, String, ◌-◌, ◌≡◌, ◌≢◌, refl, true, false, Option, none, some, [], ◌∷◌, arith, min,
}
use lightnode.Common.Eq.{string_eq, ==_iff}
use lightnode.Common.Dict.{lookup}
use lightnode.Common.Result.{Result, ok, err}
use lightnode.JsonRpc.{Error, internal}
use lightnode.Darknode.{Bytes, Tx}
use lightnode.Watcher.Window.{Settings, window_end, window_end-min, window_end-solana}
use lightnode.Watcher.Burns.{
  Addresses, BurnInfo, BurnContext, burn_transaction, handle_asset_addr, burn_to_params,
}
use lightnode.Watcher.Poll.{
  Watcher, WatcherState, key, submit_burn, submit_burns, process_window, finish,
  watch_log_shift_outs,
}
use lightnode.Watcher.Checkpoint.{
  checkpoint, KeysApart, Handled, finished_poll, old_blocks_ignored, AllAccepted, transactions,
}
use lightnode.Watcher.Failures.{refused, failed_poll_keeps_checkpoint}
use lightnode.Watcher.Fetchers.{
  SolClient, CountsUntil, sol_fetch_burn_logs, sol_burn, sol_fetch-CountsUntil,
}
use lightnode.Tests.Samples.{mem_redis}
use lightnode.Tests.Chain.{simple_darknode, simple_naming, fields}

abbrev evm : Settings
evm = record { max_block_advance = 1000; confidence_interval = 6; is_solana = false }

abbrev sol : Settings
sol = record { max_block_advance = 1000; confidence_interval = 6; is_solana = true }

window_run : window_end evm 100 5000 ≡ 1094
unfolding window_end
window_run = refl

window_wrap_run : window_end evm 0 3 ≡ 18446744073709551613
unfolding window_end
window_wrap_run = refl

window_end-min_example : window_end evm 100 200 ≡ min 1100 200 - 6
window_end-min_example = window_end-min evm 100 200 refl (omega arith) (omega arith) (omega arith)

window_end-solana_example : window_end sol 100 200 ≡ min 1100 200
window_end-solana_example = window_end-solana sol 100 200 refl (omega arith)

abbrev narrow : Settings
narrow = record { max_block_advance = 5; confidence_interval = 6; is_solana = false }

-- Addresses that start with 1 are plain; base58 puts a 1 in front.
abbrev leading_one : Bytes → Result String Bytes
leading_one [] = err "empty"
leading_one (x ∷ xs) = ok xs

abbrev plain : Addresses
plain = record {
  may_be_base58 = true;
  decode_address = leading_one;
  base58_encode = λ b. 1 ∷ b;
  bindings_decode = λ b. ok b;
}

asset_address_run : handle_asset_addr plain [] ≡ ok (1 ∷ [], 1 ∷ [])
unfolding handle_asset_addr
asset_address_run = refl

abbrev pub context : BurnContext
context = record {
  selector = "BTC/fromEthereum";
  darknode = simple_darknode;
  naming = simple_naming;
  addresses = plain;
}

abbrev pub burn : BurnInfo
burn = record { txid = 9 ∷ []; amount = 50; to_bytes = 1 ∷ 4 ∷ []; nonce = 0 ∷ [] }

abbrev pub burned : Tx
burned = record {
  hash = 1 ∷ [];
  version = "1";
  selector = "BTC/fromEthereum";
  input = fields (record {
    txid = 9 ∷ [];
    txindex = 0;
    amount = 50;
    payload = [];
    phash = [];
    to = 1 ∷ 4 ∷ [];
    nonce = 0 ∷ [];
    nhash = 0 ∷ 9 ∷ [];
    gpubkey = [];
    ghash = 1 ∷ 4 ∷ 0 ∷ [];
  });
}

burn_transaction_run : burn_transaction mem_redis context burn ≡ ok burned
unfolding burn_transaction handle_asset_addr
burn_transaction_run = refl

-- A watcher whose chain has one burn in every window, and whose resolver gives one answer.
abbrev watcher_of : Settings → Option Error → Watcher mem_redis
watcher_of settings answer = record {
  settings = settings;
  context = context;
  fetch_burn_logs = λ from to. ok (ok burn ∷ []);
  submit_tx = λ before tx. answer;
}

abbrev refusal : Error
refusal = record { code = internal; message = "too much back pressure" }

abbrev start : ℕ → WatcherState mem_redis
start last = record {
  cache = record { texts = []; numbers = ("BTC/fromEthereum_lastCheckedBlock", last) ∷ [] };
  submitted = [];
}

abbrev open_watcher : Watcher mem_redis
open_watcher = watcher_of evm none

abbrev busy_watcher : Watcher mem_redis
busy_watcher = watcher_of evm (some refusal)

checkpoint_run : checkpoint open_watcher (start 100) ≡ ok 100
unfolding key lookup
checkpoint_run = refl

checkpoint_busy : checkpoint busy_watcher (start 100) ≡ ok 100
unfolding key lookup
checkpoint_busy = refl

checkpoint_zero : checkpoint open_watcher (start 0) ≡ ok 0
unfolding key lookup
checkpoint_zero = refl

submit_burns_run : (last : ℕ) → (submit_burns open_watcher (ok burn ∷ []) (start last)).0 ≡ true
unfolding submit_burns submit_burn burn_to_params burn_transaction handle_asset_addr
submit_burns_run last = refl

poll_run : (watch_log_shift_outs open_watcher (ok 200) (start 100)).submitted ≡ burned ∷ []
unfolding watch_log_shift_outs process_window submit_burns finish submit_burn burn_to_params
    burn_transaction handle_asset_addr key lookup window_end
poll_run = refl

finished_poll_example :
    (checkpoint open_watcher (watch_log_shift_outs open_watcher (ok 200) (start 100))
      ≡ ok (window_end evm 100 200))
    × Handled open_watcher
        (ok burn ∷ [])
        []
        (watch_log_shift_outs open_watcher (ok 200) (start 100)).submitted
finished_poll_example =
    finished_poll open_watcher (start 100) 100 200 (ok burn ∷ []) checkpoint_run (omega arith)
      (omega arith) refl (submit_burns_run 100) refl

v0_key_apart : ◌≢◌ {A = String} "v0" "BTC/fromEthereum_lastCheckedBlock"
v0_key_apart = ground (arith, ==_iff {T = String} "v0" "BTC/fromEthereum_lastCheckedBlock")

ref_key_apart : ◌≢◌ {A = String} "BTC/fromEthereum_1" "BTC/fromEthereum_lastCheckedBlock"
ref_key_apart =
    ground (arith, ==_iff {T = String} "BTC/fromEthereum_1" "BTC/fromEthereum_lastCheckedBlock")

busy_apart : KeysApart busy_watcher
unfolding key
busy_apart b = (v0_key_apart, ref_key_apart)

busy_refuses : ¬ AllAccepted busy_watcher [] (transactions busy_watcher (ok burn ∷ []))
unfolding burn_transaction handle_asset_addr
busy_refuses h = absurd (ground (arith, h.0))

failed_poll_keeps_checkpoint_example :
    checkpoint busy_watcher (watch_log_shift_outs busy_watcher (ok 200) (start 100))
    ≡ checkpoint busy_watcher (start 100)
failed_poll_keeps_checkpoint_example =
    failed_poll_keeps_checkpoint busy_watcher busy_apart (start 100) (ok 200)
      (refused 100 200 (ok burn ∷ []) checkpoint_busy refl busy_refuses)

old_blocks_run : watch_log_shift_outs open_watcher (ok 99) (start 100) ≡ start 100
old_blocks_run = old_blocks_ignored open_watcher (start 100) 100 99 checkpoint_run (omega arith)

abbrev solana : SolClient
solana = record {
  burn_log_key = λ i. ok (i ∷ []);
  account_data = λ k. ok k;
  decode_burn_log = λ d. ok (5, d);
  signatures = λ k. err "unknown method";
  legacy_signatures = λ k. ok ("sig" ∷ []);
  base58_decode = λ s. [];
  nonce_bytes = λ i. i ∷ [];
  context_done = λ i. false;
}

sol_fetch_run :
    sol_fetch_burn_logs solana 3 4
    ≡ ok (record { txid = []; amount = 5; to_bytes = 3 ∷ []; nonce = 3 ∷ [] }) ∷ []
unfolding sol_fetch_burn_logs sol_burn
sol_fetch_run = refl

sol_fetch-CountsUntil_example : CountsUntil solana 2 3 (sol_fetch_burn_logs solana 3 5)
sol_fetch-CountsUntil_example = sol_fetch-CountsUntil solana 3 5
