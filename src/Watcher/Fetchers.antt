-- ===== src/Watcher/Fetchers.antt =====
-- watcher/watcher.go, the two implementations of FetchBurnLogs. What a goroutine sends is the list
-- that its channel delivers.
use mathlib.Core.List.{append-nil, append_assoc}
use lightnode.Common.{
  ℕ, zero, suc, ◌-◌, String, ◌≡◌, refl, Bool, true, false, Option, none, some, List, [], ◌∷◌, ◌++◌,
  arith, if◌then◌else◌, ◌∙◌,
}
use lightnode.Common.Result.{Result, ok, err, ◌>>=◌}
use lightnode.Darknode.{Bytes}
use lightnode.Watcher.Burns.{BurnInfo}

abbrev pub BurnLogResult : Type 0
BurnLogResult = Result String BurnInfo

-- The Solana client and codecs. `context_done i` is the state of the context after burn `i` was
-- read.
pub record SolClient : Type 0 where
  pub burn_log_key : ℕ → Result String Bytes
  pub account_data : Bytes → Result String Bytes
  pub decode_burn_log : Bytes → Result String (ℕ × Bytes)
  pub signatures : Bytes → Result String (List String)
  pub legacy_signatures : Bytes → Result String (List String)
  pub base58_decode : String → Bytes
  -- The bytes of the number as a U256.
  pub nonce_bytes : ℕ → Bytes
  pub context_done : ℕ → Bool

module _ (client : SolClient) where
  open client use {
    burn_log_key, account_data, decode_burn_log, signatures, legacy_signatures, base58_decode,
    nonce_bytes, context_done,
  }

  -- The signatures of an account, by the legacy call where the current one fails.
  unfoldable pub burn_signatures : Bytes → Result String (List String)
  burn_signatures k = elim (signatures k) [ ok l ↦ ok l | err e ↦ legacy_signatures k ]

  unfoldable pub first_signature : List String → Result String String
  first_signature [] = err "Burn signature not confirmed"
  first_signature (x ∷ xs) = ok x

  -- The body of the loop, up to the point where the result is sent.
  unfoldable pub sol_burn : ℕ → BurnLogResult
  unfolding burn_signatures first_signature
  sol_burn i = do
    k ← burn_log_key i
    account ← account_data k
    (amount, recipient) ← decode_burn_log account
    found ← burn_signatures k
    signature ← first_signature found
    ok (record {
      txid = base58_decode signature;
      amount = amount;
      to_bytes = recipient;
      nonce = nonce_bytes i;
    })

  -- What one round sends: the result, or an error after which the goroutine returns.
  unfoldable pub sol_send : Bool → BurnLogResult → List BurnLogResult → List BurnLogResult
  sol_send done (err e) rest = err e ∷ []
  sol_send true (ok b) rest = err "context done" ∷ []
  sol_send false (ok b) rest = ok b ∷ rest

  -- The loop from `i` on, with `rounds` rounds left.
  unfoldable pub sol_loop : ℕ → ℕ → List BurnLogResult
  unfolding sol_send
  sol_loop zero i = []
  sol_loop (suc rounds) i = sol_send (context_done i) (sol_burn i) (sol_loop rounds (suc i))

  unfoldable pub sol_fetch_burn_logs : ℕ → ℕ → List BurnLogResult
  unfolding sol_loop
  sol_fetch_burn_logs from to = sol_loop (to - from) from

  -- The channel delivers no error, and the nonces of its burns are those of i, i + 1, and so on.
  abbrev pub CountsUp : ℕ → List BurnLogResult → Type 0
  CountsUp i [] = Unit {0}
  CountsUp i (ok b ∷ rest) = (b.nonce ≡ nonce_bytes i) × CountsUp (suc i) rest
  CountsUp i (err e ∷ rest) = ⊥

  -- What a channel delivers up to its end or its first error.
  abbrev pub CountsUntil : ℕ → ℕ → List BurnLogResult → Type 0
  CountsUntil zero i l = l ≡ []
  CountsUntil (suc n) i [] = ⊥
  CountsUntil (suc n) i (ok b ∷ rest) = (b.nonce ≡ nonce_bytes i) × CountsUntil n (suc i) rest
  CountsUntil (suc n) i (err e ∷ rest) = rest ≡ []

  sol_burn-nonce : (i : ℕ) (b : BurnInfo) → sol_burn i ≡ ok b → b.nonce ≡ nonce_bytes i
  unfolding sol_burn
  sol_burn-nonce i b h = ground arith

  sol_send-CountsUntil :
      (n i : ℕ) (done : Bool) (r : BurnLogResult) (rest : List BurnLogResult)
      → ((b : BurnInfo) → r ≡ ok b → b.nonce ≡ nonce_bytes i)
      → CountsUntil n (suc i) rest
      → CountsUntil (suc n) i (sol_send done r rest)
  unfolding sol_send
  sol_send-CountsUntil n i done (err e) rest h g = refl
  sol_send-CountsUntil n i true (ok b) rest h g = refl
  sol_send-CountsUntil n i false (ok b) rest h g = (h b refl, g)

  sol_loop-CountsUntil : (n i : ℕ) → CountsUntil n i (sol_loop n i)
  unfolding sol_loop
  sol_loop-CountsUntil zero i = refl
  sol_loop-CountsUntil (suc n) i =
      sol_send-CountsUntil n i (context_done i) (sol_burn i) (sol_loop n (suc i)) (sol_burn-nonce i)
        (sol_loop-CountsUntil n (suc i))

  -- The Solana fetcher delivers the burns with the nonces of from, from + 1, up to to - 1, one after
  -- the other with none left out, until it has delivered them all or delivers an error, after which
  -- it delivers nothing.
  pub sol_fetch-CountsUntil :
      (from to : ℕ) → CountsUntil (to - from) from (sol_fetch_burn_logs from to)
  unfolding sol_fetch_burn_logs
  sol_fetch-CountsUntil from to = sol_loop-CountsUntil (to - from) from

-- A channel and the goroutine that sends to it. A send on a closed channel panics.
pub record Sender : Type 0 where
  pub sent : List BurnLogResult
  pub closed : Bool
  pub panicked : Bool

unfoldable pub send : BurnLogResult → Sender → Sender
send r s = if s.closed then record s { panicked = true } else record s { sent = s.sent ++ r ∷ [] }

unfoldable pub send_error : Option String → Sender → Sender
unfolding send
send_error none s = s
send_error (some e) s = send (err e) s

-- The loop over the events, each with the state of the context when it is sent.
unfoldable pub eth_loop : List (Bool × BurnInfo) → Sender → Sender
unfolding send
eth_loop [] s = s
eth_loop ((done, b) ∷ rest) s =
    let after = eth_loop rest (send (ok b) s) in if done then send (err "context done") s else after

-- close(resultChan)
unfoldable pub close : Sender → Sender
close s = record s { closed = true }

-- EthBurnLogFetcher.FetchBurnLogs after FilterLogBurn: the inner function closes the channel when
-- it returns; only then are the errors of the iterator sent. An error of Close returns before the
-- error of the iteration is looked at.
unfoldable pub eth_fetch_burn_logs : List (Bool × BurnInfo) → Option String → Option String → Sender
unfolding eth_loop send_error close
eth_fetch_burn_logs events close_error iter_error =
    let s = close (eth_loop events (record { sent = []; closed = false; panicked = false })) in
    elim close_error [ some e ↦ send_error (some e) s | none ↦ send_error iter_error s ]

abbrev pub delivered : List (Bool × BurnInfo) → List BurnLogResult
delivered [] = []
delivered ((done, b) ∷ rest) = ok b ∷ delivered rest

abbrev pub NeverDone : List (Bool × BurnInfo) → Type 0
NeverDone [] = Unit {0}
NeverDone ((done, b) ∷ rest) = (done ≡ false) × NeverDone rest

eth_loop-delivered :
    (events : List (Bool × BurnInfo)) (sent : List BurnLogResult)
    → NeverDone events
    → eth_loop events (record { sent = sent; closed = false; panicked = false })
      ≡ record { sent = sent ++ delivered events; closed = false; panicked = false }
unfolding eth_loop
eth_loop-delivered [] sent h = rw (append-nil sent)
eth_loop-delivered ((done, b) ∷ rest) sent h = rw h.0 (
    eth_loop-delivered rest (sent ++ ok b ∷ []) h.1
    ∙ rw (append_assoc sent (ok b ∷ []) (delivered rest)))

-- While the context lasts and the iterator has no error, the Ethereum fetcher delivers every event
-- in order and closes the channel.
pub eth_fetch-delivered :
    (events : List (Bool × BurnInfo))
    → NeverDone events
    → eth_fetch_burn_logs events none none
      ≡ record { sent = delivered events; closed = true; panicked = false }
unfolding eth_fetch_burn_logs
eth_fetch-delivered events h = rw (eth_loop-delivered events [] h)

-- An error that ends the iteration early is never delivered: the channel closes after the events
-- that were read, with no error among them, and the goroutine then panics on the closed channel.
pub eth_iterator_error_panics :
    (events : List (Bool × BurnInfo)) (e : String)
    → NeverDone events
    → eth_fetch_burn_logs events none (some e)
      ≡ record { sent = delivered events; closed = true; panicked = true }
unfolding eth_fetch_burn_logs
eth_iterator_error_panics events e h = rw (eth_loop-delivered events [] h)
