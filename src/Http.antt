-- ===== src/Http.antt =====
-- http/client.go: sending a request, with retries until it is answered or its context is done.
pub mod Retries
use Prim.Native.String.{◌++◌ as append}
use lightnode.Common.{ℕ, zero, suc, String, Option, none, some, List, [], ◌∷◌, ltb, if◌then◌else◌}
use lightnode.Common.Result.{Result, ok, err}

-- The intervals in nanoseconds; `scale` is the multiplication by 1 + Factor in floats.
pub record RetryOptions : Type 0 where
  pub base : ℕ
  pub max : ℕ
  pub scale : ℕ → ℕ

-- Which case of the select is taken: the context is done, with its error, or the interval is over.
pub data Selected : Type 0 where
  context_done : String → Selected
  elapsed : Selected

-- What a round of the loop meets: the outcome of `send`, and the case taken where that fails.
pub record Round (R : Type 0) : Type 0 where
  pub reply : Result String R
  pub selected : Selected

unfoldable pub next_interval : RetryOptions → ℕ → ℕ
next_interval options interval =
    let scaled = options.scale interval in if ltb options.max scaled then options.max else scaled

abbrev pub last_error : String → String → String
last_error cause e = append cause (append ", last error = " e)

abbrev waited :
    {R : Type 0} → ℕ → Option (Result String R × List ℕ) → Option (Result String R × List ℕ)
waited interval none = none
waited interval (some (answer, waits)) = some (answer, interval ∷ waits)

abbrev on_selected :
    {R : Type 0}
    → ℕ
    → String
    → Option (Result String R × List ℕ)
    → Selected
    → Option (Result String R × List ℕ)
on_selected interval e rest (context_done cause) = some (err (last_error cause e), [])
on_selected interval e rest elapsed = waited interval rest

abbrev on_reply :
    {R : Type 0}
    → ℕ
    → Selected
    → Option (Result String R × List ℕ)
    → Result String R
    → Option (Result String R × List ℕ)
on_reply interval selected rest (ok response) = some (ok response, [])
on_reply interval selected rest (err e) = on_selected interval e rest selected

-- The loop from a round on, by the rounds that the environment gives, on fuel: the answer, and the
-- intervals that were waited for.
unfoldable pub retry :
    {R : Type 0} → (ℕ → Round R) → RetryOptions → ℕ → ℕ → ℕ → Option (Result String R × List ℕ)
retry rounds options zero k interval = none
retry rounds options (suc fuel) k interval =
    let rest = retry rounds options fuel (suc k) (next_interval options interval) in
    on_reply interval (rounds k).selected rest (rounds k).reply

-- The request, or the error of its construction; without options it is sent once.
unfoldable pub send_request :
    {R : Type 0}
    → (ℕ → Round R)
    → Result String String
    → Option RetryOptions
    → ℕ
    → Option (Result String R × List ℕ)
unfolding retry
send_request rounds (err e) options fuel = some (err e, [])
send_request rounds (ok request) none fuel = some ((rounds 0).reply, [])
send_request rounds (ok request) (some options) fuel = retry rounds options fuel 0 options.base
