-- ===== src/Http/Retries.antt =====
-- When the loop of the client ends, with what, and how long it waits.
use lightnode.Common.{
  ℕ, zero, suc, ◌+◌, ◌<◌, ◌≤◌, String, ◌≡◌, refl, subst, some, List, [], ◌∷◌, arith,
}
use lightnode.Common.Result.{Result, ok, err}
use lightnode.Http.{
  RetryOptions, context_done, elapsed, Round, next_interval, last_error, retry, send_request,
}

-- A round that is waited after.
pub record Fails {R : Type 0} (round : Round R) : Type 0 where
  pub error : String
  pub failed : round.reply ≡ err error
  pub later : round.selected ≡ elapsed

-- A round that ends the loop, with its answer.
pub data Ends {R : Type 0} (round : Round R) : Result String R → Type 0 where
  answered : (r : R) → round.reply ≡ ok r → Ends round (ok r)
  cancelled :
      (e cause : String)
      → round.reply ≡ err e
      → round.selected ≡ context_done cause
      → Ends round (err (last_error cause e))

-- The intervals of so many rounds, from a first one on.
unfoldable pub intervals : RetryOptions → ℕ → ℕ → List ℕ
intervals options interval zero = []
intervals options interval (suc n) = interval ∷ intervals options (next_interval options interval) n

retry-Ends :
    {R : Type 0}
    → (rounds : ℕ → Round R) (options : RetryOptions) (fuel k interval : ℕ)
      (answer : Result String R)
    → Ends (rounds k) answer
    → retry rounds options (suc fuel) k interval ≡ some (answer, [])
unfolding retry
retry-Ends rounds options fuel k interval _ (answered r replied) = rw replied refl
retry-Ends rounds options fuel k interval _ (cancelled e cause replied done) =
    rw (replied, done) refl

retry-Fails :
    {R : Type 0}
    → (rounds : ℕ → Round R) (options : RetryOptions) (fuel k interval : ℕ)
    → (answer : Result String R) (waits : List ℕ) → Fails (rounds k)
    → retry rounds options fuel (suc k) (next_interval options interval) ≡ some (answer, waits)
    → retry rounds options (suc fuel) k interval ≡ some (answer, interval ∷ waits)
unfolding retry
retry-Fails rounds options fuel k interval answer waits fails rest =
    rw (fails.failed, fails.later, rest) refl

retry_from :
    {R : Type 0}
    → (rounds : ℕ → Round R) (options : RetryOptions) (n fuel k interval : ℕ)
    → (answer : Result String R) → n < fuel
    → ((j : ℕ) → k ≤ j → j < k + n → Fails (rounds j))
    → Ends (rounds (k + n)) answer
    → retry rounds options fuel k interval ≡ some (answer, intervals options interval n)
unfolding intervals
retry_from rounds options n zero k interval answer less fails ends = absurd (omega (arith, less))
retry_from rounds options zero (suc fuel) k interval answer less fails ends =
    retry-Ends rounds options fuel k interval answer
      (subst (λ m. Ends (rounds m) answer) (omega arith) ends)
retry_from rounds options (suc n) (suc fuel) k interval answer less fails ends =
    let rest =
      retry_from rounds options n fuel (suc k) (next_interval options interval) answer
        (omega (arith, less)) (λ j low high. fails j (omega (arith, low)) (omega (arith, high)))
        (subst (λ m. Ends (rounds m) answer) (omega arith) ends) in
    retry-Fails rounds options fuel k interval answer
      (intervals options (next_interval options interval) n) (fails k (omega arith) (omega arith))
      rest

-- Where a request could be made, it fails in the rounds before one, and that round answers it or
-- finds its context done, then the loop ends with what that round gives, having waited once for
-- each round before, on any fuel of more rounds.
pub send_request_ends :
    {R : Type 0}
    → (rounds : ℕ → Round R) (request : String) (options : RetryOptions) (n fuel : ℕ)
    → (answer : Result String R) → ((j : ℕ) → j < n → Fails (rounds j))
    → Ends (rounds n) answer
    → n < fuel
    → send_request rounds (ok request) (some options) fuel
      ≡ some (answer, intervals options options.base n)
unfolding send_request
send_request_ends rounds request options n fuel answer fails ends less =
    retry_from rounds options n fuel 0 options.base answer less
      (λ j low high. fails j (omega (arith, high)))
      (subst (λ m. Ends (rounds m) answer) (omega arith) ends)
