-- ===== src/Tests/Http.antt =====
-- The client's loop over rounds of which the third is answered.
use lightnode.Common.{ℕ, zero, suc, ◌+◌, ◌<◌, ◌≡◌, refl, some, [], ◌∷◌, arith}
use lightnode.Common.Result.{ok, err}
use lightnode.Http.{RetryOptions, Round, elapsed, next_interval, send_request}
use lightnode.Http.Retries.{Fails, answered, intervals, send_request_ends}

abbrev refused : Round ℕ
refused = record { reply = err "connection refused"; selected = elapsed }

abbrev third : ℕ → Round ℕ
third zero = refused
third (suc zero) = refused
third (suc (suc k)) = record { reply = ok 42; selected = elapsed }

third-Fails : (j : ℕ) → j < 2 → Fails (third j)
third-Fails zero less = record { error = "connection refused"; failed = refl; later = refl }
third-Fails (suc zero) less = record { error = "connection refused"; failed = refl; later = refl }
third-Fails (suc (suc j)) less = absurd (omega (arith, less))

abbrev short_options : RetryOptions
short_options = record { base = 10; max = 15; scale = λ n. n + n }

send_request_ends_example :
    send_request third (ok "request") (some short_options) 5
    ≡ some (ok 42, intervals short_options 10 2)
send_request_ends_example =
    send_request_ends third "request" short_options 2 5 (ok 42) third-Fails (answered 42 refl)
      (omega arith)

intervals_run : intervals short_options 10 4 ≡ 10 ∷ 15 ∷ 15 ∷ 15 ∷ []
unfolding intervals next_interval
intervals_run = refl
