-- ===== src/Server/RateLimiter/Tests.antt =====
-- apps/server/src/rate-limiter.ts: the theorems at concrete histories.
use tbridge.Server.RateLimiter.Window.{recent}
use tbridge.Base.{◌≤◌, length, ℕ, ◌≡◌, refl, String, List, [], ◌∷◌, get, set, string_eq, arith}
use tbridge.Server.RateLimiter.{
  RateLimiter, new_rate_limiter, check, timestamps, prune, first_valid,
}
use tbridge.Server.RateLimiter.Traces.{times, run-within, run, accept, run-accept}

-- Three events of one key and one of another; the limit is two in 1000 ms.
abbrev history : List (String × ℕ)
history = ("a", 0) ∷ ("a", 10) ∷ ("b", 15) ∷ ("a", 20) ∷ ("a", 1000) ∷ []

run-history :
    run (new_rate_limiter 2 1000) history ≡ ("a", 0) ∷ ("a", 10) ∷ ("b", 15) ∷ ("a", 1000) ∷ []
unfolding run new_rate_limiter check get set timestamps prune first_valid
run-history = refl

run-accept_example : run (new_rate_limiter 2 1000) history ≡ accept 2 1000 [] history
run-accept_example = run-accept 2 1000 history (omega arith)

-- One event of the key at 0, where one is allowed in 1000 ms.
abbrev full : RateLimiter
full = record { windows = ("a", 0 ∷ []) ∷ []; limit = 1; window_ms = 1000 }

run-within_example :
    length (recent 1000 1005 (times "a" (run (new_rate_limiter 2 1000) history))) ≤ 2
run-within_example = run-within 2 1000 history "a" 1005 (omega arith)
