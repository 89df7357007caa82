-- ===== src/Server/RateLimiter.antt =====
-- apps/server/src/rate-limiter.ts: the sliding-window limiter. Times are milliseconds; `now` is an
-- argument of each call, as in the source.
pub mod Window
pub mod Traces
mod Tests
use tbridge.Base.{
  ℕ, zero, suc, ◌+◌, ◌-◌, String, Bool, true, false, Option, none, some, List, [], ◌∷◌, ◌++◌, leb,
  ltb, if◌then◌else◌, get, set, length, drop, string_eq,
}

-- `none` for `retryAfterMs` is NaN, which the source computes where the limit is 0.
pub record RateLimitResult : Type 0 where
  pub allowed : Bool
  pub remaining : ℕ
  pub retry_after_ms : Option ℕ

pub record RateLimiter : Type 0 where
  pub windows : List (String × List ℕ)
  pub limit : ℕ
  pub window_ms : ℕ

unfoldable pub new_rate_limiter : ℕ → ℕ → RateLimiter
new_rate_limiter limit window_ms = record { windows = []; limit = limit; window_ms = window_ms }

-- The loop of `prune`: how many timestamps at the front are at most `now - windowMs`.
unfoldable pub first_valid : ℕ → ℕ → List ℕ → ℕ
first_valid w now [] = 0
first_valid w now (t ∷ ts) = if leb (t + w) now then suc (first_valid w now ts) else 0

unfoldable pub prune : ℕ → ℕ → List ℕ → List ℕ
prune w now ts = drop (first_valid w now ts) ts

abbrev pub or_empty : Option (List ℕ) → List ℕ
or_empty none = []
or_empty (some ts) = ts

-- The entry that `getOrCreate` returns.
unfoldable pub timestamps : RateLimiter → String → List ℕ
timestamps l key = or_empty (get key l.windows)

unfoldable pub retry_after : ℕ → ℕ → List ℕ → Option ℕ
retry_after w now [] = none
retry_after w now (oldest ∷ ts) = some (oldest + w - now)

unfoldable pub check : RateLimiter → String → ℕ → RateLimitResult × RateLimiter
check l key now =
    let ts = prune l.window_ms now (timestamps l key) in
    if leb l.limit (length ts)
    then (
      record { allowed = false; remaining = 0; retry_after_ms = retry_after l.window_ms now ts },
      record l { windows = set key ts l.windows },
    )
    else (
      record {
        allowed = true;
        remaining = l.limit - length (ts ++ now ∷ []);
        retry_after_ms = some 0;
      },
      record l { windows = set key (ts ++ now ∷ []) l.windows },
    )

unfoldable pub reset : RateLimiter → RateLimiter
reset l = record l { windows = [] }
