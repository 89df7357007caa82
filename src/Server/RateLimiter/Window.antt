-- ===== src/Server/RateLimiter/Window.antt =====
-- apps/server/src/rate-limiter.ts: one call of `check`, over timestamps in ascending order.
use tbridge.Base.{
  string_eq, ℕ, zero, suc, ◌+◌, ◌≤◌, ◌<◌, ◌≡◌, refl, String, Bool, false, some, List, [], ◌∷◌, ◌++◌,
  ltb, leb, get-set, length, drop, keep, All, All-append, All-keep, length-append, arith,
}
use tbridge.Server.RateLimiter.{RateLimiter, first_valid, prune, timestamps, retry_after, check}

-- The timestamps that lie inside the window that ends at `now`.
abbrev pub is_recent : ℕ → ℕ → ℕ → Bool
is_recent w now t = ltb now (t + w)

abbrev pub recent : ℕ → ℕ → List ℕ → List ℕ
recent w now = keep (is_recent w now)

abbrev pub IsAscending : List ℕ → Type 0
IsAscending [] = Unit {0}
IsAscending (t ∷ ts) = All (λ s. t ≤ s) ts × IsAscending ts

pub IsAscending-snoc :
    (ts : List ℕ) (now : ℕ) → IsAscending ts → All (λ s. s ≤ now) ts → IsAscending (ts ++ now ∷ [])
IsAscending-snoc [] now h k = (tt, tt)
IsAscending-snoc (t ∷ ts) now h k =
    (All-append _ ts (now ∷ []) h.0 (k.0, tt), IsAscending-snoc ts now h.1 k.1)

pub IsAscending-keep : (p : ℕ → Bool) (ts : List ℕ) → IsAscending ts → IsAscending (keep p ts)
IsAscending-keep p [] h = tt
IsAscending-keep p (t ∷ ts) h =
    ground (arith, IsAscending-keep p ts h.1, All-keep (λ s. t ≤ s) p ts h.0)

recent_everything :
    (w now t : ℕ) (ts : List ℕ) → now < t + w → All (λ s. t ≤ s) ts → recent w now ts ≡ ts
recent_everything w now t [] h k = refl
recent_everything w now t (s ∷ ts) h k = ground (arith, recent_everything w now t ts h k.1)

-- The loop and the splice keep exactly the timestamps inside the window.
pub prune-eq-recent : (w now : ℕ) (ts : List ℕ) → IsAscending ts → prune w now ts ≡ recent w now ts
unfolding prune first_valid
prune-eq-recent w now [] h = refl
prune-eq-recent w now (t ∷ ts) h =
    ground (arith, prune-eq-recent w now ts h.1, recent_everything w now t ts)

-- A later window keeps nothing that an earlier one dropped.
pub recent-recent :
    (w now later : ℕ) (ts : List ℕ)
    → now ≤ later
    → recent w later (recent w now ts) ≡ recent w later ts
recent-recent w now later [] h = refl
recent-recent w now later (t ∷ ts) h = ground (arith, recent-recent w now later ts h)

length-drop-le : (n : ℕ) (ts : List ℕ) → length (drop n ts) ≤ length ts
length-drop-le zero ts = omega arith
length-drop-le (suc n) [] = omega arith
length-drop-le (suc n) (t ∷ ts) = omega (arith, length-drop-le n ts)

length-prune-le : (w now : ℕ) (ts : List ℕ) → length (prune w now ts) ≤ length ts
unfolding prune
length-prune-le w now ts = length-drop-le (first_valid w now ts) ts

-- What stays at the front lies inside the window.
prune-head : (w now t : ℕ) (ts us : List ℕ) → prune w now ts ≡ t ∷ us → now < t + w
unfolding prune first_valid
prune-head w now t [] us e = cc
prune-head w now t (s ∷ ts) us e = ground (arith, prune-head w now t ts us)

prune-cons_length :
    (w now t : ℕ) (us : List ℕ)
    → ltb (length (prune w now (t ∷ us))) (suc (length us)) ≡ leb (t + w) now
unfolding prune first_valid
prune-cons_length w now t us = ground (arith, length-drop-le (first_valid w now us) us)

retry_from :
    (l : RateLimiter) (key : String) (now d r : ℕ) (ts : List ℕ)
    → prune l.window_ms now (timestamps l key) ≡ ts
    → length ts ≡ l.limit
    → retry_after l.window_ms now ts ≡ some r
    → (check (check l key now).1 key (now + d)).0.allowed ≡ leb r d
unfolding check timestamps retry_after
retry_from l key now d r [] e len h = cc
retry_from l key now d r (t ∷ us) e len h = ground (
  arith,
  get-set key key (prune l.window_ms now (timestamps l key)) l.windows,
  string_eq.same_iff key key,
  prune-head l.window_ms now t (timestamps l key) us e,
  prune-cons_length l.window_ms (now + d) t us,
)

-- `retryAfterMs` is exact: after a call that was refused with the answer `r`, a call for the same
-- key `d` milliseconds later is allowed exactly if `r ≤ d`. The key's entry holds no more
-- timestamps than the limit, as every call of `check` leaves it.
pub retry_exact :
    (l : RateLimiter) (key : String) (now d r : ℕ)
    → length (timestamps l key) ≤ l.limit
    → (check l key now).0.allowed ≡ false
    → (check l key now).0.retry_after_ms ≡ some r
    → (check (check l key now).1 key (now + d)).0.allowed ≡ leb r d
retry_exact l key now d r v denied h =
    retry_from l key now d r (prune l.window_ms now (timestamps l key)) refl
      (full l key now v denied) (shown l key now r denied h)
  where
    full :
        (l : RateLimiter) (key : String) (now : ℕ)
        → length (timestamps l key) ≤ l.limit
        → (check l key now).0.allowed ≡ false
        → length (prune l.window_ms now (timestamps l key)) ≡ l.limit
    full l key now v e =
        unfold check in ground (arith, length-prune-le l.window_ms now (timestamps l key))

    shown :
        (l : RateLimiter) (key : String) (now r : ℕ)
        → (check l key now).0.allowed ≡ false
        → (check l key now).0.retry_after_ms ≡ some r
        → retry_after l.window_ms now (prune l.window_ms now (timestamps l key)) ≡ some r
    shown l key now r e h = unfold check in ground arith

-- Every call leaves at most `limit` timestamps of its key, if there were no more before.
pub length-timestamps-check :
    (l : RateLimiter) (key : String) (now : ℕ)
    → length (timestamps l key) ≤ l.limit
    → length (timestamps (check l key now).1 key) ≤ l.limit
unfolding timestamps check
length-timestamps-check l key now v = ground (
  arith,
  get-set key key (prune l.window_ms now (timestamps l key)) l.windows,
  get-set key key (prune l.window_ms now (timestamps l key) ++ now ∷ []) l.windows,
  string_eq.same_iff key key,
  length-append (prune l.window_ms now (timestamps l key)) (now ∷ []),
  length-prune-le l.window_ms now (timestamps l key),
)
