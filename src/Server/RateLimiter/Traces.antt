-- ===== src/Server/RateLimiter/Traces.antt =====
-- apps/server/src/rate-limiter.ts: whole histories of `check` against a specification that keeps
-- every accepted event for ever.
use tbridge.Base.{
  ℕ, ◌≤◌, ◌<◌, ◌≡◌, refl, sym, ◌∙◌, ap, String, false, List, [], ◌∷◌, ◌++◌, ltb, leb, if◌then◌else◌,
  get, get-set, length, keep, All, All-append, All-imp, All-keep, keep-append, length-append,
  length-keep-le, arith, string_eq, ◌==◌, inl, inr, Bool-cases,
}
use mathlib.Core.List.{append-nil, append_assoc}
use native.Mathlib.Nat.{le_trans}
use tbridge.Server.RateLimiter.{RateLimiter, new_rate_limiter, prune, timestamps, check}
use tbridge.Server.RateLimiter.Window.{
  is_recent, recent, IsAscending, IsAscending-snoc, IsAscending-keep, prune-eq-recent,
  recent-recent,
}

-- The entry of `key` after a call.
abbrev pub entry_after : RateLimiter → String → ℕ → List ℕ
entry_after l key now =
    let ts = prune l.window_ms now (timestamps l key) in
    if leb l.limit (length ts) then ts else ts ++ now ∷ []

pub timestamps-check :
    (l : RateLimiter) (key other : String) (now : ℕ)
    → timestamps (check l key now).1 other
      ≡ (if key == other then entry_after l key now else timestamps l other)
unfolding timestamps check
timestamps-check l key other now = ground (
  arith,
  get-set key other (prune l.window_ms now (timestamps l key)) l.windows,
  get-set key other (prune l.window_ms now (timestamps l key) ++ now ∷ []) l.windows,
)

-- Each check of a history, and the events that were allowed, oldest first.
unfoldable pub run : RateLimiter → List (String × ℕ) → List (String × ℕ)
run l [] = []
run l ((key, now) ∷ es) =
    let (r, l') = check l key now in
    let rest = run l' es in if r.allowed then (key, now) ∷ rest else rest

-- The times of one key's events.
abbrev pub times : String → List (String × ℕ) → List ℕ
times key [] = []
times key ((k, t) ∷ es) = if k == key then t ∷ times key es else times key es

pub times-append :
    (key : String) (xs ys : List (String × ℕ)) → times key (xs ++ ys) ≡ times key xs ++ times key ys
times-append key [] ys = refl
times-append key ((k, t) ∷ xs) ys = ground (arith, times-append key xs ys)

-- The specification: an event is accepted exactly if fewer than `limit` events of its key were
-- accepted in the window that ends with it.
pub accept : ℕ → ℕ → List (String × ℕ) → List (String × ℕ) → List (String × ℕ)
accept limit w past [] = []
accept limit w past ((key, now) ∷ es) =
    let more = (key, now) ∷ accept limit w (past ++ (key, now) ∷ []) es in
    let same = accept limit w past es in
    if ltb (length (recent w now (times key past))) limit then more else same

-- The clock never runs backwards.
abbrev pub Ordered : ℕ → List (String × ℕ) → Type 0
Ordered last [] = Unit {0}
Ordered last ((key, now) ∷ es) = (last ≤ now) × Ordered now es

pub record Tracks (last : ℕ) (past : List (String × ℕ)) (l : RateLimiter) : Type 0 where
  pub ascending : (key : String) → IsAscending (timestamps l key)
  pub before : (key : String) → All (λ t. t ≤ last) (timestamps l key)
  pub same :
      (key : String) (now : ℕ)
      → last ≤ now
      → recent l.window_ms now (timestamps l key) ≡ recent l.window_ms now (times key past)

module _ {last : ℕ} {past : List (String × ℕ)} {l : RateLimiter} (v : Tracks last past l)
    (key : String) (now : ℕ) (h : last ≤ now) where
  pruned : prune l.window_ms now (timestamps l key) ≡ recent l.window_ms now (timestamps l key)
  pruned = prune-eq-recent l.window_ms now (timestamps l key) (v.ascending key)

  kept-eq : prune l.window_ms now (timestamps l key) ≡ recent l.window_ms now (times key past)
  kept-eq = pruned ∙ v.same key now h

  kept-before : All (λ t. t ≤ now) (prune l.window_ms now (timestamps l key))
  kept-before = rw pruned (
      All-keep _ _ (timestamps l key) (
        All-imp (λ t. t ≤ last) (λ t. t ≤ now) (timestamps l key) (λ t p. omega arith)
          (v.before key)))

  kept-IsAscending : IsAscending (prune l.window_ms now (timestamps l key))
  kept-IsAscending = rw pruned (IsAscending-keep _ (timestamps l key) (v.ascending key))

  entry-before : All (λ t. t ≤ now) (entry_after l key now)
  entry-before = ground (
    arith,
    kept-before,
    All-append (λ t. t ≤ now) (prune l.window_ms now (timestamps l key)) (now ∷ []) kept-before
        (omega arith, tt),
  )

  entry-IsAscending : IsAscending (entry_after l key now)
  entry-IsAscending = ground (
    arith,
    kept-IsAscending,
    IsAscending-snoc (prune l.window_ms now (timestamps l key)) now kept-IsAscending kept-before,
  )

module _ {last : ℕ} {past : List (String × ℕ)} {l : RateLimiter} (v : Tracks last past l)
    (key : String) (now : ℕ) (h : last ≤ now) where
  abbrev next_past : List (String × ℕ)
  next_past =
      if leb l.limit (length (prune l.window_ms now (timestamps l key)))
      then past
      else past ++ (key, now) ∷ []

  entry-same :
      (later : ℕ)
      → now ≤ later
      → recent l.window_ms later (entry_after l key now)
        ≡ recent l.window_ms later (times key next_past)
  entry-same later p =
      let w = l.window_ms in
      let ts = prune w now (timestamps l key) in
      let shrunk : recent w later ts ≡ recent w later (times key past) =
        ap (recent w later) (kept-eq v key now h) ∙ recent-recent w now later (times key past) p in
      ground (
        arith,
        shrunk,
        keep-append (is_recent w later) ts (now ∷ []),
        times-append key past ((key, now) ∷ []),
        string_eq.same_iff key key,
        keep-append (is_recent w later) (times key past) (now ∷ []),
      )

  window-check : (check l key now).1.window_ms ≡ l.window_ms
  unfolding check
  window-check = ground arith

  limit-check : (check l key now).1.limit ≡ l.limit
  unfolding check
  limit-check = ground arith

  allowed-check :
      (check l key now).0.allowed ≡ ltb (length (recent l.window_ms now (times key past))) l.limit
  unfolding check
  allowed-check = ground (arith, kept-eq v key now h)

  other-past : (other : String) → (key == other) ≡ false → times other next_past ≡ times other past
  other-past other e =
      ground (arith, times-append other past ((key, now) ∷ []), append-nil (times other past))

  check-Tracks : Tracks now next_past (check l key now).1
  check-Tracks = record {
    ascending = λ other.
        ground (
          arith,
          timestamps-check l key other now,
          entry-IsAscending v key now h,
          v.ascending other,
        );
    before = λ other. ground (
      arith,
      timestamps-check l key other now,
      entry-before v key now h,
      All-imp (λ t. t ≤ last) (λ t. t ≤ now) (timestamps l other)
          (λ (t : ℕ) (p : t ≤ last). le_trans p h) (v.before other),
    );
    same = λ other later p.
        rw (window-check, timestamps-check l key other now)
          (elim (Bool-cases (key == other)) [
            | inl e ↦ rw e (
                let k : key ≡ other = (string_eq.same_iff key other).0 e in
                rw (← k) (entry-same later p))
            | inr e ↦ rw e (
                v.same other later (le_trans h p)
                ∙ ap (recent l.window_ms later) (sym (other-past other e)))
          ]);
  }

run-accept_from :
    (last : ℕ) (past : List (String × ℕ)) (l : RateLimiter) (es : List (String × ℕ)) (limit w : ℕ)
    → l.limit ≡ limit
    → l.window_ms ≡ w
    → Tracks last past l
    → Ordered last es
    → run l es ≡ accept limit w past es
unfolding run accept
run-accept_from last past l [] limit w el ew v o = refl
run-accept_from last past l ((key, now) ∷ es) limit w el ew v o =
    let ih =
      run-accept_from now (next_past v key now o.0) (check l key now).1 es limit w
        (limit-check v key now o.0 ∙ el) (window-check v key now o.0 ∙ ew)
        (check-Tracks v key now o.0) o.1 in
    ground (arith, ih, allowed-check v key now o.0, kept-eq v key now o.0)

Tracks-new : (limit w : ℕ) → Tracks 0 [] (new_rate_limiter limit w)
unfolding new_rate_limiter timestamps get
Tracks-new limit w = record { ascending = λ key. tt; before = λ key. tt; same = λ key now h. refl }

-- For a fresh limiter and a clock that never runs backwards, the calls of `check` that answer
-- `allowed` are exactly those which the specification accepts: an event of a key is allowed exactly
-- if fewer than `limit` events of that key were allowed in the window that ends with it.
pub run-accept :
    (limit w : ℕ) (es : List (String × ℕ))
    → Ordered 0 es
    → run (new_rate_limiter limit w) es ≡ accept limit w [] es
unfolding new_rate_limiter
run-accept limit w es o =
    run-accept_from 0 [] (new_rate_limiter limit w) es limit w refl refl (Tracks-new limit w) o

-- The same, with every event at `now` at the latest.
abbrev pub OrderedTo : ℕ → List (String × ℕ) → ℕ → Type 0
OrderedTo last [] now = last ≤ now
OrderedTo last ((key, t) ∷ es) now = (last ≤ t) × OrderedTo t es now

OrderedTo-Ordered :
    (last : ℕ) (es : List (String × ℕ)) (now : ℕ) → OrderedTo last es now → Ordered last es
OrderedTo-Ordered last [] now o = tt
OrderedTo-Ordered last ((key, t) ∷ es) now o = (o.0, OrderedTo-Ordered t es now o.1)

recent-shrinks :
    (w now later : ℕ) (ts : List ℕ)
    → now ≤ later
    → length (recent w later ts) ≤ length (recent w now ts)
recent-shrinks w now later ts h = omega (
  arith,
  ap length (recent-recent w now later ts h),
  length-keep-le (is_recent w later) (recent w now ts),
)

abbrev Bounded : ℕ → ℕ → String → ℕ → List (String × ℕ) → Type 0
Bounded limit w key last past =
    (now : ℕ) → last ≤ now → length (recent w now (times key past)) ≤ limit

accept-step :
    (limit w last now : ℕ) (past : List (String × ℕ)) (k key : String)
    → last ≤ now
    → Bounded limit w key last past
    → length (recent w now (times k past)) < limit
    → Bounded limit w key now (past ++ (k, now) ∷ [])
accept-step limit w last now past k key h b room later p = ground (
  arith,
  times-append key past ((k, now) ∷ []),
  string_eq.same_iff k key,
  append-nil (times key past),
  keep-append (is_recent w later) (times key past) (now ∷ []),
  length-append (recent w later (times key past)) (keep (is_recent w later) (now ∷ [])),
  recent-shrinks w now later (times key past) p,
  b later,
)

accept-within :
    (limit w last : ℕ) (past es : List (String × ℕ)) (key : String) (now : ℕ)
    → Bounded limit w key last past
    → OrderedTo last es now
    → length (recent w now (times key (past ++ accept limit w past es))) ≤ limit
unfolding accept
accept-within limit w last past [] key now b o = rw (append-nil past) (b now o)
accept-within limit w last past ((k, t) ∷ es) key now b o =
    elim (Bool-cases (ltb (length (recent w t (times k past))) limit)) [
      | inl e ↦ rw e (
          rw (append_assoc past ((k, t) ∷ []) _) at (
            accept-within limit w t (past ++ (k, t) ∷ []) es key now
              (accept-step limit w last t past k key o.0 b (ground arith)) o.1))
      | inr e ↦ rw e (accept-within limit w t past es key now (λ n p. b n (le_trans o.0 p)) o.1)
    ]

-- Flood protection: after any history on a clock that never runs backwards, at any time `now` from
-- its last event on, at most `limit` of the events that the limiter allowed for a key lie in the
-- window that ends at `now`.
pub run-within :
    (limit w : ℕ) (es : List (String × ℕ)) (key : String) (now : ℕ)
    → OrderedTo 0 es now
    → length (recent w now (times key (run (new_rate_limiter limit w) es))) ≤ limit
run-within limit w es key now o =
    rw (run-accept limit w es (OrderedTo-Ordered 0 es now o))
      (accept-within limit w 0 [] es key now (λ n p. omega arith) o)
