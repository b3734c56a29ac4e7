-- ===== src/Core/Limiter/Window.antt =====
-- How many requests AsyncRateLimiter lets through in a stretch of time.
use traitkeeper_eco.Base.{
  ℕ, ◌+◌, ◌≤◌, ◌<◌, ◌≡◌, refl, Bool, ◌&&◌, List, [], ◌∷◌, ◌++◌, arith, ltb, leb, length,
  if◌then◌else◌, count_if, Bool-cases, inl, inr,
}
use traitkeeper_eco.Core.Limiter.{Limiter, evict, wait_round, rounds, fresh}

-- The time lies in the stretch of `per` ticks that ends with `t`.
abbrev pub is_within : ℕ → ℕ → ℕ → Bool
is_within per t g = ltb t (g + per) && leb g t

-- The clock does not go back from `now` on.
abbrev pub IsAscending : ℕ → List ℕ → Type 0
IsAscending now [] = Unit
IsAscending now (t ∷ ts) = (now ≤ t) × IsAscending t ts

count_if-append :
    (p : ℕ → Bool) (xs : List ℕ) (x : ℕ)
    → count_if p (xs ++ x ∷ []) ≡ count_if p xs + count_if p (x ∷ [])
count_if-append p [] x = omega arith
count_if-append p (y ∷ xs) x = ground (arith, count_if-append p xs x)

count_if-le : (p : ℕ → Bool) (xs : List ℕ) → count_if p xs ≤ length xs
count_if-le p [] = omega arith
count_if-le p (x ∷ xs) = ground (arith, count_if-le p xs)

-- What leaves the window is in no stretch that ends later.
count_if-evict :
    (per now t : ℕ) (ts : List ℕ)
    → now ≤ t
    → count_if (is_within per t) (evict per now ts) ≡ count_if (is_within per t) ts
unfolding evict
count_if-evict per now t [] h = refl
count_if-evict per now t (x ∷ ts) h = ground (arith, count_if-evict per now t ts h)

-- No stretch has more than the allowed number of requests, and the window has all those of a
-- stretch that ends at `now` or later.
pub record IsLimited (now : ℕ) (log : List ℕ) (l : Limiter) : Type 0 where
  pub bound : (t : ℕ) → count_if (is_within l.per_seconds t) log ≤ l.max_requests
  pub recent :
      (t : ℕ)
      → now ≤ t
      → count_if (is_within l.per_seconds t) log
        ≤ count_if (is_within l.per_seconds t) l.request_timestamps

abbrev evicted : ℕ → Limiter → Limiter
evicted now l = record l { request_timestamps = evict l.per_seconds now l.request_timestamps }

evicted-IsLimited :
    (before now : ℕ) (log : List ℕ) (l : Limiter)
    → before ≤ now
    → IsLimited before log l
    → IsLimited now log (evicted now l)
evicted-IsLimited before now log l h i = record {
  bound = i.bound;
  recent = λ t later. omega (
    arith,
    i.recent t (omega arith),
    count_if-evict l.per_seconds now t l.request_timestamps later,
  );
}

granted-IsLimited :
    (now : ℕ) (log : List ℕ) (l : Limiter)
    → length l.request_timestamps < l.max_requests
    → IsLimited now log l
    → IsLimited now (now ∷ log) (record l { request_timestamps = l.request_timestamps ++ now ∷ [] })
granted-IsLimited now log l room i = record {
  bound = λ t.
      ground (
        arith,
        i.bound t,
        i.recent t,
        count_if-le (is_within l.per_seconds t) l.request_timestamps,
      );
  recent = λ t later. ground (
    arith,
    i.recent t later,
    count_if-append (is_within l.per_seconds t) l.request_timestamps now,
  );
}

-- One round with what comes after it.
rounds-cons :
    (now : ℕ) (later log : List ℕ) (l : Limiter)
    → rounds (now ∷ later) log l ≡ (
        if ltb (length (evicted now l).request_timestamps) l.max_requests
        then rounds later
            (now ∷ log)
            (record l { request_timestamps = (evicted now l).request_timestamps ++ now ∷ [] })
        else rounds later log (evicted now l))
unfolding rounds wait_round
rounds-cons now later log l = ground arith

pub rounds-bound :
    (before : ℕ) (times log : List ℕ) (l : Limiter)
    → IsAscending before times
    → IsLimited before log l
    → (t : ℕ) → count_if (is_within l.per_seconds t) (rounds times log l).0 ≤ l.max_requests
unfolding rounds
rounds-bound before [] log l up i t = i.bound t
rounds-bound before (now ∷ later) log l up i t =
    elim (Bool-cases (ltb (length (evicted now l).request_timestamps) l.max_requests)) [
      | inl room ↦ ground (
        arith,
        rounds-cons now later log l,
        room,
        rounds-bound now later (now ∷ log) _ up.1
            (granted-IsLimited now log (evicted now l) (ground (arith, room))
              (evicted-IsLimited before now log l up.0 i))
            t,
      )
      | inr full ↦ ground (
        arith,
        rounds-cons now later log l,
        full,
        rounds-bound now later log _ up.1 (evicted-IsLimited before now log l up.0 i) t,
      )
    ]

-- Whatever coroutines wait for it and in whatever order their rounds are run, while the clock does
-- not go back, a limiter lets at most `max_requests` requests through in any stretch of
-- `per_seconds`.
pub no_burst_exceeds_the_rate :
    (max_requests per_seconds t : ℕ) (times : List ℕ)
    → IsAscending 0 times
    → count_if (is_within per_seconds t) (rounds times [] (fresh max_requests per_seconds)).0
      ≤ max_requests
unfolding fresh
no_burst_exceeds_the_rate max_requests per_seconds t times up =
    rounds-bound 0 times [] (fresh max_requests per_seconds) up
      (record { bound = λ t. omega arith; recent = λ t h. omega arith }) t
