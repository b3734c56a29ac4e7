-- ===== src/Core/Limiter.antt =====
-- AsyncRateLimiter (core/api_provider/base.py): a window of the times of the last requests. Times
-- are ticks of the monotonic clock.
pub mod Window
pub mod Waiting
use traitkeeper_eco.Base.{
  ℕ, zero, suc, ◌+◌, ◌-◌, Bool, true, false, Option, none, some, List, [], ◌∷◌, ◌++◌, ltb, leb,
  length, if◌then◌else◌,
}

pub record Limiter : Type 0 where
  pub max_requests : ℕ
  pub per_seconds : ℕ
  pub request_timestamps : List ℕ

unfoldable pub fresh : ℕ → ℕ → Limiter
fresh max_requests per_seconds = record {
  max_requests = max_requests;
  per_seconds = per_seconds;
  request_timestamps = [];
}

-- `while timestamps and timestamps[0] <= now - per_seconds: popleft()`
unfoldable pub evict : ℕ → ℕ → List ℕ → List ℕ
evict per now [] = []
evict per now (t ∷ ts) = let rest = evict per now ts in if leb (t + per) now then rest else t ∷ ts

-- One round of the loop in `wait`, up to its `await`: no other coroutine runs within it.
pub data Round : Type 0 where
  granted : Limiter → Round
  sleeps : ℕ → Limiter → Round
  index_error : Limiter → Round

abbrev pub oldest_leaves : ℕ → Limiter → Round
oldest_leaves now l = elim l.request_timestamps [
  | [] ↦ Round.index_error l
  | t ∷ ts ↦ Round.sleeps ((t + l.per_seconds) - now) l
]

unfoldable pub wait_round : ℕ → Limiter → Round
unfolding evict
wait_round now l =
    let recent = evict l.per_seconds now l.request_timestamps in
    if ltb (length recent) l.max_requests
    then Round.granted (record l { request_timestamps = recent ++ now ∷ [] })
    else oldest_leaves now (record l { request_timestamps = recent })

pub data Wait : Type 0 where
  returned : ℕ → Limiter → Wait
  raised : Limiter → Wait
  unfinished : Wait

-- `wait` by a coroutine that runs alone: `sleep t d` is the clock after `asyncio.sleep(d)` at `t`.
-- The first number bounds the rounds.
unfoldable pub wait : (ℕ → ℕ → ℕ) → ℕ → ℕ → Limiter → Wait
unfolding wait_round
wait sleep zero now l = Wait.unfinished
wait sleep (suc rounds) now l = elim (wait_round now l) [
  | Round.granted m ↦ Wait.returned now m
  | Round.sleeps d m ↦ wait sleep rounds (sleep now d) m
  | Round.index_error m ↦ Wait.raised m
]

-- The rounds of any number of coroutines, in the order in which the loop of events runs them: the
-- times of the requests that were let through, the last one first, and the limiter.
unfoldable pub rounds : List ℕ → List ℕ → Limiter → List ℕ × Limiter
unfolding wait_round
rounds [] log l = (log, l)
rounds (now ∷ later) log l = elim (wait_round now l) [
  | Round.granted m ↦ rounds later (now ∷ log) m
  | Round.sleeps d m ↦ rounds later log m
  | Round.index_error m ↦ rounds later log m
]
