-- ===== src/Core/Limiter/Waiting.antt =====
-- The loop of `wait` in AsyncRateLimiter comes to an end.
use traitkeeper_eco.Base.{
  ℕ, suc, ◌+◌, ◌-◌, ◌≤◌, ◌<◌, ◌≡◌, refl, List, [], ◌∷◌, ◌++◌, arith, ltb, length, length-append,
  Bool-cases, ◌⊎◌, inl, inr,
}
use traitkeeper_eco.Core.Limiter.{Limiter, Round, Wait, evict, wait_round, wait}

length-evict-le : (per now : ℕ) (ts : List ℕ) → length (evict per now ts) ≤ length ts
unfolding evict
length-evict-le per now [] = omega arith
length-evict-le per now (t ∷ ts) = ground (arith, length-evict-le per now ts)

-- The window is no larger than the limit.
abbrev pub IsWithinLimit : Limiter → Type 0
IsWithinLimit l = length l.request_timestamps ≤ l.max_requests

List-cases : (ts : List ℕ) → (ts ≡ []) ⊎ ((t : ℕ) × (rest : List ℕ) × (ts ≡ t ∷ rest))
List-cases [] = inl refl
List-cases (t ∷ rest) = inr (t, rest, refl)

-- What is kept at the head is not yet due to leave.
evict_head : (per now t : ℕ) (ts rest : List ℕ) → evict per now ts ≡ t ∷ rest → now < t + per
unfolding evict
evict_head per now t [] rest e = ground arith
evict_head per now t (x ∷ ts) rest e = ground (arith, evict_head per now t ts rest)

abbrev kept : Limiter → List ℕ → Limiter
kept l ts = record l { request_timestamps = ts }

-- A round with room in the window lets the request through.
round_with_room :
    (now : ℕ) (l : Limiter)
    → length (evict l.per_seconds now l.request_timestamps) < l.max_requests
    → wait_round now l
      ≡ Round.granted (kept l (evict l.per_seconds now l.request_timestamps ++ now ∷ []))
unfolding wait_round
round_with_room now l h = ground arith

round_when_full :
    (now t : ℕ) (rest : List ℕ) (l : Limiter)
    → evict l.per_seconds now l.request_timestamps ≡ t ∷ rest
    → l.max_requests ≤ length (t ∷ rest)
    → wait_round now l ≡ Round.sleeps ((t + l.per_seconds) - now) (kept l (t ∷ rest))
unfolding wait_round
round_when_full now t rest l e h = ground (arith, e)

abbrev Ended : ℕ → Wait → Type 0
Ended now w = (t : ℕ) × (m : Limiter) × (w ≡ Wait.returned t m) × (now ≤ t) × IsWithinLimit m

module _ (sleep : ℕ → ℕ → ℕ) (asleep : (t d : ℕ) → t + d ≤ sleep t d) where
  wait_with_room-Ended :
      (n now : ℕ) (l : Limiter)
      → length (evict l.per_seconds now l.request_timestamps) < l.max_requests
      → Ended now (wait sleep (suc n) now l)
  unfolding wait
  wait_with_room-Ended n now l h = (
    now,
    kept l (evict l.per_seconds now l.request_timestamps ++ now ∷ []),
    ground (arith, round_with_room now l h),
    omega arith,
    omega (arith, length-append (evict l.per_seconds now l.request_timestamps) (now ∷ [])),
  )

  wait_when_full-Ended :
      (n now t : ℕ) (rest : List ℕ) (l : Limiter)
      → evict l.per_seconds now l.request_timestamps ≡ t ∷ rest
      → l.max_requests ≤ length (t ∷ rest)
      → IsWithinLimit l
      → Ended now (wait sleep (suc (suc n)) now l)
  unfolding wait
  wait_when_full-Ended n now t rest l e full small = (
    second.0,
    second.1,
    ground (arith, round_when_full now t rest l e full, second.2),
    omega (arith, asleep now ((t + l.per_seconds) - now), second.3),
    second.4,
  )
    where
      later : ℕ
      later = sleep now ((t + l.per_seconds) - now)

      room : length (evict l.per_seconds later (t ∷ rest)) < l.max_requests
      room = ground (
        arith,
        evict_head l.per_seconds now t l.request_timestamps rest e,
        asleep now ((t + l.per_seconds) - now),
        length-evict-le l.per_seconds now l.request_timestamps,
        length-evict-le l.per_seconds later rest,
        e,
      )

      second : Ended later (wait sleep (suc n) later (kept l (t ∷ rest)))
      second = wait_with_room-Ended n later (kept l (t ∷ rest)) room

  -- When no other coroutine runs between its rounds, `wait` returns after at most two of them, when
  -- the limit is not zero and the window is no larger than it, which it leaves so; a sleep must take
  -- at least the time that it is given.
  pub wait_returns :
      (n now : ℕ) (l : Limiter)
      → 0 < l.max_requests
      → IsWithinLimit l
      → (t : ℕ) × (m : Limiter) × (wait sleep (suc (suc n)) now l ≡ Wait.returned t m)
        × (now ≤ t)
        × IsWithinLimit m
  wait_returns n now l some_room small =
      elim (Bool-cases
        (ltb (length (evict l.per_seconds now l.request_timestamps)) l.max_requests)) [
          | inl room ↦ wait_with_room-Ended (suc n) now l (ground (arith, room))
          | inr full ↦ elim (List-cases (evict l.per_seconds now l.request_timestamps)) [
            | inl empty ↦ absurd (ground (arith, full, empty))
            | inr (t, rest, e) ↦
                wait_when_full-Ended n now t rest l e (ground (arith, full, e)) small
          ]
        ]
