-- ===== src/Core/Rpc/Retries.antt =====
-- The retries of `_async_post` in SolanaRPCProvider.
use traitkeeper_eco.Base.{ℕ, ◌+◌, ◌≤◌, ◌≡◌, Option, none, some, List, [], ◌∷◌, arith, length}
use traitkeeper_eco.Core.Rpc.{Attempt, async_post}

-- The first body among some attempts.
abbrev pub first_body : {B : Type 0} → List (Attempt B) → Option B
first_body [] = none
first_body (Attempt.body b ∷ more) = some b
first_body (a ∷ more) = first_body more

abbrev pub sum : List ℕ → ℕ
sum [] = 0
sum (n ∷ ns) = n + sum ns

-- `_async_post` always comes to a result, which is the first body that one of its three attempts
-- brings, and none when none of them does; it sleeps at most three times, twelve seconds in all.
pub post_brings_first_body :
    {B : Type 0} (answers : ℕ → Attempt B)
    → ((async_post answers).0 ≡ first_body (answers 0 ∷ answers 1 ∷ answers 2 ∷ []))
      × (length (async_post answers).1 ≤ 3)
      × (sum (async_post answers).1 ≤ 12)
unfolding async_post
post_brings_first_body answers = ground arith
