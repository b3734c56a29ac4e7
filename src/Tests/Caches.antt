-- ===== src/Tests/Caches.antt =====
-- A cache manager over lists, a limiter and a provider.
use traitkeeper_eco.Base.{
  ℕ, zero, suc, ◌+◌, ◌≤◌, ◌≡◌, refl, Bool, true, false, none, some, List, [], ◌∷◌, Text, codes,
  arith, count_if,
}
use traitkeeper_eco.Core.Cache.{CacheManager, CacheType, Settings, Caches, Reach, get, set, get_ttl}
use traitkeeper_eco.Core.Cache.Found.{written_value_is_found}
use traitkeeper_eco.Core.Cache.Forgotten.{Write}
use traitkeeper_eco.Core.Limiter.{Limiter, Wait, wait, wait_round, rounds, fresh}
use traitkeeper_eco.Core.Limiter.Window.{no_burst_exceeds_the_rate, is_within}
use traitkeeper_eco.Core.Limiter.Waiting.{wait_returns, IsWithinLimit}
use traitkeeper_eco.Core.Rpc.{Attempt}
use traitkeeper_eco.Tests.Stores.{Entry, Server, list_manager, list_manager_lem, entry, read}

abbrev pub settings : Settings
settings = record {
  ttl_config = λ tier. some (λ c. some 1800);
  prefix = λ c. none;
  has_redis = true;
}

abbrev pub manager : CacheManager (List (Entry ℕ)) (Server ℕ) ℕ ℕ
manager = list_manager settings

abbrev pub up : Reach
up n = true

abbrev down : Reach
down n = false

abbrev pub empty : Caches (List (Entry ℕ)) (Server ℕ)
empty = record { local = []; remote = record { entries = []; members = [] } }

abbrev address : Text
address = codes "DGds"

abbrev floor_key : Text
floor_key = codes "stats:floor"

-- A floor price is cached for a collection.
abbrev cached : Bool × Caches (List (Entry ℕ)) (Server ℕ)
cached = set manager 10 up floor_key (some 42) CacheType.stats (some address) empty

written_value_is_found_example :
    ((get manager 1000 up floor_key cached.1).0 ≡ some 42)
    × ((get manager 1000 up floor_key (record { local = []; remote = cached.1.remote })).0
        ≡ some 42)
    × (get manager 1000 down floor_key cached.1 ≡ (none, cached.1))
unfolding set get_ttl read
written_value_is_found_example =
    written_value_is_found manager (list_manager_lem settings) 10 1000 up up down floor_key 42
      CacheType.stats (some address) empty [] (λ a. ground arith) refl refl (omega arith)
      (λ n. refl) refl refl

abbrev other_write : Write ℕ
other_write = record {
  now = 20;
  reach = up;
  key = codes "stats:volume";
  value = some 5;
  cache_type = CacheType.stats;
  address = none;
}

abbrev held : Caches (List (Entry ℕ)) (Server ℕ)
held = record {
  local = entry floor_key 42 1810 ∷ [];
  remote = record { entries = entry floor_key 42 1810 ∷ []; members = [] };
}

-- Five coroutines ask a limiter of two requests in ten ticks, and one asks again.
no_burst_exceeds_the_rate_example :
    count_if (is_within 10 12) (rounds (0 ∷ 1 ∷ 2 ∷ 3 ∷ 10 ∷ 11 ∷ []) [] (fresh 2 10)).0 ≤ 2
no_burst_exceeds_the_rate_example =
    no_burst_exceeds_the_rate 2 10 12 (0 ∷ 1 ∷ 2 ∷ 3 ∷ 10 ∷ 11 ∷ []) (ground arith)

rounds_run : (rounds (0 ∷ 1 ∷ 2 ∷ 3 ∷ 10 ∷ 11 ∷ []) [] (fresh 2 10)).0 ≡ 11 ∷ 10 ∷ 1 ∷ 0 ∷ []
unfolding rounds wait_round fresh
rounds_run = refl

abbrev busy : Limiter
busy = record { max_requests = 2; per_seconds = 10; request_timestamps = 0 ∷ 1 ∷ [] }

wait_returns_example :
    (t : ℕ) × (m : Limiter) × (wait (λ t d. t + d) 2 3 busy ≡ Wait.returned t m)
    × (3 ≤ t)
    × IsWithinLimit m
wait_returns_example =
    wait_returns (λ t d. t + d) (λ t d. omega arith) 0 3 busy (omega arith) (omega arith)

-- The third attempt succeeds.
abbrev answers : ℕ → Attempt ℕ
answers zero = Attempt.too_many_requests
answers (suc zero) = Attempt.failed
answers (suc (suc n)) = Attempt.body 5

abbrev signatures : List ℕ
signatures = 4 ∷ 7 ∷ []
