-- ===== src/Core/Cache/Found.antt =====
-- What `get` of CacheManager answers after `set`.
use traitkeeper_eco.Base.{ℕ, ◌+◌, ◌<◌, ◌≡◌, ◌≢◌, ap, true, false, Option, none, some, Text, arith}
use traitkeeper_eco.Core.Cache.{
  CacheManager, CacheType, PriorityTier, Caches, Reach, get, set, get_ttl, collection_keys,
}
use traitkeeper_eco.Core.Cache.Laws.{IsCacheManager}

module _ {L R V J : Type 0} (m : CacheManager L R V J) (laws : IsCacheManager m) where
  -- The time at which a value that was written at `now` leaves the caches.
  abbrev pub expiry : ℕ → CacheType → ℕ
  expiry now c = now + get_ttl m.settings c PriorityTier.active

  pub get_local :
      (t : ℕ) (reach : Reach) (k : Text) (w : Caches L R) (v : V)
      → reach 0 ≡ true
      → m.local.get t k w.local ≡ some v
      → get m t reach k w ≡ (some v, w)
  unfolding get
  get_local t reach k w v up h = ground (arith, up, h)

  pub local-set :
      (now t : ℕ) (reach : Reach) (k : Text) (v : V) (c : CacheType) (address : Option Text)
      (w : Caches L R)
      → reach 0 ≡ true
      → t < expiry now c
      → m.local.get t k (set m now reach k (some v) c address w).1.local ≡ some v
  unfolding set
  local-set now t reach k v c none w up h =
      ground
        (arith, up, laws.local.get-set now t k v (get_ttl m.settings c PriorityTier.active) w.local)
  local-set now t reach k v c (some a) w up h =
      ground
        (arith, up, laws.local.get-set now t k v (get_ttl m.settings c PriorityTier.active) w.local)

  -- A write that reports success was answered from the first command on.
  set_answered :
      (now : ℕ) (reach : Reach) (k : Text) (v : V) (c : CacheType) (address : Option Text)
      (w : Caches L R)
      → (set m now reach k (some v) c address w).0 ≡ true
      → reach 0 ≡ true
  unfolding set
  set_answered now reach k v c address w done = ground (arith, done)

  -- What a write that reports success leaves in Redis.
  pub remote-set :
      (now t : ℕ) (reach : Reach) (k : Text) (v : V) (c : CacheType) (address : Option Text)
      (w : Caches L R)
      → ((a : Text) → k ≢ collection_keys a)
      → m.settings.has_redis ≡ true
      → (set m now reach k (some v) c address w).0 ≡ true
      → t < expiry now c
      → m.redis.get t k (set m now reach k (some v) c address w).1.remote ≡ some (m.json.dumps v)
  unfolding set
  remote-set now t reach k v c none w plain has done h = ground (
    arith,
    laws.redis.get-setex now t k (m.json.dumps v) (get_ttl m.settings c PriorityTier.active)
        w.remote,
  )
  remote-set now t reach k v c (some a) w plain has done h = ground (
    arith,
    plain a,
    laws.redis.get-setex now t k (m.json.dumps v) (get_ttl m.settings c PriorityTier.active)
        w.remote,
    laws.redis.get-sadd t k (collection_keys a) k
        (m.redis.setex now k (get_ttl m.settings c PriorityTier.active) (m.json.dumps v) w.remote),
  )

  -- Where Django's cache has nothing, what Redis holds is found.
  pub get_remote :
      (t : ℕ) (reach : Reach) (k : Text) (v : V) (w : Caches L R)
      → m.settings.has_redis ≡ true
      → reach 0 ≡ true
      → reach 1 ≡ true
      → reach 2 ≡ true
      → m.local.get t k w.local ≡ none
      → m.redis.get t k w.remote ≡ some (m.json.dumps v)
      → (get m t reach k w).0 ≡ some v
  unfolding get
  get_remote t reach k v w has up₀ up₁ up₂ miss hit =
      ground (arith, up₀, up₁, up₂, miss, hit, laws.json.loads-dumps v)

  get_unanswered :
      (t : ℕ) (reach : Reach) (k : Text) (w : Caches L R)
      → reach 0 ≡ false
      → get m t reach k w ≡ (none, w)
  unfolding get
  get_unanswered t reach k w down = ground (arith, down)

  -- A value whose write reported success is found until its time to live is over, under a key that
  -- no collection's set of keys has, by a read whose commands are answered: in Django's cache, and
  -- in Redis where Django's cache has nothing under the key, whatever else that holds. A read whose
  -- first command is not answered finds nothing and changes nothing.
  pub written_value_is_found :
      (now t : ℕ) (reach later outage : Reach) (k : Text) (v : V) (c : CacheType)
      (address : Option Text) (w : Caches L R) (other : L)
      → ((a : Text) → k ≢ collection_keys a)
      → m.settings.has_redis ≡ true
      → (set m now reach k (some v) c address w).0 ≡ true
      → t < expiry now c
      → ((n : ℕ) → later n ≡ true)
      → m.local.get t k other ≡ none
      → outage 0 ≡ false
      → ((get m t later k (set m now reach k (some v) c address w).1).0 ≡ some v)
        × ((get m t later k (record {
          local = other;
          remote = (set m now reach k (some v) c address w).1.remote;
        })).0
            ≡ some v)
        × (get m t outage k (set m now reach k (some v) c address w).1
            ≡ (none, (set m now reach k (some v) c address w).1))
  written_value_is_found now t reach later outage k v c address w other plain has done h up miss
        down =
      (
        ap (λ x. x.0)
            (get_local t later k (set m now reach k (some v) c address w).1 v (up 0) (
              local-set now t reach k v c address w (set_answered now reach k v c address w done)
                h)),
        get_remote t later k v _ has (up 0) (up 1) (up 2) miss
            (remote-set now t reach k v c address w plain has done h),
        get_unanswered t outage k _ down,
      )
