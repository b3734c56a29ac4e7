-- ===== src/Core/Cache/Laws.antt =====
-- What CacheManager relies on in Django's cache, in Redis and in the json module, as their
-- documentation describes them.
use traitkeeper_eco.Base.{ℕ, ◌+◌, ◌≤◌, ◌<◌, ◌≡◌, ◌≢◌, true, none, some, List, Text, has_text}
use traitkeeper_eco.Core.Cache.{CacheManager, LocalCache, RedisClient, Json}

pub record IsLocalCache {L V : Type 0} (c : LocalCache L V) : Type 0 where
  pub get-set :
      (now t : ℕ) (k : Text) (v : V) (ttl : ℕ) (l : L)
      → t < now + ttl
      → c.get t k (c.set now k v ttl l) ≡ some v
  pub get-set_late :
      (now t : ℕ) (k : Text) (v : V) (ttl : ℕ) (l : L)
      → now + ttl ≤ t
      → c.get t k (c.set now k v ttl l) ≡ none
  pub get-set_other :
      (now t : ℕ) (j k : Text) (v : V) (ttl : ℕ) (l : L)
      → j ≢ k
      → c.get t j (c.set now k v ttl l) ≡ c.get t j l
  pub get-delete : (t : ℕ) (k : Text) (l : L) → c.get t k (c.delete k l) ≡ none
  pub get-delete_none :
      (t : ℕ) (j k : Text) (l : L) → c.get t j l ≡ none → c.get t j (c.delete k l) ≡ none
  pub get-clear : (t : ℕ) (k : Text) (l : L) → c.get t k (c.clear l) ≡ none

pub record IsRedis {R J : Type 0} (c : RedisClient R J) : Type 0 where
  pub get-setex :
      (now t : ℕ) (k : Text) (v : J) (ttl : ℕ) (r : R)
      → t < now + ttl
      → c.get t k (c.setex now k ttl v r) ≡ some v
  pub get-setex_late :
      (now t : ℕ) (k : Text) (v : J) (ttl : ℕ) (r : R)
      → now + ttl ≤ t
      → c.get t k (c.setex now k ttl v r) ≡ none
  pub get-setex_other :
      (now t : ℕ) (j k : Text) (v : J) (ttl : ℕ) (r : R)
      → j ≢ k
      → c.get t j (c.setex now k ttl v r) ≡ c.get t j r
  pub get-sadd : (t : ℕ) (k s e : Text) (r : R) → k ≢ s → c.get t k (c.sadd s e r) ≡ c.get t k r
  pub get-delete :
      (now t : ℕ) (k : Text) (ks : List Text) (r : R)
      → has_text k ks ≡ true
      → c.get t k (c.delete now ks r).1 ≡ none
  pub smembers-sadd : (s e : Text) (r : R) → has_text e (c.smembers s (c.sadd s e r)) ≡ true
  pub smembers-sadd_more :
      (s t d e : Text) (r : R)
      → has_text e (c.smembers s r) ≡ true
      → has_text e (c.smembers s (c.sadd t d r)) ≡ true
  pub smembers-setex :
      (now : ℕ) (s k : Text) (v : J) (ttl : ℕ) (r : R)
      → s ≢ k
      → c.smembers s (c.setex now k ttl v r) ≡ c.smembers s r
  pub get-flushdb : (t : ℕ) (k : Text) (r : R) → c.get t k (c.flushdb r) ≡ none

-- A value of JSON comes back from its text.
pub record IsJson {V J : Type 0} (c : Json V J) : Type 0 where
  pub loads-dumps : (v : V) → c.loads (c.dumps v) ≡ some v

pub record IsCacheManager {L R V J : Type 0} (m : CacheManager L R V J) : Type 0 where
  pub local : IsLocalCache m.local
  pub redis : IsRedis m.redis
  pub json : IsJson m.json
