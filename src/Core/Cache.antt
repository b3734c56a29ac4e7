-- ===== src/Core/Cache.antt =====
-- CacheManager (core/cache_manager.py): Django's cache, which the settings keep in Redis too,
-- before a client of Redis of its own.
pub mod Laws
pub mod Found
pub mod Forgotten
use traitkeeper_eco.Base.{
  ℕ, ◌+◌, ℤ, pos, sub_ℕ, Bool, true, false, ◌&&◌, Option, none, some, List, [], ◌∷◌, ◌++◌, Text,
  codes, if◌then◌else◌,
}

pub data CacheType : Type 0 where
  stats provider metrics global rate_limit : CacheType

pub data PriorityTier : Type 0 where
  vip active inactive : PriorityTier

-- The part of Django's cache that is called: the key and the clock decide what a read finds.
pub record LocalCache (L V : Type 0) : Type 0 where
  pub get : ℕ → Text → L → Option V
  pub set : ℕ → Text → V → ℕ → L → L
  pub delete : Text → L → L
  pub clear : L → L

-- The commands of Redis that are sent.
pub record RedisClient (R J : Type 0) : Type 0 where
  pub get : ℕ → Text → R → Option J
  pub setex : ℕ → Text → ℕ → J → R → R
  pub delete : ℕ → List Text → R → ℕ × R
  pub sadd : Text → Text → R → R
  pub smembers : Text → R → List Text
  pub flushdb : R → R

pub record Json (V J : Type 0) : Type 0 where
  pub dumps : V → J
  pub loads : J → Option V

-- The settings of the manager. `prefix` is CACHE_KEY_PREFIXES, by the name of the type.
pub record Settings : Type 0 where
  pub ttl_config : PriorityTier → Option (CacheType → Option ℕ)
  pub prefix : CacheType → Option Text
  pub has_redis : Bool

-- The manager: its settings and what it calls.
pub record CacheManager (L R V J : Type 0) : Type 0 where
  pub settings : Settings
  pub local : LocalCache L V
  pub redis : RedisClient R J
  pub json : Json V J

pub record Caches (L R : Type 0) : Type 0 where
  pub local : L
  pub remote : R

-- Whether the n-th command of a call is answered, those of Django's cache counted with the others:
-- a command that is not raises, which every method catches.
abbrev pub Reach : Type 0
Reach = ℕ → Bool

abbrev lower_name : CacheType → Text
lower_name CacheType.stats = codes "stats"
lower_name CacheType.provider = codes "provider"
lower_name CacheType.metrics = codes "metrics"
lower_name CacheType.global = codes "global"
lower_name CacheType.rate_limit = codes "rate_limit"

abbrev or_value : Option Text → Text → Text
or_value none t = t
or_value (some s) t = s

unfoldable pub get_key_with_prefix : Settings → CacheType → Text → Text
get_key_with_prefix s c base_key = or_value (s.prefix c) (lower_name c) ++ codes ":" ++ base_key

abbrev ttl_in : Option (CacheType → Option ℕ) → CacheType → Option ℕ
ttl_in none c = none
ttl_in (some f) c = f c

abbrev or_number : Option ℕ → ℕ → ℕ
or_number none n = n
or_number (some k) n = k

unfoldable pub get_ttl : Settings → CacheType → PriorityTier → ℕ
get_ttl s c tier =
    or_number (ttl_in (s.ttl_config tier) c)
      (or_number (ttl_in (s.ttl_config PriorityTier.active) c) 3600)

abbrev pub collection_keys : Text → Text
collection_keys address = codes "collection_keys:" ++ address

-- `trait_type` is falsy when it is missing or empty.
unfoldable pub trait_keys : Settings → Text → Option Text → List Text
unfolding get_key_with_prefix
trait_keys s address (some (c ∷ cs)) =
    get_key_with_prefix s CacheType.metrics (codes "trait_stats:" ++ address ++ codes ":" ++ c ∷ cs)
    ∷ []
trait_keys s address _ =
    get_key_with_prefix s CacheType.metrics (codes "trait_rarity:" ++ address)
    ∷ get_key_with_prefix s CacheType.metrics (codes "trait_floor:" ++ address)
    ∷ get_key_with_prefix s CacheType.global (codes "all_traits:" ++ address)
    ∷ []

module _ {L R V J : Type 0} (m : CacheManager L R V J) where
  open m use {local, redis, json}
  open m.settings use {has_redis}

  -- What Redis answers to `get`, unless it does not answer or the text is no JSON.
  abbrev from_redis : ℕ → Text → Caches L R → Option V
  from_redis now key w = elim (redis.get now key w.remote) [
    | none ↦ none
    | some text ↦ json.loads text
  ]

  abbrev back_populate : ℕ → Text → Option V → Caches L R → Option V × Caches L R
  back_populate now key none w = (none, w)
  back_populate now key (some value) w =
      (some value, record w { local = local.set now key value 60 w.local })

  -- A value that Django's cache does not take back is not returned either.
  abbrev fetch : ℕ → Reach → Text → Caches L R → Option V × Caches L R
  fetch now reach key w =
      if reach 2 then back_populate now key (from_redis now key w) w else (none, w)

  unfoldable pub get : ℕ → Reach → Text → Caches L R → Option V × Caches L R
  get now reach key w =
      let found : Option V × Caches L R = elim (local.get now key w.local) [
        | some value ↦ (some value, w)
        | none ↦ if has_redis && reach 1 then fetch now reach key w else (none, w)
      ] in
      if reach 0 then found else (none, w)

  -- The association with a collection, the third command.
  abbrev associate : Reach → Text → Option Text → Caches L R → Bool × Caches L R
  associate reach key none w = (true, w)
  associate reach key (some address) w =
      if reach 2
      then (true, record w { remote = redis.sadd (collection_keys address) key w.remote })
      else (false, w)

  abbrev set_redis : ℕ → ℕ → Reach → Text → V → Option Text → Caches L R → Bool × Caches L R
  set_redis now ttl reach key value address w =
      let stored = record w { remote = redis.setex now key ttl (json.dumps value) w.remote } in
      if reach 1 then associate reach key address stored else (false, w)

  unfoldable pub set :
      ℕ → Reach → Text → Option V → CacheType → Option Text → Caches L R → Bool × Caches L R
  unfolding get_ttl
  set now reach key none c address w = (false, w)
  set now reach key (some value) c address w =
      let ttl = get_ttl m.settings c PriorityTier.active in
      let written = record w { local = local.set now key value ttl w.local } in
      let redis_too =
        if has_redis then set_redis now ttl reach key value address written else (true, written) in
      if reach 0 then redis_too else (false, w)

  unfoldable pub delete : ℕ → Reach → Text → Caches L R → Bool × Caches L R
  delete now reach key w =
      let dropped = record w { local = local.delete key w.local } in
      let gone = record dropped { remote = (redis.delete now (key ∷ []) w.remote).1 } in
      let redis_too =
        if has_redis
        then (if reach 1 then (true, gone) else (false, dropped))
        else (true, dropped) in
      if reach 0 then redis_too else (false, w)

  -- `for key in keys: cache.delete(key)`, up to the first that is not answered.
  unfoldable pub delete_all : Reach → List Text → L → Bool × L
  delete_all reach [] l = (true, l)
  delete_all reach (k ∷ ks) l =
      let rest = delete_all (λ n. reach (n + 1)) ks (local.delete k l) in
      if reach 0 then rest else (false, l)

  abbrev pub forget : ℕ → Reach → Text → List Text → Caches L R → ℤ × Caches L R
  forget now reach set_key [] w = (pos 0, w)
  forget now reach set_key (k ∷ ks) w =
      let keys = set_key ∷ k ∷ ks in
      let (deleted_count, remote) = redis.delete now keys w.remote in
      let (done, local) = delete_all (λ n. reach (n + 2)) keys w.local in
      if reach 1
      then (
        if done then sub_ℕ deleted_count 1 else pos 0,
        record w { local = local; remote = remote },
      )
      else (pos 0, w)

  unfoldable pub invalidate_collection_caches : ℕ → Reach → Text → Caches L R → ℤ × Caches L R
  unfolding delete_all
  invalidate_collection_caches now reach address w =
      let set_key = collection_keys address in
      if has_redis && reach 0
      then forget now reach set_key (redis.smembers set_key w.remote) w
      else (pos 0, w)

  -- `for key in keys: await self.delete(key)`: one command each, whatever the others answer.
  unfoldable pub delete_each : ℕ → (ℕ → Reach) → List Text → Caches L R → Caches L R
  unfolding delete
  delete_each now reach [] w = w
  delete_each now reach (k ∷ ks) w =
      delete_each now (λ n. reach (n + 1)) ks (delete now (reach 0) k w).1

  unfoldable pub invalidate_trait_caches :
      ℕ → (ℕ → Reach) → Text → Option Text → Caches L R → Bool × Caches L R
  unfolding trait_keys delete_each
  invalidate_trait_caches now reach address trait_type w =
      (true, delete_each now reach (trait_keys m.settings address trait_type) w)

  unfoldable pub invalidate_all_caches : Reach → Caches L R → Bool × Caches L R
  invalidate_all_caches reach w =
      let cleared = record w { local = local.clear w.local } in
      let redis_too =
        if has_redis
        then (if reach 1
            then (true, record cleared { remote = redis.flushdb w.remote })
            else (false, cleared))
        else (true, cleared) in
      if reach 0 then redis_too else (false, w)
