-- ===== src/Tests/Stores.antt =====
-- Lists as the caches that CacheManager calls, with what it relies on.
use traitkeeper_eco.Base.{
  ℕ, ◌+◌, ◌≡◌, refl, true, Option, none, some, List, [], ◌∷◌, Text, same_text, same_text_iff,
  has_text, arith, ltb, length, if◌then◌else◌,
}
use traitkeeper_eco.Core.Cache.{LocalCache, RedisClient, Json, CacheManager, Settings}
use traitkeeper_eco.Core.Cache.Laws.{IsLocalCache, IsRedis, IsCacheManager}

pub record Entry (V : Type 0) : Type 0 where
  pub key : Text
  pub value : V
  pub expires : ℕ

module _ {V : Type 0} where
  unfoldable pub read : ℕ → Text → List (Entry V) → Option V
  read t k [] = none
  read t k (e ∷ es) =
      if same_text e.key k then (if ltb t e.expires then some e.value else none) else read t k es

  unfoldable pub drop : Text → List (Entry V) → List (Entry V)
  drop k [] = []
  drop k (e ∷ es) = let rest = drop k es in if same_text e.key k then rest else e ∷ rest

  unfoldable pub drop_all : List Text → List (Entry V) → List (Entry V)
  unfolding drop
  drop_all [] es = es
  drop_all (k ∷ ks) es = drop_all ks (drop k es)

  read-drop : (t : ℕ) (k : Text) (es : List (Entry V)) → read t k (drop k es) ≡ none
  unfolding read drop
  read-drop t k [] = refl
  read-drop t k (e ∷ es) = ground (arith, read-drop t k es)

  missing_after_drop :
      (t : ℕ) (j k : Text) (es : List (Entry V)) → read t j es ≡ none → read t j (drop k es) ≡ none
  unfolding read drop
  missing_after_drop t j k [] h = refl
  missing_after_drop t j k (e ∷ es) h = ground (
    arith,
    missing_after_drop t j k es,
    same_text_iff e.key j,
    same_text_iff e.key k,
    read-drop t k es,
  )

  missing_after_drop_all :
      (t : ℕ) (k : Text) (ks : List Text) (es : List (Entry V))
      → read t k es ≡ none
      → read t k (drop_all ks es) ≡ none
  unfolding drop_all
  missing_after_drop_all t k [] es h = h
  missing_after_drop_all t k (j ∷ ks) es h =
      missing_after_drop_all t k ks _ (missing_after_drop t k j es h)

  read-drop_all :
      (t : ℕ) (k : Text) (ks : List Text) (es : List (Entry V))
      → has_text k ks ≡ true
      → read t k (drop_all ks es) ≡ none
  unfolding drop_all has_text
  read-drop_all t k [] es h = ground arith
  read-drop_all t k (j ∷ ks) es h = ground (
    arith,
    same_text_iff j k,
    read-drop_all t k ks (drop j es),
    missing_after_drop_all t k ks (drop k es),
    read-drop t k es,
  )

  abbrev pub entry : Text → V → ℕ → Entry V
  entry k v e = record { key = k; value = v; expires = e }

  abbrev pub list_cache : LocalCache (List (Entry V)) V
  list_cache = record {
    get = read;
    set = λ now k v ttl es. entry k v (now + ttl) ∷ es;
    delete = drop;
    clear = λ es. [];
  }

  pub list_cache_lem : IsLocalCache list_cache
  unfolding read
  list_cache_lem = record {
    get-set = λ now t k v ttl l h. ground (arith, same_text_iff k k);
    get-set_late = λ now t k v ttl l h. ground (arith, same_text_iff k k);
    get-set_other = λ now t j k v ttl l h. ground (arith, same_text_iff k j);
    get-delete = read-drop;
    get-delete_none = missing_after_drop;
    get-clear = λ t k l. refl;
  }

-- Redis: the values, and the pairs of a set's key and a member.
pub record Server (V : Type 0) : Type 0 where
  pub entries : List (Entry V)
  pub members : List (Text × Text)

unfoldable pub members_of : Text → List (Text × Text) → List Text
members_of s [] = []
members_of s ((t, e) ∷ ps) = let rest = members_of s ps in if same_text t s then e ∷ rest else rest

module _ {V : Type 0} where
  abbrev pub list_redis : RedisClient (Server V) V
  list_redis = record {
    get = λ t k r. read t k r.entries;
    setex = λ now k ttl v r. record r { entries = entry k v (now + ttl) ∷ r.entries };
    delete = λ now ks r. (length ks, record r { entries = drop_all ks r.entries });
    sadd = λ s e r. record r { members = (s, e) ∷ r.members };
    smembers = λ s r. members_of s r.members;
    flushdb = λ r. record { entries = []; members = [] };
  }

  pub list_redis_lem : IsRedis list_redis
  unfolding read members_of has_text
  list_redis_lem = record {
    get-setex = λ now t k v ttl r h. ground (arith, same_text_iff k k);
    get-setex_late = λ now t k v ttl r h. ground (arith, same_text_iff k k);
    get-setex_other = λ now t j k v ttl r h. ground (arith, same_text_iff k j);
    get-sadd = λ t k s e r h. refl;
    get-delete = λ now t k ks r h. read-drop_all t k ks r.entries h;
    smembers-sadd = λ s e r. ground (arith, same_text_iff s s, same_text_iff e e);
    smembers-sadd_more = λ s t d e r h. ground (arith, h);
    smembers-setex = λ now s k v ttl r h. refl;
    get-flushdb = λ t k r. refl;
  }

  abbrev pub plain_json : Json V V
  plain_json = record { dumps = λ v. v; loads = λ v. some v }

  abbrev pub list_manager : Settings → CacheManager (List (Entry V)) (Server V) V V
  list_manager s = record {
    settings = s;
    local = list_cache;
    redis = list_redis;
    json = plain_json;
  }

  pub list_manager_lem : (s : Settings) → IsCacheManager (list_manager s)
  list_manager_lem s = record {
    local = list_cache_lem;
    redis = list_redis_lem;
    json = record { loads-dumps = λ v. refl };
  }
