-- ===== src/Core/Cache/Forgotten.antt =====
-- What the invalidations of CacheManager leave, and what an outage of Redis makes of them.
use traitkeeper_eco.Base.{
  ℕ, ◌+◌, ◌<◌, ◌≡◌, ◌≢◌, ap, ◌∙◌, true, false, Option, none, some, List, [], ◌∷◌, Text, has_text,
  same_text, same_text_iff, arith, Bool-cases, inl, inr,
}
use traitkeeper_eco.Core.Cache.{
  CacheManager, CacheType, PriorityTier, Caches, Reach, get, set, delete, delete_all, forget,
  get_ttl, invalidate_collection_caches, collection_keys,
}
use traitkeeper_eco.Core.Cache.Laws.{IsCacheManager}

-- A call of `set`.
pub record Write (V : Type 0) : Type 0 where
  pub now : ℕ
  pub reach : Reach
  pub key : Text
  pub value : Option V
  pub cache_type : CacheType
  pub address : Option Text

module _ {L R V J : Type 0} (m : CacheManager L R V J) where
  unfoldable pub write_all : List (Write V) → Caches L R → Caches L R
  write_all [] w = w
  write_all (x ∷ xs) w = write_all xs (set m x.now x.reach x.key x.value x.cache_type x.address w).1

  -- Redis has the key in the collection's set of keys.
  abbrev pub IsRegistered : Text → Text → Caches L R → Type 0
  IsRegistered address k w = has_text k (m.redis.smembers (collection_keys address) w.remote) ≡ true

  -- No write is to the key of the collection's set of keys.
  abbrev pub ArePlain : Text → List (Write V) → Type 0
  ArePlain address [] = Unit
  ArePlain address (x ∷ xs) = (collection_keys address ≢ x.key) × ArePlain address xs

module _ {L R V J : Type 0} (m : CacheManager L R V J) (laws : IsCacheManager m) where
  abbrev stored : ℕ → Text → V → CacheType → Caches L R → R
  stored now k v c w =
      m.redis.setex now k (get_ttl m.settings c PriorityTier.active) (m.json.dumps v) w.remote

  set_keeps :
      (now : ℕ) (k j : Text) (v : V) (c : CacheType) (address : Text) (w : Caches L R)
      → collection_keys address ≢ j
      → IsRegistered m address k w
      → has_text k (m.redis.smembers (collection_keys address) (stored now j v c w)) ≡ true
  set_keeps now k j v c address w plain h =
      ap (has_text k) (
        laws.redis.smembers-setex now (collection_keys address) j (m.json.dumps v)
          (get_ttl m.settings c PriorityTier.active) w.remote plain)
      ∙ h

  pub set_other-IsRegistered :
      (now : ℕ) (reach : Reach) (k j : Text) (o : Option V) (c : CacheType) (address : Text)
      (b : Option Text) (w : Caches L R)
      → collection_keys address ≢ j
      → IsRegistered m address k w
      → IsRegistered m address k (set m now reach j o c b w).1
  unfolding set
  set_other-IsRegistered now reach k j none c address b w plain h = h
  set_other-IsRegistered now reach k j (some v) c address none w plain h =
      ground (arith, set_keeps now k j v c address w plain h)
  set_other-IsRegistered now reach k j (some v) c address (some a) w plain h = ground (
    arith,
    set_keeps now k j v c address w plain h,
    laws.redis.smembers-sadd_more (collection_keys address) (collection_keys a) k j
        (stored now j v c w),
    laws.redis.smembers-sadd_more (collection_keys address) (collection_keys a) j k
        (stored now j v c w),
  )

  pub write_all-IsRegistered :
      (xs : List (Write V)) (k address : Text) (w : Caches L R)
      → ArePlain m address xs
      → IsRegistered m address k w
      → IsRegistered m address k (write_all m xs w)
  unfolding write_all
  write_all-IsRegistered [] k address w plain h = h
  write_all-IsRegistered (x ∷ xs) k address w plain h =
      write_all-IsRegistered xs k address _ plain.1 (
        set_other-IsRegistered x.now x.reach k x.key x.value x.cache_type address x.address w
          plain.0 h)

  pub set-IsRegistered :
      (now : ℕ) (reach : Reach) (k : Text) (v : V) (c : CacheType) (address : Text) (w : Caches L R)
      → m.settings.has_redis ≡ true
      → (set m now reach k (some v) c (some address) w).0 ≡ true
      → IsRegistered m address k (set m now reach k (some v) c (some address) w).1
  unfolding set
  set-IsRegistered now reach k v c address w has done =
      ground (arith, laws.redis.smembers-sadd (collection_keys address) k (stored now k v c w))

  deleted_first :
      (t : ℕ) (reach : Reach) (k : Text) (ks : List Text) (l : L)
      → ((n : ℕ) → reach n ≡ true)
      → m.local.get t k l ≡ none
      → m.local.get t k (delete_all m reach ks l).1 ≡ none
  unfolding delete_all
  deleted_first t reach k [] l up h = h
  deleted_first t reach k (j ∷ ks) l up h = ground (
    arith,
    up 0,
    deleted_first t (λ n. reach (n + 1)) k ks (m.local.delete j l) (λ n. up (n + 1))
        (laws.local.get-delete_none t k j l h),
  )

  pub get-delete_all :
      (t : ℕ) (reach : Reach) (k : Text) (ks : List Text) (l : L)
      → ((n : ℕ) → reach n ≡ true)
      → has_text k ks ≡ true
      → m.local.get t k (delete_all m reach ks l).1 ≡ none
  unfolding delete_all has_text
  get-delete_all t reach k [] l up h = ground arith
  get-delete_all t reach k (j ∷ ks) l up h = elim (Bool-cases (same_text j k)) [
    | inl same ↦ ground (
      arith,
      up 0,
      deleted_first t (λ n. reach (n + 1)) k ks (m.local.delete j l) (λ n. up (n + 1))
          (ap (λ x. m.local.get t k (m.local.delete x l)) ((same_text_iff j k).0 same)
            ∙ laws.local.get-delete t k l),
    )
    | inr other ↦ ground (
      arith,
      up 0,
      get-delete_all t (λ n. reach (n + 1)) k ks (m.local.delete j l) (λ n. up (n + 1))
          (ground arith),
    )
  ]

  get_nowhere :
      (t : ℕ) (reach : Reach) (k : Text) (w : Caches L R)
      → m.local.get t k w.local ≡ none
      → m.redis.get t k w.remote ≡ none
      → (get m t reach k w).0 ≡ none
  unfolding get
  get_nowhere t reach k w hl hr = ground (arith, hl, hr)

  forgotten :
      (now t : ℕ) (reach later : Reach) (k set_key : Text) (ks : List Text) (w : Caches L R)
      → has_text k ks ≡ true
      → ((n : ℕ) → reach n ≡ true)
      → (get m t later k (forget m now reach set_key ks w).1).0 ≡ none
  unfolding has_text
  forgotten now t reach later k set_key [] w h up = ground arith
  forgotten now t reach later k set_key (j ∷ ks) w h up = rw (up 1) (
      get_nowhere t later k _
        (get-delete_all t (λ n. reach (n + 2)) k (set_key ∷ j ∷ ks) w.local (λ n. up (n + 2))
          listed)
        (laws.redis.get-delete now t k (set_key ∷ j ∷ ks) w.remote listed))
    where
      listed : has_text k (set_key ∷ j ∷ ks) ≡ true
      listed = ground (arith, h)

  pub invalidated :
      (now t : ℕ) (reach later : Reach) (k address : Text) (w : Caches L R)
      → IsRegistered m address k w
      → m.settings.has_redis ≡ true
      → ((n : ℕ) → reach n ≡ true)
      → (get m t later k (invalidate_collection_caches m now reach address w).1).0 ≡ none
  unfolding invalidate_collection_caches
  invalidated now t reach later k address w h has up =
      ap (λ x. (get m t later k x.1).0) reached
      ∙ forgotten now t reach later k (collection_keys address) _ w h up
    where
      keys : List Text
      keys = m.redis.smembers (collection_keys address) w.remote

      reached :
          invalidate_collection_caches m now reach address w
          ≡ forget m now reach (collection_keys address) keys w
      reached = ground (arith, has, up 0)

  -- A deletion that Django's cache answers and Redis does not says so, and does not last: a read
  -- that is answered finds the value again and puts it back in Django's cache for a minute.
  pub deletion_in_outage_is_undone :
      (now t u : ℕ) (reach later again : Reach) (k : Text) (v : V) (w : Caches L R)
      → m.settings.has_redis ≡ true
      → reach 0 ≡ true
      → reach 1 ≡ false
      → ((n : ℕ) → later n ≡ true)
      → again 0 ≡ true
      → m.redis.get t k w.remote ≡ some (m.json.dumps v)
      → u < t + 60
      → ((delete m now reach k w).0 ≡ false)
        × (m.local.get t k (delete m now reach k w).1.local ≡ none)
        × ((get m t later k (delete m now reach k w).1).0 ≡ some v)
        × ((get m u again k (get m t later k (delete m now reach k w).1).1).0 ≡ some v)
  unfolding delete get
  deletion_in_outage_is_undone now t u reach later again k v w has up down on next held soon =
      ground (
        arith,
        up,
        down,
        on 0,
        on 1,
        on 2,
        next,
        laws.local.get-delete t k w.local,
        laws.json.loads-dumps v,
        laws.local.get-set t u k v 60 (m.local.delete k w.local),
      )
