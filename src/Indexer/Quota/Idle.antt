-- ===== src/Indexer/Quota/Idle.antt =====
-- What is left of the counters of ProviderQuotaManager when no request comes for their lifetime.
use traitkeeper_eco.Base.{ℕ, ◌+◌, ◌≤◌, ◌<◌, ◌≡◌, ◌≢◌, true, none, some, List, Text, arith}
use traitkeeper_eco.Core.Cache.{CacheManager, CacheType, PriorityTier, Caches, Reach, get, set}
use traitkeeper_eco.Core.Cache.Laws.{IsCacheManager}
use traitkeeper_eco.Indexer.Quota.{
  daily_usage_key, tier_usage_key, usage, track_request, check_quota_available, ProviderConfig,
  ProviderSetting, QuotaSettings, get_provider_config, tier_limit,
}
use traitkeeper_eco.Indexer.Quota.Usage.{lifetime, daily-ne-tier}

module _ {L R J : Type 0} (m : CacheManager L R ℕ J) (laws : IsCacheManager m) where
  -- Neither cache has the key at `t`.
  abbrev IsGone : ℕ → Text → Caches L R → Type 0
  IsGone t k w = (m.local.get t k w.local ≡ none) × (m.redis.get t k w.remote ≡ none)

  missing :
      (t : ℕ) (later : Reach) (k : Text) (w : Caches L R)
      → IsGone t k w
      → usage m t later k w ≡ (0, w)
  unfolding usage get
  missing t later k w h = ground (arith, h.0, h.1)

  set-IsGone :
      (now t : ℕ) (reach : Reach) (k : Text) (v : ℕ) (w : Caches L R)
      → m.settings.has_redis ≡ true
      → reach 0 ≡ true
      → reach 1 ≡ true
      → now + lifetime m laws ≤ t
      → IsGone t k (set m now reach k (some v) CacheType.stats none w).1
  unfolding set
  set-IsGone now t reach k v w has up₀ up₁ late = ground (
    arith,
    up₀,
    up₁,
    laws.local.get-set_late now t k v (lifetime m laws) w.local,
    laws.redis.get-setex_late now t k (m.json.dumps v) (lifetime m laws) w.remote,
  )

  set_other-IsGone :
      (now t : ℕ) (reach : Reach) (j k : Text) (v : ℕ) (w : Caches L R)
      → j ≢ k
      → IsGone t j w
      → IsGone t j (set m now reach k (some v) CacheType.stats none w).1
  unfolding set
  set_other-IsGone now t reach j k v w other h = ground (
    arith,
    laws.local.get-set_other now t j k v (lifetime m laws) w.local other,
    laws.redis.get-setex_other now t j k (m.json.dumps v) (lifetime m laws) w.remote other,
    h.0,
    h.1,
  )

  track_request-IsGone :
      (now t : ℕ) (today : Text) (reach : ℕ → Reach) (name : Text) (tier : PriorityTier)
      (w : Caches L R)
      → m.settings.has_redis ≡ true
      → ((i n : ℕ) → reach i n ≡ true)
      → now + lifetime m laws ≤ t
      → IsGone t (daily_usage_key name today) (track_request m now today reach name tier w)
        × IsGone t (tier_usage_key name tier today) (track_request m now today reach name tier w)
  unfolding track_request
  track_request-IsGone now t today reach name tier w has up late = (
    set_other-IsGone now t (reach 3) _ _ _ _ (daily-ne-tier name today tier)
        (set-IsGone now t (reach 2) _ _ _ has (up 2 0) (up 2 1) late),
    set-IsGone now t (reach 3) _ _ _ has (up 3 0) (up 3 1) late,
  )

  -- Once the lifetime of a counter has passed since the last request to a provider, the provider
  -- has quota again on the same day, however many requests there were, when its daily credits and
  -- the tier's part of them are not zero and every command was answered when that request was
  -- counted.
  pub idle_quota_restarts :
      (s : QuotaSettings) (rows : List ProviderSetting) (c : ProviderConfig) (now t : ℕ)
      (today : Text) (reach again : ℕ → Reach) (name : Text) (tier : PriorityTier) (w : Caches L R)
      → get_provider_config s rows name ≡ some c
      → 0 < c.daily_credits
      → 0 < tier_limit s tier c
      → m.settings.has_redis ≡ true
      → ((i n : ℕ) → reach i n ≡ true)
      → now + lifetime m laws ≤ t
      → (check_quota_available m s rows t today again name tier
          (track_request m now today reach name tier w)).0
        ≡ true
  unfolding check_quota_available
  idle_quota_restarts s rows c now t today reach again name tier w config credits part has up late =
      ground (
        arith,
        config,
        missing t (again 0) (daily_usage_key name today) _ gone.0,
        missing t (again 1) (tier_usage_key name tier today) _ gone.1,
      )
    where
      gone :
          IsGone t (daily_usage_key name today) (track_request m now today reach name tier w)
          × IsGone t (tier_usage_key name tier today) (track_request m now today reach name tier w)
      gone = track_request-IsGone now t today reach name tier w has up late
