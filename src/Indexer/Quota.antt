-- ===== src/Indexer/Quota.antt =====
-- ProviderQuotaManager (indexer/quota_manager.py): counters in the cache, per provider and day.
pub mod Usage
pub mod Days
pub mod Idle
pub mod Pace
use traitkeeper_eco.Base.{
  ℕ, ◌+◌, ◌-◌, ◌*◌, ◌/◌, Bool, true, false, ◌&&◌, not, Option, none, some, List, [], ◌∷◌, ◌++◌,
  Text, codes, same_text, lower, ltb, first_if, if◌then◌else◌,
}
use traitkeeper_eco.Core.Cache.{CacheManager, CacheType, PriorityTier, Caches, Reach, get, set}

-- A row of PrimaryProviderSetting (admin_panel/models.py).
pub record ProviderSetting : Type 0 where
  pub id : ℕ
  pub name : Text
  pub tier : Text
  pub is_active : Bool
  pub is_primary : Bool

pub record ProviderConfig : Type 0 where
  pub daily_credits : ℕ
  pub requests_per_second : ℕ

-- PROVIDER_QUOTA_CONFIGS by provider and tier, PROVIDER_PRIORITY_ALLOCATIONS in hundredths.
pub record QuotaSettings : Type 0 where
  pub provider_configs : Text → Option (Text → Option ProviderConfig)
  pub priority_allocations : PriorityTier → Option ℕ

-- `objects.get(name=…, is_active=True)`; the column is unique.
unfoldable pub get_provider_tier_from_db : List ProviderSetting → Text → Text
get_provider_tier_from_db rows name =
    elim (first_if (λ r. same_text r.name name && r.is_active) rows) [
      | some r ↦ r.tier
      | none ↦ codes "free"
    ]

abbrev config_of : Option (Text → Option ProviderConfig) → Text → Option ProviderConfig
config_of none tier = none
config_of (some f) tier = f tier

unfoldable pub get_provider_config :
    QuotaSettings → List ProviderSetting → Text → Option ProviderConfig
unfolding get_provider_tier_from_db
get_provider_config s rows name =
    elim (config_of (s.provider_configs name) (get_provider_tier_from_db rows name)) [
      | some c ↦ some c
      | none ↦
          if not (same_text name (codes "generic"))
          then config_of (s.provider_configs (codes "generic")) (codes "default")
          else none
    ]

abbrev pub tier_name : PriorityTier → Text
tier_name PriorityTier.vip = codes "VIP"
tier_name PriorityTier.active = codes "ACTIVE"
tier_name PriorityTier.inactive = codes "INACTIVE"

abbrev pub daily_usage_key : Text → Text → Text
daily_usage_key name today = codes "quota:" ++ (name ++ (codes ":daily:" ++ today))

abbrev pub tier_usage_key : Text → PriorityTier → Text → Text
tier_usage_key name tier today =
    codes "quota:" ++ (name ++ (codes ":tier:" ++ (tier_name tier ++ (codes ":" ++ today))))

abbrev pub rate_limit_key : Text → Text
rate_limit_key name = codes "rate_limit:" ++ (name ++ codes ":last_request_time")

abbrev pub or_zero : Option ℕ → ℕ
or_zero none = 0
or_zero (some n) = n

abbrev share : Option ℕ → ℕ
share none = 10
share (some a) = a

unfoldable pub tier_limit : QuotaSettings → PriorityTier → ProviderConfig → ℕ
tier_limit s tier c = c.daily_credits * share (s.priority_allocations tier) / 100

-- Times are microseconds, the caches' times seconds.
abbrev pub second : ℕ
second = 1_000_000

-- 1 / requests_per_second as a fraction of microseconds, and 0.2 seconds without a configuration.
unfoldable pub min_delay : Option ProviderConfig → ℕ × ℕ
min_delay none = (200_000, 1)
min_delay (some c) = (second, c.requests_per_second)

-- The clock when a request that is due at `due / rate` goes out, from `t` on. `sleep t num den` is
-- the clock after `asyncio.sleep(num / den)` at `t`.
unfoldable pub departure : (ℕ → ℕ → ℕ → ℕ) → ℕ → ℕ → ℕ → ℕ
departure sleep t due rate = if ltb (t * rate) due then sleep t (due - t * rate) rate else t

module _ {L R J : Type 0} (m : CacheManager L R ℕ J) where
  unfoldable pub usage : ℕ → Reach → Text → Caches L R → ℕ × Caches L R
  usage now reach key w = let (found, after) = get m now reach key w in (or_zero found, after)

  -- The n-th call of the cache in a method has the n-th of the reaches.
  unfoldable pub check_quota_available :
      QuotaSettings
      → List ProviderSetting
      → ℕ
      → Text
      → (ℕ → Reach)
      → Text
      → PriorityTier
      → Caches L R
      → Bool × Caches L R
  unfolding usage tier_limit
  check_quota_available s rows now today reach name tier w =
      elim (get_provider_config s rows name) [
        | none ↦ (false, w)
        | some c ↦
            let (daily_usage, w₁) = usage now (reach 0) (daily_usage_key name today) w in
            let (tier_usage, w₂) = usage now (reach 1) (tier_usage_key name tier today) w₁ in
            (ltb daily_usage c.daily_credits && ltb tier_usage (tier_limit s tier c), w₂)
      ]

  unfoldable pub track_request :
      ℕ → Text → (ℕ → Reach) → Text → PriorityTier → Caches L R → Caches L R
  unfolding usage
  track_request now today reach name tier w =
      let (daily_usage, w₁) = usage now (reach 0) (daily_usage_key name today) w in
      let (tier_usage, w₂) = usage now (reach 1) (tier_usage_key name tier today) w₁ in
      let (_, w₃) =
        set m now (reach 2) (daily_usage_key name today) (some (daily_usage + 1)) CacheType.stats
          none w₂ in
      (set m now (reach 3) (tier_usage_key name tier today) (some (tier_usage + 1)) CacheType.stats
        none w₃).1

  -- The result has the clock at which the request goes out.
  unfoldable pub apply_rate_limiting :
      (ℕ → ℕ → ℕ → ℕ)
      → QuotaSettings
      → List ProviderSetting
      → ℕ
      → (ℕ → Reach)
      → Text
      → Caches L R
      → ℕ × Caches L R
  unfolding usage departure
  apply_rate_limiting sleep s rows t reach name w =
      let (delay, rate) = min_delay (get_provider_config s rows name) in
      let (last, w₁) = usage (t / second) (reach 0) (rate_limit_key name) w in
      let t₁ = departure sleep t (last * rate + delay) rate in
      (
        t₁,
        (set m (t₁ / second) (reach 1) (rate_limit_key name) (some t₁) CacheType.rate_limit none
            w₁).1,
      )

  -- The provider is wrapped when there is quota left; its name is all that the quotas see of it.
  unfoldable pub get_wrapped_provider_if_quota_available :
      QuotaSettings
      → List ProviderSetting
      → ℕ
      → Text
      → (ℕ → Reach)
      → Text
      → PriorityTier
      → Caches L R
      → Option (Text × PriorityTier) × Caches L R
  unfolding check_quota_available
  get_wrapped_provider_if_quota_available s rows now today reach name tier w =
      let (has_quota, w₁) = check_quota_available s rows now today reach (lower name) tier w in
      (if has_quota then some (name, tier) else none, w₁)

  -- A method of QuotaAwareProviderWrapper: `method` is the provider's own, at the clock given.
  unfoldable pub wrapper :
      {A : Type 0}
      → (ℕ → ℕ → ℕ → ℕ)
      → QuotaSettings
      → List ProviderSetting
      → ℕ
      → (ℕ → Text)
      → (ℕ → Reach)
      → Text × PriorityTier
      → (ℕ → A)
      → Caches L R
      → A × ℕ × Caches L R
  unfolding apply_rate_limiting track_request
  wrapper sleep s rows t today reach (name, tier) method w =
      let (t₁, w₁) = apply_rate_limiting sleep s rows t reach (lower name) w in
      (
        method t₁,
        t₁,
        track_request (t₁ / second) (today t₁) (λ n. reach (n + 2)) (lower name) tier w₁,
      )
