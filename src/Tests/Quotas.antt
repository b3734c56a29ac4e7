-- ===== src/Tests/Quotas.antt =====
-- A provider with a quota of three requests a day.
use traitkeeper_eco.Base.{ℕ, ◌+◌, ◌≡◌, refl, false, some, List, [], ◌∷◌, Text, codes, arith}
use traitkeeper_eco.Core.Cache.{PriorityTier, Reach, get_ttl}
use traitkeeper_eco.Indexer.Quota.{
  ProviderConfig, QuotaSettings, get_provider_config, check_quota_available,
}
use traitkeeper_eco.Indexer.Quota.Days.{Request, track_all, used_up_quota_is_refused}
use traitkeeper_eco.Tests.Stores.{list_manager_lem}
use traitkeeper_eco.Tests.Caches.{settings, manager, up, empty}

abbrev pub helius : Text
helius = codes "helius"

abbrev pub config : ProviderConfig
config = record { daily_credits = 3; requests_per_second = 10 }

abbrev pub quotas : QuotaSettings
quotas = record {
  provider_configs = λ name. some (λ tier. some config);
  priority_allocations = λ tier. some 60;
}

abbrev today : Text
today = codes "2025-01-02"

abbrev pub always_up : ℕ → Reach
always_up n = up

abbrev request : ℕ → PriorityTier → Request
request now tier = record { now = now; tier = tier; reach = always_up }

abbrev requests : List Request
requests = request 1000 PriorityTier.vip ∷ request 2500 PriorityTier.active ∷ []

used_up_quota_is_refused_example :
    (check_quota_available manager quotas [] 4000 today always_up helius PriorityTier.inactive (
      track_all manager
        (list_manager_lem settings)
        helius
        today
        (request 100 PriorityTier.active ∷ requests)
        empty)).0
    ≡ false
unfolding get_ttl get_provider_config
used_up_quota_is_refused_example =
    used_up_quota_is_refused manager (list_manager_lem settings) helius today quotas [] config 4000
      always_up PriorityTier.inactive (request 100 PriorityTier.active) requests empty refl
      (omega arith) refl (refl, refl, (refl, refl, (refl, refl, tt)))
      (omega arith, (omega arith, omega arith))

-- A sleep of a fraction of microseconds, up to the next whole one.
abbrev sleep : ℕ → ℕ → ℕ → ℕ
sleep t num den = t + num
