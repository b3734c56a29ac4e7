-- ===== src/Indexer/Quota/Pace.antt =====
-- The delay that ProviderQuotaManager keeps between requests to a provider.
use traitkeeper_eco.Base.{ℕ, ◌+◌, ◌*◌, ◌≤◌, ◌<◌, List, Text}
use traitkeeper_eco.Core.Cache.{CacheManager, Caches, Reach}
use traitkeeper_eco.Core.Cache.Laws.{IsCacheManager}
use traitkeeper_eco.Indexer.Quota.{apply_rate_limiting, ProviderSetting, QuotaSettings}

module _ {L R J : Type 0} (m : CacheManager L R ℕ J) (laws : IsCacheManager m)
    (sleep : ℕ → ℕ → ℕ → ℕ)
    (asleep : (t num den : ℕ) → 0 < den → t * den + num ≤ sleep t num den * den) (s : QuotaSettings)
    (rows : List ProviderSetting) (name : Text) where
  abbrev limited : ℕ → (ℕ → Reach) → Caches L R → ℕ × Caches L R
  limited t reach w = apply_rate_limiting m sleep s rows t reach name w
