-- ===== src/Indexer/Quota/Days.antt =====
-- A day of requests to one provider, each less than the lifetime of a counter after the last.
use traitkeeper_eco.Base.{
  ℕ, ◌+◌, ◌≤◌, ◌<◌, ◌≡◌, ap, ◌∙◌, true, false, some, List, [], ◌∷◌, Text, length, arith,
}
use traitkeeper_eco.Core.Cache.{CacheManager, PriorityTier, Caches, Reach}
use traitkeeper_eco.Core.Cache.Laws.{IsCacheManager}
use traitkeeper_eco.Indexer.Quota.{
  daily_usage_key, usage, track_request, check_quota_available, ProviderConfig, ProviderSetting,
  QuotaSettings, get_provider_config,
}
use traitkeeper_eco.Indexer.Quota.Usage.{lifetime, usage-track_request}

pub record Request : Type 0 where
  pub now : ℕ
  pub tier : PriorityTier
  pub reach : ℕ → Reach

module _ {L R J : Type 0} (m : CacheManager L R ℕ J) (laws : IsCacheManager m)
    (name today : Text) where
  unfoldable pub track_all : List Request → Caches L R → Caches L R
  track_all [] w = w
  track_all (q ∷ qs) w = track_all qs (track_request m q.now today q.reach name q.tier w)

  -- From `t` on, no two of the requests and the end are a lifetime apart.
  abbrev pub AreClose : ℕ → List Request → ℕ → Type 0
  AreClose t [] end = end < t + lifetime m laws
  AreClose t (q ∷ qs) end = (q.now < t + lifetime m laws) × AreClose q.now qs end

  -- A read that is answered finds `u` in the day's counter until its lifetime after `t` is over.
  -- Every write of the day's counter is answered, and every read of it.
  abbrev pub AreAnswered : List Request → Type 0
  AreAnswered [] = Unit
  AreAnswered (q ∷ qs) = (q.reach 0 0 ≡ true) × (q.reach 2 0 ≡ true) × AreAnswered qs

  abbrev Reads : ℕ → ℕ → Caches L R → Type 0
  Reads t u w =
      (now : ℕ) (reach : Reach)
      → reach 0 ≡ true
      → now < t + lifetime m laws
      → (usage m now reach (daily_usage_key name today) w).0 ≡ u

  pub counted :
      (t end u : ℕ) (later : Reach) (qs : List Request) (w : Caches L R)
      → later 0 ≡ true
      → AreAnswered qs
      → AreClose t qs end
      → Reads t u w
      → (usage m end later (daily_usage_key name today) (track_all qs w)).0 ≡ u + length qs
  unfolding track_all
  counted t end u later [] w asked answered close reads = omega (arith, reads end later asked close)
  counted t end u later (q ∷ qs) w asked answered close reads =
      omega (arith, counted q.now end (u + 1) later qs _ asked answered.2 close.1 next)
    where
      next : Reads q.now (u + 1) (track_request m q.now today q.reach name q.tier w)
      next now reach up h =
          usage-track_request m laws q.now now today q.reach reach name q.tier w answered.1 up h
          ∙ ap (λ x. x + 1) (reads q.now (q.reach 0) answered.0 close.0)

  -- Once as many requests of any tiers were counted for a provider on a day as its daily credits,
  -- one after the other and each less than a counter's lifetime after the one before, the provider
  -- is refused to every tier, until that lifetime after the last of them. Django's cache answers
  -- the reads and the writes of the day's counter.
  pub used_up_quota_is_refused :
      (s : QuotaSettings) (rows : List ProviderSetting) (c : ProviderConfig) (end : ℕ)
      (reach : ℕ → Reach) (tier : PriorityTier) (q : Request) (qs : List Request) (w : Caches L R)
      → get_provider_config s rows name ≡ some c
      → c.daily_credits ≤ length (q ∷ qs)
      → reach 0 0 ≡ true
      → AreAnswered (q ∷ qs)
      → AreClose q.now qs end
      → (check_quota_available m s rows end today reach name tier (track_all (q ∷ qs) w)).0 ≡ false
  unfolding check_quota_available track_all
  used_up_quota_is_refused s rows c end reach tier q qs w config used asked answered close =
      ground (arith, config, total)
    where
      start : ℕ
      start = (usage m q.now (q.reach 0) (daily_usage_key name today) w).0

      total :
          (usage m end (reach 0) (daily_usage_key name today) (track_all (q ∷ qs) w)).0
          ≡ start + 1 + length qs
      total = counted q.now end (start + 1) (reach 0) qs _ asked answered.2 close λ now r up h.
          usage-track_request m laws q.now now today q.reach r name q.tier w answered.1 up h
