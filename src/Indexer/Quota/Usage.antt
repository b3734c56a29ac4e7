-- ===== src/Indexer/Quota/Usage.antt =====
-- The counters of ProviderQuotaManager over a day of requests.
use traitkeeper_eco.Base.{
  ℕ, ◌+◌, ◌<◌, ◌≡◌, ◌≢◌, ap, ◌∙◌, none, some, true, ◌++◌, Text, codes, append_cancel_left, arith,
}
use traitkeeper_eco.Core.Cache.{CacheManager, CacheType, PriorityTier, Caches, Reach, set, get_ttl}
use traitkeeper_eco.Core.Cache.Laws.{IsCacheManager}
use traitkeeper_eco.Core.Cache.Found.{get_local, local-set}
use traitkeeper_eco.Indexer.Quota.{
  daily_usage_key, tier_name, tier_usage_key, usage, track_request, or_zero,
}

-- The keys part after the provider's name.
pub daily-ne-tier :
    (name today : Text) (tier : PriorityTier)
    → daily_usage_key name today ≢ tier_usage_key name tier today
daily-ne-tier name today tier e =
    let parted : codes ":daily:" ++ today
        ≡ codes ":tier:" ++ (tier_name tier ++ (codes ":" ++ today)) =
      append_cancel_left name (codes ":daily:" ++ today)
        (codes ":tier:" ++ (tier_name tier ++ (codes ":" ++ today)))
        (append_cancel_left (codes "quota:") (name ++ (codes ":daily:" ++ today))
          (name ++ (codes ":tier:" ++ (tier_name tier ++ (codes ":" ++ today)))) e) in
    ground (arith, parted)

module _ {L R J : Type 0} (m : CacheManager L R ℕ J) (laws : IsCacheManager m) where
  -- How long a counter is remembered.
  abbrev pub lifetime : ℕ
  lifetime = get_ttl m.settings CacheType.stats PriorityTier.active

  -- Another key's write leaves what Django's cache has.
  pub local-set_other :
      (now t : ℕ) (reach : Reach) (j k : Text) (v : ℕ) (c : CacheType) (w : Caches L R)
      → j ≢ k
      → m.local.get t j (set m now reach k (some v) c none w).1.local ≡ m.local.get t j w.local
  unfolding set
  local-set_other now t reach j k v c w other = ground (
    arith,
    laws.local.get-set_other now t j k v (get_ttl m.settings c PriorityTier.active) w.local other,
  )

  -- Two writes at one time, to different keys: the first is still read.
  first_of_two :
      (now t : ℕ) (r₁ r₂ later : Reach) (j k : Text) (u v : ℕ) (w : Caches L R)
      → j ≢ k
      → r₁ 0 ≡ true
      → later 0 ≡ true
      → t < now + lifetime
      → (usage m t later j
          (set m now r₂ k
            (some v)
            CacheType.stats
            none
            (set m now r₁ j (some u) CacheType.stats none w).1).1).0
        ≡ u
  unfolding usage
  first_of_two now t r₁ r₂ later j k u v w other written asked h =
      ap (λ x. or_zero x.0)
        (get_local m laws t later j _ u asked (
          local-set_other now t r₂ j k v CacheType.stats _ other
          ∙ local-set m laws now t r₁ j u CacheType.stats none w written h))

  -- A request adds one to what its day's counter reads, while the counter lives, when the write of
  -- the counter and the later read of it are answered.
  pub usage-track_request :
      (now t : ℕ) (today : Text) (reach : ℕ → Reach) (later : Reach) (name : Text)
      (tier : PriorityTier) (w : Caches L R)
      → reach 2 0 ≡ true
      → later 0 ≡ true
      → t < now + lifetime
      → (usage m t later
          (daily_usage_key name today)
          (track_request m now today reach name tier w)).0
        ≡ (usage m now (reach 0) (daily_usage_key name today) w).0 + 1
  unfolding track_request
  usage-track_request now t today reach later name tier w written asked h =
      first_of_two now t (reach 2) (reach 3) later (daily_usage_key name today)
        (tier_usage_key name tier today) _ _ _ (daily-ne-tier name today tier) written asked h

  -- So does it to the counter of its tier.
  pub tier_usage-track_request :
      (now t : ℕ) (today : Text) (reach : ℕ → Reach) (later : Reach) (name : Text)
      (tier : PriorityTier) (w : Caches L R)
      → reach 3 0 ≡ true
      → later 0 ≡ true
      → t < now + lifetime
      → (usage m t later
          (tier_usage_key name tier today)
          (track_request m now today reach name tier w)).0
        ≡ (usage m now
            (reach 1)
            (tier_usage_key name tier today)
            (usage m now (reach 0) (daily_usage_key name today) w).1).0
          + 1
  unfolding track_request usage
  tier_usage-track_request now t today reach later name tier w written asked h =
      ap (λ x. or_zero x.0)
        (get_local m laws t later _ _ _ asked
          (local-set m laws now t (reach 3) _ _ _ none _ written h))
