-- ===== src/Core/Providers/Choice.antt =====
-- The loop of `get_rpc_provider` in APIProviderManager, against the providers that it passes over.
use traitkeeper_eco.Base.{
  ℕ, ◌+◌, ◌≡◌, refl, ap, Bool, true, false, Option, none, some, List, [], ◌∷◌, ◌++◌, Text, arith,
  Bool-cases, Option-cases, inl, inr,
}
use mathlib.Core.Path.{subst⁻¹}
use traitkeeper_eco.Core.Cache.{CacheManager, PriorityTier, Caches, Reach}
use traitkeeper_eco.Indexer.Quota.{
  ProviderSetting, QuotaSettings, get_wrapped_provider_if_quota_available,
}
use traitkeeper_eco.Core.Providers.{Provider, choose}

abbrev pub Reach₂ : Type 0
Reach₂ = ℕ → ℕ → Reach

module _ {L R J : Type 0} (m : CacheManager L R ℕ J) (s : QuotaSettings)
    (rows : List ProviderSetting) (now : ℕ) (today : Text) (available : Provider → Bool)
    (tier : PriorityTier) where
  -- What the manager of quotas answers for a provider.
  abbrev pub asked : Reach₂ → Provider → Caches L R → Option (Text × PriorityTier) × Caches L R
  asked reach p w =
      get_wrapped_provider_if_quota_available m s rows now today (reach 0) p.name tier w

  -- The providers that are passed over, with the caches before and after, and the answers of Redis
  -- that are left.
  pub data Passes : Reach₂ → Caches L R → List Provider → Reach₂ → Caches L R → Type 0 where
    nobody : {reach : Reach₂} {w : Caches L R} → Passes reach w [] reach w
    unavailable :
        {reach after : Reach₂} {w v : Caches L R} (p : Provider) (ps : List Provider)
        → available p ≡ false
        → Passes reach w ps after v
        → Passes reach w (p ∷ ps) after v
    refused :
        {reach after : Reach₂} {w v : Caches L R} (p : Provider) (ps : List Provider)
        → available p ≡ true
        → (asked reach p w).0 ≡ none
        → Passes (λ n. reach (n + 1)) (asked reach p w).1 ps after v
        → Passes reach w (p ∷ ps) after v

  -- The first provider that is available and has quota, after those that are passed over.
  abbrev pub Chosen : Reach₂ → List Provider → Caches L R → Option (Text × PriorityTier) → Type 0
  Chosen reach ps w chosen =
      (before : List Provider) × (p : Provider) × (rest : List Provider) × (after : Reach₂)
      × (v : Caches L R) × (ps ≡ before ++ p ∷ rest)
      × Passes reach w before after v
      × (available p ≡ true)
      × ((asked after p v).0 ≡ chosen)

  -- Nobody, when all are passed over.
  abbrev pub Nobody : Reach₂ → List Provider → Caches L R → Type 0
  Nobody reach ps w = (after : Reach₂) × (v : Caches L R) × Passes reach w ps after v

  abbrev pub Outcome : Reach₂ → List Provider → Caches L R → Option (Text × PriorityTier) → Type 0
  Outcome reach ps w none = Nobody reach ps w
  Outcome reach ps w (some x) = Chosen reach ps w (some x)

  past :
      (reach : Reach₂) (p : Provider) (ps : List Provider) (w : Caches L R)
      (o : Option (Text × PriorityTier))
      → available p ≡ false
      → Outcome reach ps w o
      → Outcome reach (p ∷ ps) w o
  past reach p ps w none h (after, v, passed) = (after, v, unavailable p ps h passed)
  past reach p ps w (some x) h (before, q, rest, after, v, e, passed, up, got) =
      (p ∷ before, q, rest, after, v, ap (λ qs. p ∷ qs) e, unavailable p before h passed, up, got)

  beyond :
      (reach : Reach₂) (p : Provider) (ps : List Provider) (w : Caches L R)
      (o : Option (Text × PriorityTier))
      → available p ≡ true
      → (asked reach p w).0 ≡ none
      → Outcome (λ n. reach (n + 1)) ps (asked reach p w).1 o
      → Outcome reach (p ∷ ps) w o
  beyond reach p ps w none h denied (after, v, passed) = (after, v, refused p ps h denied passed)
  beyond reach p ps w (some x) h denied (before, q, rest, after, v, e, passed, up, got) = (
    p ∷ before,
    q,
    rest,
    after,
    v,
    ap (λ qs. p ∷ qs) e,
    refused p before h denied passed,
    up,
    got,
  )

  -- The provider that is chosen is the first in the order of the list that is available and that
  -- the manager of quotas grants in the caches as the providers before it left them; each of those
  -- is unavailable or refused. None is chosen only when every provider is passed over so.
  pub first_usable_provider_is_chosen :
      (reach : ℕ → ℕ → Reach) (ps : List Provider) (w : Caches L R)
      → Outcome reach ps w (choose m s rows now today reach available tier ps w).0
  unfolding choose
  first_usable_provider_is_chosen reach [] w = (reach, w, nobody)
  first_usable_provider_is_chosen reach (p ∷ ps) w = elim (Bool-cases (available p)) [
    | inr down ↦
        subst⁻¹ (Outcome reach (p ∷ ps) w) (ground (arith, down))
          (past reach p ps w _ down (first_usable_provider_is_chosen reach ps w))
    | inl up ↦ elim (Option-cases (asked reach p w).0) [
      | inl denied ↦ subst⁻¹ (Outcome reach (p ∷ ps) w) (ground (arith, up, denied)) (
          beyond reach p ps w _ up denied
            (first_usable_provider_is_chosen (λ n. reach (n + 1)) ps (asked reach p w).1))
      | inr (x, got) ↦
          subst⁻¹ (Outcome reach (p ∷ ps) w) {y = some x} (ground (arith, up, got))
            ([], p, ps, reach, w, refl, nobody, up, got)
    ]
  ]
