-- ===== src/Tests/Providers.antt =====
-- Two providers, of which the second is primary.
use traitkeeper_eco.Base.{
  ℕ, ◌≡◌, refl, Bool, true, false, not, Option, none, some, List, [], ◌∷◌, ok, Text, codes,
  same_text, lower, arith, count_if,
}
use traitkeeper_eco.Core.Cache.{PriorityTier}
use traitkeeper_eco.Indexer.Quota.{ProviderSetting}
use traitkeeper_eco.Core.Providers.{
  Provider, Database, Manager, get_item, get_providers_from_db, get_primary_name_from_db,
  get_all_providers, force_reload, choose,
}
use traitkeeper_eco.Core.Providers.Primary.{HasOnePrimary}
use traitkeeper_eco.Core.Providers.Order.{values, primary_is_tried_first, settings_wait_for_reload}
use traitkeeper_eco.Core.Providers.Choice.{Outcome, first_usable_provider_is_chosen}
use traitkeeper_eco.Tests.Caches.{manager, empty}
use traitkeeper_eco.Tests.Quotas.{quotas, always_up}

abbrev setting : ℕ → Text → Bool → ProviderSetting
setting id name is_primary = record {
  id = id;
  name = name;
  tier = codes "free";
  is_active = true;
  is_primary = is_primary;
}

abbrev instance_of : ProviderSetting → Option Provider
instance_of r = some (record { name = r.name; index = r.id })

abbrev quicknode : Provider
quicknode = record { name = codes "quicknode"; index = 2 }

abbrev database : Database
database = record {
  rpc = setting 1 (codes "helius") false ∷ setting 2 (codes "quicknode") true ∷ [];
  marketplace = [];
  build = instance_of;
  build_marketplace = λ r. none;
}

abbrev idle : Manager
idle = record {
  current_provider = none;
  rpc_providers_cache = none;
  primary_provider_name_cache = none;
}

database-HasOnePrimary : HasOnePrimary database.rpc
database-HasOnePrimary = record { keys = λ k. ground arith; one = ground arith }

-- The first provider becomes primary, and a third one comes without.
abbrev changes : List ProviderSetting
changes = setting 1 (codes "helius") true ∷ setting 3 (codes "generic") false ∷ []

primary_is_tried_first_example :
    (others : List Provider) × ((get_all_providers database (force_reload idle)).0
      ≡ ok (quicknode ∷ others))
    × ((f : Provider → Bool)
        → count_if f (quicknode ∷ others) ≡ count_if f (values (get_providers_from_db database)))
unfolding get_primary_name_from_db get_providers_from_db get_item lower same_text
primary_is_tried_first_example =
    primary_is_tried_first database idle (codes "quicknode") quicknode refl refl

settings_wait_for_reload_example :
    ((get_all_providers
        (record database { rpc = [] })
        (get_all_providers database (force_reload idle)).1).0
      ≡ (get_all_providers database (force_reload idle)).0)
    × ((get_all_providers
          (record database { rpc = [] })
          (force_reload (get_all_providers database (force_reload idle)).1)).0
        ≡ (get_all_providers (record database { rpc = [] }) (force_reload idle)).0)
unfolding get_primary_name_from_db lower
settings_wait_for_reload_example =
    settings_wait_for_reload database (record database { rpc = [] }) idle (codes "quicknode") refl

abbrev tried : List Provider
tried = quicknode ∷ record { name = codes "helius"; index = 1 } ∷ []

-- The primary provider does not answer.
abbrev only_helius : Provider → Bool
only_helius p = not (same_text p.name (codes "quicknode"))

first_usable_provider_is_chosen_example :
    Outcome manager quotas database.rpc 100
      (codes "2025-01-02")
      only_helius
      PriorityTier.active
      (λ n. always_up)
      tried
      empty
      (choose manager quotas database.rpc 100
        (codes "2025-01-02")
        (λ n. always_up)
        only_helius
        PriorityTier.active
        tried
        empty).0
first_usable_provider_is_chosen_example =
    first_usable_provider_is_chosen manager quotas database.rpc 100 (codes "2025-01-02") only_helius
      PriorityTier.active (λ n. always_up) tried empty
