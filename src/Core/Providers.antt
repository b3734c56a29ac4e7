-- ===== src/Core/Providers.antt =====
-- APIProviderManager (core/api_provider/api_providers.py) and the settings that it reads
-- (admin_panel/models.py): which provider a request goes to.
pub mod Primary
pub mod Order
pub mod Choice
use traitkeeper_eco.Base.{
  ℕ, ◌+◌, Bool, true, false, not, ◌&&◌, Option, none, some, List, [], ◌∷◌, ◌++◌, Result, ok, err,
  Text, codes, same_text, lower, select, count_if, first_if, ◌==◌, if◌then◌else◌,
}
use traitkeeper_eco.Table.{Model, find, update, update_where, is_taken}
use traitkeeper_eco.Core.Cache.{CacheManager, PriorityTier, Caches, Reach}
use traitkeeper_eco.Indexer.Quota.{
  ProviderSetting, QuotaSettings, get_wrapped_provider_if_quota_available,
}

instance abbrev pub provider_model : Model ProviderSetting
provider_model = record { pk = λ r. r.id }

-- A row of MarketplaceProviderSetting.
pub record MarketplaceSetting : Type 0 where
  pub name : Text
  pub is_active : Bool

pub data Failure : Type 0 where
  integrity_error multiple_objects : Failure

-- `objects.filter(is_primary=True).exclude(pk=…).update(is_primary=False)`
unfoldable pub unset_primary : ℕ → List ProviderSetting → List ProviderSetting
unset_primary k =
    update_where (λ r. r.is_primary && not (r.id == k)) (λ r. record r { is_primary = false })

-- The name is unique.
abbrev pub is_name_taken : ProviderSetting → List ProviderSetting → Bool
is_name_taken r rows = not (count_if (λ x. same_text x.name r.name && not (x.id == r.id)) rows == 0)

-- `save` of a row with its key: what was unset before an error stays so.
unfoldable pub save :
    ProviderSetting → List ProviderSetting → Result Failure ProviderSetting × List ProviderSetting
unfolding unset_primary
save r rows =
    let before = if r.is_primary then unset_primary r.id rows else rows in
    if is_name_taken r before
    then (err integrity_error, before)
    else (ok r, if is_taken r before then update r.id (λ _. r) before else before ++ r ∷ [])

-- An instance of a provider class.
pub record Provider : Type 0 where
  pub name : Text
  pub index : ℕ

-- `d[key] = value`
unfoldable pub set_item : {V : Type 0} → Text → V → List (Text × V) → List (Text × V)
set_item k v [] = (k, v) ∷ []
set_item k v ((j, u) ∷ d) =
    let rest = set_item k v d in if same_text j k then (k, v) ∷ d else (j, u) ∷ rest

-- `build` is the class of a name called on a row, none when there is no class or it raises.
unfoldable pub add_rpc_providers :
    (ProviderSetting → Option Provider)
    → List ProviderSetting
    → List (Text × Provider)
    → List (Text × Provider)
unfolding set_item
add_rpc_providers build [] d = d
add_rpc_providers build (r ∷ rows) d =
    add_rpc_providers build rows (elim (if r.is_active then build r else none) [
      | none ↦ d
      | some p ↦ set_item (lower r.name) p d
    ])

-- The names that the marketplace's providers may have.
abbrev is_marketplace : Text → Bool
is_marketplace name = elim (same_text name (codes "magic_eden")) [
  | true ↦ true
  | false ↦ same_text name (codes "tensor")
]

unfoldable pub add_marketplace_providers :
    (MarketplaceSetting → Option Provider)
    → List MarketplaceSetting
    → List (Text × Provider)
    → List (Text × Provider)
unfolding set_item
add_marketplace_providers build [] d = d
add_marketplace_providers build (r ∷ rows) d =
    add_marketplace_providers build rows
      (elim (if r.is_active && is_marketplace (lower r.name) then build r else none) [
        | none ↦ d
        | some p ↦ set_item (lower r.name) p d
      ])

-- The rows of the settings, and how instances are made of them.
pub record Database : Type 0 where
  pub rpc : List ProviderSetting
  pub marketplace : List MarketplaceSetting
  pub build : ProviderSetting → Option Provider
  pub build_marketplace : MarketplaceSetting → Option Provider

unfoldable pub get_providers_from_db : Database → List (Text × Provider)
unfolding add_rpc_providers add_marketplace_providers
get_providers_from_db db =
    add_marketplace_providers db.build_marketplace db.marketplace
      (add_rpc_providers db.build db.rpc [])

-- `objects.get(is_primary=True, is_active=True)`
unfoldable pub get_primary_name_from_db : Database → Result Failure (Option Text)
get_primary_name_from_db db = elim (select (λ r. r.is_primary && r.is_active) db.rpc) [
  | [] ↦ ok none
  | r ∷ [] ↦ ok (some (lower r.name))
  | r ∷ s ∷ rows ↦ err multiple_objects
]

pub record Manager : Type 0 where
  pub current_provider : Option (Text × PriorityTier)
  pub rpc_providers_cache : Option (List (Text × Provider))
  pub primary_provider_name_cache : Option Text

unfoldable pub get_rpc_providers : Database → Manager → List (Text × Provider) × Manager
get_rpc_providers db a = elim a.rpc_providers_cache [
  | some d ↦ (d, a)
  | none ↦
      (get_providers_from_db db, record a { rpc_providers_cache = some (get_providers_from_db db) })
]

unfoldable pub get_primary_provider_name :
    Database → Manager → Result Failure (Option Text) × Manager
get_primary_provider_name db a = elim a.primary_provider_name_cache [
  | some name ↦ (ok (some name), a)
  | none ↦ elim (get_primary_name_from_db db) [
    | ok name ↦ (ok name, record a { primary_provider_name_cache = name })
    | err e ↦ (err e, a)
  ]
]

abbrev is_name : Option Text → Text → Bool
is_name none name = false
is_name (some p) name = same_text name p

-- The loop that parts the primary provider, the last one of its name, from the others.
unfoldable pub part : Option Text → List (Text × Provider) → Option Provider × List Provider
part primary_name [] = (none, [])
part primary_name ((name, p) ∷ d) =
    let (primary, others) = part primary_name d in
    if is_name primary_name name
    then (elim primary [ none ↦ some p | some q ↦ some q ], others)
    else (primary, p ∷ others)

abbrev first_then : Option Provider × List Provider → List Provider
first_then (none, others) = others
first_then (some p, others) = p ∷ others

unfoldable pub get_all_providers : Database → Manager → Result Failure (List Provider) × Manager
unfolding get_rpc_providers get_primary_provider_name part
get_all_providers db a =
    let (name, a₁) = get_primary_provider_name db a in
    elim name [
      | err e ↦ (err e, a₁)
      | ok primary_name ↦
          let (d, a₂) = get_rpc_providers db a₁ in (ok (first_then (part primary_name d)), a₂)
    ]

unfoldable pub force_reload : Manager → Manager
force_reload a = record a { rpc_providers_cache = none; primary_provider_name_cache = none }

-- `d.get(key)`
unfoldable pub get_item : {V : Type 0} → Text → List (Text × V) → Option V
get_item k [] = none
get_item k ((j, v) ∷ d) = if same_text j k then some v else get_item k d

-- `available` is what `check_availability` of a provider answers.
unfoldable pub get_provider_by_name :
    Database → (Provider → Bool) → Text → Manager → Option Provider × Manager
unfolding get_item get_rpc_providers
get_provider_by_name db available name a =
    let (d, a₁) = get_rpc_providers db a in
    elim (get_item (lower name) d) [
      | none ↦ (none, a₁)
      | some p ↦ (if available p then some p else none, a₁)
    ]

module _ {L R J : Type 0} (m : CacheManager L R ℕ J) (s : QuotaSettings) where
  -- The first provider that is available and has quota, wrapped. The n-th provider that is asked
  -- for its quota has the n-th of the reaches.
  unfoldable pub choose :
      List ProviderSetting
      → ℕ
      → Text
      → (ℕ → ℕ → Reach)
      → (Provider → Bool)
      → PriorityTier
      → List Provider
      → Caches L R
      → Option (Text × PriorityTier) × Caches L R
  choose rows now today reach available tier [] w = (none, w)
  choose rows now today reach available tier (p ∷ ps) w =
      let (wrapped, w₁) =
        get_wrapped_provider_if_quota_available m s rows now today (reach 0) p.name tier w in
      let after = choose rows now today (λ n. reach (n + 1)) available tier ps w₁ in
      let past = choose rows now today reach available tier ps w in
      if available p then (elim wrapped [ some x ↦ (some x, w₁) | none ↦ after ]) else past

  unfoldable pub get_rpc_provider :
      Database
      → ℕ
      → Text
      → (ℕ → ℕ → Reach)
      → (Provider → Bool)
      → PriorityTier
      → Manager × Caches L R
      → Result Failure (Option (Text × PriorityTier)) × Manager × Caches L R
  unfolding choose get_all_providers
  get_rpc_provider db now today reach available tier (a, w) =
      let (providers, a₁) = get_all_providers db a in
      elim providers [
        | err e ↦ (err e, a₁, w)
        | ok ps ↦
            let (chosen, w₁) = choose db.rpc now today reach available tier ps w in
            (ok chosen, record a₁ { current_provider = chosen }, w₁)
      ]
