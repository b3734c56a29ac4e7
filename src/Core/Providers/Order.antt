-- ===== src/Core/Providers/Order.antt =====
-- The order in which APIProviderManager tries its providers, and its caches of the settings.
use traitkeeper_eco.Base.{
  ◌≤◌, ◌≡◌, refl, Bool, true, false, Option, none, some, List, [], ◌∷◌, ok, Text, same_text,
  same_text_iff, lower, count_if, map, arith, Bool-cases, inl, inr, if◌then◌else◌,
}
use traitkeeper_eco.Core.Providers.{
  Provider, Database, Manager, MarketplaceSetting, set_item, get_item, part, add_rpc_providers,
  add_marketplace_providers, get_providers_from_db, get_primary_name_from_db, get_all_providers,
  force_reload,
}
use traitkeeper_eco.Indexer.Quota.{ProviderSetting}

abbrev with_key : {V : Type 0} → Text → Text × V → Bool
with_key k e = same_text e.0 k

abbrev pub HasUniqueKeys : {V : Type 0} → List (Text × V) → Type 0
HasUniqueKeys d = (k : Text) → count_if (with_key k) d ≤ 1

-- The values of a dict.
abbrev pub values : {V : Type 0} → List (Text × V) → List V
values d = map (λ e. e.1) d

count-set_item_other :
    {V : Type 0} (j k : Text) (v : V) (d : List (Text × V))
    → same_text j k ≡ false
    → count_if (with_key k) (set_item j v d) ≡ count_if (with_key k) d
unfolding set_item
count-set_item_other j k v [] h = ground arith
count-set_item_other j k v ((i, u) ∷ d) h =
    ground (
      arith,
      count-set_item_other j k v d h,
      same_text_iff i j,
      same_text_iff i k,
      same_text_iff j k,
    )

count-set_item :
    {V : Type 0} (j k : Text) (v : V) (d : List (Text × V))
    → same_text j k ≡ true
    → count_if (with_key k) d ≤ 1
    → count_if (with_key k) (set_item j v d) ≤ 1
unfolding set_item
count-set_item j k v [] h one = ground arith
count-set_item j k v ((i, u) ∷ d) h one =
    ground
      (arith, count-set_item j k v d h, same_text_iff i j, same_text_iff i k, same_text_iff j k)

set_item-HasUniqueKeys :
    {V : Type 0} (j : Text) (v : V) (d : List (Text × V))
    → HasUniqueKeys d
    → HasUniqueKeys (set_item j v d)
set_item-HasUniqueKeys j v d h k = elim (Bool-cases (same_text j k)) [
  | inl same ↦ count-set_item j k v d same (h k)
  | inr other ↦ omega (arith, count-set_item_other j k v d other, h k)
]

-- The item is set when there is an instance.
abbrev set_if : Option Provider → Text → List (Text × Provider) → List (Text × Provider)
set_if none name d = d
set_if (some p) name d = set_item name p d

set_if-HasUniqueKeys :
    (o : Option Provider) (name : Text) (d : List (Text × Provider))
    → HasUniqueKeys d
    → HasUniqueKeys (elim o [ none ↦ d | some p ↦ set_item name p d ])
set_if-HasUniqueKeys none name d h = h
set_if-HasUniqueKeys (some p) name d h = set_item-HasUniqueKeys name p d h

rpc-HasUniqueKeys :
    (build : ProviderSetting → Option Provider) (rows : List ProviderSetting)
    (d : List (Text × Provider))
    → HasUniqueKeys d
    → HasUniqueKeys (add_rpc_providers build rows d)
unfolding add_rpc_providers
rpc-HasUniqueKeys build [] d h = h
rpc-HasUniqueKeys build (r ∷ rows) d h =
    rpc-HasUniqueKeys build rows _
      (set_if-HasUniqueKeys (if r.is_active then build r else none) (lower r.name) d h)

marketplace-HasUniqueKeys :
    (build : MarketplaceSetting → Option Provider) (rows : List MarketplaceSetting)
    (d : List (Text × Provider))
    → HasUniqueKeys d
    → HasUniqueKeys (add_marketplace_providers build rows d)
unfolding add_marketplace_providers
marketplace-HasUniqueKeys build [] d h = h
marketplace-HasUniqueKeys build (r ∷ rows) d h =
    marketplace-HasUniqueKeys build rows _ (set_if-HasUniqueKeys _ (lower r.name) d h)

get_providers_from_db-HasUniqueKeys : (db : Database) → HasUniqueKeys (get_providers_from_db db)
unfolding get_providers_from_db
get_providers_from_db-HasUniqueKeys db =
    marketplace-HasUniqueKeys db.build_marketplace db.marketplace _
      (rpc-HasUniqueKeys db.build db.rpc [] (λ k. omega arith))

-- The providers without the primary one keep their number, where the key is in the dict once.
part-absent :
    (n : Text) (d : List (Text × Provider))
    → count_if (with_key n) d ≡ 0
    → part (some n) d ≡ (none, values d)
unfolding part
part-absent n [] h = refl
part-absent n ((j, p) ∷ d) h = ground (arith, part-absent n d, same_text_iff n j, same_text_iff j n)

part-present :
    (n : Text) (p : Provider) (d : List (Text × Provider)) (f : Provider → Bool)
    → count_if (with_key n) d ≤ 1
    → get_item n d ≡ some p
    → ((part (some n) d).0 ≡ some p)
      × (count_if f (p ∷ (part (some n) d).1) ≡ count_if f (values d))
unfolding part get_item
part-present n p [] f one h = ground arith
part-present n p ((j, q) ∷ d) f one h = elim (Bool-cases (same_text j n)) [
  | inl same ↦ ground (arith, h, one, same, part-absent n d)
  | inr other ↦ ground (arith, h, one, other, part-present n p d f)
]

-- After a reload, when one active row is primary and there is an instance under its name, the
-- providers are tried in an order that begins with that instance and has each active provider's
-- instance as often as the settings give it.
pub primary_is_tried_first :
    (db : Database) (a : Manager) (n : Text) (p : Provider)
    → get_primary_name_from_db db ≡ ok (some n)
    → get_item n (get_providers_from_db db) ≡ some p
    → (others : List Provider) × ((get_all_providers db (force_reload a)).0 ≡ ok (p ∷ others))
      × ((f : Provider → Bool)
          → count_if f (p ∷ others) ≡ count_if f (values (get_providers_from_db db)))
unfolding get_all_providers force_reload
primary_is_tried_first db a n p primary found = (
  (part (some n) (get_providers_from_db db)).1,
  ground (arith, primary, parted (λ _. true)),
  λ f. (parted f).1,
)
  where
    parted :
        (f : Provider → Bool)
        → ((part (some n) (get_providers_from_db db)).0 ≡ some p)
          × (count_if f (p ∷ (part (some n) (get_providers_from_db db)).1)
              ≡ count_if f (values (get_providers_from_db db)))
    parted f =
        part-present n p (get_providers_from_db db) f (get_providers_from_db-HasUniqueKeys db n)
          found

-- Once the providers have been fetched while a primary one was set, a change of the settings is not
-- seen, whatever it is, until a reload; then the new settings are.
pub settings_wait_for_reload :
    (old new : Database) (a : Manager) (n : Text)
    → get_primary_name_from_db old ≡ ok (some n)
    → ((get_all_providers new (get_all_providers old (force_reload a)).1).0
        ≡ (get_all_providers old (force_reload a)).0)
      × ((get_all_providers new (force_reload (get_all_providers old (force_reload a)).1)).0
          ≡ (get_all_providers new (force_reload a)).0)
unfolding get_all_providers force_reload
settings_wait_for_reload old new a n primary = (ground (arith, primary), ground (arith, primary))
