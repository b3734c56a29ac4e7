-- ===== src/Validation/Minimum.antt =====
-- The minimum that is shown and the bids that pass.
use traitkeeper_eco.Base.{
  ℤ, ◌≤ℤ◌, ◌*ℤ◌, ◌≡◌, ◌≢◌, ◌↔◌, Bool, true, Option, none, some, List, [], ◌∷◌, ok, arith, All,
  is_none, is_value, first_if, ◌&&◌, not, ◌⊎◌,
}
use traitkeeper_eco.Schema.{Nft, MinimumBidThreshold, ThresholdType}
use traitkeeper_eco.Orm.{Db}
use traitkeeper_eco.Amounts.{scaled}
use traitkeeper_eco.Validation.{
  MinimumBidInfo, validate_bid, get_minimum_bid_info, get_applicable_threshold,
  default_absolute_minimum_sol,
}

abbrev HasKnownType : Option MinimumBidThreshold → Type 0
HasKnownType none = Unit
HasKnownType (some t) = t.threshold_type ≢ ThresholdType.unknown

-- The minimum that is shown is the one that is enforced: where `get_minimum_bid_info` reports no
-- error and a minimum, and the threshold that applies has a known type, a bid is valid exactly when
-- it is at least 0.01 SOL and at least that minimum.
pub valid_iff_minimum :
    (nft : Nft) (bid m : ℤ) (db : Db) (info : MinimumBidInfo)
    → get_minimum_bid_info nft db ≡ ok info
    → info.error ≡ none
    → info.minimum_bid ≡ some m
    → HasKnownType (get_applicable_threshold nft db)
    → (validate_bid nft bid db ≡ ok none)
      ↔ ((scaled default_absolute_minimum_sol ≤ℤ bid) × (m ≤ℤ bid))
unfolding validate_bid get_minimum_bid_info
valid_iff_minimum nft bid m db info h e hm known = ground arith

-- A bid above a valid one is valid, whatever threshold applies.
pub valid_mono :
    (nft : Nft) (a b : ℤ) (db : Db)
    → validate_bid nft a db ≡ ok none
    → a ≤ℤ b
    → validate_bid nft b db ≡ ok none
unfolding validate_bid ◌*ℤ◌
valid_mono nft a b db h le = ground arith

first_if-holds {ℓ} :
    {A : Type ℓ} (p : A → Bool) (xs : List A) {x : A} → first_if p xs ≡ some x → p x ≡ true
first_if-holds p [] h = ground arith
first_if-holds p (y ∷ ys) {x} h = ground (arith, first_if-holds p ys {x = x})

first_if-All {ℓ} :
    {A : Type ℓ} (P : A → Type 0) (p : A → Bool) (xs : List A) {x : A}
    → All P xs
    → first_if p xs ≡ some x
    → P x
first_if-All P p [] all h = ground arith
first_if-All P p (y ∷ ys) {x} all h = ground (arith, first_if-All P p ys {x = x} all.1)

-- The check constraints of the table: a threshold has a collection or an NFT, and not both.
abbrev HasOneTarget : MinimumBidThreshold → Type 0
HasOneTarget t = is_none t.collection ≡ not (is_none t.nft)

-- The threshold that applies is active, and is set on the NFT itself or on its collection: with the
-- constraints of the table there is never a global one.
pub threshold_scope :
    (nft : Nft) (db : Db) {t : MinimumBidThreshold}
    → All HasOneTarget db.thresholds
    → get_applicable_threshold nft db ≡ some t
    → (t.is_active ≡ true)
      × ((t.nft ≡ some nft.mint_address) ⊎ ((t.nft ≡ none) × (t.collection ≡ some nft.collection)))
unfolding get_applicable_threshold
threshold_scope nft db {t} ok_rows h = ground (
  arith,
  first_if-holds (λ (t : MinimumBidThreshold). is_value t.nft nft.mint_address && t.is_active)
      db.thresholds {x = t},
  first_if-holds
      (λ (t : MinimumBidThreshold).
        is_value t.collection nft.collection && is_none t.nft && t.is_active)
      db.thresholds {x = t},
  first_if-holds (λ (t : MinimumBidThreshold). is_none t.collection && is_none t.nft && t.is_active)
      db.thresholds {x = t},
  first_if-All HasOneTarget
      (λ (t : MinimumBidThreshold). is_none t.collection && is_none t.nft && t.is_active)
      db.thresholds {x = t},
)
