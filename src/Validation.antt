-- ===== src/Validation.antt =====
-- BidValidationService (marketplace/bid_validation_service.py). A bid and a minimum
-- are in units of 10^-13 SOL, in which a price times a percentage in hundredths is whole. Both fit
-- in the 28 digits of Python's decimals, so the code computes them without rounding.
pub mod Minimum
use mathlib.Core.Option
use traitkeeper_eco.Base.{
  ℕ, ◌+◌, ◌*◌, ℤ, pos, negsuc, ◌+ℤ◌, ◌*ℤ◌, ltb_ℤ, leb_ℤ, max_ℤ, or_amount, Bool, true, false, ◌&&◌,
  Option, none, some, List, Result, ok, err, is_value, is_none, first_if, if◌then◌else◌,
}
use traitkeeper_eco.Schema.{
  Nft, NftVitality, MinimumBidThreshold, ThresholdType, Message, not_positive,
  below_absolute_minimum, no_vitality, insufficient_data, bid_too_low, Error, type_error,
}
use traitkeeper_eco.Amounts.{scaled}
use traitkeeper_eco.Outcome.{Outcome, ◌>>=◌, get_or_raise}
use traitkeeper_eco.Orm.{Db, vitality_model}
use traitkeeper_eco.Table.{find}
use traitkeeper_eco.Safety.{Verdict}

-- -20.00 percent, and 0.01 SOL.
abbrev pub default_vitality_threshold : ℤ
default_vitality_threshold = negsuc 1999

abbrev pub default_absolute_minimum_sol : ℤ
default_absolute_minimum_sol = pos 10_000_000

-- `price * (1 + percentage / 100)`
abbrev pub percent_above : ℤ → ℤ → ℤ
percent_above price percentage = price *ℤ (pos 10_000 +ℤ percentage)

-- The collection model has no `floor_price`, so the floor is `Decimal('1.0')`:
-- 1 SOL * (0.5 + score / 100).
unfoldable pub estimate_price_from_vitality : NftVitality → ℤ
estimate_price_from_vitality vitality = pos ((5000 + vitality.vitality_score) * 100_000)

unfoldable pub suggested_price_of : NftVitality → ℤ
unfolding estimate_price_from_vitality
suggested_price_of vitality =
    or_amount vitality.suggested_price (estimate_price_from_vitality vitality)

-- `first()` of the active thresholds of the NFT, of its collection, and of all.
unfoldable pub get_applicable_threshold : Nft → Db → Option MinimumBidThreshold
get_applicable_threshold nft db =
    elim (first_if (λ t. is_value t.nft nft.mint_address && t.is_active) db.thresholds) [
      | some t ↦ some t
      | none ↦
          elim (first_if (λ t. is_value t.collection nft.collection && is_none t.nft && t.is_active)
            db.thresholds) [
              | some t ↦ some t
              | none ↦
                  first_if (λ t. is_none t.collection && is_none t.nft && t.is_active) db.thresholds
            ]
    ]

-- The minimum, and the price that it is a percentage of; `None / Decimal` is a TypeError.
unfoldable pub calculate_vitality_minimum : NftVitality → MinimumBidThreshold → Outcome (ℤ × ℤ)
unfolding suggested_price_of
calculate_vitality_minimum vitality threshold = do
  let suggested_price = suggested_price_of vitality
  percentage ← get_or_raise threshold.vitality_percentage_threshold type_error
  ok (percent_above suggested_price percentage, suggested_price)

abbrev too_low : ℤ → ℤ → Verdict
too_low bid minimum = if ltb_ℤ bid minimum then some (bid_too_low minimum) else none

unfoldable pub validate_vitality_based : ℤ → NftVitality → MinimumBidThreshold → Outcome Verdict
unfolding calculate_vitality_minimum
validate_vitality_based bid vitality threshold = do
  minimum ← calculate_vitality_minimum vitality threshold
  ok (too_low bid minimum.0)

-- `bid < None` is a TypeError.
unfoldable pub validate_absolute_sol : ℤ → MinimumBidThreshold → Outcome Verdict
validate_absolute_sol bid threshold = do
  minimum ← get_or_raise threshold.absolute_minimum_sol type_error
  ok (too_low bid (scaled minimum))

unfoldable pub validate_both : ℤ → NftVitality → MinimumBidThreshold → Outcome Verdict
unfolding calculate_vitality_minimum
validate_both bid vitality threshold = do
  vitality_min ← calculate_vitality_minimum vitality threshold
  absolute_min ← get_or_raise threshold.absolute_minimum_sol type_error
  ok (too_low bid (max_ℤ vitality_min.0 (scaled absolute_min)))

-- An unknown type is logged and lets every bid pass.
unfoldable pub validate_against_threshold : ℤ → NftVitality → MinimumBidThreshold → Outcome Verdict
unfolding validate_vitality_based validate_absolute_sol validate_both
validate_against_threshold bid vitality threshold = elim threshold.threshold_type [
  | ThresholdType.vitality_based ↦ validate_vitality_based bid vitality threshold
  | ThresholdType.absolute ↦ validate_absolute_sol bid threshold
  | ThresholdType.both ↦ validate_both bid vitality threshold
  | ThresholdType.unknown ↦ ok none
]

unfoldable pub validate_against_default : ℤ → NftVitality → Verdict
unfolding suggested_price_of
validate_against_default bid vitality =
    too_low bid (percent_above (suggested_price_of vitality) default_vitality_threshold)

unfoldable pub validate_bid : Nft → ℤ → Db → Outcome Verdict
unfolding validate_against_threshold validate_against_default
validate_bid nft bid db =
    if leb_ℤ bid (pos 0)
    then ok (some not_positive)
    else if ltb_ℤ bid (scaled default_absolute_minimum_sol)
    then ok (some below_absolute_minimum)
    else elim (find nft.mint_address db.vitalities) [
      | none ↦ ok (some no_vitality)
      | some vitality ↦
          if vitality.has_sufficient_data
          then elim (get_applicable_threshold nft db) [
            | some threshold ↦ validate_against_threshold bid vitality threshold
            | none ↦ ok (validate_against_default bid vitality)
          ]
          else ok (some insufficient_data)
    ]

-- The dictionary of `get_minimum_bid_info`, less its display texts; `minimum_bid` is NULL where an
-- absolute threshold has no amount.
pub record MinimumBidInfo : Type 0 where
  pub vitality_score : Option ℕ
  pub suggested_price : Option ℤ
  pub minimum_bid : Option ℤ
  pub threshold_percentage : Option ℤ
  pub error : Option Message

-- The branches of `get_minimum_bid_info` on the type of the threshold: the minimum and the price.
unfoldable pub minimum_by_threshold :
    NftVitality → MinimumBidThreshold → Outcome (Option ℤ × ℤ × Option ℤ)
unfolding calculate_vitality_minimum
minimum_by_threshold vitality threshold = elim threshold.threshold_type [
  | ThresholdType.vitality_based ↦ do
    m ← calculate_vitality_minimum vitality threshold
    ok (some m.0, m.1, threshold.vitality_percentage_threshold)
  | ThresholdType.absolute ↦
      ok (Option.map scaled threshold.absolute_minimum_sol, suggested_price_of vitality, none)
  | _ ↦ do
    m ← calculate_vitality_minimum vitality threshold
    absolute_min ← get_or_raise threshold.absolute_minimum_sol type_error
    ok (some (max_ℤ m.0 (scaled absolute_min)), m.1, none)
]

unfoldable pub get_minimum_bid_info : Nft → Db → Outcome MinimumBidInfo
unfolding minimum_by_threshold
get_minimum_bid_info nft db = elim (find nft.mint_address db.vitalities) [
  | none ↦ ok (record {
    vitality_score = none;
    suggested_price = none;
    minimum_bid = some (scaled default_absolute_minimum_sol);
    threshold_percentage = none;
    error = some no_vitality;
  })
  | some vitality ↦
      if vitality.has_sufficient_data
      then elim (get_applicable_threshold nft db) [
        | some threshold ↦ do
          m ← minimum_by_threshold vitality threshold
          ok (record {
            vitality_score = some vitality.vitality_score;
            suggested_price = some m.1;
            minimum_bid = m.0;
            threshold_percentage = m.2;
            error = none;
          })
        | none ↦ ok (record {
          vitality_score = some vitality.vitality_score;
          suggested_price = some (suggested_price_of vitality);
          minimum_bid =
              some (percent_above (suggested_price_of vitality) default_vitality_threshold);
          threshold_percentage = some default_vitality_threshold;
          error = none;
        })
      ]
      else ok (record {
        vitality_score = some vitality.vitality_score;
        suggested_price = none;
        minimum_bid = some (scaled default_absolute_minimum_sol);
        threshold_percentage = none;
        error = some insufficient_data;
      })
]
