-- ===== src/Schema/Vitality.antt =====
-- NFTVitality and MinimumBidThreshold (marketplace/vitality_models.py).
use traitkeeper_eco.Base.{ℕ, ℤ, Bool, Option}

pub record NftVitality : Type 0 where
  pub nft : ℕ
  pub vitality_score : ℕ
  pub suggested_price : Option ℤ
  pub has_sufficient_data : Bool

-- `threshold_type` is a text column: the choices bind the forms, not the database.
pub data ThresholdType : Type 0 where
  absolute vitality_based both unknown : ThresholdType

-- `vitality_percentage_threshold` is in hundredths of a percent: -1500 is -15.00%.
pub record MinimumBidThreshold : Type 0 where
  pub id : ℕ
  pub collection : Option ℕ
  pub nft : Option ℕ
  pub absolute_minimum_sol : Option ℤ
  pub vitality_percentage_threshold : Option ℤ
  pub threshold_type : ThresholdType
  pub is_active : Bool
