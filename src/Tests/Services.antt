-- ===== src/Tests/Services.antt =====
-- The validation of bids, the monitoring and the quest checks.
use traitkeeper_eco.Base.{ℤ, pos, negsuc, ◌≤ℤ◌, ◌+ℤ◌, ◌*ℤ◌, ◌≡◌, ◌↔◌, refl, none, some, ok, arith}
use traitkeeper_eco.Table.{find}
use traitkeeper_eco.Orm.{vitality_model}
use traitkeeper_eco.Validation.{
  MinimumBidInfo, default_absolute_minimum_sol, get_applicable_threshold, validate_bid,
  get_minimum_bid_info,
}
use traitkeeper_eco.Validation.Minimum.{valid_iff_minimum}
use traitkeeper_eco.Amounts.{scaled}
use traitkeeper_eco.Tests.Market.{market, ring, collection_threshold}

-- 90 percent of 1.3 SOL.
abbrev minimum_of_ring : ℤ
minimum_of_ring = pos 11_700_000_000_000

abbrev info_of_ring : MinimumBidInfo
info_of_ring = record {
  vitality_score = some 8000;
  suggested_price = some (pos 1_300_000_000);
  minimum_bid = some minimum_of_ring;
  threshold_percentage = some (negsuc 999);
  error = none;
}

ring_threshold : get_applicable_threshold ring market ≡ some collection_threshold
unfolding get_applicable_threshold
ring_threshold = refl

valid_iff_minimum_example : (validate_bid ring (pos 12_000_000_000_000) market ≡ ok none) ↔ (
    (scaled default_absolute_minimum_sol ≤ℤ pos 12_000_000_000_000)
    × (minimum_of_ring ≤ℤ pos 12_000_000_000_000))
unfolding find get_applicable_threshold get_minimum_bid_info ◌*ℤ◌ ◌+ℤ◌
valid_iff_minimum_example =
    valid_iff_minimum ring (pos 12_000_000_000_000) minimum_of_ring market info_of_ring refl refl
      refl (ground arith)
