-- ===== src/Tests/Terms.antt =====
-- Bids, purchases and auctions outside their terms.
use traitkeeper_eco.Orm.{nft_model, bid_model, auction_model}
