-- ===== src/Tests/Effects.antt =====
-- What the calls on auctions do to the test market.
use traitkeeper_eco.Base.{
  ◌+◌, pos, ◌<ℤ◌, ◌≤ℤ◌, ◌<◌, ◌≡◌, ◌≢◌, refl, true, false, none, some, ok, err, arith,
}
use traitkeeper_eco.Amounts.{scaled, to_column, column_errors}
use traitkeeper_eco.Schema.{AuctionStatus, value_error, bid_not_above}
use traitkeeper_eco.Table.{find}
use traitkeeper_eco.Orm.{
  nft_model, bid_model, auction_model, event_model, transaction_model, monitoring_model, ◌>>=◌,
}
use traitkeeper_eco.Safety.{count_recent_bids, validate_bid_placement_safety}
use traitkeeper_eco.Market.Response.{auction_bid_placed, auction_completed, auction_created}
use traitkeeper_eco.Market.Checks.{
  is_active_auction, auction_bid_check, create_auction_check, has_active_auction,
}
use traitkeeper_eco.Market.Auctions.{
  min_bid, place_auction_bid, finalize_auction, create_private_auction,
}
use traitkeeper_eco.Market.Effects.Bidding.{
  auction_bid_beats, auction_bid_succeeds, auction_goes_to_highest_bidder,
}
use traitkeeper_eco.Tests.Market.{
  env, now, alice, bob, market, mask, coin, ended_auction, open_auction,
}

auction_bid_succeeds_example :
    (place_auction_bid env bob 302 (pos 11_000_000_000_000) (some 601) market).0
    ≡ ok (auction_bid_placed 601 (pos 11_000_000_000_000))
unfolding find min_bid column_errors validate_bid_placement_safety count_recent_bids
auction_bid_succeeds_example =
    auction_bid_succeeds env bob 302 601 (pos 11_000_000_000_000) open_auction coin market refl refl
      refl refl (omega arith) (omega arith) (omega arith) refl

auction_bid_beats_example :
    (is_active_auction open_auction ≡ true)
    × (env.clock 1 < open_auction.end_time)
    × (bob ≢ open_auction.creator)
    × (scaled (min_bid open_auction) <ℤ pos 11_000_000_000_000)
    × (min_bid open_auction ≤ℤ pos 1_100_000_000)
    × (find 302
          (place_auction_bid env bob 302 (pos 11_000_000_000_000) (some 601) market).1.auctions
        ≡ some (record open_auction {
          current_bid = some (pos 1_100_000_000);
          current_bidder = some bob;
          bid_count = 1;
        }))
unfolding find to_column
auction_bid_beats_example =
    auction_bid_beats env bob 302 601 (pos 11_000_000_000_000) open_auction market
      (auction_bid_placed 601 (pos 11_000_000_000_000)) refl auction_bid_succeeds_example

-- A bid of the starting price is too low.
low_bid_fails :
    (place_auction_bid env bob 302 (pos 10_000_000_000_000) (some 601) market).0
    ≡ err (value_error (bid_not_above (pos 1_000_000_000)))
unfolding find place_auction_bid auction_bid_check validate_bid_placement_safety count_recent_bids
    min_bid ◌>>=◌
low_bid_fails = refl

-- Alice's auction sells the mask that Carol owns.
auction_goes_to_highest_bidder_example :
    ((finalize_auction env 301 (some 601) market).0 ≡ ok (auction_completed bob none 601))
    × (find 301 (finalize_auction env 301 (some 601) market).1.auctions
        ≡ some (record ended_auction {
          status = AuctionStatus.completed;
          winner = some bob;
          final_price = some (pos 1_500_000_000);
        }))
    × (find 103 (finalize_auction env 301 (some 601) market).1.nfts
        ≡ some (record mask { owner = some bob; active_auction = none; is_listed = false }))
unfolding find
auction_goes_to_highest_bidder_example =
    auction_goes_to_highest_bidder env bob 301 601 ended_auction mask market refl refl refl refl
      (omega arith) refl

creation_returns :
    (create_private_auction env alice 105 (pos 50_000) 24 none (some 601) market).0
    ≡ ok (auction_created 601 (now + 86_400_000_000))
unfolding find column_errors create_private_auction create_auction_check has_active_auction ◌>>=◌
creation_returns = refl
