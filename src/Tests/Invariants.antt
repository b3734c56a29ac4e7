-- ===== src/Tests/Invariants.antt =====
-- The invariants of all calls, from the test market.
use traitkeeper_eco.Base.{
  ℕ, Option, false, ◌==◌, if◌then◌else◌, none, pos, ◌≡◌, refl, some, List, [], ◌∷◌, arith, All,
}
use traitkeeper_eco.Schema.{Nft, AuctionEvent}
use traitkeeper_eco.Chain.{Env}
use traitkeeper_eco.Amounts.{column_errors}
use traitkeeper_eco.Market.Sales.{execute_direct_buy, execute_sale, bought_columns}
use traitkeeper_eco.Market.Invariants.Sales.{owner_by_log}
use traitkeeper_eco.Market.Invariants.Owners.{owners_follow_the_log}
use traitkeeper_eco.Table.{find, update_where, All-find}
use traitkeeper_eco.Orm.{nft_model, auction_model, bid_model, ◌>>=◌}
use traitkeeper_eco.Market.Requests
use traitkeeper_eco.Market.Requests.{Request, serve}
use traitkeeper_eco.Market.Checks.{auction_bid_check, direct_buy_check}
use traitkeeper_eco.Safety.{count_recent_bids, validate_bid_placement_safety}
use traitkeeper_eco.Market.Auctions.{
  min_bid, outbid, auction_bid_errors, get_lock_and_update_auction, place_auction_bid,
}
use traitkeeper_eco.Market.Invariants.Prices.{HasOneListing, serve-HasOneListing}
use traitkeeper_eco.Market.Invariants.Resolved.{resolved_bid_is_final}
use traitkeeper_eco.Market.Invariants.Auctions.{IsValidAuction, serve-IsValidAuction}
use traitkeeper_eco.Market.Invariants.Growth.{IsLater, auction_only_grows}
use traitkeeper_eco.Market.Invariants.Single.{HasSingleAuctions, serve-HasSingleAuctions}
use traitkeeper_eco.Tests.Market.{
  carol, painting, env, alice, bob, market, rejected_bid, open_auction,
}

-- Bob bids, and Alice accepts an offer, lists an NFT and ends an auction.
abbrev calls : List (Env × Request)
calls =
    (env, Requests.place_auction_bid bob 302 (pos 11_000_000_000_000) (some 601))
    ∷ (env, Requests.accept_private_bid alice 201 (some 602))
    ∷ (env, Requests.set_direct_sell alice 106 (pos 70_000))
    ∷ (env, Requests.finalize_auction 301 (some 603))
    ∷ []

abbrev purchase : List (Env × Request)
purchase = (env, Requests.execute_direct_buy bob 101) ∷ []

-- The owners in the test market.
abbrev first_owner : ℕ → Option ℕ
first_owner k = if k == 103 then some carol else some alice

painting_is_bobs :
    find 101 (serve purchase market).nfts
    ≡ some (record painting { owner = some bob; has_buy_price = false; buy_price = none })
unfolding find serve execute_direct_buy direct_buy_check execute_sale bought_columns update_where
    ◌>>=◌
painting_is_bobs = refl

market-HasOneListing : All HasOneListing market.nfts
market-HasOneListing = ground arith

serve-HasOneListing_example : All HasOneListing (serve calls market).nfts
serve-HasOneListing_example = serve-HasOneListing calls market market-HasOneListing

resolved_bid_is_final_example : find 203 (serve calls market).bids ≡ some rejected_bid
unfolding find
resolved_bid_is_final_example = resolved_bid_is_final calls rejected_bid market refl refl

market-IsValidAuction : All IsValidAuction market.auctions
market-IsValidAuction = ground arith

bid_of_bob_stored :
    find 302
      (serve
        ((env, Requests.place_auction_bid bob 302 (pos 11_000_000_000_000) (some 601)) ∷ [])
        market).auctions
    ≡ some (outbid bob (pos 11_000_000_000_000) open_auction)
unfolding find serve place_auction_bid get_lock_and_update_auction auction_bid_check
    validate_bid_placement_safety auction_bid_errors min_bid outbid ◌>>=◌ count_recent_bids
    column_errors update_where
bid_of_bob_stored = refl

serve-IsValidAuction_example : IsValidAuction (outbid bob (pos 11_000_000_000_000) open_auction)
unfolding find
serve-IsValidAuction_example =
    serve-IsValidAuction
      ((env, Requests.place_auction_bid bob 302 (pos 11_000_000_000_000) (some 601)) ∷ []) market
      (λ k a e. All-find IsValidAuction k {r = a} market.auctions market-IsValidAuction e) 302
      (outbid bob (pos 11_000_000_000_000) open_auction) bid_of_bob_stored

auction_only_grows_example :
    (b : AuctionEvent) × (find 302 (serve calls market).auctions ≡ some b) × IsLater open_auction b
unfolding find min_bid
auction_only_grows_example = auction_only_grows calls open_auction market (omega arith) refl

market-HasSingleAuctions : HasSingleAuctions market.auctions
unfolding find
market-HasSingleAuctions j k a b ea eb aa ab same = ground arith

serve-HasSingleAuctions_example : HasSingleAuctions (serve calls market).auctions
serve-HasSingleAuctions_example = serve-HasSingleAuctions calls market market-HasSingleAuctions

market-IsRecorded :
    (k : ℕ) (n : Nft)
    → find k market.nfts ≡ some n
    → n.owner ≡ owner_by_log k (first_owner k) market.events
unfolding find owner_by_log
market-IsRecorded k n e = ground arith

-- Bob buys the painting, and the log says so.
owners_follow_the_log_example :
    some bob ≡ owner_by_log 101 (some alice) (serve purchase market).events
unfolding find
owners_follow_the_log_example =
    owners_follow_the_log first_owner purchase market market-IsRecorded 101
      (record painting { owner = some bob; has_buy_price = false; buy_price = none })
      painting_is_bobs
