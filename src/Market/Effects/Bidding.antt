-- ===== src/Market/Effects/Bidding.antt =====
-- What a bid at an auction and the end of an auction do.
use traitkeeper_eco.Base.{
  ◌+◌, false, ℕ, ◌≤◌, ◌<◌, ℤ, ◌<ℤ◌, ◌≤ℤ◌, ◌≡◌, ◌≢◌, true, Option, none, some, ok, err, arith,
}
use traitkeeper_eco.Schema.{Nft, AuctionEvent, AuctionStatus, Error}
use traitkeeper_eco.Amounts.{scaled, to_column, to_column_above, column_errors}
use traitkeeper_eco.Chain.{Env}
use traitkeeper_eco.Table.{find, find-update, find-append, pk-find}
use traitkeeper_eco.Orm.{
  Db, ◌>>=◌, nft_model, auction_model, event_model, create_event, create_auction,
}
use traitkeeper_eco.Safety.{validate_bid_placement_safety}
use traitkeeper_eco.Market.Response.{
  Response, auction_bid_placed, auction_closed, auction_completed,
}
use traitkeeper_eco.Market.Checks.{
  is_active_auction, auction_bid_check, finalize_check, create_auction_check,
}
use traitkeeper_eco.Market.Auctions.{
  min_bid, outbid, auction_bid_errors, get_lock_and_update_auction, place_auction_bid,
  completed_auction, cancelled_auction, auctioned_columns, won_columns, no_auction_columns,
  finalize_sale_in_db, finalize_auction, opened_auction, create_auction_in_db,
  create_private_auction,
}
use traitkeeper_eco.Market.Columns.{outbid-id, completed-id, cancelled-id}
use traitkeeper_eco.Market.Columns.{auctioned-mint, free-mint, won-mint}

-- A bid at an auction that returns was made while the auction was active and before its end, by
-- another wallet than its creator's, and is above the bid to beat; the row of the auction then has
-- it as the highest bid, rounded to lamports, which is the bid to beat or more.
pub auction_bid_beats :
    (env : Env) (w id sig : ℕ) (p : ℤ) (a : AuctionEvent) (db : Db) (r : Response)
    → find id db.auctions ≡ some a
    → (place_auction_bid env w id p (some sig) db).0 ≡ ok r
    → (is_active_auction a ≡ true)
      × (env.clock 1 < a.end_time)
      × (w ≢ a.creator)
      × (scaled (min_bid a) <ℤ p)
      × (min_bid a ≤ℤ to_column p)
      × (find id (place_auction_bid env w id p (some sig) db).1.auctions
          ≡ some (record a {
            current_bid = some (to_column p);
            current_bidder = some w;
            bid_count = a.bid_count + 1;
          }))
unfolding outbid place_auction_bid get_lock_and_update_auction auction_bid_errors ◌>>=◌
auction_bid_beats env w id sig p a db r e done = (
  ground arith,
  ground arith,
  ground arith,
  ground arith,
  ground (arith, to_column_above (min_bid a) p),
  ground (
    arith,
    pk-find id {r = a} db.auctions,
    outbid-id w p a,
    find-update (λ _. outbid w p a) id db.auctions {r = a},
  ),
)

-- A bid at an active auction before its end returns when it is above the bid to beat, its amount fits
-- the column, and its wallet neither created the auction nor owns the NFT nor has bid three times on it in the hour before.
pub auction_bid_succeeds :
    (env : Env) (w id sig : ℕ) (p : ℤ) (a : AuctionEvent) (n : Nft) (db : Db)
    → find id db.auctions ≡ some a
    → find a.nft db.nfts ≡ some n
    → validate_bid_placement_safety (env.clock 0) w n db ≡ none
    → is_active_auction a ≡ true
    → env.clock 1 < a.end_time
    → w ≢ a.creator
    → scaled (min_bid a) <ℤ p
    → column_errors p ≡ ok tt
    → (place_auction_bid env w id p (some sig) db).0 ≡ ok (auction_bid_placed sig p)
unfolding place_auction_bid auction_bid_check get_lock_and_update_auction auction_bid_errors ◌>>=◌
auction_bid_succeeds env w id sig p a n db ea en safe active early other above fits = ground arith

-- A bid at an auction that raises leaves the database as it was.
pub auction_bid_all_or_nothing :
    (env : Env) (w id sig : ℕ) (p : ℤ) (db : Db) (e : Error)
    → (place_auction_bid env w id p (some sig) db).0 ≡ err e
    → (place_auction_bid env w id p (some sig) db).1 ≡ db
unfolding place_auction_bid get_lock_and_update_auction ◌>>=◌
auction_bid_all_or_nothing env w id sig p db e failed = ground arith

-- At the end of an active auction with a highest bidder and a fresh signature, whoever owns the NFT
-- then, the call returns; the auction is completed with the highest bid and bidder, and the bidder
-- owns the NFT, which is in no auction.
pub auction_goes_to_highest_bidder :
    (env : Env) (w id sig : ℕ) (a : AuctionEvent) (n : Nft) (db : Db)
    → find id db.auctions ≡ some a
    → find a.nft db.nfts ≡ some n
    → a.current_bidder ≡ some w
    → is_active_auction a ≡ true
    → a.end_time ≤ env.clock 0
    → find sig db.events ≡ none
    → ((finalize_auction env id (some sig) db).0 ≡ ok (auction_completed w a.final_price sig))
      × (find id (finalize_auction env id (some sig) db).1.auctions
          ≡ some (record a {
            status = AuctionStatus.completed;
            winner = some w;
            final_price = a.current_bid;
          }))
      × (find a.nft (finalize_auction env id (some sig) db).1.nfts
          ≡ some (record n { owner = some w; active_auction = none; is_listed = false }))
unfolding completed_auction won_columns finalize_auction finalize_check finalize_sale_in_db
    create_event ◌>>=◌
auction_goes_to_highest_bidder env w id sig a n db ea en won active over fresh = (
  ground (arith, pk-find id {r = a} db.auctions),
  ground (
    arith,
    pk-find id {r = a} db.auctions,
    completed-id a,
    find-update (λ _. completed_auction a) id db.auctions {r = a},
  ),
  ground (
    arith,
    pk-find id {r = a} db.auctions,
    pk-find a.nft {r = n} db.nfts,
    won-mint (some w) n,
    find-update (won_columns (some w)) a.nft db.nfts {r = n},
  ),
)

-- At the end of an active auction that nobody has bid at, the call returns and needs no signature;
-- the auction is cancelled, and the NFT keeps its owner and is in no auction.
pub auction_without_bids_closes :
    (env : Env) (id : ℕ) (signed : Option ℕ) (a : AuctionEvent) (n : Nft) (db : Db)
    → find id db.auctions ≡ some a
    → find a.nft db.nfts ≡ some n
    → a.current_bidder ≡ none
    → is_active_auction a ≡ true
    → a.end_time ≤ env.clock 0
    → ((finalize_auction env id signed db).0 ≡ ok (auction_closed env.uuid))
      × (find id (finalize_auction env id signed db).1.auctions
          ≡ some (record a { status = AuctionStatus.cancelled }))
      × (find a.nft (finalize_auction env id signed db).1.nfts
          ≡ some (record n { active_auction = none; is_listed = false }))
unfolding cancelled_auction no_auction_columns finalize_auction finalize_check ◌>>=◌
auction_without_bids_closes env id signed a n db ea en nobody active over = (
  ground arith,
  ground (
    arith,
    pk-find id {r = a} db.auctions,
    cancelled-id {k = id} a,
    find-update cancelled_auction id db.auctions {r = a},
  ),
  ground (
    arith,
    pk-find a.nft {r = n} db.nfts,
    free-mint n,
    find-update no_auction_columns a.nft db.nfts {r = n},
  ),
)

-- A signed auction that returns is stored, active and without a bid, with its price in lamports, the
-- caller as its creator and an end the given number of hours after its start; its NFT is in it.
pub created_auction_is_stored :
    (env : Env) (w sig hours : ℕ) (p : ℤ) (reserve : Option ℤ) (n : Nft) (db : Db) (r : Response)
    → find n.mint_address db.nfts ≡ some n
    → (create_private_auction env w n.mint_address p hours reserve (some sig) db).0 ≡ ok r
    → (find sig
          (create_private_auction env w n.mint_address p hours reserve (some sig) db).1.auctions
        ≡ some (opened_auction (env.clock 0) w sig n p hours))
      × (find n.mint_address
            (create_private_auction env w n.mint_address p hours reserve (some sig) db).1.nfts
          ≡ some (record n { active_auction = some sig; is_listed = true }))
unfolding auctioned_columns create_private_auction create_auction_check create_auction_in_db
    create_auction ◌>>=◌
created_auction_is_stored env w sig hours p reserve n db r en done = (
  ground (arith, find-append sig db.auctions (opened_auction (env.clock 0) w sig n p hours)),
  ground (
    arith,
    auctioned-mint sig n,
    find-update (auctioned_columns sig) n.mint_address db.nfts {r = n},
  ),
)
