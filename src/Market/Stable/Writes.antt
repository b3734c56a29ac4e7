-- ===== src/Market/Stable/Writes.antt =====
-- The writes, as an interface that a property of the three tables fills.
use traitkeeper_eco.Base.{
  ℕ, ℤ, pos, ◌<ℤ◌, ◌≤ℤ◌, ◌≡◌, true, false, not, ◌&&◌, Option, none, some, List, ok, ◌==◌,
}
use traitkeeper_eco.Schema.{Nft, PrivateBid, BidStatus, AuctionEvent, AuctionStatus}
use traitkeeper_eco.Table.{find, update}
use traitkeeper_eco.Orm.{
  Db, bid_model, auction_model, update_nft, update_bid, update_bids_where, create_auction,
}
use traitkeeper_eco.Orm.Preserves.{Preserves, KeepsAt}
use traitkeeper_eco.Orm.Tables.{OnMarket}
use traitkeeper_eco.Market.Checks.{is_active_bid, is_active_auction, has_active_auction}
use traitkeeper_eco.Market.Listings.{
  direct_sell_columns, no_direct_sell_columns, sell_intent_columns, no_sell_intent_columns,
  is_open_on, cancelled_bid,
}
use traitkeeper_eco.Market.Sales.{bought_columns, asking_bought_columns}
use traitkeeper_eco.Market.Negotiation.{accepted_columns, resolved_bid, expired_bid}
use traitkeeper_eco.Market.Auctions.{
  auctioned_columns, no_auction_columns, won_columns, outbid, auction_bid_errors, completed_auction,
  cancelled_auction,
}

-- A new auction: no bid, no result, and a starting price that is not negative.
pub record IsNewAuction (a : AuctionEvent) : Type 0 where
  pub is_active : a.status ≡ AuctionStatus.active
  pub no_bid : a.current_bid ≡ none
  pub no_bidder : a.current_bidder ≡ none
  pub not_counted : a.bid_count ≡ 0
  pub no_winner : a.winner ≡ none
  pub no_price : a.final_price ≡ none
  pub not_negative : pos 0 ≤ℤ a.starting_price

pub record Stable (P : List Nft → List PrivateBid → List AuctionEvent → Type 0) : Type 0 where
  pub direct_sell :
      (k : ℕ) (p : ℤ) → pos 0 <ℤ p → Preserves (OnMarket P) (update_nft k (direct_sell_columns p))
  pub sell_intent :
      (k : ℕ) (p : ℤ) → pos 0 <ℤ p → Preserves (OnMarket P) (update_nft k (sell_intent_columns p))
  pub no_direct_sell : (k : ℕ) → Preserves (OnMarket P) (update_nft k no_direct_sell_columns)
  pub no_sell_intent : (k : ℕ) → Preserves (OnMarket P) (update_nft k no_sell_intent_columns)
  pub bought : (k w : ℕ) → Preserves (OnMarket P) (update_nft k (bought_columns w))
  pub asking_bought : (k w : ℕ) → Preserves (OnMarket P) (update_nft k (asking_bought_columns w))
  pub accepted : (k w : ℕ) → Preserves (OnMarket P) (update_nft k (accepted_columns w))
  pub auctioned : (k a : ℕ) → Preserves (OnMarket P) (update_nft k (auctioned_columns a))
  pub no_auction : (k : ℕ) → Preserves (OnMarket P) (update_nft k no_auction_columns)
  pub won : (k : ℕ) (w : Option ℕ) → Preserves (OnMarket P) (update_nft k (won_columns w))
  -- A bid is resolved after it was found active.
  pub accept_bid :
      (b : PrivateBid) (db : Db) (now : ℕ)
      → OnMarket P db
      → find b.bid_id db.bids ≡ some b
      → is_active_bid b ≡ true
      → Preserves (OnMarket P) (update_bid b.bid_id (λ _. resolved_bid BidStatus.accepted now b))
  pub close_bid :
      (b : PrivateBid) (db : Db) (s : BidStatus) (now : ℕ)
      → OnMarket P db
      → find b.bid_id db.bids ≡ some b
      → is_active_bid b ≡ true
      → Preserves (OnMarket P) (update_bid b.bid_id (resolved_bid s now))
  pub expire_bid :
      (b : PrivateBid) (db : Db)
      → OnMarket P db
      → find b.bid_id db.bids ≡ some b
      → is_active_bid b ≡ true
      → Preserves (OnMarket P) (update_bid b.bid_id expired_bid)
  pub cancel_bids :
      (k : ℕ) → Preserves (OnMarket P) (update_bids_where (is_open_on k) cancelled_bid)
  pub cancel_other_bids :
      (k j : ℕ)
      → Preserves
          (OnMarket P)
          (update_bids_where (λ b. is_open_on k b && not (b.bid_id == j)) cancelled_bid)
  -- An auction is created, and changes while it is active.
  pub new_auction :
      (a : AuctionEvent) (db : Db)
      → OnMarket P db
      → IsNewAuction a
      → has_active_auction a.nft db.auctions ≡ false
      → KeepsAt (OnMarket P) (create_auction a) db
  pub higher_bid :
      (a : AuctionEvent) (now bidder : ℕ) (amount : ℤ) (nfts : List Nft) (bids : List PrivateBid)
      (auctions : List AuctionEvent)
      → P nfts bids auctions
      → find a.auction_id auctions ≡ some a
      → auction_bid_errors now bidder amount a ≡ ok tt
      → P nfts bids (update a.auction_id (λ _. outbid bidder amount a) auctions)
  pub complete_auction :
      (a : AuctionEvent) (w : ℕ) (nfts : List Nft) (bids : List PrivateBid)
      (auctions : List AuctionEvent)
      → P nfts bids auctions
      → find a.auction_id auctions ≡ some a
      → is_active_auction a ≡ true
      → a.current_bidder ≡ some w
      → P nfts bids (update a.auction_id (λ _. completed_auction a) auctions)
  pub cancel_auction :
      (a : AuctionEvent) (nfts : List Nft) (bids : List PrivateBid) (auctions : List AuctionEvent)
      → P nfts bids auctions
      → find a.auction_id auctions ≡ some a
      → is_active_auction a ≡ true
      → P nfts bids (update a.auction_id cancelled_auction auctions)
