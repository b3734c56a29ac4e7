-- ===== src/Market/Invariants/Resolved.antt =====
-- A bid that is no longer active, and an auction that is over, are final.

use traitkeeper_eco.Base.{
  ℕ, ℤ, ◌≡◌, ◌≢◌, refl, Bool, true, false, not, ◌&&◌, ◌==◌, some, List, ok, arith,
}
use traitkeeper_eco.Schema.{Nft, PrivateBid, AuctionEvent}
use traitkeeper_eco.Table.{find, update, find-update_where, find-append}
use traitkeeper_eco.Chain.{Env}
use traitkeeper_eco.Orm.{
  Db, bid_model, auction_model, ◌>>=◌, create_auction, update_bid, update_bids_where,
}
use traitkeeper_eco.Orm.Preserves.{Preserves}
use traitkeeper_eco.Orm.Tables.{OnMarket}
use traitkeeper_eco.Market.Checks.{is_active_bid, is_active_auction}
use traitkeeper_eco.Market.Listings.{is_open_on}
use traitkeeper_eco.Market.Negotiation.{expired_bid}
use traitkeeper_eco.Market.Auctions.{
  outbid, auction_bid_errors, completed_auction, cancelled_auction,
}
use traitkeeper_eco.Market.Requests.{Request, serve}
use traitkeeper_eco.Market.Stable.Writes.{Stable}
use traitkeeper_eco.Market.Stable.Calls.{serve_keeps}

module _ (b : PrivateBid) (resolved : is_active_bid b ≡ false) where
  abbrev IsKept : List Nft → List PrivateBid → List AuctionEvent → Type 0
  IsKept nfts bids auctions = find b.bid_id bids ≡ some b

  -- An active bid is another bid.
  other_bid :
      (c : PrivateBid) (bids : List PrivateBid)
      → find b.bid_id bids ≡ some b
      → find c.bid_id bids ≡ some c
      → is_active_bid c ≡ true
      → c.bid_id ≢ b.bid_id
  other_bid c bids hb hc active same = cc

  update_skipping :
      (p : PrivateBid → Bool) (f : PrivateBid → PrivateBid)
      → p b ≡ false
      → ((r : PrivateBid) → p r ≡ true → (f r).bid_id ≡ r.bid_id)
      → Preserves (OnMarket IsKept) (update_bids_where p f)
  unfolding ◌>>=◌
  update_skipping p f skip keeps = record {
    holds = λ db h. ground (arith, find-update_where p f b.bid_id db.bids keeps);
  }

  update_other :
      (k : ℕ) (f : PrivateBid → PrivateBid)
      → k ≢ b.bid_id
      → ((r : PrivateBid) → r.bid_id ≡ k → (f r).bid_id ≡ k)
      → Preserves (OnMarket IsKept) (update_bid k f)
  unfolding ◌>>=◌
  update_other k f other keeps =
      update_skipping (λ r. r.bid_id == k) f (ground arith) (λ r e. ground (arith, keeps r))

  Stable-IsKept : Stable IsKept
  unfolding expired_bid create_auction ◌>>=◌
  Stable-IsKept = record {
    direct_sell = λ k p positive. record { holds = λ db h. h };
    sell_intent = λ k p positive. record { holds = λ db h. h };
    no_direct_sell = λ k. record { holds = λ db h. h };
    no_sell_intent = λ k. record { holds = λ db h. h };
    bought = λ k w. record { holds = λ db h. h };
    asking_bought = λ k w. record { holds = λ db h. h };
    accepted = λ k w. record { holds = λ db h. h };
    auctioned = λ k a. record { holds = λ db h. h };
    no_auction = λ k. record { holds = λ db h. h };
    won = λ k w. record { holds = λ db h. h };
    accept_bid =
        λ c db now h e ac. update_other c.bid_id _ (other_bid c db.bids h e ac) (λ r _. refl);
    close_bid =
        λ c db s now h e ac. update_other c.bid_id _ (other_bid c db.bids h e ac) (λ r same. same);
    expire_bid =
        λ c db h e ac. update_other c.bid_id _ (other_bid c db.bids h e ac) (λ r same. same);
    cancel_bids = λ k. update_skipping (is_open_on k) _ (ground arith) (λ r _. refl);
    cancel_other_bids = λ k j.
        update_skipping (λ r. is_open_on k r && not (r.bid_id == j)) _ (ground arith) (λ r _. refl);
    new_auction = λ a db h new free. record { at = ground arith };
    higher_bid = λ a now w p nfts bids auctions h e passed. h;
    complete_auction = λ a w nfts bids auctions h e ac won. h;
    cancel_auction = λ a nfts bids auctions h e ac. h;
  }

-- A bid that was accepted, rejected, cancelled or has expired is final: no sequence of calls
-- changes its row.
pub resolved_bid_is_final :
    (calls : List (Env × Request)) (b : PrivateBid) (db : Db)
    → is_active_bid b ≡ false
    → find b.bid_id db.bids ≡ some b
    → find b.bid_id (serve calls db).bids ≡ some b
resolved_bid_is_final calls b db resolved h = serve_keeps (Stable-IsKept b resolved) calls db h

module _ (a : AuctionEvent) (over : is_active_auction a ≡ false) where
  abbrev IsOver : List Nft → List PrivateBid → List AuctionEvent → Type 0
  IsOver nfts bids auctions = find a.auction_id auctions ≡ some a

  other_auction :
      (c : AuctionEvent) (auctions : List AuctionEvent)
      → find a.auction_id auctions ≡ some a
      → find c.auction_id auctions ≡ some c
      → is_active_auction c ≡ true
      → c.auction_id ≢ a.auction_id
  other_auction c auctions ha hc active same = cc

  update_other_auction :
      (c : AuctionEvent) (f : AuctionEvent → AuctionEvent) (auctions : List AuctionEvent)
      → find a.auction_id auctions ≡ some a
      → find c.auction_id auctions ≡ some c
      → is_active_auction c ≡ true
      → ((r : AuctionEvent) → r.auction_id ≡ c.auction_id → (f r).auction_id ≡ c.auction_id)
      → find a.auction_id (update c.auction_id f auctions) ≡ some a
  update_other_auction c f auctions ha hc active keeps = ground (
    arith,
    other_auction c auctions ha hc active,
    find-update_where (λ (r : AuctionEvent). r.auction_id == c.auction_id) f a.auction_id auctions
        (λ r e. ground (arith, keeps r)),
  )

  active_auction_passes :
      (now w : ℕ) (p : ℤ) (c : AuctionEvent)
      → auction_bid_errors now w p c ≡ ok tt
      → is_active_auction c ≡ true
  unfolding auction_bid_errors
  active_auction_passes now w p c e = ground arith

  Stable-IsOver : Stable IsOver
  unfolding outbid completed_auction cancelled_auction create_auction ◌>>=◌
  Stable-IsOver = record {
    direct_sell = λ k p positive. record { holds = λ db h. h };
    sell_intent = λ k p positive. record { holds = λ db h. h };
    no_direct_sell = λ k. record { holds = λ db h. h };
    no_sell_intent = λ k. record { holds = λ db h. h };
    bought = λ k w. record { holds = λ db h. h };
    asking_bought = λ k w. record { holds = λ db h. h };
    accepted = λ k w. record { holds = λ db h. h };
    auctioned = λ k a. record { holds = λ db h. h };
    no_auction = λ k. record { holds = λ db h. h };
    won = λ k w. record { holds = λ db h. h };
    accept_bid = λ b db now h e a. record { holds = λ db h. h };
    close_bid = λ b db s now h e a. record { holds = λ db h. h };
    expire_bid = λ b db h e a. record { holds = λ db h. h };
    cancel_bids = λ k. record { holds = λ db h. h };
    cancel_other_bids = λ k j. record { holds = λ db h. h };
    new_auction =
        λ c db h new free. record { at = ground (arith, find-append a.auction_id db.auctions c) };
    higher_bid = λ c now w p nfts bids auctions h e passed.
        update_other_auction c _ auctions h e (active_auction_passes now w p c passed)
          (λ r _. refl);
    complete_auction = λ c w nfts bids auctions h e active won.
        update_other_auction c _ auctions h e active (λ r _. refl);
    cancel_auction = λ c nfts bids auctions h e active.
        update_other_auction c _ auctions h e active (λ r same. same);
  }

-- An auction that was completed or cancelled is final: no sequence of calls changes its row.
pub closed_auction_is_final :
    (calls : List (Env × Request)) (a : AuctionEvent) (db : Db)
    → is_active_auction a ≡ false
    → find a.auction_id db.auctions ≡ some a
    → find a.auction_id (serve calls db).auctions ≡ some a
closed_auction_is_final calls a db over h = serve_keeps (Stable-IsOver a over) calls db h
