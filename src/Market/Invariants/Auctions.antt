-- ===== src/Market/Invariants/Auctions.antt =====
-- The bids and the result of an auction.

use traitkeeper_eco.Base.{
  ℕ, ℤ, pos, ◌≤ℤ◌, ◌≡◌, refl, Bool, true, false, ◌==◌, none, some, List, ok, arith, is_none,
  is_value, Bool-cases, Option-cases, inl, inr, if◌then◌else◌,
}
use traitkeeper_eco.Schema.{Nft, PrivateBid, AuctionEvent, AuctionStatus}
use traitkeeper_eco.Table.{find, update, is_taken, found_after, found_appended}
use traitkeeper_eco.Amounts.{to_column_above}
use traitkeeper_eco.Chain.{Env}
use traitkeeper_eco.Orm.{Db, auction_model, ◌>>=◌, create_auction}
use traitkeeper_eco.Orm.Preserves.{Preserves, at-Preserves}
use traitkeeper_eco.Orm.Tables.{OnMarket}
use traitkeeper_eco.Market.Checks.{is_active_auction}
use traitkeeper_eco.Market.Auctions.{
  min_bid, outbid, auction_bid_errors, completed_auction, cancelled_auction,
}
use traitkeeper_eco.Market.Requests.{Request, serve}
use traitkeeper_eco.Market.Stable.Writes.{Stable, IsNewAuction}
use traitkeeper_eco.Market.Stable.Calls.{serve_keeps}
use traitkeeper_eco.Market.Columns.{cancelled-id, completed-id, outbid-id}

abbrev pub is_completed : AuctionEvent → Bool
is_completed a = elim a.status [ AuctionStatus.completed ↦ true | _ ↦ false ]

-- The starting price is not negative; there is a highest bid when there is a highest bidder, and then
-- bids are counted; no bid is below the starting price; the creator does not bid; and the
-- result of a completed auction is its highest bid, which it has, while no other has a result.
pub record IsValidAuction (a : AuctionEvent) : Type 0 where
  pub not_negative : pos 0 ≤ℤ a.starting_price
  pub paired : is_none a.current_bid ≡ is_none a.current_bidder
  pub counted : is_none a.current_bid ≡ (a.bid_count == 0)
  pub above : (p : ℤ) → a.current_bid ≡ some p → a.starting_price ≤ℤ p
  pub by_other : is_value a.current_bidder a.creator ≡ false
  pub won : a.winner ≡ (if is_completed a then a.current_bidder else none)
  pub priced : a.final_price ≡ (if is_completed a then a.current_bid else none)
  pub has_winner : is_completed a ≡ true → is_none a.current_bidder ≡ false

outbid-IsValidAuction :
    (now w : ℕ) (p : ℤ) (a : AuctionEvent)
    → auction_bid_errors now w p a ≡ ok tt
    → IsValidAuction a
    → IsValidAuction (outbid w p a)
unfolding auction_bid_errors outbid min_bid
outbid-IsValidAuction now w p a passed v = record {
  not_negative = v.not_negative;
  paired = refl;
  counted = ground arith;
  above = λ q e. elim (Option-cases a.current_bid) [
    | inl no_bid ↦ ground (arith, e, to_column_above a.starting_price p)
    | inr (c, bid) ↦ ground (
      arith,
      e,
      bid,
      v.above c bid,
      v.not_negative,
      to_column_above a.starting_price p,
      to_column_above c p,
    )
  ];
  by_other = ground arith;
  won = ground (arith, v.won);
  priced = ground (arith, v.priced);
  has_winner = λ e. refl;
}

completed-IsValidAuction :
    (w : ℕ) (a : AuctionEvent)
    → a.current_bidder ≡ some w
    → IsValidAuction a
    → IsValidAuction (completed_auction a)
unfolding completed_auction
completed-IsValidAuction w a won v = record {
  not_negative = v.not_negative;
  paired = v.paired;
  counted = v.counted;
  above = v.above;
  by_other = v.by_other;
  won = refl;
  priced = refl;
  has_winner = λ e. ground arith;
}

cancelled-IsValidAuction :
    (a : AuctionEvent)
    → is_active_auction a ≡ true
    → IsValidAuction a
    → IsValidAuction (cancelled_auction a)
unfolding cancelled_auction
cancelled-IsValidAuction a active v = record {
  not_negative = v.not_negative;
  paired = v.paired;
  counted = v.counted;
  above = v.above;
  by_other = v.by_other;
  won = ground (arith, v.won);
  priced = ground (arith, v.priced);
  has_winner = λ e. ground arith;
}

new-IsValidAuction : (a : AuctionEvent) → IsNewAuction a → IsValidAuction a
new-IsValidAuction a n = record {
  not_negative = n.not_negative;
  paired = ground (arith, n.no_bid, n.no_bidder);
  counted = ground (arith, n.no_bid, n.not_counted);
  above = λ p e. ground (arith, n.no_bid);
  by_other = ground (arith, n.no_bidder);
  won = ground (arith, n.no_winner, n.is_active);
  priced = ground (arith, n.no_price, n.is_active);
  has_winner = λ e. ground (arith, n.is_active);
}

abbrev pub AreValid : List Nft → List PrivateBid → List AuctionEvent → Type 0
AreValid nfts bids auctions =
    (k : ℕ) (a : AuctionEvent) → find k auctions ≡ some a → IsValidAuction a

created-AreValid :
    (a : AuctionEvent) → IsValidAuction a → Preserves (OnMarket AreValid) (create_auction a)
unfolding create_auction
created-AreValid a valid = record {
  holds = λ db h.
      elim (Bool-cases (is_taken a db.auctions))
        as (λ _. AreValid db.nfts db.bids (create_auction a db).1.auctions) [
          | inl taken ↦ λ k b e. h k b (ground arith)
          | inr fresh ↦
              λ k b e. found_appended IsValidAuction a db.auctions h valid k b (ground arith)
        ];
}

-- A save on a row that was found changes that row and no other.
update-AreValid :
    (c : AuctionEvent) (f : AuctionEvent → AuctionEvent) (nfts : List Nft) (bids : List PrivateBid)
    (auctions : List AuctionEvent)
    → AreValid nfts bids auctions
    → find c.auction_id auctions ≡ some c
    → IsValidAuction (f c)
    → ((r : AuctionEvent) → r.auction_id ≡ c.auction_id → (f r).auction_id ≡ c.auction_id)
    → AreValid nfts bids (update c.auction_id f auctions)
update-AreValid c f nfts bids auctions h row valid keeps k a e =
    found_after IsValidAuction f c auctions h row valid keeps k a e

Stable-AreValid : Stable AreValid
unfolding create_auction ◌>>=◌
Stable-AreValid = record {
  direct_sell = λ k p positive. record { holds = λ db h. h };
  sell_intent = λ k p positive. record { holds = λ db h. h };
  no_direct_sell = λ k. record { holds = λ db h. h };
  no_sell_intent = λ k. record { holds = λ db h. h };
  bought = λ k w. record { holds = λ db h. h };
  asking_bought = λ k w. record { holds = λ db h. h };
  accepted = λ k w. record { holds = λ db h. h };
  auctioned = λ k a. record { holds = λ db h. h };
  no_auction = λ k. record { holds = λ db h. h };
  won = λ k w. record { holds = λ db h. h };
  accept_bid = λ b db now h e a. record { holds = λ db h. h };
  close_bid = λ b db s now h e a. record { holds = λ db h. h };
  expire_bid = λ b db h e a. record { holds = λ db h. h };
  cancel_bids = λ k. record { holds = λ db h. h };
  cancel_other_bids = λ k j. record { holds = λ db h. h };
  new_auction =
      λ a db h new free. at-Preserves db h (created-AreValid a (new-IsValidAuction a new));
  higher_bid = λ a now w p nfts bids auctions h e passed.
      update-AreValid a _ nfts bids auctions h e
        (outbid-IsValidAuction now w p a passed (h a.auction_id a e)) (λ r _. outbid-id w p a);
  complete_auction = λ a w nfts bids auctions h e active won.
      update-AreValid a _ nfts bids auctions h e
        (completed-IsValidAuction w a won (h a.auction_id a e)) (λ r _. completed-id a);
  cancel_auction = λ a nfts bids auctions h e active.
      update-AreValid a _ nfts bids auctions h e
        (cancelled-IsValidAuction a active (h a.auction_id a e)) (λ r same. cancelled-id r same);
}

-- From a database where every auction is valid, any sequence of calls leads to such a database: in
-- each auction the highest bid, its bidder and the count of bids agree, no bid is below
-- the starting price, which is not negative, and none is the creator's, and the winner and final price are the
-- highest bidder and bid of an auction that was completed, which had one, and absent otherwise.
pub serve-IsValidAuction :
    (calls : List (Env × Request)) (db : Db)
    → ((k : ℕ) (a : AuctionEvent) → find k db.auctions ≡ some a → IsValidAuction a)
    → (k : ℕ) (a : AuctionEvent) → find k (serve calls db).auctions ≡ some a
    → IsValidAuction a
serve-IsValidAuction calls db h = serve_keeps Stable-AreValid calls db h
