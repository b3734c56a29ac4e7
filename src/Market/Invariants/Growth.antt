-- ===== src/Market/Invariants/Growth.antt =====
-- What the calls keep of an auction's row while it runs.
use mathlib.Core.Option
use mathlib.Core.Path.{subst}
use traitkeeper_eco.Base.{
  ℕ, ◌≤◌, ℤ, pos, ◌<ℤ◌, ◌≤ℤ◌, ◌≡◌, refl, ◌==◌, some, List, ok, arith, Bool-cases, inl, inr,
  if◌then◌else◌,
}
use traitkeeper_eco.Schema.{Nft, PrivateBid, AuctionEvent}
use traitkeeper_eco.Table.{find, update, find-update_where, find-append, pk-find}
use traitkeeper_eco.Amounts.{to_column_above}
use traitkeeper_eco.Chain.{Env}
use traitkeeper_eco.Orm.{Db, auction_model, ◌>>=◌, create_auction}
use traitkeeper_eco.Orm.Preserves.{Preserves, at-Preserves}
use traitkeeper_eco.Orm.Tables.{OnMarket}
use traitkeeper_eco.Market.Auctions.{
  min_bid, outbid, auction_bid_errors, completed_auction, cancelled_auction,
}
use traitkeeper_eco.Market.Requests.{Request, serve}
use traitkeeper_eco.Market.Stable.Writes.{Stable}
use traitkeeper_eco.Market.Columns.{outbid-id, completed-id, cancelled-id}
use traitkeeper_eco.Market.Stable.Calls.{serve_keeps}

-- A later row of an auction: its terms are the same, and its bids have only grown.
pub record IsLater (a b : AuctionEvent) : Type 0 where
  pub same_nft : b.nft ≡ a.nft
  pub same_creator : b.creator ≡ a.creator
  pub same_start : b.starting_price ≡ a.starting_price
  pub same_end : b.end_time ≡ a.end_time
  pub higher : min_bid a ≤ℤ min_bid b
  pub more : a.bid_count ≤ b.bid_count

self-IsLater : (a : AuctionEvent) → IsLater a a
self-IsLater a = record {
  same_nft = refl;
  same_creator = refl;
  same_start = refl;
  same_end = refl;
  higher = omega arith;
  more = omega arith;
}

outbid-IsLater :
    (now w : ℕ) (p : ℤ) (a b : AuctionEvent)
    → auction_bid_errors now w p b ≡ ok tt
    → pos 0 <ℤ min_bid a
    → IsLater a b
    → IsLater a (outbid w p b)
unfolding auction_bid_errors outbid min_bid
outbid-IsLater now w p a b passed positive l = record {
  same_nft = l.same_nft;
  same_creator = l.same_creator;
  same_start = l.same_start;
  same_end = l.same_end;
  higher = ground (arith, l.higher, to_column_above (min_bid b) p);
  more = omega (arith, l.more);
}

completed-IsLater : (a b : AuctionEvent) → IsLater a b → IsLater a (completed_auction b)
unfolding completed_auction min_bid
completed-IsLater a b l = record {
  same_nft = l.same_nft;
  same_creator = l.same_creator;
  same_start = l.same_start;
  same_end = l.same_end;
  higher = l.higher;
  more = l.more;
}

cancelled-IsLater : (a b : AuctionEvent) → IsLater a b → IsLater a (cancelled_auction b)
unfolding cancelled_auction min_bid
cancelled-IsLater a b l = record {
  same_nft = l.same_nft;
  same_creator = l.same_creator;
  same_start = l.same_start;
  same_end = l.same_end;
  higher = l.higher;
  more = l.more;
}

module _ (a : AuctionEvent) where
  abbrev IsGrowing : List Nft → List PrivateBid → List AuctionEvent → Type 0
  IsGrowing nfts bids auctions =
      (b : AuctionEvent) × (find a.auction_id auctions ≡ some b) × IsLater a b

  -- A save on a row that was found.
  update-IsGrowing :
      (c : AuctionEvent) (f : AuctionEvent → AuctionEvent) (nfts : List Nft)
      (bids : List PrivateBid) (auctions : List AuctionEvent)
      → IsGrowing nfts bids auctions
      → find c.auction_id auctions ≡ some c
      → (IsLater a c → IsLater a (f c))
      → ((r : AuctionEvent) → r.auction_id ≡ c.auction_id → (f r).auction_id ≡ c.auction_id)
      → IsGrowing nfts bids (update c.auction_id f auctions)
  update-IsGrowing c f nfts bids auctions (b, found, later) row grows keeps =
      elim (Bool-cases (b.auction_id == c.auction_id)) [
        | inl same ↦ (
          f c,
          ground (arith, moved, pk-find a.auction_id {r = b} auctions),
          grows (subst (IsLater a) (ground (arith, pk-find a.auction_id {r = b} auctions)) later),
        )
        | inr other ↦ (b, ground (arith, moved), later)
      ]
    where
      moved :
          find a.auction_id (update c.auction_id f auctions)
          ≡ Option.map
              (λ x. if x.auction_id == c.auction_id then f x else x)
              (find a.auction_id auctions)
      moved =
          find-update_where (λ (x : AuctionEvent). x.auction_id == c.auction_id) f a.auction_id
            auctions (λ x e. ground (arith, keeps x))

  created-IsGrowing : (c : AuctionEvent) → Preserves (OnMarket IsGrowing) (create_auction c)
  unfolding create_auction
  created-IsGrowing c = record {
    holds = λ db h. (h.0, ground (arith, h.1, find-append a.auction_id db.auctions c), h.2);
  }

  Stable-IsGrowing : pos 0 <ℤ min_bid a → Stable IsGrowing
  unfolding ◌>>=◌
  Stable-IsGrowing positive = record {
    direct_sell = λ k p positive. record { holds = λ db h. h };
    sell_intent = λ k p positive. record { holds = λ db h. h };
    no_direct_sell = λ k. record { holds = λ db h. h };
    no_sell_intent = λ k. record { holds = λ db h. h };
    bought = λ k w. record { holds = λ db h. h };
    asking_bought = λ k w. record { holds = λ db h. h };
    accepted = λ k w. record { holds = λ db h. h };
    auctioned = λ k a. record { holds = λ db h. h };
    no_auction = λ k. record { holds = λ db h. h };
    won = λ k w. record { holds = λ db h. h };
    accept_bid = λ b db now h e a. record { holds = λ db h. h };
    close_bid = λ b db s now h e a. record { holds = λ db h. h };
    expire_bid = λ b db h e a. record { holds = λ db h. h };
    cancel_bids = λ k. record { holds = λ db h. h };
    cancel_other_bids = λ k j. record { holds = λ db h. h };
    new_auction = λ c db h new free. at-Preserves db h (created-IsGrowing c);
    higher_bid = λ c now w p nfts bids auctions h e passed.
        update-IsGrowing c _ nfts bids auctions h e (outbid-IsLater now w p a c passed positive)
          (λ r _. outbid-id w p c);
    complete_auction = λ c w nfts bids auctions h e active won.
        update-IsGrowing c _ nfts bids auctions h e (completed-IsLater a c) (λ r _. completed-id c);
    cancel_auction = λ c nfts bids auctions h e active.
        update-IsGrowing c _ nfts bids auctions h e (cancelled-IsLater a c)
          (λ r same. cancelled-id r same);
  }

-- An auction with a positive bid to beat stays in the database under any sequence of calls, with
-- the same NFT, creator, starting price and end; the bid to beat never falls and the count of bids
-- never decreases.
pub auction_only_grows :
    (calls : List (Env × Request)) (a : AuctionEvent) (db : Db)
    → pos 0 <ℤ min_bid a
    → find a.auction_id db.auctions ≡ some a
    → (b : AuctionEvent) × (find a.auction_id (serve calls db).auctions ≡ some b) × IsLater a b
auction_only_grows calls a db positive h =
    serve_keeps (Stable-IsGrowing a positive) calls db (a, h, self-IsLater a)
