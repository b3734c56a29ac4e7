-- ===== src/Market/Invariants/Single.antt =====
-- Each NFT is in one auction at a time.
use mathlib.Core.Option
use traitkeeper_eco.Base.{
  ℕ, ℤ, ◌≡◌, Bool, true, false, ◌&&◌, ◌==◌, some, List, [], ◌∷◌, ok, arith, count_if, Bool-cases,
  Option-cases, inl, inr, if◌then◌else◌,
}
use traitkeeper_eco.Schema.{Nft, PrivateBid, AuctionEvent}
use traitkeeper_eco.Table.{find, update, is_taken, find-update_where, find-append, pk-find}
use traitkeeper_eco.Chain.{Env}
use traitkeeper_eco.Orm.{Db, auction_model, ◌>>=◌, create_auction}
use traitkeeper_eco.Orm.Preserves.{KeepsAt}
use traitkeeper_eco.Orm.Tables.{OnMarket}
use traitkeeper_eco.Market.Checks.{is_active_auction, has_active_auction}
use traitkeeper_eco.Market.Auctions.{auction_bid_errors}
use traitkeeper_eco.Market.Requests.{Request, serve}
use traitkeeper_eco.Market.Columns.{outbid-id, completed-id, cancelled-id}
use traitkeeper_eco.Market.Stable.Writes.{Stable}
use traitkeeper_eco.Market.Stable.Calls.{serve_keeps}
use traitkeeper_eco.Market.Columns.{cancelled-nft, completed-nft, outbid-nft}

-- Two keys of active auctions on one NFT are one key.
abbrev pub HasSingleAuctions : List AuctionEvent → Type 0
HasSingleAuctions auctions =
    (j k : ℕ) (a b : AuctionEvent)
    → find j auctions ≡ some a
    → find k auctions ≡ some b
    → is_active_auction a ≡ true
    → is_active_auction b ≡ true
    → a.nft ≡ b.nft
    → j ≡ k

abbrev AreSingle : List Nft → List PrivateBid → List AuctionEvent → Type 0
AreSingle nfts bids auctions = HasSingleAuctions auctions

-- A found row that matches is counted.
found_counts :
    (p : AuctionEvent → Bool) (k : ℕ) (t : List AuctionEvent) (a : AuctionEvent)
    → find k t ≡ some a
    → p a ≡ true
    → (count_if p t == 0) ≡ false
unfolding find
found_counts p k [] a e h = ground arith
found_counts p k (r ∷ t) a e h = ground (arith, found_counts p k t a)

busy :
    (k : ℕ) (auctions : List AuctionEvent) (a b : AuctionEvent)
    → find k auctions ≡ some b
    → is_active_auction b ≡ true
    → has_active_auction a.nft auctions ≡ false
    → (b.nft == a.nft) ≡ false
unfolding has_active_auction
busy k auctions a b e active free = ground (
  arith,
  found_counts (λ (c : AuctionEvent). c.nft == a.nft && is_active_auction c) k auctions b e,
)

created-AreSingle :
    (a : AuctionEvent) (db : Db)
    → OnMarket AreSingle db
    → has_active_auction a.nft db.auctions ≡ false
    → KeepsAt (OnMarket AreSingle) (create_auction a) db
unfolding create_auction
created-AreSingle a db h free = record {
  at =
      elim (Bool-cases (is_taken a db.auctions))
        as (λ _. HasSingleAuctions (create_auction a db).1.auctions) [
          | inl taken ↦
              λ j k x y ex ey ax ay same. h j k x y (ground arith) (ground arith) ax ay same
          | inr fresh ↦ λ j k x y ex ey ax ay same. ground (
            arith,
            find-append j db.auctions a,
            find-append k db.auctions a,
            h j k x y,
            busy j db.auctions a x,
            busy k db.auctions a y,
          )
        ];
}

-- A row that is found after a save was found before it, on the same NFT, and was active if it is.
found_before :
    (c : AuctionEvent) (f : AuctionEvent → AuctionEvent) (auctions : List AuctionEvent)
    → find c.auction_id auctions ≡ some c
    → (f c).nft ≡ c.nft
    → (is_active_auction (f c) ≡ true → is_active_auction c ≡ true)
    → ((r : AuctionEvent) → r.auction_id ≡ c.auction_id → (f r).auction_id ≡ c.auction_id)
    → (k : ℕ) (r : AuctionEvent) → find k (update c.auction_id f auctions) ≡ some r
    → is_active_auction r ≡ true
    → (x : AuctionEvent) × (find k auctions ≡ some x)
      × (is_active_auction x ≡ true)
      × (x.nft ≡ r.nft)
found_before c f auctions row same_nft active keeps k r e ar =
    elim (Option-cases (find k auctions)) [
      | inl missing ↦ ground (arith, moved)
      | inr (x, found) ↦ (x, found, was_active x found, on_nft x found)
    ]
  where
    moved :
        find k (update c.auction_id f auctions)
        ≡ Option.map (λ x. if x.auction_id == c.auction_id then f x else x) (find k auctions)
    moved =
        find-update_where (λ (x : AuctionEvent). x.auction_id == c.auction_id) f k auctions
          (λ x same. ground (arith, keeps x))

    was_active : (x : AuctionEvent) → find k auctions ≡ some x → is_active_auction x ≡ true
    was_active x found = grind (arith, moved, active, pk-find k {r = x} auctions)

    on_nft : (x : AuctionEvent) → find k auctions ≡ some x → x.nft ≡ r.nft
    on_nft x found = grind (arith, moved, same_nft, pk-find k {r = x} auctions)

update-AreSingle :
    (c : AuctionEvent) (f : AuctionEvent → AuctionEvent) (auctions : List AuctionEvent)
    → HasSingleAuctions auctions
    → find c.auction_id auctions ≡ some c
    → (f c).nft ≡ c.nft
    → (is_active_auction (f c) ≡ true → is_active_auction c ≡ true)
    → ((r : AuctionEvent) → r.auction_id ≡ c.auction_id → (f r).auction_id ≡ c.auction_id)
    → HasSingleAuctions (update c.auction_id f auctions)
update-AreSingle c f auctions h row same_nft active keeps j k a b ea eb aa ab same =
    let (x, ex, ax, nx) = found_before c f auctions row same_nft active keeps j a ea aa in
    let (y, ey, ay, ny) = found_before c f auctions row same_nft active keeps k b eb ab in
    h j k x y ex ey ax ay (cc)

passed-active :
    (now w : ℕ) (p : ℤ) (a : AuctionEvent)
    → auction_bid_errors now w p a ≡ ok tt
    → is_active_auction a ≡ true
unfolding auction_bid_errors
passed-active now w p a e = ground arith

Stable-AreSingle : Stable AreSingle
unfolding ◌>>=◌
Stable-AreSingle = record {
  direct_sell = λ k p positive. record { holds = λ db h. h };
  sell_intent = λ k p positive. record { holds = λ db h. h };
  no_direct_sell = λ k. record { holds = λ db h. h };
  no_sell_intent = λ k. record { holds = λ db h. h };
  bought = λ k w. record { holds = λ db h. h };
  asking_bought = λ k w. record { holds = λ db h. h };
  accepted = λ k w. record { holds = λ db h. h };
  auctioned = λ k a. record { holds = λ db h. h };
  no_auction = λ k. record { holds = λ db h. h };
  won = λ k w. record { holds = λ db h. h };
  accept_bid = λ b db now h e a. record { holds = λ db h. h };
  close_bid = λ b db s now h e a. record { holds = λ db h. h };
  expire_bid = λ b db h e a. record { holds = λ db h. h };
  cancel_bids = λ k. record { holds = λ db h. h };
  cancel_other_bids = λ k j. record { holds = λ db h. h };
  new_auction = λ a db h new free. created-AreSingle a db h free;
  higher_bid = λ a now w p nfts bids auctions h e passed.
      update-AreSingle a _ auctions h e (outbid-nft w p a) (λ _. passed-active now w p a passed)
        (λ r _. outbid-id w p a);
  complete_auction = λ a w nfts bids auctions h e active won.
      update-AreSingle a _ auctions h e (completed-nft a) (λ _. active) (λ r _. completed-id a);
  cancel_auction = λ a nfts bids auctions h e active.
      update-AreSingle a _ auctions h e (cancelled-nft a) (λ _. active)
        (λ r same. cancelled-id r same);
}

-- From a database where no NFT is in two active auctions, no sequence of calls leads to one where
-- an NFT is.
pub serve-HasSingleAuctions :
    (calls : List (Env × Request)) (db : Db)
    → HasSingleAuctions db.auctions
    → HasSingleAuctions (serve calls db).auctions
serve-HasSingleAuctions calls db h = serve_keeps Stable-AreSingle calls db h
