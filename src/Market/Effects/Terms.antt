-- ===== src/Market/Effects/Terms.antt =====
-- The terms of bids, purchases, listings and auctions.
use traitkeeper_eco.Base.{
  ℕ, ◌≤◌, ℤ, ◌≡◌, Bool, true, false, ◌||◌, Option, none, some, arith, is_value,
}
use traitkeeper_eco.Schema.{Nft, PrivateBid}
use traitkeeper_eco.Chain.{Env}
use traitkeeper_eco.Table.{find}
use traitkeeper_eco.Orm.{Db, nft_model, bid_model, auction_model}
use traitkeeper_eco.Safety.{validate_bid_placement_safety, count_recent_bids}
use traitkeeper_eco.Market.Checks.{
  is_active_bid, has_active_auction, owner_bid_check, owner_counter_check, create_auction_check,
  cancel_bid_check, direct_buy_check, asking_price_check, place_bid_check, auction_bid_check,
}
use traitkeeper_eco.Market.Requests
use traitkeeper_eco.Market.Requests.{Request, handle}
use traitkeeper_eco.Market.Sales.{execute_direct_buy, accept_asking_price}
use traitkeeper_eco.Market.Offers.{place_private_bid}
use traitkeeper_eco.Market.Negotiation.{
  accept_private_bid, reject_private_bid, cancel_private_bid, owner_counter_bid,
}
use traitkeeper_eco.Market.Auctions.{create_private_auction, place_auction_bid}
use traitkeeper_eco.Market.Effects.Refusals.{IsRefused, by_check, auction_nft}

-- The wallet and the NFT of a call that bids or buys.
abbrev pub buyer_of : Request → ℕ
buyer_of (Requests.place_private_bid w m p h s) = w
buyer_of (Requests.execute_direct_buy w m) = w
buyer_of (Requests.accept_asking_price w m s) = w
buyer_of (Requests.place_auction_bid w a p s) = w
buyer_of _ = 0

abbrev pub wanted_nft : Request → Db → Option Nft
wanted_nft (Requests.place_private_bid w m p h s) db = find m db.nfts
wanted_nft (Requests.execute_direct_buy w m) db = find m db.nfts
wanted_nft (Requests.accept_asking_price w m s) db = find m db.nfts
wanted_nft (Requests.place_auction_bid w a p s) db = auction_nft a db
wanted_nft _ db = none

-- A bid on an NFT, or a purchase of it, raises and changes no row when its wallet owns the NFT.
pub nobody_buys_their_own :
    (env : Env) (r : Request) (db : Db) (n : Nft)
    → wanted_nft r db ≡ some n
    → is_value n.owner (buyer_of r) ≡ true
    → IsRefused (handle env r) db
unfolding handle place_private_bid execute_direct_buy accept_asking_price place_auction_bid
    place_bid_check direct_buy_check asking_price_check auction_bid_check
    validate_bid_placement_safety
nobody_buys_their_own env (Requests.place_private_bid w m p h s) db n e own =
    by_check _ _ db λ x passed. ground arith
nobody_buys_their_own env (Requests.execute_direct_buy w m) db n e own =
    by_check _ _ db λ x passed. ground arith
nobody_buys_their_own env (Requests.accept_asking_price w m s) db n e own =
    by_check _ _ db λ x passed. ground arith
nobody_buys_their_own env (Requests.place_auction_bid w a p s) db n e own =
    by_check _ _ db λ x passed. ground arith
nobody_buys_their_own env _ db n e own = ground arith

-- The bids, private and auction bids, among the calls.
abbrev pub is_bid : Request → Bool
is_bid (Requests.place_private_bid w m p h s) = true
is_bid (Requests.place_auction_bid w a p s) = true
is_bid _ = false

-- A bid on an NFT raises and changes no row when its wallet has placed three private bids on the
-- NFT in the hour before.
pub fourth_bid-IsRefused :
    (env : Env) (r : Request) (db : Db) (n : Nft)
    → is_bid r ≡ true
    → wanted_nft r db ≡ some n
    → 3 ≤ count_recent_bids (env.clock 0) (buyer_of r) n db
    → IsRefused (handle env r) db
unfolding handle place_private_bid place_auction_bid place_bid_check auction_bid_check
    validate_bid_placement_safety
fourth_bid-IsRefused env (Requests.place_private_bid w m p h s) db n is e many =
    by_check _ _ db λ x passed. ground arith
fourth_bid-IsRefused env (Requests.place_auction_bid w a p s) db n is e many =
    by_check _ _ db λ x passed. ground arith
fourth_bid-IsRefused env _ db n is e many = ground arith

-- The bid that a call answers or takes back.
abbrev pub answered_bid : Request → Option ℕ
answered_bid (Requests.accept_private_bid w b s) = some b
answered_bid (Requests.reject_private_bid w b s) = some b
answered_bid (Requests.owner_counter_bid w b p s) = some b
answered_bid (Requests.cancel_private_bid w b s) = some b
answered_bid _ = none

-- A call that answers a bid or takes it back raises and changes no row when the bid is no longer
-- active.
pub resolved_bid-IsRefused :
    (env : Env) (r : Request) (db : Db) (b : PrivateBid)
    → answered_bid r ≡ some b.bid_id
    → find b.bid_id db.bids ≡ some b
    → is_active_bid b ≡ false
    → IsRefused (handle env r) db
unfolding handle accept_private_bid reject_private_bid owner_counter_bid cancel_private_bid
    owner_bid_check owner_counter_check cancel_bid_check
resolved_bid-IsRefused env (Requests.accept_private_bid w k s) db b of e resolved =
    by_check _ _ db λ x passed. ground arith
resolved_bid-IsRefused env (Requests.reject_private_bid w k s) db b of e resolved =
    by_check _ _ db λ x passed. ground arith
resolved_bid-IsRefused env (Requests.owner_counter_bid w k p s) db b of e resolved =
    by_check _ _ db λ x passed. ground arith
resolved_bid-IsRefused env (Requests.cancel_private_bid w k s) db b of e resolved =
    by_check _ _ db λ x passed. ground arith
resolved_bid-IsRefused env _ db b of e resolved = ground arith

-- An NFT that has a price or a sell intent, or is in an active auction, cannot be auctioned: the
-- call raises and changes no row.
pub listed_nft_not_auctioned :
    (env : Env) (w hours : ℕ) (p : ℤ) (reserve : Option ℤ) (signed : Option ℕ) (n : Nft) (db : Db)
    → find n.mint_address db.nfts ≡ some n
    → (n.has_buy_price || n.has_sell_intent || has_active_auction n.mint_address db.auctions) ≡ true
    → IsRefused (create_private_auction env w n.mint_address p hours reserve signed) db
unfolding create_private_auction create_auction_check
listed_nft_not_auctioned env w hours p reserve signed n db e busy =
    by_check _ _ db λ x passed. ground arith
