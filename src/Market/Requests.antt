-- ===== src/Market/Requests.antt =====
-- The calls of the views (marketplace/views.py) on MarketplaceService, and what each does to the
-- database. The view of `finalize_auction` passes the wallet too, which the method does not take;
-- here the method is called with what it takes.
use traitkeeper_eco.Base.{ℕ, ℤ, Option, List, [], ◌∷◌}
use traitkeeper_eco.Chain.{Env}
use traitkeeper_eco.Orm.{Db, Action}
use traitkeeper_eco.Market.Response.{Response}
use traitkeeper_eco.Market.Listings
use traitkeeper_eco.Market.Sales
use traitkeeper_eco.Market.Offers
use traitkeeper_eco.Market.Negotiation
use traitkeeper_eco.Market.Auctions

-- One constructor for each method, with the caller's wallet first.
pub data Request : Type 0 where
  place_private_bid : (bidder nft_mint : ℕ) → ℤ → (expiry_hours : ℕ) → Option ℕ → Request
  confirm_private_bid_tx : (bidder temp_bid_id signature : ℕ) → ℤ → Request
  accept_private_bid reject_private_bid : (owner bid_id : ℕ) → Option ℕ → Request
  cancel_private_bid : (bidder bid_id : ℕ) → Option ℕ → Request
  owner_counter_bid : (owner bid_id : ℕ) → ℤ → Option ℕ → Request
  bidder_counter_sell_intent : (bidder nft_mint : ℕ) → ℤ → Request
  set_direct_sell : (owner nft_mint : ℕ) → ℤ → Request
  remove_direct_sell remove_sell_intent : (owner nft_mint : ℕ) → Request
  set_sell_intent : (owner nft_mint : ℕ) → ℤ → Option ℕ → Request
  execute_direct_buy : (buyer nft_mint : ℕ) → Request
  accept_asking_price : (buyer nft_mint : ℕ) → Option ℕ → Request
  create_private_auction :
      (owner nft_mint : ℕ) → ℤ → (duration_hours : ℕ) → Option ℤ → Option ℕ → Request
  place_auction_bid : (bidder auction_id : ℕ) → ℤ → Option ℕ → Request
  finalize_auction : (auction_id : ℕ) → Option ℕ → Request
  cancel_auction : (owner auction_id : ℕ) → Option ℕ → Request

unfoldable pub handle : Env → Request → Action Response
handle env (place_private_bid w m a h s) = Offers.place_private_bid env w m a h s
handle env (confirm_private_bid_tx w t s a) = Offers.confirm_private_bid_tx env w t s a
handle env (accept_private_bid w b s) = Negotiation.accept_private_bid env w b s
handle env (reject_private_bid w b s) = Negotiation.reject_private_bid env w b s
handle env (cancel_private_bid w b s) = Negotiation.cancel_private_bid env w b s
handle env (owner_counter_bid w b a s) = Negotiation.owner_counter_bid env w b a s
handle env (bidder_counter_sell_intent w m a) = Offers.bidder_counter_sell_intent env w m a
handle env (set_direct_sell w m p) = Listings.set_direct_sell env w m p
handle env (remove_direct_sell w m) = Listings.remove_direct_sell env w m
handle env (remove_sell_intent w m) = Listings.remove_sell_intent env w m
handle env (set_sell_intent w m p s) = Listings.set_sell_intent env w m p s
handle env (execute_direct_buy w m) = Sales.execute_direct_buy env w m
handle env (accept_asking_price w m s) = Sales.accept_asking_price env w m s
handle env (create_private_auction w m p h r s) = Auctions.create_private_auction env w m p h r s
handle env (place_auction_bid w a p s) = Auctions.place_auction_bid env w a p s
handle env (finalize_auction a s) = Auctions.finalize_auction env a s
handle env (cancel_auction w a s) = Auctions.cancel_auction env w a s

-- Calls one after another, each with its own clock, ids and client.
unfoldable pub serve : List (Env × Request) → Db → Db
unfolding handle
serve [] db = db
serve ((env, r) ∷ rest) db = serve rest (handle env r db).1
