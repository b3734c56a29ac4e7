-- ===== src/Market/Stable/Calls.antt =====
-- The calls of the service, and sequences of them, by their writes.
use traitkeeper_eco.Base.{List, [], ◌∷◌}
use traitkeeper_eco.Schema.{Nft, PrivateBid, AuctionEvent}
use traitkeeper_eco.Chain.{Env}
use traitkeeper_eco.Orm.{Db}
use traitkeeper_eco.Orm.Preserves.{Preserves}
use traitkeeper_eco.Orm.Tables.{OnMarket}
use traitkeeper_eco.Market.Requests.{Request, handle, serve}
use traitkeeper_eco.Market.Stable.Writes.{Stable}
use traitkeeper_eco.Market.Stable.Nfts.{
  set_direct_sell-Preserves, remove_direct_sell-Preserves, set_sell_intent-Preserves,
  remove_sell_intent-Preserves, execute_direct_buy-Preserves, accept_asking_price-Preserves,
}
use traitkeeper_eco.Market.Stable.Bids.{
  place_private_bid-Preserves, confirm_private_bid_tx-Preserves, accept_private_bid-Preserves,
  reject_private_bid-Preserves, cancel_private_bid-Preserves, owner_counter_bid-Preserves,
  bidder_counter_sell_intent-Preserves,
}
use traitkeeper_eco.Market.Stable.Auctions.{
  create_private_auction-Preserves, place_auction_bid-Preserves, finalize_auction-Preserves,
  cancel_auction-Preserves,
}

module _ {P : List Nft → List PrivateBid → List AuctionEvent → Type 0} (s : Stable P) where
  pub handle-Preserves : (env : Env) (r : Request) → Preserves (OnMarket P) (handle env r)
  unfolding handle
  handle-Preserves env (Request.place_private_bid w m a h g) =
      place_private_bid-Preserves s env w m a h g
  handle-Preserves env (Request.confirm_private_bid_tx w t g a) =
      confirm_private_bid_tx-Preserves s env w t g a
  handle-Preserves env (Request.accept_private_bid w b g) = accept_private_bid-Preserves s env w b g
  handle-Preserves env (Request.reject_private_bid w b g) = reject_private_bid-Preserves s env w b g
  handle-Preserves env (Request.cancel_private_bid w b g) = cancel_private_bid-Preserves s env w b g
  handle-Preserves env (Request.owner_counter_bid w b a g) =
      owner_counter_bid-Preserves s env w b a g
  handle-Preserves env (Request.bidder_counter_sell_intent w m a) =
      bidder_counter_sell_intent-Preserves s env w m a
  handle-Preserves env (Request.set_direct_sell w m p) = set_direct_sell-Preserves s env w m p
  handle-Preserves env (Request.remove_direct_sell w m) = remove_direct_sell-Preserves s env w m
  handle-Preserves env (Request.remove_sell_intent w m) = remove_sell_intent-Preserves s env w m
  handle-Preserves env (Request.set_sell_intent w m p g) = set_sell_intent-Preserves s env w m p g
  handle-Preserves env (Request.execute_direct_buy w m) = execute_direct_buy-Preserves s env w m
  handle-Preserves env (Request.accept_asking_price w m g) =
      accept_asking_price-Preserves s env w m g
  handle-Preserves env (Request.create_private_auction w m p h r g) =
      create_private_auction-Preserves s env w m p h r g
  handle-Preserves env (Request.place_auction_bid w a p g) =
      place_auction_bid-Preserves s env w a p g
  handle-Preserves env (Request.finalize_auction a g) = finalize_auction-Preserves s env a g
  handle-Preserves env (Request.cancel_auction w a g) = cancel_auction-Preserves s env w a g

  pub serve_keeps :
      (calls : List (Env × Request)) (db : Db) → OnMarket P db → OnMarket P (serve calls db)
  unfolding serve
  serve_keeps [] db h = h
  serve_keeps ((env, r) ∷ rest) db h =
      serve_keeps rest (handle env r db).1 ((handle-Preserves env r).holds db h)
