-- ===== src/Market/Invariants/Owners.antt =====
-- The owner column against the log of events: the calls.
use traitkeeper_eco.Base.{ℕ, ◌≡◌, refl, Option, none, some, List, [], ◌∷◌}
use traitkeeper_eco.Schema.{Nft}
use traitkeeper_eco.Chain.{Env}
use traitkeeper_eco.Table.{find}
use traitkeeper_eco.Orm.{Db, nft_model}
use traitkeeper_eco.Orm.Preserves.{
  Preserves, preserves_rules, Preserves-pure, Preserves-bind, Preserves-bind_query, Preserves-if,
}
use traitkeeper_eco.Market.Listings.{
  set_direct_sell, remove_direct_sell, set_sell_intent, remove_sell_intent,
}
use traitkeeper_eco.Market.Sales.{execute_direct_buy, accept_asking_price}
use traitkeeper_eco.Market.Offers.{place_private_bid}
use traitkeeper_eco.Market.Negotiation.{reject_private_bid, cancel_private_bid, owner_counter_bid}
use traitkeeper_eco.Market.Auctions.{create_private_auction, place_auction_bid, cancel_auction}
use traitkeeper_eco.Market.Requests
use traitkeeper_eco.Market.Requests.{Request, handle, serve}
use traitkeeper_eco.Market.Invariants.Sales.{owner_by_log, IsRecorded}
use traitkeeper_eco.Market.Invariants.Blocks.{execute_sale-IsRecorded}
use traitkeeper_eco.Market.Invariants.Columns.{
  listing-IsRecorded, no_listing-IsRecorded, intent-IsRecorded, no_intent-IsRecorded,
  bids-IsRecorded, bid-IsRecorded,
}
use traitkeeper_eco.Market.Effects.Broken.{signed_bid_never_placed}
use traitkeeper_eco.Market.Invariants.Steps.{
  preview-IsRecorded, refused-IsRecorded, confirm-IsRecorded, accept-IsRecorded, counter-IsRecorded,
  creation-IsRecorded, bidding-IsRecorded, cancelling-IsRecorded, finalize-IsRecorded,
}
use traitkeeper_eco.Market.Columns.{
  bought-owner, bought-mint, asking_bought-owner, asking_bought-mint,
}

module _ (first : ℕ → Option ℕ) where
  handle-IsRecorded : (env : Env) (r : Request) → Preserves (IsRecorded first) (handle env r)
  unfolding handle set_direct_sell remove_direct_sell set_sell_intent remove_sell_intent
      execute_direct_buy accept_asking_price reject_private_bid cancel_private_bid owner_counter_bid
      create_private_auction place_auction_bid cancel_auction
  handle-IsRecorded env (Requests.place_private_bid w m p h none) =
      preview-IsRecorded first env (Requests.place_private_bid w m p h none) refl
  handle-IsRecorded env (Requests.place_private_bid w m p h (some s)) = record {
    holds = λ db h'.
        refused-IsRecorded first (place_private_bid env w m p h (some s)) db
          (signed_bid_never_placed env w m h s p db) h';
  }
  handle-IsRecorded env (Requests.confirm_private_bid_tx w t s p) =
      confirm-IsRecorded first env w t s p
  handle-IsRecorded env (Requests.accept_private_bid w b s) = accept-IsRecorded first env w b s
  handle-IsRecorded env (Requests.reject_private_bid w b none) =
      preview-IsRecorded first env (Requests.reject_private_bid w b none) refl
  handle-IsRecorded env (Requests.reject_private_bid w b (some s)) =
      Preserves-bind_query _ _ λ x db h e. search (preserves_rules, bid-IsRecorded first)
  handle-IsRecorded env (Requests.cancel_private_bid w b none) =
      preview-IsRecorded first env (Requests.cancel_private_bid w b none) refl
  handle-IsRecorded env (Requests.cancel_private_bid w b (some s)) =
      Preserves-bind_query _ _ λ x db h e. search (preserves_rules, bid-IsRecorded first)
  handle-IsRecorded env (Requests.owner_counter_bid w b p none) =
      preview-IsRecorded first env (Requests.owner_counter_bid w b p none) refl
  handle-IsRecorded env (Requests.owner_counter_bid w b p (some s)) =
      Preserves-bind_query _ _
        λ x db h e. search (preserves_rules, counter-IsRecorded first env x.0 x.1 p)
  handle-IsRecorded env (Requests.bidder_counter_sell_intent w m p) =
      preview-IsRecorded first env (Requests.bidder_counter_sell_intent w m p) refl
  handle-IsRecorded env (Requests.set_direct_sell w m p) =
      Preserves-bind_query _ _ λ n db h e. search (preserves_rules, listing-IsRecorded first)
  handle-IsRecorded env (Requests.remove_direct_sell w m) = Preserves-bind_query _ _ λ n db h e.
      Preserves-if n.has_buy_price _ _ (search (preserves_rules, no_listing-IsRecorded first))
        (search preserves_rules)
  handle-IsRecorded env (Requests.remove_sell_intent w m) = Preserves-bind_query _ _ λ n db h e.
      Preserves-if n.has_sell_intent _ _
        (search (preserves_rules, bids-IsRecorded first, no_intent-IsRecorded first))
        (search preserves_rules)
  handle-IsRecorded env (Requests.set_sell_intent w m p none) =
      preview-IsRecorded first env (Requests.set_sell_intent w m p none) refl
  handle-IsRecorded env (Requests.set_sell_intent w m p (some s)) =
      Preserves-bind_query _ _ λ n db h e. search (preserves_rules, intent-IsRecorded first)
  handle-IsRecorded env (Requests.execute_direct_buy w m) = Preserves-bind_query _ _ λ x db h e.
      Preserves-bind _ _
        (execute_sale-IsRecorded first _ _ _ x.0 _ w (bought-owner w) (bought-mint w))
        λ _. Preserves-pure _
  handle-IsRecorded env (Requests.accept_asking_price w m none) =
      preview-IsRecorded first env (Requests.accept_asking_price w m none) refl
  handle-IsRecorded env (Requests.accept_asking_price w m (some s)) =
      Preserves-bind_query _ _ λ x db h e.
        Preserves-bind _ _
          (execute_sale-IsRecorded first _ _ _ x.0 _ w (asking_bought-owner w)
            (asking_bought-mint w))
          λ _. Preserves-pure _
  handle-IsRecorded env (Requests.create_private_auction w m p h r none) =
      preview-IsRecorded first env (Requests.create_private_auction w m p h r none) refl
  handle-IsRecorded env (Requests.create_private_auction w m p h r (some s)) =
      Preserves-bind_query _ _ λ n db h' e.
        Preserves-bind _ _ (creation-IsRecorded first env w s n p h) λ a. Preserves-pure _
  handle-IsRecorded env (Requests.place_auction_bid w a p none) =
      preview-IsRecorded first env (Requests.place_auction_bid w a p none) refl
  handle-IsRecorded env (Requests.place_auction_bid w a p (some s)) =
      Preserves-bind_query _ _ λ x db h e.
        Preserves-bind _ _ (bidding-IsRecorded first (env.clock 1) w a p) λ _. Preserves-pure _
  handle-IsRecorded env (Requests.finalize_auction a s) = finalize-IsRecorded first env a s
  handle-IsRecorded env (Requests.cancel_auction w a none) =
      preview-IsRecorded first env (Requests.cancel_auction w a none) refl
  handle-IsRecorded env (Requests.cancel_auction w a (some s)) =
      Preserves-bind_query _ _
        λ x db h e. Preserves-bind _ _ (cancelling-IsRecorded first x.0 x.1) λ _. Preserves-pure _

  serve-IsRecorded :
      (calls : List (Env × Request)) (db : Db)
      → IsRecorded first db
      → IsRecorded first (serve calls db)
  unfolding serve
  serve-IsRecorded [] db h = h
  serve-IsRecorded ((env, r) ∷ rest) db h =
      serve-IsRecorded rest (handle env r db).1 ((handle-IsRecorded env r).holds db h)

-- The table of NFTs follows the log of events: if each NFT belongs to the buyer of its latest sale
-- in the log, or to a given first owner where it was never sold, then so it does after any sequence
-- of calls.
pub owners_follow_the_log :
    (first : ℕ → Option ℕ) (calls : List (Env × Request)) (db : Db)
    → ((k : ℕ) (n : Nft) → find k db.nfts ≡ some n → n.owner ≡ owner_by_log k (first k) db.events)
    → (k : ℕ) (n : Nft) → find k (serve calls db).nfts ≡ some n
    → n.owner ≡ owner_by_log k (first k) (serve calls db).events
owners_follow_the_log first calls db h = serve-IsRecorded first calls db h
