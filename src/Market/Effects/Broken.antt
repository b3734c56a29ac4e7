-- ===== src/Market/Effects/Broken.antt =====
-- Calls of `MarketplaceService` that read what the models do not have.
use traitkeeper_eco.Base.{
  ℕ, ℤ, ◌≡◌, refl, Bool, true, some, List, [], ◌∷◌, arith, map, ◌==◌, Bool-cases, inl, inr,
}
use traitkeeper_eco.Schema.{Nft, PrivateBid, AuctionEvent, integrity_error}
use traitkeeper_eco.Chain.{Env}
use traitkeeper_eco.Table.{update_where}
use traitkeeper_eco.Orm.{
  Db, ◌>>=◌, bid_model, create_bid, create_monitoring, create_auction, update_bids_where,
}
use traitkeeper_eco.Orm.Preserves.{Preserves}
use traitkeeper_eco.Orm.Tables.{OnMarket}
use traitkeeper_eco.Monitoring.{create_transaction_record}
use traitkeeper_eco.Market.Response.{bid_id_of}
use traitkeeper_eco.Market.Offers.{
  create_bid_in_transaction, place_private_bid, bidder_counter_sell_intent, confirm_private_bid_tx,
  finalize_bid_in_transaction, status_named, mark_by_reply,
}
use traitkeeper_eco.Market.Listings.{cancelled_bid}
use traitkeeper_eco.Market.Negotiation.{resolved_bid, expired_bid}
use traitkeeper_eco.Market.Requests.{Request, serve}
use traitkeeper_eco.Market.Stable.Writes.{Stable}
use traitkeeper_eco.Market.Stable.Calls.{serve_keeps}
use traitkeeper_eco.Market.Effects.Refusals.{
  IsRefused, is_error, by_result, query-IsRefused, bind-IsRefused,
}

create_bid-IsRefused :
    (env : Env) (w hours sig : ℕ) (n : Nft) (db : Db)
    → IsRefused (create_bid_in_transaction env w hours sig n) db
unfolding create_bid_in_transaction create_bid ◌>>=◌
create_bid-IsRefused env w hours sig n db = (integrity_error, refl)

-- A signed private bid is never stored: whatever was checked, the call raises and changes no row.
pub signed_bid_never_placed :
    (env : Env) (w m hours sig : ℕ) (p : ℤ) (db : Db)
    → IsRefused (place_private_bid env w m p hours (some sig)) db
unfolding place_private_bid
signed_bid_never_placed env w m hours sig p db =
    query-IsRefused _ _ db λ n. bind-IsRefused _ _ db (create_bid-IsRefused env w hours sig n db)

-- A counter offer to a sell intent never returns: it asks for a bid with no signed transaction, and
-- then for the key of a bid that was not placed. It changes no row.
pub counter_of_intent_never_returns :
    (env : Env) (w m : ℕ) (p : ℤ) (db : Db) → IsRefused (bidder_counter_sell_intent env w m p) db
unfolding bidder_counter_sell_intent place_private_bid bid_id_of ◌>>=◌
counter_of_intent_never_returns env w m p db =
    by_result (bidder_counter_sell_intent env w m p) db (ground arith) (ground arith)

-- The confirmation of a bid never returns, whatever the chain answers: it reads a status that a bid
-- does not have. It changes no row but those of the monitoring.
pub confirmation_never_returns :
    (env : Env) (w t sig : ℕ) (p : ℤ) (db : Db)
    → (is_error (confirm_private_bid_tx env w t sig p db).0 ≡ true)
      × (record (confirm_private_bid_tx env w t sig p db).1 { monitoring = db.monitoring } ≡ db)
unfolding confirm_private_bid_tx create_transaction_record mark_by_reply finalize_bid_in_transaction
    create_monitoring status_named ◌>>=◌
confirmation_never_returns env w t sig p db = (ground arith, ground arith)

abbrev pub ids : List PrivateBid → List ℕ
ids bids = map (λ b. b.bid_id) bids

ids-update_where :
    (p : PrivateBid → Bool) (f : PrivateBid → PrivateBid)
    → ((b : PrivateBid) → p b ≡ true → (f b).bid_id ≡ b.bid_id)
    → (bids : List PrivateBid) → ids (update_where p f bids) ≡ ids bids
unfolding update_where
ids-update_where p f same [] = refl
ids-update_where p f same (b ∷ bids) = elim (Bool-cases (p b)) [
  | inl chosen ↦ ground (arith, ids-update_where p f same bids, chosen, same b chosen)
  | inr other ↦ ground (arith, ids-update_where p f same bids, other)
]

module _ (ids₀ : List ℕ) where
  abbrev HasBids : List Nft → List PrivateBid → List AuctionEvent → Type 0
  HasBids nfts bids auctions = ids bids ≡ ids₀

  update-HasBids :
      (p : PrivateBid → Bool) (f : PrivateBid → PrivateBid)
      → ((b : PrivateBid) → p b ≡ true → (f b).bid_id ≡ b.bid_id)
      → Preserves (OnMarket HasBids) (update_bids_where p f)
  unfolding ◌>>=◌
  update-HasBids p f same = record {
    holds = λ db h. ground (arith, ids-update_where p f same db.bids);
  }

  Stable-HasBids : Stable HasBids
  unfolding create_auction expired_bid ◌>>=◌
  Stable-HasBids = record {
    direct_sell = λ k p positive. record { holds = λ db h. h };
    sell_intent = λ k p positive. record { holds = λ db h. h };
    no_direct_sell = λ k. record { holds = λ db h. h };
    no_sell_intent = λ k. record { holds = λ db h. h };
    bought = λ k w. record { holds = λ db h. h };
    asking_bought = λ k w. record { holds = λ db h. h };
    accepted = λ k w. record { holds = λ db h. h };
    auctioned = λ k a. record { holds = λ db h. h };
    no_auction = λ k. record { holds = λ db h. h };
    won = λ k w. record { holds = λ db h. h };
    accept_bid = λ b db now h e a.
        update-HasBids (λ r. r.bid_id == b.bid_id) _ λ r same. ground (arith, same);
    close_bid = λ b db s now h e a.
        update-HasBids (λ r. r.bid_id == b.bid_id) (resolved_bid s now) λ r _. refl;
    expire_bid = λ b db h e a. update-HasBids (λ r. r.bid_id == b.bid_id) expired_bid λ r _. refl;
    cancel_bids = λ k. update-HasBids _ cancelled_bid λ r _. refl;
    cancel_other_bids = λ k j. update-HasBids _ cancelled_bid λ r _. refl;
    new_auction = λ a db h new free. record { at = ground arith };
    higher_bid = λ a now w p nfts bids auctions h e passed. h;
    complete_auction = λ a w nfts bids auctions h e active won. h;
    cancel_auction = λ a nfts bids auctions h e active. h;
  }

-- No sequence of calls adds a private bid to the table or removes one: the ids of the bids stay the
-- same, in the same order.
pub no_bid_is_ever_stored :
    (calls : List (Env × Request)) (db : Db) → ids (serve calls db).bids ≡ ids db.bids
no_bid_is_ever_stored calls db = serve_keeps (Stable-HasBids (ids db.bids)) calls db refl
