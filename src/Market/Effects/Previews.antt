-- ===== src/Market/Effects/Previews.antt =====
-- The first step of the two-step methods, which builds an instruction for the wallet to sign.
use traitkeeper_eco.Base.{◌≡◌, refl, Bool, true, false, none, arith}
use traitkeeper_eco.Chain.{Env}
use traitkeeper_eco.Orm.{Db}
use traitkeeper_eco.Orm.Preserves.{Preserves, Preserves-bind, Preserves-bind_query, preserves_rules}
use traitkeeper_eco.Market.Requests
use traitkeeper_eco.Market.Requests.{Request, handle}
use traitkeeper_eco.Market.Listings.{set_sell_intent}
use traitkeeper_eco.Market.Sales.{accept_asking_price}
use traitkeeper_eco.Market.Offers.{place_private_bid, bidder_counter_sell_intent}
use traitkeeper_eco.Market.Negotiation.{reject_private_bid, cancel_private_bid, owner_counter_bid}
use traitkeeper_eco.Market.Auctions.{create_private_auction, place_auction_bid, cancel_auction}

-- A call that only asks for an instruction. An acceptance is not one: it may mark its bid as
-- expired; nor is the end of an auction, which closes one without bids.
abbrev pub is_preview : Request → Bool
is_preview (Requests.place_private_bid w m p h none) = true
is_preview (Requests.reject_private_bid w b none) = true
is_preview (Requests.cancel_private_bid w b none) = true
is_preview (Requests.owner_counter_bid w b p none) = true
is_preview (Requests.bidder_counter_sell_intent w m p) = true
is_preview (Requests.set_sell_intent w m p none) = true
is_preview (Requests.accept_asking_price w m none) = true
is_preview (Requests.create_private_auction w m p h r none) = true
is_preview (Requests.place_auction_bid w a p none) = true
is_preview (Requests.cancel_auction w a none) = true
is_preview _ = false

module _ (old : Db) where
  abbrev IsOld : Db → Type 0
  IsOld db = db ≡ old

  preview-Preserves :
      (env : Env) (r : Request) → is_preview r ≡ true → Preserves IsOld (handle env r)
  unfolding handle place_private_bid reject_private_bid cancel_private_bid owner_counter_bid
      bidder_counter_sell_intent set_sell_intent accept_asking_price create_private_auction
      place_auction_bid cancel_auction
  preview-Preserves env (Requests.place_private_bid w m p h none) e =
      Preserves-bind_query _ _ λ n db hd q. search preserves_rules
  preview-Preserves env (Requests.reject_private_bid w b none) e =
      Preserves-bind_query _ _ λ n db hd q. search preserves_rules
  preview-Preserves env (Requests.cancel_private_bid w b none) e =
      Preserves-bind_query _ _ λ n db hd q. search preserves_rules
  preview-Preserves env (Requests.owner_counter_bid w b p none) e =
      Preserves-bind_query _ _ λ n db hd q. search preserves_rules
  preview-Preserves env (Requests.bidder_counter_sell_intent w m p) e =
      Preserves-bind_query _ _ λ n db hd q.
        Preserves-bind _ _ (Preserves-bind_query _ _ λ n db hd q. search preserves_rules)
          λ r. search preserves_rules
  preview-Preserves env (Requests.set_sell_intent w m p none) e =
      Preserves-bind_query _ _ λ n db hd q. search preserves_rules
  preview-Preserves env (Requests.accept_asking_price w m none) e =
      Preserves-bind_query _ _ λ n db hd q. search preserves_rules
  preview-Preserves env (Requests.create_private_auction w m p h r none) e =
      Preserves-bind_query _ _ λ n db hd q. search preserves_rules
  preview-Preserves env (Requests.place_auction_bid w a p none) e =
      Preserves-bind_query _ _ λ n db hd q. search preserves_rules
  preview-Preserves env (Requests.cancel_auction w a none) e =
      Preserves-bind_query _ _ λ n db hd q. search preserves_rules
  preview-Preserves env _ e = ground arith

-- A call that only asks for an instruction to sign changes no row, whether it returns or raises.
pub preview_writes_nothing :
    (env : Env) (r : Request) (db : Db) → is_preview r ≡ true → (handle env r db).1 ≡ db
preview_writes_nothing env r db e = (preview-Preserves db env r e).holds db refl
