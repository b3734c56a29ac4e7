-- ===== src/Market/Invariants/Prices.antt =====
-- The listing flags and prices of the NFTs.
use traitkeeper_eco.Base.{
  ℕ, ℤ, pos, leb_ℤ, ◌≡◌, Bool, false, ◌&&◌, Option, none, some, List, arith, All,
}
use traitkeeper_eco.Schema.{Nft, PrivateBid, AuctionEvent}
use traitkeeper_eco.Table.{All-update_where}
use traitkeeper_eco.Amounts.{to_column_pos}
use traitkeeper_eco.Chain.{Env}
use traitkeeper_eco.Orm.{Db, nft_model, ◌>>=◌, create_auction, update_nft}
use traitkeeper_eco.Orm.Preserves.{Preserves}
use traitkeeper_eco.Orm.Tables.{OnMarket}
use traitkeeper_eco.Market.Listings.{
  direct_sell_columns, no_direct_sell_columns, sell_intent_columns, no_sell_intent_columns,
}
use traitkeeper_eco.Market.Sales.{bought_columns, asking_bought_columns}
use traitkeeper_eco.Market.Negotiation.{accepted_columns}
use traitkeeper_eco.Market.Auctions.{auctioned_columns, no_auction_columns, won_columns}
use traitkeeper_eco.Market.Requests.{Request, serve}
use traitkeeper_eco.Market.Stable.Writes.{Stable}
use traitkeeper_eco.Market.Stable.Calls.{serve_keeps}

abbrev pub is_amount : Option ℤ → Bool
is_amount none = false
is_amount (some p) = leb_ℤ (pos 0) p

-- An NFT is on direct sale, or has a sell intent, or neither, and each flag is set exactly when its
-- price is there and not negative.
pub record HasOneListing (n : Nft) : Type 0 where
  pub exclusive : n.has_buy_price && n.has_sell_intent ≡ false
  pub buy : n.has_buy_price ≡ is_amount n.buy_price
  pub asking : n.has_sell_intent ≡ is_amount n.asking_price

abbrev pub AreListed : List Nft → List PrivateBid → List AuctionEvent → Type 0
AreListed nfts bids auctions = All HasOneListing nfts

rows-AreListed :
    (k : ℕ) (f : Nft → Nft)
    → ((n : Nft) → HasOneListing n → HasOneListing (f n))
    → Preserves (OnMarket AreListed) (update_nft k f)
unfolding ◌>>=◌
rows-AreListed k f keeps = record {
  holds = λ db h. All-update_where HasOneListing _ f db.nfts h (λ n hn _. keeps n hn);
}

Stable-AreListed : Stable AreListed
unfolding direct_sell_columns no_direct_sell_columns sell_intent_columns no_sell_intent_columns
    bought_columns asking_bought_columns accepted_columns auctioned_columns no_auction_columns
    won_columns create_auction ◌>>=◌
Stable-AreListed = record {
  direct_sell = λ k p positive.
      rows-AreListed k (direct_sell_columns p) (λ n h. ground (arith, to_column_pos p positive));
  sell_intent = λ k p positive.
      rows-AreListed k (sell_intent_columns p) (λ n h. ground (arith, to_column_pos p positive));
  no_direct_sell = λ k. rows-AreListed k no_direct_sell_columns (λ n h. ground arith);
  no_sell_intent = λ k. rows-AreListed k no_sell_intent_columns (λ n h. ground arith);
  bought = λ k w. rows-AreListed k (bought_columns w) (λ n h. ground arith);
  asking_bought = λ k w. rows-AreListed k (asking_bought_columns w) (λ n h. ground arith);
  accepted = λ k w. rows-AreListed k (accepted_columns w) (λ n h. ground arith);
  auctioned = λ k a. rows-AreListed k (auctioned_columns a) (λ n h. ground arith);
  no_auction = λ k. rows-AreListed k no_auction_columns (λ n h. ground arith);
  won = λ k w. rows-AreListed k (won_columns w) (λ n h. ground arith);
  accept_bid = λ b db now h e a. record { holds = λ db h. h };
  close_bid = λ b db s now h e a. record { holds = λ db h. h };
  expire_bid = λ b db h e a. record { holds = λ db h. h };
  cancel_bids = λ k. record { holds = λ db h. h };
  cancel_other_bids = λ k j. record { holds = λ db h. h };
  new_auction = λ a db h new free. record { at = ground arith };
  higher_bid = λ a now w p nfts bids auctions h e passed. h;
  complete_auction = λ a w nfts bids auctions h e ac won. h;
  cancel_auction = λ a nfts bids auctions h e ac. h;
}

-- From NFTs whose flags and prices agree, any sequence of calls leads to such NFTs: none is on
-- direct sale and has a sell intent at once, and a flag is set exactly when its price is there and
-- not negative.
pub serve-HasOneListing :
    (calls : List (Env × Request)) (db : Db)
    → All HasOneListing db.nfts
    → All HasOneListing (serve calls db).nfts
serve-HasOneListing calls db h = serve_keeps Stable-AreListed calls db h
