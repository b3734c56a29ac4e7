-- ===== src/Market/Stable/Nfts.antt =====
-- The calls on listings and sales.
use traitkeeper_eco.Base.{ℕ, ℤ, pos, ◌<ℤ◌, ◌≡◌, Option, none, some, List, ok, arith}
use traitkeeper_eco.Schema.{Nft, PrivateBid, AuctionEvent}
use traitkeeper_eco.Chain.{Env}
use traitkeeper_eco.Orm.Preserves.{preserves_rules, Preserves, Preserves-bind_query, Preserves-if}
use traitkeeper_eco.Orm.Tables.{OnMarket, create_event-OnMarket, create_transaction-OnMarket}
use traitkeeper_eco.Orm.{Db, update_nft}
use traitkeeper_eco.Market.Checks.{set_direct_sell_check}
use traitkeeper_eco.Market.Listings.{
  set_direct_sell, remove_direct_sell, set_sell_intent, remove_sell_intent,
}
use traitkeeper_eco.Market.Sales.{execute_sale, execute_direct_buy, accept_asking_price}
use traitkeeper_eco.Market.Stable.Writes.{Stable}

-- A price that passed the check is positive.
price_pos :
    (o m : ℕ) (p : ℤ) (db : Db) (n : Nft) → set_direct_sell_check o m p db ≡ ok n → pos 0 <ℤ p
unfolding set_direct_sell_check
price_pos o m p db n h = ground arith

module _ {P : List Nft → List PrivateBid → List AuctionEvent → Type 0} (s : Stable P) where
  pub set_direct_sell-Preserves :
      (env : Env) (o m : ℕ) (p : ℤ) → Preserves (OnMarket P) (set_direct_sell env o m p)
  unfolding set_direct_sell
  set_direct_sell-Preserves env o m p =
      Preserves-bind_query _ _ λ n db h e.
        search (preserves_rules, s.direct_sell n.mint_address p (price_pos o m p db n e))

  pub remove_direct_sell-Preserves :
      (env : Env) (o m : ℕ) → Preserves (OnMarket P) (remove_direct_sell env o m)
  unfolding remove_direct_sell
  remove_direct_sell-Preserves env o m = Preserves-bind_query _ _ λ n db h e.
      Preserves-if n.has_buy_price _ _ (search (preserves_rules, s.no_direct_sell n.mint_address))
        (search preserves_rules)

  pub set_sell_intent-Preserves :
      (env : Env) (o m : ℕ) (p : ℤ) (signed : Option ℕ)
      → Preserves (OnMarket P) (set_sell_intent env o m p signed)
  unfolding set_sell_intent
  set_sell_intent-Preserves env o m p none =
      Preserves-bind_query _ _ λ n db h e. search preserves_rules
  set_sell_intent-Preserves env o m p (some signature) =
      Preserves-bind_query _ _ λ n db h e.
        search (preserves_rules, s.sell_intent n.mint_address p (price_pos o m p db n e))

  pub remove_sell_intent-Preserves :
      (env : Env) (o m : ℕ) → Preserves (OnMarket P) (remove_sell_intent env o m)
  unfolding remove_sell_intent
  remove_sell_intent-Preserves env o m = Preserves-bind_query _ _ λ n db h e.
      Preserves-if n.has_sell_intent _ _
        (search (preserves_rules, s.cancel_bids n.mint_address, s.no_sell_intent n.mint_address))
        (search preserves_rules)

  execute_sale-Preserves :
      (columns : Nft → Nft) (now signature : ℕ) (n : Nft) (p : ℤ) (w : ℕ)
      → ((k : ℕ) → Preserves (OnMarket P) (update_nft k columns))
      → Preserves (OnMarket P) (execute_sale columns now signature n p w)
  unfolding execute_sale
  execute_sale-Preserves columns now signature n p w keeps =
      search (preserves_rules, keeps, create_event-OnMarket P, create_transaction-OnMarket P) depth
        9

  pub execute_direct_buy-Preserves :
      (env : Env) (w m : ℕ) → Preserves (OnMarket P) (execute_direct_buy env w m)
  unfolding execute_direct_buy
  execute_direct_buy-Preserves env w m = Preserves-bind_query _ _ λ found db h e. search (
    preserves_rules,
    execute_sale-Preserves _ (env.clock 0) env.uuid found.0 found.1 w (λ k. s.bought k w),
  )

  pub accept_asking_price-Preserves :
      (env : Env) (w m : ℕ) (signed : Option ℕ)
      → Preserves (OnMarket P) (accept_asking_price env w m signed)
  unfolding accept_asking_price
  accept_asking_price-Preserves env w m none =
      Preserves-bind_query _ _ λ found db h e. search preserves_rules
  accept_asking_price-Preserves env w m (some signature) = Preserves-bind_query _ _ λ found db h e.
      search (
        preserves_rules,
        execute_sale-Preserves _ (env.clock 0) signature found.0 found.1 w
            (λ k. s.asking_bought k w),
      )
