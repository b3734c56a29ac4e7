-- ===== src/Market/Effects/Purchases.antt =====
-- What a purchase at a stated price does, and what taking an NFT off sale does.
use mathlib.Core.Path.{subst⁻¹}
use traitkeeper_eco.Base.{
  ℕ, ℤ, pos, ◌<ℤ◌, ◌≡◌, ◌≢◌, true, false, none, some, List, [], ◌∷◌, ◌++◌, ok, arith, is_value, All,
}
use traitkeeper_eco.Schema.{Nft, PrivateBid}
use traitkeeper_eco.Chain.{Env}
use traitkeeper_eco.Table.{find, update, update_where, find-update, find-append, pk-find}
use traitkeeper_eco.Orm.{
  Db, ◌>>=◌, nft_model, bid_model, event_model, transaction_model, create_event, create_transaction,
}
use traitkeeper_eco.Safety.{verify_ownership}
use traitkeeper_eco.Market.Response.{bought}
use traitkeeper_eco.Market.Checks.{direct_buy_check, asking_price_check, remove_listing_check}
use traitkeeper_eco.Market.Listings.{is_open_on, cancelled_bid, remove_sell_intent}
use traitkeeper_eco.Market.Sales.{
  sale_event, direct_transaction, bought_columns, asking_bought_columns, execute_sale,
  execute_direct_buy, accept_asking_price,
}
use traitkeeper_eco.Market.Columns.{asking_bought-mint, bought-mint}

-- The purchase of an NFT that has a price, by another wallet than its owner's, with a fresh id,
-- returns. The buyer owns the NFT, which has no price, and the sale is recorded with that price and
-- the former owner as the seller.
pub direct_buy_sells :
    (env : Env) (w : ℕ) (p : ℤ) (n : Nft) (db : Db)
    → find n.mint_address db.nfts ≡ some n
    → n.has_buy_price ≡ true
    → n.buy_price ≡ some p
    → pos 0 <ℤ p
    → is_value n.owner w ≡ false
    → find env.uuid db.events ≡ none
    → find env.uuid db.transactions ≡ none
    → ((execute_direct_buy env w n.mint_address db).0 ≡ ok (bought n.mint_address w p env.uuid))
      × (find n.mint_address (execute_direct_buy env w n.mint_address db).1.nfts
          ≡ some (record n { owner = some w; has_buy_price = false; buy_price = none }))
      × (find env.uuid (execute_direct_buy env w n.mint_address db).1.events
          ≡ some (sale_event env.uuid n (some p) (some w) n.owner (env.clock 0)))
unfolding bought_columns execute_direct_buy direct_buy_check execute_sale create_event
    create_transaction ◌>>=◌
direct_buy_sells env w p n db en flag price positive other fe ft = (
  ground arith,
  ground (arith, bought-mint w n, find-update (bought_columns w) n.mint_address db.nfts {r = n}),
  ground (
    arith,
    find-append env.uuid db.events (sale_event env.uuid n (some p) (some w) n.owner (env.clock 0)),
  ),
)

-- The signed acceptance of the asking price of an NFT with a sell intent, by another wallet than its
-- owner's and with a fresh signature, returns. The buyer owns the NFT, which has no sell intent, and
-- the sale is recorded with the asking price and the former owner as the seller.
pub asking_price_sells :
    (env : Env) (w sig : ℕ) (p : ℤ) (n : Nft) (db : Db)
    → find n.mint_address db.nfts ≡ some n
    → n.has_sell_intent ≡ true
    → n.asking_price ≡ some p
    → pos 0 <ℤ p
    → is_value n.owner w ≡ false
    → find sig db.events ≡ none
    → find sig db.transactions ≡ none
    → ((accept_asking_price env w n.mint_address (some sig) db).0
        ≡ ok (bought n.mint_address w p sig))
      × (find n.mint_address (accept_asking_price env w n.mint_address (some sig) db).1.nfts
          ≡ some (record n {
            owner = some w;
            has_sell_intent = false;
            asking_price = none;
            is_listed = false;
          }))
      × (find sig (accept_asking_price env w n.mint_address (some sig) db).1.events
          ≡ some (sale_event sig n (some p) (some w) n.owner (env.clock 0)))
unfolding asking_bought_columns accept_asking_price asking_price_check execute_sale create_event
    create_transaction ◌>>=◌
asking_price_sells env w sig p n db en flag price positive other fe ft = (
  ground arith,
  ground (
    arith,
    asking_bought-mint w n,
    find-update (asking_bought_columns w) n.mint_address db.nfts {r = n},
  ),
  ground
      (arith, find-append sig db.events (sale_event sig n (some p) (some w) n.owner (env.clock 0))),
)

-- A sale with a fresh id, whatever the row of the NFT is by then.
sale_written :
    (columns : Nft → Nft) (now s : ℕ) (n m : Nft) (p : ℤ) (w : ℕ) (db : Db)
    → find n.mint_address db.nfts ≡ some m
    → find s db.events ≡ none
    → find s db.transactions ≡ none
    → execute_sale columns now s n p w db ≡ (
      ok tt,
      record db {
        nfts = update n.mint_address columns db.nfts;
        events = db.events ++ sale_event s m (some p) (some w) n.owner now ∷ [];
        transactions = db.transactions ++ direct_transaction s m p ∷ [];
      },
    )
unfolding execute_sale create_event create_transaction ◌>>=◌
sale_written columns now s n m p w db e fe ft =
    ground (arith, pk-find n.mint_address {r = m} db.nfts)

direct_buy_found :
    (w k : ℕ) (p : ℤ) (n : Nft) (db : Db)
    → direct_buy_check w k db ≡ ok (n, p)
    → find k db.nfts ≡ some n
unfolding direct_buy_check
direct_buy_found w k p n db e = ground arith

-- Two purchases of one NFT that were both checked before either was written: both are written, each
-- with the first owner as its seller, and the second buyer owns the NFT.
pub stale_purchase_sells_twice :
    (now now' first second s t : ℕ) (p : ℤ) (n : Nft) (db : Db)
    → direct_buy_check first n.mint_address db ≡ ok (n, p)
    → direct_buy_check second n.mint_address db ≡ ok (n, p)
    → s ≢ t
    → find s db.events ≡ none
    → find t db.events ≡ none
    → find s db.transactions ≡ none
    → find t db.transactions ≡ none
    → let after = (execute_sale (bought_columns first) now s n p first db).1 in
      let last = execute_sale (bought_columns second) now' t n p second after in
      (last.0 ≡ ok tt)
      × (find n.mint_address last.1.nfts
          ≡ some (record n { owner = some second; has_buy_price = false; buy_price = none }))
      × (last.1.events
          ≡ (db.events ++ sale_event s n (some p) (some first) n.owner now ∷ [])
            ++ sale_event t n (some p) (some second) n.owner now' ∷ [])
unfolding bought_columns
stale_purchase_sells_twice now now' first second s t p n db check check' differ es et ts tt' = (
  ground (arith, once, twice),
  ground (arith, once, twice, owned_last),
  ground (arith, once, twice),
)
  where
    en : find n.mint_address db.nfts ≡ some n
    en = direct_buy_found first n.mint_address p n db check

    m : Nft
    m = bought_columns first n

    after : Db
    after = record db {
      nfts = update n.mint_address (bought_columns first) db.nfts;
      events = db.events ++ sale_event s n (some p) (some first) n.owner now ∷ [];
      transactions = db.transactions ++ direct_transaction s n p ∷ [];
    }

    once : execute_sale (bought_columns first) now s n p first db ≡ (ok tt, after)
    once = sale_written (bought_columns first) now s n n p first db en es ts

    owned : find n.mint_address after.nfts ≡ some m
    owned = find-update (bought_columns first) n.mint_address db.nfts en (bought-mint first n)

    twice : execute_sale (bought_columns second) now' t n p second after ≡ (
      ok tt,
      record after {
        nfts = update n.mint_address (bought_columns second) after.nfts;
        events = after.events ++ sale_event t m (some p) (some second) n.owner now' ∷ [];
        transactions = after.transactions ++ direct_transaction t m p ∷ [];
      },
    )
    twice =
        sale_written (bought_columns second) now' t n m p second after owned
          (ground
            (arith, find-append t db.events (sale_event s n (some p) (some first) n.owner now)))
          (ground (arith, find-append t db.transactions (direct_transaction s n p)))

    owned_last :
        find n.mint_address (update n.mint_address (bought_columns second) after.nfts)
        ≡ some (bought_columns second m)
    owned_last =
        find-update (bought_columns second) n.mint_address after.nfts owned
          (ground (arith, bought-mint first n, bought-mint second m))

cancelled-All :
    (mint : ℕ) (bids : List PrivateBid)
    → All (λ b. is_open_on mint b ≡ false) (update_where (is_open_on mint) cancelled_bid bids)
unfolding update_where
cancelled-All mint [] = tt
cancelled-All mint (r ∷ bids) = (ground arith, cancelled-All mint bids)

-- When the owner of an NFT takes back its sell intent, no bid on it is active any more.
pub removed_intent_closes_bids :
    (env : Env) (w : ℕ) (n : Nft) (db : Db)
    → find n.mint_address db.nfts ≡ some n
    → is_value n.owner w ≡ true
    → n.has_sell_intent ≡ true
    → All
        (λ b. is_open_on n.mint_address b ≡ false)
        (remove_sell_intent env w n.mint_address db).1.bids
unfolding remove_sell_intent remove_listing_check verify_ownership ◌>>=◌
removed_intent_closes_bids env w n db en owned intent =
    subst⁻¹ (All (λ b. is_open_on n.mint_address b ≡ false)) (ground arith)
      (cancelled-All n.mint_address db.bids)
