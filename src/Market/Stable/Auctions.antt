-- ===== src/Market/Stable/Auctions.antt =====
-- The calls on auctions.
use mathlib.Core.Path.{subst⁻¹}
use traitkeeper_eco.Base.{ℕ, ℤ, pos, ◌<ℤ◌, ◌≡◌, refl, false, Option, none, some, List, ok, arith}
use traitkeeper_eco.Schema.{Nft, PrivateBid, AuctionEvent}
use traitkeeper_eco.Amounts.{to_column_pos}
use traitkeeper_eco.Chain
use traitkeeper_eco.Chain.{Env}
use traitkeeper_eco.Table.{find}
use traitkeeper_eco.Orm.{
  Db, nft_model, auction_model, pure, ◌>>=◌, ◌>>◌, update_nft, update_auction,
}
use traitkeeper_eco.Orm.Preserves.{
  Preserves, preserves_rules, Preserves-pure, Preserves-bind, Preserves-bind_query, KeepsAt,
  Preserves-at, at-Preserves, KeepsAt-atomic, KeepsAt-option, KeepsAt-lift, KeepsAt-query,
  KeepsAt-bind,
}
use traitkeeper_eco.Orm.Tables.{OnMarket, create_event-OnMarket}
use traitkeeper_eco.Market.Response.{unsigned, auction_closed}
use traitkeeper_eco.Market.Checks.{has_active_auction}
use traitkeeper_eco.Market.Auctions.{
  create_auction_in_db, create_private_auction, get_lock_and_update_auction, place_auction_bid,
  auction_bid_errors, completed_auction, cancelled_auction, outbid, no_auction_columns,
  finalize_sale_in_db, finalize_auction, cancel_auction_db, cancel_auction,
}
use traitkeeper_eco.Market.Stable.Writes.{Stable}
use traitkeeper_eco.Market.Stable.Found.{
  IsFound, finalize-IsFound, cancel-IsFound, creation_terms, same_mint, locked_self, refetched,
  passed_unit,
}

module _ {P : List Nft → List PrivateBid → List AuctionEvent → Type 0} (s : Stable P) where
  create_auction_in_db_at :
      (env : Env) (o sig : ℕ) (n : Nft) (p : ℤ) (hours : ℕ) (db : Db)
      → OnMarket P db
      → pos 0 <ℤ p
      → has_active_auction n.mint_address db.auctions ≡ false
      → KeepsAt (OnMarket P) (create_auction_in_db env o sig n p hours) db
  unfolding create_auction_in_db
  create_auction_in_db_at env o sig n p hours db h positive free = KeepsAt-atomic _ db h (
      KeepsAt-query _ _ db h λ n' e. KeepsAt-lift _ _ db h λ u fits.
        KeepsAt-bind _ _ db
          (s.new_auction _ db h
            (record {
              is_active = refl;
              no_bid = refl;
              no_bidder = refl;
              not_counted = refl;
              no_winner = refl;
              no_price = refl;
              not_negative = to_column_pos p positive;
            })
            (subst⁻¹ (λ k. has_active_auction k db.auctions ≡ false) (same_mint n n' db e) free))
          λ a. Preserves-bind _ _ (s.auctioned n'.mint_address a.auction_id) λ _. Preserves-pure _)

  pub create_private_auction-Preserves :
      (env : Env) (o m : ℕ) (p : ℤ) (hours : ℕ) (reserve : Option ℤ) (signed : Option ℕ)
      → Preserves (OnMarket P) (create_private_auction env o m p hours reserve signed)
  unfolding create_private_auction
  create_private_auction-Preserves env o m p hours reserve none =
      Preserves-bind_query _ _ λ n db h e. search preserves_rules
  create_private_auction-Preserves env o m p hours reserve (some sig) = Preserves-at _ λ db h.
      KeepsAt-query _ _ db h λ n e.
        let (positive, free) = creation_terms o m p hours db n e in
        KeepsAt-bind _ _ db (create_auction_in_db_at env o sig n p hours db h positive free)
          λ a. Preserves-pure _

  outbid_at :
      (now w id : ℕ) (p : ℤ) (a : AuctionEvent) (db : Db)
      → OnMarket P db
      → find a.auction_id db.auctions ≡ some a
      → auction_bid_errors now w p a ≡ ok tt
      → KeepsAt (OnMarket P) (update_auction a.auction_id (λ _. outbid w p a)) db
  unfolding ◌>>=◌
  outbid_at now w id p a db h row passed = record {
    at = s.higher_bid a now w p db.nfts db.bids db.auctions h row passed;
  }

  get_lock_and_update_auction-Preserves :
      (now w id : ℕ) (p : ℤ) → Preserves (OnMarket P) (get_lock_and_update_auction now w id p)
  unfolding get_lock_and_update_auction
  get_lock_and_update_auction-Preserves now w id p = Preserves-at _ λ db h. KeepsAt-atomic _ db h (
      KeepsAt-query _ _ db h λ a e. KeepsAt-lift _ _ db h λ u passed.
        KeepsAt-lift _ _ db h
          λ v fits. outbid_at now w id p a db h (locked_self id a db e) (passed_unit u passed))

  pub place_auction_bid-Preserves :
      (env : Env) (w id : ℕ) (p : ℤ) (signed : Option ℕ)
      → Preserves (OnMarket P) (place_auction_bid env w id p signed)
  unfolding place_auction_bid
  place_auction_bid-Preserves env w id p none =
      Preserves-bind_query _ _ λ x db h e. search preserves_rules
  place_auction_bid-Preserves env w id p (some sig) = Preserves-bind_query _ _ λ x db h e.
      search (preserves_rules, get_lock_and_update_auction-Preserves (env.clock 1) w id p)

  complete_at :
      (a b : AuctionEvent) (w : ℕ) (db : Db)
      → OnMarket P db
      → IsFound a db
      → a.current_bidder ≡ some w
      → b ≡ a
      → KeepsAt (OnMarket P) (update_auction b.auction_id (λ _. completed_auction b)) db
  unfolding ◌>>=◌
  complete_at a b w db h f won same =
      subst⁻¹
        (λ c. KeepsAt (OnMarket P) (update_auction c.auction_id (λ _. completed_auction c)) db) same
        (record { at = s.complete_auction a w db.nfts db.bids db.auctions h f.row f.is_active won })

  finalize_sale_at :
      (now sig : ℕ) (a : AuctionEvent) (w : ℕ) (db : Db)
      → OnMarket P db
      → IsFound a db
      → a.current_bidder ≡ some w
      → KeepsAt (OnMarket P) (finalize_sale_in_db now a.auction_id sig) db
  unfolding finalize_sale_in_db
  finalize_sale_at now sig a w db h f won = KeepsAt-atomic _ db h (
      KeepsAt-query _ _ db h λ x e.
        KeepsAt-bind _ _ db (complete_at a x.0 w db h f won (refetched a x db f.row e)) λ _.
          Preserves-bind _ _ (create_event-OnMarket P _)
            λ _. s.won x.1.mint_address x.0.current_bidder)

  no_bids_at :
      (env : Env) (a : AuctionEvent) (n : Nft) (db : Db)
      → OnMarket P db
      → IsFound a db
      → KeepsAt
          (OnMarket P)
          (update_nft n.mint_address no_auction_columns
            >> (update_auction a.auction_id cancelled_auction >> pure (auction_closed env.uuid)))
          db
  unfolding ◌>>=◌
  no_bids_at env a n db h f = record {
    at =
        s.cancel_auction a _ db.bids db.auctions ((s.no_auction n.mint_address).holds db h) f.row
          f.is_active;
  }

  pub finalize_auction-Preserves :
      (env : Env) (id : ℕ) (signed : Option ℕ)
      → Preserves (OnMarket P) (finalize_auction env id signed)
  unfolding finalize_auction
  finalize_auction-Preserves env id signed = Preserves-at _ λ db h. KeepsAt-query _ _ db h λ x e.
      let f = finalize-IsFound (env.clock 0) id db x e in
      KeepsAt-option x.0.current_bidder _ _ db (λ _. no_bids_at env x.0 x.1 db h f)
        (λ w won.
          KeepsAt-option signed _ _ db
            (λ _.
              at-Preserves
                {m = unsigned env (Chain.finalize_auction x.0.creator x.1.mint_address w)} db h
                (search preserves_rules))
            (λ sig _.
              KeepsAt-bind _ _ db (finalize_sale_at (env.clock 1) sig x.0 w db h f won)
                λ _. Preserves-pure _))

  cancel_at :
      (a b : AuctionEvent) (n : ℕ) (db : Db)
      → OnMarket P db
      → IsFound a db
      → b ≡ a
      → KeepsAt (OnMarket P) (update_auction b.auction_id cancelled_auction) db
  unfolding ◌>>=◌
  cancel_at a b n db h f same =
      subst⁻¹ (λ c. KeepsAt (OnMarket P) (update_auction c.auction_id cancelled_auction) db) same
        (record { at = s.cancel_auction a db.nfts db.bids db.auctions h f.row f.is_active })

  cancel_auction_db_at :
      (a : AuctionEvent) (n : Nft) (db : Db)
      → OnMarket P db
      → IsFound a db
      → KeepsAt (OnMarket P) (cancel_auction_db a n) db
  unfolding cancel_auction_db
  cancel_auction_db_at a n db h f = KeepsAt-atomic _ db h (
      KeepsAt-query _ _ db h λ n' e. KeepsAt-query _ _ db h λ a' e'.
        KeepsAt-bind _ _ db (cancel_at a a' n'.mint_address db h f (ground (arith, f.row)))
          λ _. s.no_auction n'.mint_address)

  pub cancel_auction-Preserves :
      (env : Env) (o id : ℕ) (signed : Option ℕ)
      → Preserves (OnMarket P) (cancel_auction env o id signed)
  unfolding cancel_auction
  cancel_auction-Preserves env o id none =
      Preserves-bind_query _ _ λ x db h e. search preserves_rules
  cancel_auction-Preserves env o id (some sig) = Preserves-at _ λ db h.
      KeepsAt-query _ _ db h λ x e.
        KeepsAt-bind _ _ db (cancel_auction_db_at x.0 x.1 db h (cancel-IsFound o id db x e))
          λ _. Preserves-pure _
