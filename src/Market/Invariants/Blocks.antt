-- ===== src/Market/Invariants/Blocks.antt =====
-- The owner column against the log of events: the atomic blocks that sell.
use traitkeeper_eco.Base.{
  ℕ, ℤ, ◌≡◌, refl, Bool, true, false, Option, none, some, arith, Bool-cases, Option-cases, ◌⊎◌, inl,
  inr,
}
use traitkeeper_eco.Schema.{Nft, PrivateBid, AuctionEvent}
use traitkeeper_eco.Chain.{Env}
use traitkeeper_eco.Table.{find}
use traitkeeper_eco.Orm.{
  Db, ◌>>=◌, nft_model, auction_model, event_model, transaction_model, create_event,
  create_transaction,
}
use traitkeeper_eco.Orm.Preserves.{Preserves}
use traitkeeper_eco.Market.Sales.{sale_event, execute_sale}
use traitkeeper_eco.Market.Negotiation.{accepted_columns, update_db_after_sale}
use traitkeeper_eco.Market.Auctions.{won_columns, finalize_sale_in_db}
use traitkeeper_eco.Market.Invariants.Sales.{IsRecorded, IsSaleOf, after_sale}
use traitkeeper_eco.Market.Columns.{accepted-mint, accepted-owner, won-mint, won-owner}

-- Whether an event or a transaction has the id already.
abbrev is_used : ℕ → Db → Bool
is_used s db = elim (find s db.events) [
  | some e ↦ true
  | none ↦ elim (find s db.transactions) [ none ↦ false | some t ↦ true ]
]

module _ (first : ℕ → Option ℕ) where
  pub execute_sale-IsRecorded :
      (columns : Nft → Nft) (now s : ℕ) (n : Nft) (p : ℤ) (w : ℕ)
      → ((x : Nft) → (columns x).owner ≡ some w)
      → ((x : Nft) → (columns x).mint_address ≡ x.mint_address)
      → Preserves (IsRecorded first) (execute_sale columns now s n p w)
  unfolding execute_sale create_event create_transaction ◌>>=◌
  execute_sale-IsRecorded columns now s n p w owns keeps = record {
    holds =
        λ db h. after_sale first (some w) db (execute_sale columns now s n p w db).1 h (written db);
  }
    where
      written :
          (db : Db)
          → ((execute_sale columns now s n p w db).1 ≡ db)
            ⊎ IsSaleOf first (some w) db (execute_sale columns now s n p w db).1
      written db = elim (Option-cases (find n.mint_address db.nfts)) [
        | inl missing ↦ inl (ground arith)
        | inr (x, e) ↦ elim (Bool-cases (is_used s db)) [
          | inl taken ↦ inl (ground arith)
          | inr fresh ↦ inr (record {
            mint = x.mint_address;
            event = sale_event s x (some p) (some w) n.owner now;
            columns = columns;
            owns = owns;
            keeps = keeps;
            is_sale = refl;
            of_mint = refl;
            bought = refl;
            nfts = ground arith;
            events = ground arith;
          })
        ]
      ]

  pub update_db_after_sale-IsRecorded :
      (env : Env) (b : PrivateBid) (s : ℕ) (p : ℤ) (w : ℕ)
      → Preserves (IsRecorded first) (update_db_after_sale env b s p w)
  unfolding update_db_after_sale create_event create_transaction ◌>>=◌
  update_db_after_sale-IsRecorded env b s p w = record {
    holds = λ db h.
        after_sale first (some b.bidder) db (update_db_after_sale env b s p w db).1 h (written db);
  }
    where
      written :
          (db : Db)
          → ((update_db_after_sale env b s p w db).1 ≡ db)
            ⊎ IsSaleOf first (some b.bidder) db (update_db_after_sale env b s p w db).1
      written db = elim (Option-cases (find b.nft db.nfts)) [
        | inl missing ↦ inl (ground arith)
        | inr (x, e) ↦ elim (Bool-cases (is_used s db)) [
          | inl taken ↦ inl (ground arith)
          | inr fresh ↦ inr (record {
            mint = x.mint_address;
            event = sale_event s x (some p) (some b.bidder) (some w) (env.clock 4);
            columns = accepted_columns b.bidder;
            owns = accepted-owner b.bidder;
            keeps = accepted-mint b.bidder;
            is_sale = refl;
            of_mint = refl;
            bought = refl;
            nfts = ground arith;
            events = ground arith;
          })
        ]
      ]

  pub finalize_sale_in_db-IsRecorded :
      (now id s : ℕ) → Preserves (IsRecorded first) (finalize_sale_in_db now id s)
  unfolding finalize_sale_in_db create_event ◌>>=◌
  finalize_sale_in_db-IsRecorded now id s = record {
    holds = λ db h. kept db h (Option-cases (find id db.auctions));
  }
    where
      of_auction :
          (db : Db) (a : AuctionEvent)
          → find id db.auctions ≡ some a
          → ((finalize_sale_in_db now id s db).1 ≡ db)
            ⊎ IsSaleOf first a.current_bidder db (finalize_sale_in_db now id s db).1
      of_auction db a ea = elim (Option-cases (find a.nft db.nfts)) [
        | inl missing ↦ inl (ground arith)
        | inr (x, e) ↦ elim (Option-cases (find s db.events)) [
          | inr (d, taken) ↦ inl (ground arith)
          | inl fresh ↦ inr (record {
            mint = x.mint_address;
            event = sale_event s x a.current_bid a.current_bidder (some a.creator) now;
            columns = won_columns a.current_bidder;
            owns = won-owner a.current_bidder;
            keeps = won-mint a.current_bidder;
            is_sale = refl;
            of_mint = refl;
            bought = refl;
            nfts = ground arith;
            events = ground arith;
          })
        ]
      ]

      kept :
          (db : Db)
          → IsRecorded first db
          → (find id db.auctions ≡ none) ⊎ ((a : AuctionEvent) × (find id db.auctions ≡ some a))
          → IsRecorded first (finalize_sale_in_db now id s db).1
      kept db h (inl missing) =
          after_sale first none db (finalize_sale_in_db now id s db).1 h (inl (ground arith))
      kept db h (inr (a, ea)) =
          after_sale first a.current_bidder db (finalize_sale_in_db now id s db).1 h
            (of_auction db a ea)
