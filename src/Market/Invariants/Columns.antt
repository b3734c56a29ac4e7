-- ===== src/Market/Invariants/Columns.antt =====
-- The owner column against the log of events: the writes that are not sales.
use traitkeeper_eco.Base.{ℕ, ℤ, refl, Bool, true, false, Option, ok, err, arith}
use traitkeeper_eco.Schema.{PrivateBid, AuctionEvent, TransactionMonitoring}
use traitkeeper_eco.Outcome.{Outcome}
use traitkeeper_eco.Orm.{
  Action, ◌>>=◌, nft_model, update_nft, update_bid, update_bids_where, update_auction,
  update_monitoring, create_auction, create_monitoring,
}
use traitkeeper_eco.Orm.Preserves.{Preserves, preserves_rules, Preserves-bind}
use traitkeeper_eco.Market.Listings.{
  direct_sell_columns, no_direct_sell_columns, sell_intent_columns, no_sell_intent_columns,
}
use traitkeeper_eco.Market.Offers.{mark_by_reply}
use traitkeeper_eco.Market.Negotiation.{or_mark_failed}
use traitkeeper_eco.Market.Auctions.{auctioned_columns, no_auction_columns}
use traitkeeper_eco.Market.Invariants.Sales.{IsRecorded, columns-IsRecorded}

module _ (first : ℕ → Option ℕ) where
  pub listing-IsRecorded :
      (k : ℕ) (p : ℤ) → Preserves (IsRecorded first) (update_nft k (direct_sell_columns p))
  unfolding direct_sell_columns
  listing-IsRecorded k p = columns-IsRecorded first k _ (λ n. refl) (λ n. refl)

  pub no_listing-IsRecorded :
      (k : ℕ) → Preserves (IsRecorded first) (update_nft k no_direct_sell_columns)
  unfolding no_direct_sell_columns
  no_listing-IsRecorded k = columns-IsRecorded first k _ (λ n. refl) (λ n. refl)

  pub intent-IsRecorded :
      (k : ℕ) (p : ℤ) → Preserves (IsRecorded first) (update_nft k (sell_intent_columns p))
  unfolding sell_intent_columns
  intent-IsRecorded k p = columns-IsRecorded first k _ (λ n. refl) (λ n. refl)

  pub no_intent-IsRecorded :
      (k : ℕ) → Preserves (IsRecorded first) (update_nft k no_sell_intent_columns)
  unfolding no_sell_intent_columns
  no_intent-IsRecorded k = columns-IsRecorded first k _ (λ n. refl) (λ n. refl)

  pub auction-IsRecorded :
      (k a : ℕ) → Preserves (IsRecorded first) (update_nft k (auctioned_columns a))
  unfolding auctioned_columns
  auction-IsRecorded k a = columns-IsRecorded first k _ (λ n. refl) (λ n. refl)

  pub no_auction-IsRecorded :
      (k : ℕ) → Preserves (IsRecorded first) (update_nft k no_auction_columns)
  unfolding no_auction_columns
  no_auction-IsRecorded k = columns-IsRecorded first k _ (λ n. refl) (λ n. refl)

  -- Statements on the other tables.
  pub bids-IsRecorded :
      (p : PrivateBid → Bool) (f : PrivateBid → PrivateBid)
      → Preserves (IsRecorded first) (update_bids_where p f)
  unfolding ◌>>=◌
  bids-IsRecorded p f = record { holds = λ db h. h }

  pub bid-IsRecorded :
      (k : ℕ) (f : PrivateBid → PrivateBid) → Preserves (IsRecorded first) (update_bid k f)
  unfolding ◌>>=◌
  bid-IsRecorded k f = record { holds = λ db h. h }

  pub update_auction-IsRecorded :
      (k : ℕ) (f : AuctionEvent → AuctionEvent) → Preserves (IsRecorded first) (update_auction k f)
  unfolding ◌>>=◌
  update_auction-IsRecorded k f = record { holds = λ db h. h }

  pub create_auction-IsRecorded :
      (a : AuctionEvent) → Preserves (IsRecorded first) (create_auction a)
  unfolding create_auction
  create_auction-IsRecorded a = record { holds = λ db h k n e. ground (arith, h k n) }

  pub monitoring-IsRecorded :
      (k : ℕ) (f : TransactionMonitoring → TransactionMonitoring)
      → Preserves (IsRecorded first) (update_monitoring k f)
  unfolding ◌>>=◌
  monitoring-IsRecorded k f = record { holds = λ db h. h }

  pub create_monitoring-IsRecorded :
      (t : TransactionMonitoring) → Preserves (IsRecorded first) (create_monitoring t)
  unfolding create_monitoring
  create_monitoring-IsRecorded t = record { holds = λ db h k n e. ground (arith, h k n) }

  pub mark_by_reply-IsRecorded :
      (now s : ℕ) (r : Outcome Bool) → Preserves (IsRecorded first) (mark_by_reply now s r)
  unfolding mark_by_reply
  mark_by_reply-IsRecorded now s (ok true) = monitoring-IsRecorded s _
  mark_by_reply-IsRecorded now s (ok false) =
      Preserves-bind _ _ (monitoring-IsRecorded s _)
        λ _. Preserves-bind _ _ (monitoring-IsRecorded s _) λ _. search preserves_rules
  mark_by_reply-IsRecorded now s (err e) =
      Preserves-bind _ _ (monitoring-IsRecorded s _) λ _. search preserves_rules

  pub or_mark_failed-IsRecorded :
      {A : Type 0} (s : ℕ) (m : Action A)
      → Preserves (IsRecorded first) m
      → Preserves (IsRecorded first) (or_mark_failed s m)
  unfolding or_mark_failed ◌>>=◌
  or_mark_failed-IsRecorded s m hm = record {
    holds = λ db h k n e. ground (arith, hm.holds db h k n);
  }
