-- ===== src/Market/Invariants/Steps.antt =====
-- The owner column against the log of events: the parts of the calls.
use mathlib.Core.Path.{subst⁻¹}
use traitkeeper_eco.Base.{String, Bool, ltb, ℕ, ℤ, ◌≡◌, true, Option, none, some}
use traitkeeper_eco.Schema.{Nft, PrivateBid, AuctionEvent}
use traitkeeper_eco.Chain.{Env}
use traitkeeper_eco.Orm.{Db, Action, ◌>>=◌, nft_model}
use traitkeeper_eco.Orm.Preserves.{
  Preserves, preserves_rules, Preserves-pure, Preserves-bind, Preserves-bind_query, Preserves-if,
  Preserves-atomic, Preserves-option,
}
use traitkeeper_eco.Monitoring.{create_transaction_record}
use traitkeeper_eco.Market.Offers.{finalize_bid_in_transaction, confirm_private_bid_tx}
use traitkeeper_eco.Market.Negotiation.{accept_signed, accept_private_bid, update_db_counter}
use traitkeeper_eco.Market.Auctions.{
  create_auction_in_db, get_lock_and_update_auction, finalize_auction, cancel_auction_db,
}
use traitkeeper_eco.Market.Requests.{Request, handle}
use traitkeeper_eco.Market.Invariants.Sales.{IsRecorded}
use traitkeeper_eco.Market.Invariants.Blocks.{
  update_db_after_sale-IsRecorded, finalize_sale_in_db-IsRecorded,
}
use traitkeeper_eco.Market.Invariants.Columns.{
  intent-IsRecorded, auction-IsRecorded, no_auction-IsRecorded, bid-IsRecorded,
  update_auction-IsRecorded, create_auction-IsRecorded, monitoring-IsRecorded,
  create_monitoring-IsRecorded, mark_by_reply-IsRecorded, or_mark_failed-IsRecorded,
}
use traitkeeper_eco.Market.Effects.Previews.{is_preview, preview_writes_nothing}
use traitkeeper_eco.Market.Effects.Refusals.{IsRefused}

-- No bid is pending, so none is finalized.
finalize_keeps :
    {P : Db → Type 0} (env : Env) (w t s : ℕ) (p : ℤ)
    → Preserves P (finalize_bid_in_transaction env w t s p)
unfolding finalize_bid_in_transaction ◌>>=◌
finalize_keeps env w t s p = record { holds = λ db h. h }

module _ (first : ℕ → Option ℕ) where
  pub preview-IsRecorded :
      (env : Env) (r : Request) → is_preview r ≡ true → Preserves (IsRecorded first) (handle env r)
  preview-IsRecorded env r e = record {
    holds = λ db h. subst⁻¹ (IsRecorded first) (preview_writes_nothing env r db e) h;
  }

  pub refused-IsRecorded :
      {A : Type 0} (m : Action A) (db : Db)
      → IsRefused m db
      → IsRecorded first db
      → IsRecorded first (m db).1
  refused-IsRecorded m db (e, same) h = subst⁻¹ (λ x. IsRecorded first x.1) same h

  create_record-IsRecorded :
      (up : Bool) (now s : ℕ) (action : String) (mint w : Option ℕ)
      → Preserves (IsRecorded first) (create_transaction_record up now s action mint w)
  unfolding create_transaction_record
  create_record-IsRecorded up now s action mint w =
      Preserves-if up _ _ (create_monitoring-IsRecorded first _) (search preserves_rules)

  pub confirm-IsRecorded :
      (env : Env) (w t s : ℕ) (p : ℤ)
      → Preserves (IsRecorded first) (confirm_private_bid_tx env w t s p)
  unfolding confirm_private_bid_tx
  confirm-IsRecorded env w t s p =
      Preserves-bind _ _ (create_record-IsRecorded env.is_client_initialized _ s _ _ _) λ _.
        Preserves-bind _ _ (mark_by_reply-IsRecorded first (env.clock 1) s (env.confirm s))
          λ _. Preserves-bind _ _ (finalize_keeps env w t s p) λ _. Preserves-pure _

  pub accept_signed-IsRecorded :
      (env : Env) (w : ℕ) (b : PrivateBid) (n : Nft) (s : ℕ)
      → Preserves (IsRecorded first) (accept_signed env w b n s)
  unfolding accept_signed
  accept_signed-IsRecorded env w b n s =
      Preserves-bind _ _ (create_record-IsRecorded env.is_client_initialized _ s _ _ _) λ _.
        or_mark_failed-IsRecorded first s _ (
          Preserves-bind _ _ (monitoring-IsRecorded first s _)
            λ _. search (preserves_rules, update_db_after_sale-IsRecorded first))

  pub accept-IsRecorded :
      (env : Env) (w id : ℕ) (signed : Option ℕ)
      → Preserves (IsRecorded first) (accept_private_bid env w id signed)
  unfolding accept_private_bid
  accept-IsRecorded env w id none = Preserves-bind_query _ _ λ x db h e.
      Preserves-if (ltb x.0.expires_at (env.clock 0)) _ _
        (search (preserves_rules, bid-IsRecorded first)) (search preserves_rules)
  accept-IsRecorded env w id (some s) = Preserves-bind_query _ _ λ x db h e.
      Preserves-if (ltb x.0.expires_at (env.clock 0)) _ _
        (search (preserves_rules, bid-IsRecorded first)) (accept_signed-IsRecorded env w x.0 x.1 s)

  pub counter-IsRecorded :
      (env : Env) (b : PrivateBid) (n : Nft) (p : ℤ)
      → Preserves (IsRecorded first) (update_db_counter env b n p)
  unfolding update_db_counter
  counter-IsRecorded env b n p = Preserves-atomic _ (
      Preserves-bind_query _ _ λ n' db h e.
        Preserves-bind_query _ _
          λ b' db' h' e'. search (preserves_rules, bid-IsRecorded first, intent-IsRecorded first))

  pub creation-IsRecorded :
      (env : Env) (w s : ℕ) (n : Nft) (p : ℤ) (hours : ℕ)
      → Preserves (IsRecorded first) (create_auction_in_db env w s n p hours)
  unfolding create_auction_in_db
  creation-IsRecorded env w s n p hours = Preserves-atomic _ (
      Preserves-bind_query _ _ λ n' db h e.
        search (preserves_rules, create_auction-IsRecorded first, auction-IsRecorded first))

  pub bidding-IsRecorded :
      (now w id : ℕ) (p : ℤ) → Preserves (IsRecorded first) (get_lock_and_update_auction now w id p)
  unfolding get_lock_and_update_auction
  bidding-IsRecorded now w id p = Preserves-atomic _ (
      Preserves-bind_query _ _
        λ a db h e. search (preserves_rules, update_auction-IsRecorded first))

  pub cancelling-IsRecorded :
      (a : AuctionEvent) (n : Nft) → Preserves (IsRecorded first) (cancel_auction_db a n)
  unfolding cancel_auction_db
  cancelling-IsRecorded a n = Preserves-atomic _ (
      Preserves-bind_query _ _ λ n' db h e. Preserves-bind_query _ _ λ a' db' h' e'.
        search (preserves_rules, update_auction-IsRecorded first, no_auction-IsRecorded first))

  pub finalize-IsRecorded :
      (env : Env) (id : ℕ) (signed : Option ℕ)
      → Preserves (IsRecorded first) (finalize_auction env id signed)
  unfolding finalize_auction
  finalize-IsRecorded env id signed = Preserves-bind_query _ _ λ x db h e.
      Preserves-option x.0.current_bidder _ _
        (λ _.
          search (preserves_rules, update_auction-IsRecorded first, no_auction-IsRecorded first))
        (λ w won.
          Preserves-option signed _ _ (λ _. search preserves_rules)
            (λ s e'. search (preserves_rules, finalize_sale_in_db-IsRecorded first)))
