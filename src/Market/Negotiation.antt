-- ===== src/Market/Negotiation.antt =====
-- What the owner and the bidder do with a private bid: `accept_private_bid`,
-- `reject_private_bid`, `cancel_private_bid` and `owner_counter_bid`.
use text.Mathlib.Text.{◌==◌ as str_eq}
use traitkeeper_eco.Base.{
  ℕ, ℤ, pos, true, false, not, ◌&&◌, Option, none, some, String, ok, err, ◌==◌, ltb, if◌then◌else◌,
}
use traitkeeper_eco.Schema.{
  Nft, PrivateBid, BidStatus, MarketplaceTransaction, TransactionType, str, bid_has_expired,
  value_error, does_not_exist, attribute_error,
}
use traitkeeper_eco.Amounts.{to_lamports, column_errors}
use traitkeeper_eco.Chain
use traitkeeper_eco.Chain.{Env}
use traitkeeper_eco.Outcome.{Outcome, get_or_raise}
use traitkeeper_eco.Table.{find}
use traitkeeper_eco.Orm.{
  Action, pure, raise, lift, query, atomic, ◌>>=◌, ◌>>◌, bid_model, update_nft, update_bid,
  update_bids_where, update_monitoring, create_event, create_transaction,
}
use traitkeeper_eco.Monitoring.{create_transaction_record, mark_confirmed, mark_failed}
use traitkeeper_eco.Market.Response.{
  Response, unsigned, bid_accepted, bid_rejected, bid_cancelled, bid_countered,
}
use traitkeeper_eco.Market.Checks.{owner_bid_check, cancel_bid_check, owner_counter_check}
use traitkeeper_eco.Market.Listings.{is_open_on, cancelled_bid, sell_intent_columns}
use traitkeeper_eco.Market.Sales.{lock_nft, sale_event, vitality_or_50}

-- `bid.name` for the columns of a bid that hold a wallet.
unfoldable pub wallet_attribute : String → PrivateBid → Outcome ℕ
wallet_attribute name b =
    if str_eq name "bidder"
    then ok b.bidder
    else if str_eq name "owner_at_creation"
    then ok b.owner_at_creation
    else err attribute_error

-- `Decimal('1.30')`, the placeholder for the decrypted amount.
abbrev pub mock_decrypted_amount : ℤ
mock_decrypted_amount = pos 1_300_000_000

abbrev accepted_transaction : ℕ → Nft → ℕ → MarketplaceTransaction
accepted_transaction signature n now = record {
  transaction_id = signature;
  nft_event = signature;
  transaction_type = TransactionType.bid_accepted;
  was_encrypted = true;
  reveal_timestamp = some now;
  nft_vitality_at_sale = vitality_or_50 n;
  suggested_price_at_sale = pos 1_250_000_000;
  vs_vitality_suggested = 104;
  vs_collection_floor = 136;
}

unfoldable pub accepted_columns : ℕ → Nft → Nft
accepted_columns bidder n = record n {
  owner = some bidder;
  has_buy_price = false;
  buy_price = none;
  is_open_to_offers = false;
  has_sell_intent = false;
  asking_price = none;
}

-- The columns of the bid that `bid_instance.save()` writes: all of them, as they were fetched.
abbrev pub resolved_bid : BidStatus → ℕ → PrivateBid → PrivateBid
resolved_bid status now b = record b { status = status; resolved_at = some now }

-- `_update_db_after_sale`
unfoldable pub update_db_after_sale :
    Env → PrivateBid → (sale_signature : ℕ) → ℤ → (seller_wallet : ℕ) → Action Unit
unfolding create_event create_transaction
update_db_after_sale env bid sale_signature sale_amount seller_wallet = atomic (do
  n ← lock_nft bid.nft
  update_bid bid.bid_id (λ _. resolved_bid BidStatus.accepted (env.clock 3) bid)
  create_event (
      sale_event sale_signature n (some sale_amount) (some bid.bidder) (some seller_wallet)
        (env.clock 4))
  create_transaction (accepted_transaction sale_signature n (env.clock 5))
  update_nft n.mint_address (accepted_columns bid.bidder)
  update_bids_where (λ b. is_open_on n.mint_address b && not (b.bid_id == bid.bid_id))
      cancelled_bid)

-- `except Exception as e: mark_failed(str(e)); raise`
unfoldable pub or_mark_failed : {A : Type 0} → ℕ → Action A → Action A
unfolding mark_failed
or_mark_failed signature m db =
    let (r, db') = m db in
    elim r [
      | ok a ↦ (ok a, db')
      | err e ↦ (update_monitoring signature (mark_failed (str e)) >> raise e) db'
    ]

unfoldable pub accept_signed : Env → (owner_wallet : ℕ) → PrivateBid → Nft → ℕ → Action Response
unfolding create_transaction_record mark_confirmed update_db_after_sale or_mark_failed
accept_signed env owner_wallet bid nft signature = do
  create_transaction_record env.is_client_initialized (env.clock 1) signature "accept_bid"
      (some nft.mint_address) (some owner_wallet)
  or_mark_failed signature (do
    update_monitoring signature (mark_confirmed (env.clock 2))
    update_db_after_sale env bid signature mock_decrypted_amount owner_wallet
    pure (bid_accepted signature mock_decrypted_amount))

unfoldable pub expired_bid : PrivateBid → PrivateBid
expired_bid b = record b { status = BidStatus.expired }

unfoldable pub accept_private_bid : Env → (owner_wallet bid_id : ℕ) → Option ℕ → Action Response
unfolding accept_signed
accept_private_bid env owner_wallet bid_id signed_transaction = do
  found ← query (owner_bid_check owner_wallet bid_id)
  if ltb found.0.expires_at (env.clock 0)
      then (do update_bid found.0.bid_id expired_bid; raise (value_error bid_has_expired))
      else elim signed_transaction [
        | none ↦ unsigned env (Chain.accept_bid owner_wallet found.0.bidder found.1.mint_address)
        | some signature ↦ accept_signed env owner_wallet found.0 found.1 signature
      ]

unfoldable pub reject_private_bid : Env → (owner_wallet bid_id : ℕ) → Option ℕ → Action Response
reject_private_bid env owner_wallet bid_id signed_transaction = do
  found ← query (owner_bid_check owner_wallet bid_id)
  elim signed_transaction [
    | none ↦ unsigned env (Chain.reject_bid owner_wallet found.0.bidder found.1.mint_address)
    | some signature ↦ do
      update_bid found.0.bid_id (resolved_bid BidStatus.rejected (env.clock 0))
      pure (bid_rejected signature)
  ]

unfoldable pub cancel_private_bid : Env → (bidder_wallet bid_id : ℕ) → Option ℕ → Action Response
cancel_private_bid env bidder_wallet bid_id signed_transaction = do
  bid ← query (cancel_bid_check bidder_wallet bid_id)
  elim signed_transaction [
    | none ↦ unsigned env (Chain.cancel_bid bidder_wallet bid.nft bid.owner_at_creation)
    | some signature ↦ do
      update_bid bid.bid_id (resolved_bid BidStatus.cancelled (env.clock 0))
      pure (bid_cancelled signature)
  ]

-- `_update_db_counter`
unfoldable pub update_db_counter : Env → PrivateBid → Nft → ℤ → Action Unit
update_db_counter env bid nft counter_amount = atomic (do
  n ← lock_nft nft.mint_address
  b ← query (λ db. get_or_raise (find bid.bid_id db.bids) does_not_exist)
  update_bid b.bid_id (resolved_bid BidStatus.rejected (env.clock 0))
  lift (column_errors counter_amount)
  update_nft n.mint_address (sell_intent_columns counter_amount))

unfoldable pub owner_counter_bid : Env → (owner_wallet bid_id : ℕ) → ℤ → Option ℕ → Action Response
unfolding wallet_attribute update_db_counter
owner_counter_bid env owner_wallet bid_id counter_amount signed_transaction = do
  found ← query (owner_counter_check owner_wallet bid_id counter_amount)
  elim signed_transaction [
    | none ↦ do
      bidder ← lift (wallet_attribute "bidder_wallet" found.0)
      unsigned env
          (Chain.counter_bid owner_wallet bidder found.1.mint_address (to_lamports counter_amount))
    | some signature ↦ do
      update_db_counter env found.0 found.1 counter_amount
      pure (bid_countered found.1.mint_address counter_amount signature)
  ]
