-- ===== src/Market/Offers.antt =====
-- How a private bid comes to be: `place_private_bid`, `confirm_private_bid_tx` and
-- `bidder_counter_sell_intent`.
use text.Mathlib.Text.{◌==◌ as str_eq}
use traitkeeper_eco.Base.{
  ℕ, ◌+◌, ◌*◌, ◌/◌, ℤ, eqb_ℤ, Bool, true, false, not, ◌&&◌, Option, none, some, String, ok, err,
  ◌==◌, if◌then◌else◌,
}
use traitkeeper_eco.Schema.{
  Nft, PrivateBid, BidStatus, str, amount_mismatch, pending_bid_not_found, confirmation_failed,
  value_error, attribute_error, type_error, chain_error,
}
use traitkeeper_eco.Amounts.{scaled, to_column, to_lamports}
use traitkeeper_eco.Chain
use traitkeeper_eco.Chain.{Env, hour}
use traitkeeper_eco.Outcome.{Outcome, get_or_raise, fail_if}
use traitkeeper_eco.Table.{find}
use traitkeeper_eco.Orm.{
  Action, pure, raise, lift, query, atomic, ◌>>=◌, ◌>>◌, bid_model, delete_bid, update_monitoring,
  create_bid,
}
use traitkeeper_eco.Monitoring.{create_transaction_record, mark_confirmed, mark_failed}
use traitkeeper_eco.Market.Response.{
  Response, unsigned, bid_id_of, bid_placed, bid_confirmed, counter_placed,
}
use traitkeeper_eco.Market.Checks.{place_bid_check, counter_intent_check}

-- `PrivateBid.Status.NAME`: a member of the enumeration, or AttributeError.
unfoldable pub status_named : String → Outcome BidStatus
status_named name =
    if str_eq name "ACTIVE"
    then ok BidStatus.active
    else if str_eq name "ACCEPTED"
    then ok BidStatus.accepted
    else if str_eq name "REJECTED"
    then ok BidStatus.rejected
    else if str_eq name "CANCELLED"
    then ok BidStatus.cancelled
    else if str_eq name "EXPIRED"
    then ok BidStatus.expired
    else err attribute_error

-- `nft.negotiation_count`: the model NFT has no such column.
abbrev negotiation_count : Nft → Outcome ℕ
negotiation_count n = err attribute_error

-- `_create_bid_in_transaction`: the call of `create` leaves `amount` out.
unfoldable pub create_bid_in_transaction :
    Env → (bidder_wallet expiry_hours transaction_signature : ℕ) → Nft → Action PrivateBid
unfolding create_bid
create_bid_in_transaction env bidder_wallet expiry_hours transaction_signature nft = atomic (do
  bid ← create_bid (env.clock 2) (record {
    bid_id = transaction_signature;
    nft = nft.mint_address;
    collection = nft.collection;
    amount = none;
    bidder = bidder_wallet;
    owner_at_creation = nft.owner;
    encrypted_state_account = env.uuid;
    status = BidStatus.active;
    expires_at = env.clock 1 + expiry_hours * hour;
    resolved_at = none;
  })
  if nft.has_sell_intent then (do lift (negotiation_count nft); pure bid) else pure bid)

-- `int(getattr(nft, 'vitality_score', 50))`: `int(None)` is a TypeError.
unfoldable pub place_private_bid :
    Env → (bidder_wallet nft_mint : ℕ) → ℤ → (expiry_hours : ℕ) → Option ℕ → Action Response
unfolding create_bid_in_transaction
place_private_bid env bidder_wallet nft_mint amount expiry_hours signed_transaction = do
  nft ← query (place_bid_check (env.clock 0) bidder_wallet nft_mint amount)
  elim signed_transaction [
    | none ↦ do
      score ← lift (get_or_raise nft.vitality_score type_error)
      unsigned env (
          Chain.place_private_bid bidder_wallet nft_mint nft.owner (to_lamports amount) expiry_hours
            (score / 100))
    | some signature ↦ do
      bid ← create_bid_in_transaction env bidder_wallet expiry_hours signature nft
      pure (bid_placed bid.bid_id)
  ]

abbrev rank : BidStatus → ℕ
rank BidStatus.active = 0
rank BidStatus.accepted = 1
rank BidStatus.rejected = 2
rank BidStatus.cancelled = 3
rank BidStatus.expired = 4

abbrev has_status : BidStatus → PrivateBid → Bool
has_status s b = rank s == rank b.status

-- `_finalize_bid_in_transaction`
unfoldable pub finalize_bid_in_transaction :
    Env → (bidder_wallet temp_bid_id transaction_signature : ℕ) → ℤ → Action ℕ
unfolding status_named create_bid
finalize_bid_in_transaction env bidder_wallet temp_bid_id transaction_signature amount = atomic (do
  pending ← lift (status_named "PENDING")
  bid ← query (λ db. get_or_raise (find temp_bid_id db.bids) (value_error pending_bid_not_found))
  lift (
      fail_if (not (has_status pending bid && bid.bidder == bidder_wallet))
        (value_error pending_bid_not_found))
  lift (fail_if (not (eqb_ℤ (scaled bid.amount) amount)) (value_error amount_mismatch))
  delete_bid temp_bid_id
  final ← create_bid (env.clock 3) (record {
    bid_id = transaction_signature;
    nft = bid.nft;
    collection = bid.collection;
    amount = some (to_column amount);
    bidder = bid.bidder;
    owner_at_creation = some bid.owner_at_creation;
    encrypted_state_account = bid.encrypted_state_account;
    status = BidStatus.active;
    expires_at = bid.expires_at;
    resolved_at = some (env.clock 2);
  })
  pure final.bid_id)

-- The `try` block on the confirmation, by what the client answers: a refusal is marked and raised,
-- then marked again by the handler, which raises ValueError.
unfoldable pub mark_by_reply : (now signature : ℕ) → Outcome Bool → Action Unit
unfolding mark_confirmed mark_failed
mark_by_reply now signature (ok true) = update_monitoring signature (mark_confirmed now)
mark_by_reply now signature (ok false) = do
  update_monitoring signature (mark_failed (str chain_error))
  update_monitoring signature (mark_failed (str chain_error))
  raise (value_error confirmation_failed)
mark_by_reply now signature (err e) = do
  update_monitoring signature (mark_failed (str e))
  raise (value_error confirmation_failed)

unfoldable pub confirm_private_bid_tx :
    Env → (bidder_wallet temp_bid_id transaction_signature : ℕ) → ℤ → Action Response
unfolding create_transaction_record mark_by_reply finalize_bid_in_transaction
confirm_private_bid_tx env bidder_wallet temp_bid_id transaction_signature amount = do
  create_transaction_record env.is_client_initialized (env.clock 0) transaction_signature
      "place_bid_confirm" none (some bidder_wallet)
  mark_by_reply (env.clock 1) transaction_signature (env.confirm transaction_signature)
  bid_id ← finalize_bid_in_transaction env bidder_wallet temp_bid_id transaction_signature amount
  pure (bid_confirmed bid_id)

-- `bidder_counter_sell_intent` places the bid with no signed transaction.
unfoldable pub bidder_counter_sell_intent : Env → (bidder_wallet nft_mint : ℕ) → ℤ → Action Response
unfolding place_private_bid bid_id_of
bidder_counter_sell_intent env bidder_wallet nft_mint counter_amount = do
  query (counter_intent_check nft_mint counter_amount)
  bid_result ← place_private_bid env bidder_wallet nft_mint counter_amount 72 none
  bid_id ← lift (bid_id_of bid_result)
  pure (counter_placed bid_id counter_amount)
