-- ===== src/Market/Auctions.antt =====
-- Auctions: `create_private_auction`, `place_auction_bid`, `finalize_auction` and
-- `cancel_auction`.
use traitkeeper_eco.Base.{
  ℕ, ◌+◌, ◌*◌, ℤ, pos, leb_ℤ, or_amount, true, false, not, Option, none, some, err, ◌==◌, leb,
  if◌then◌else◌,
}
use traitkeeper_eco.Schema.{
  Nft, AuctionEvent, AuctionStatus, value_error, does_not_exist, auction_not_active,
  auction_has_ended, creator_cannot_bid, bid_not_above,
}
use traitkeeper_eco.Amounts.{scaled, to_column, to_lamports, column_errors}
use traitkeeper_eco.Chain
use traitkeeper_eco.Chain.{Env, hour}
use traitkeeper_eco.Outcome.{Outcome, get_or_raise, fail_if}
use traitkeeper_eco.Table.{find}
use traitkeeper_eco.Orm.{
  Action, pure, lift, query, atomic, ◌>>=◌, ◌>>◌, auction_model, update_nft, update_auction,
  create_auction, create_event,
}
use traitkeeper_eco.Market.Response.{
  Response, unsigned, auction_created, auction_bid_placed, auction_closed, auction_completed,
  auction_cancelled,
}
use traitkeeper_eco.Market.Checks.{
  is_active_auction, get_auction, create_auction_check, auction_bid_check, finalize_check,
  cancel_auction_check,
}
use traitkeeper_eco.Market.Sales.{lock_nft, sale_event}

unfoldable pub auctioned_columns : ℕ → Nft → Nft
auctioned_columns auction_id n = record n { active_auction = some auction_id; is_listed = true }

unfoldable pub no_auction_columns : Nft → Nft
no_auction_columns n = record n { active_auction = none; is_listed = false }

-- The row that `AuctionEvent.objects.create` stores.
abbrev pub opened_auction :
    (now owner_wallet transaction_signature : ℕ) → Nft → ℤ → (duration_hours : ℕ) → AuctionEvent
opened_auction now owner_wallet transaction_signature nft starting_price duration_hours = record {
  auction_id = transaction_signature;
  nft = nft.mint_address;
  collection = nft.collection;
  creator = owner_wallet;
  start_time = now;
  end_time = now + duration_hours * hour;
  status = AuctionStatus.active;
  starting_price = to_column starting_price;
  current_bid = none;
  current_bidder = none;
  bid_count = 0;
  final_price = none;
  winner = none;
}

-- `_create_auction_in_db`
unfoldable pub create_auction_in_db :
    Env
    → (owner_wallet transaction_signature : ℕ) → Nft
    → ℤ
    → (duration_hours : ℕ) → Action AuctionEvent
unfolding create_auction
create_auction_in_db env owner_wallet transaction_signature nft starting_price duration_hours =
    atomic (do
      n ← lock_nft nft.mint_address
      lift (column_errors starting_price)
      auction ← create_auction (
          opened_auction (env.clock 0) owner_wallet transaction_signature n starting_price
            duration_hours)
      update_nft n.mint_address (auctioned_columns auction.auction_id)
      pure auction)

-- `reserve_price` goes into the instruction, NULL and zero as 0, and is not stored.
unfoldable pub create_private_auction :
    Env
    → (owner_wallet nft_mint : ℕ) → ℤ
    → (duration_hours : ℕ) → Option ℤ
    → Option ℕ
    → Action Response
unfolding create_auction_in_db
create_private_auction env owner_wallet nft_mint starting_price duration_hours reserve signed = do
  nft ← query (create_auction_check owner_wallet nft_mint starting_price duration_hours)
  elim signed [
    | none ↦ unsigned env (
        Chain.create_auction owner_wallet nft_mint (to_lamports starting_price)
          (to_lamports (or_amount reserve (pos 0))) duration_hours)
    | some signature ↦ do
      auction ← create_auction_in_db env owner_wallet signature nft starting_price duration_hours
      pure (auction_created auction.auction_id auction.end_time)
  ]

-- `current_bid or starting_price`
unfoldable pub min_bid : AuctionEvent → ℤ
min_bid a = or_amount a.current_bid a.starting_price

-- The checks on the locked auction.
unfoldable pub auction_bid_errors : ℕ → ℕ → ℤ → AuctionEvent → Outcome Unit
unfolding min_bid
auction_bid_errors now bidder_wallet amount a =
    if not (is_active_auction a)
    then err (value_error auction_not_active)
    else if leb a.end_time now
    then err (value_error auction_has_ended)
    else if bidder_wallet == a.creator
    then err (value_error creator_cannot_bid)
    else fail_if (leb_ℤ amount (scaled (min_bid a))) (value_error (bid_not_above (min_bid a)))

unfoldable pub outbid : ℕ → ℤ → AuctionEvent → AuctionEvent
outbid bidder_wallet amount a = record a {
  current_bid = some (to_column amount);
  current_bidder = some bidder_wallet;
  bid_count = a.bid_count + 1;
}

abbrev lock_auction : ℕ → Action AuctionEvent
lock_auction id = query (λ db. get_or_raise (find id db.auctions) does_not_exist)

-- `_get_lock_and_update_auction`: `save()` writes every column of the locked row.
unfoldable pub get_lock_and_update_auction : ℕ → (bidder_wallet auction_id : ℕ) → ℤ → Action Unit
unfolding auction_bid_errors
get_lock_and_update_auction now bidder_wallet auction_id amount = atomic (do
  auction ← lock_auction auction_id
  lift (auction_bid_errors now bidder_wallet amount auction)
  lift (column_errors amount)
  update_auction auction.auction_id (λ _. outbid bidder_wallet amount auction))

unfoldable pub place_auction_bid :
    Env → (bidder_wallet auction_id : ℕ) → ℤ → Option ℕ → Action Response
unfolding get_lock_and_update_auction
place_auction_bid env bidder_wallet auction_id amount signed_transaction = do
  found ← query (auction_bid_check (env.clock 0) bidder_wallet auction_id)
  elim signed_transaction [
    | none ↦ unsigned env (
        Chain.place_auction_bid bidder_wallet auction_id found.1.mint_address found.0.creator
          (to_lamports amount))
    | some signature ↦ do
      get_lock_and_update_auction (env.clock 1) bidder_wallet auction_id amount
      pure (auction_bid_placed signature amount)
  ]

unfoldable pub cancelled_auction : AuctionEvent → AuctionEvent
cancelled_auction a = record a { status = AuctionStatus.cancelled }

unfoldable pub completed_auction : AuctionEvent → AuctionEvent
completed_auction a = record a {
  status = AuctionStatus.completed;
  winner = a.current_bidder;
  final_price = a.current_bid;
}

unfoldable pub won_columns : Option ℕ → Nft → Nft
won_columns winner n = record n { owner = winner; active_auction = none; is_listed = false }

-- `_finalize_sale_in_db`, which creates no MarketplaceTransaction.
unfoldable pub finalize_sale_in_db : ℕ → (auction_id transaction_signature : ℕ) → Action Unit
unfolding create_event
finalize_sale_in_db now auction_id transaction_signature = atomic (do
  locked ← query (get_auction auction_id does_not_exist)
  update_auction locked.0.auction_id (λ _. completed_auction locked.0)
  create_event (
      sale_event transaction_signature locked.1 locked.0.current_bid locked.0.current_bidder
        (some locked.0.creator) now)
  update_nft locked.1.mint_address (won_columns locked.0.current_bidder))

-- The returned price is that of the row as it was fetched before the sale.
unfoldable pub finalize_auction : Env → (auction_id : ℕ) → Option ℕ → Action Response
unfolding finalize_sale_in_db
finalize_auction env auction_id signed_transaction = do
  found ← query (finalize_check (env.clock 0) auction_id)
  elim found.0.current_bidder [
    | none ↦ do
      update_nft found.1.mint_address no_auction_columns
      update_auction found.0.auction_id cancelled_auction
      pure (auction_closed env.uuid)
    | some winner ↦ elim signed_transaction [
      | none ↦ unsigned env (Chain.finalize_auction found.0.creator found.1.mint_address winner)
      | some signature ↦ do
        finalize_sale_in_db (env.clock 1) found.0.auction_id signature
        pure (auction_completed winner found.0.final_price signature)
    ]
  ]

-- `_cancel_auction_db`
unfoldable pub cancel_auction_db : AuctionEvent → Nft → Action Unit
cancel_auction_db auction nft = atomic (do
  n ← lock_nft nft.mint_address
  a ← lock_auction auction.auction_id
  update_auction a.auction_id cancelled_auction
  update_nft n.mint_address no_auction_columns)

unfoldable pub cancel_auction : Env → (owner_wallet auction_id : ℕ) → Option ℕ → Action Response
unfolding cancel_auction_db
cancel_auction env owner_wallet auction_id signed_transaction = do
  found ← query (cancel_auction_check owner_wallet auction_id)
  elim signed_transaction [
    | none ↦ unsigned env (Chain.cancel_auction owner_wallet found.1.mint_address)
    | some signature ↦ do
      cancel_auction_db found.0 found.1
      pure (auction_cancelled auction_id signature)
  ]
