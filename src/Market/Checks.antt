-- ===== src/Market/Checks.antt =====
-- The part of each method that fetches the rows and validates the call.
use traitkeeper_eco.Base.{
  ℕ, ℤ, pos, leb_ℤ, nonzero, Bool, true, false, not, ◌&&◌, ◌||◌, Option, none, some, List, ok, err,
  ◌==◌, is_value, is_none, ltb, count_if,
}
use traitkeeper_eco.Schema.{
  Nft, PrivateBid, BidStatus, AuctionEvent, AuctionStatus, Message, nft_not_found, bid_not_found,
  bid_not_active, not_your_bid, active_bid_not_found, own_nft, price_not_positive,
  amount_not_positive, not_for_direct_sale, no_asking_price, not_negotiable, already_listed,
  already_in_auction, auction_not_found, auction_not_active, start_or_duration_not_positive,
  auction_not_ended, auction_has_bids, Error, value_error, permission_error, does_not_exist,
}
use traitkeeper_eco.Outcome.{Outcome, ◌>>=◌, ◌>>◌, get_or_raise, fail_if}
use traitkeeper_eco.Orm.{Db, nft_model, bid_model, auction_model}
use traitkeeper_eco.Table.{find}
use traitkeeper_eco.Safety.{Verdict, verify_ownership, validate_bid_placement_safety}
use traitkeeper_eco.Validation.{validate_bid}

-- `if not is_valid: raise …(message)`
abbrev pub require : Verdict → (Message → Error) → Outcome Unit
require none class = ok tt
require (some m) class = err (class m)

-- `NFT.objects.get`, with `except NFT.DoesNotExist`.
abbrev pub get_nft : ℕ → Db → Outcome Nft
get_nft mint db = get_or_raise (find mint db.nfts) (value_error nft_not_found)

abbrev pub is_active_bid : PrivateBid → Bool
is_active_bid b = elim b.status [ BidStatus.active ↦ true | _ ↦ false ]

abbrev pub is_active_auction : AuctionEvent → Bool
is_active_auction a = elim a.status [ AuctionStatus.active ↦ true | _ ↦ false ]

abbrev is_owned : Nft → ℕ → Outcome Unit
is_owned nft wallet = require (verify_ownership nft wallet) permission_error

unfoldable pub set_direct_sell_check : ℕ → ℕ → ℤ → Db → Outcome Nft
unfolding verify_ownership
set_direct_sell_check owner_wallet nft_mint price db = do
  nft ← get_nft nft_mint db
  is_owned nft owner_wallet
  fail_if (leb_ℤ price (pos 0)) (value_error price_not_positive)
  validate_bid nft price db
  ok nft

unfoldable pub remove_listing_check : ℕ → ℕ → Db → Outcome Nft
unfolding verify_ownership
remove_listing_check owner_wallet nft_mint db = do
  nft ← get_nft nft_mint db
  is_owned nft owner_wallet
  ok nft

-- A price counts as absent where its flag is off, and where it is NULL or zero.
abbrev flagged : Bool → Option ℤ → Option ℤ
flagged true price = nonzero price
flagged false price = none

unfoldable pub direct_buy_check : ℕ → ℕ → Db → Outcome (Nft × ℤ)
direct_buy_check buyer_wallet nft_mint db = do
  nft ← get_nft nft_mint db
  price ← get_or_raise (flagged nft.has_buy_price nft.buy_price) (value_error not_for_direct_sale)
  fail_if (is_value nft.owner buyer_wallet) (value_error own_nft)
  ok (nft, price)

unfoldable pub asking_price_check : ℕ → ℕ → Db → Outcome (Nft × ℤ)
asking_price_check buyer_wallet nft_mint db = do
  nft ← get_nft nft_mint db
  price ← get_or_raise (flagged nft.has_sell_intent nft.asking_price) (value_error no_asking_price)
  fail_if (is_value nft.owner buyer_wallet) (value_error own_nft)
  ok (nft, price)

unfoldable pub place_bid_check : ℕ → ℕ → ℕ → ℤ → Db → Outcome Nft
place_bid_check now bidder_wallet nft_mint amount db = do
  nft ← get_nft nft_mint db
  require (validate_bid_placement_safety now bidder_wallet nft db) value_error
  verdict ← validate_bid nft amount db
  require verdict value_error
  ok nft

-- `bidder_counter_sell_intent` lets NFT.DoesNotExist through.
unfoldable pub counter_intent_check : ℕ → ℤ → Db → Outcome Nft
counter_intent_check nft_mint counter_amount db = do
  nft ← get_or_raise (find nft_mint db.nfts) does_not_exist
  price ← get_or_raise (flagged nft.has_sell_intent nft.asking_price) (value_error not_negotiable)
  fail_if (leb_ℤ counter_amount (pos 0)) (value_error amount_not_positive)
  ok nft

-- The checks of `accept_private_bid` and `reject_private_bid`.
unfoldable pub owner_bid_check : ℕ → ℕ → Db → Outcome (PrivateBid × Nft)
unfolding verify_ownership
owner_bid_check owner_wallet bid_id db = do
  bid ← get_or_raise (find bid_id db.bids) (value_error bid_not_found)
  nft ← get_or_raise (find bid.nft db.nfts) (value_error bid_not_found)
  fail_if (not (is_active_bid bid)) (value_error bid_not_active)
  is_owned nft owner_wallet
  ok (bid, nft)

unfoldable pub cancel_bid_check : ℕ → ℕ → Db → Outcome PrivateBid
cancel_bid_check bidder_wallet bid_id db = do
  bid ← get_or_raise (find bid_id db.bids) (value_error bid_not_found)
  fail_if (not (is_active_bid bid)) (value_error bid_not_active)
  fail_if (not (bid.bidder == bidder_wallet)) (permission_error not_your_bid)
  ok bid

-- `get(bid_id=…, status=ACTIVE)`: another status counts as no such bid.
unfoldable pub owner_counter_check : ℕ → ℕ → ℤ → Db → Outcome (PrivateBid × Nft)
unfolding verify_ownership
owner_counter_check owner_wallet bid_id counter_amount db = do
  bid ← get_or_raise (find bid_id db.bids) (value_error active_bid_not_found)
  fail_if (not (is_active_bid bid)) (value_error active_bid_not_found)
  nft ← get_or_raise (find bid.nft db.nfts) (value_error active_bid_not_found)
  is_owned nft owner_wallet
  fail_if (leb_ℤ counter_amount (pos 0)) (value_error amount_not_positive)
  ok (bid, nft)

-- `check_existing_auction`
unfoldable pub has_active_auction : ℕ → List AuctionEvent → Bool
has_active_auction mint auctions =
    not (count_if (λ a. a.nft == mint && is_active_auction a) auctions == 0)

unfoldable pub create_auction_check : ℕ → ℕ → ℤ → ℕ → Db → Outcome Nft
unfolding verify_ownership
create_auction_check owner_wallet nft_mint starting_price duration_hours db = do
  nft ← get_nft nft_mint db
  is_owned nft owner_wallet
  fail_if (nft.has_buy_price || nft.has_sell_intent) (value_error already_listed)
  fail_if (has_active_auction nft.mint_address db.auctions) (value_error already_in_auction)
  fail_if (leb_ℤ starting_price (pos 0) || duration_hours == 0)
      (value_error start_or_duration_not_positive)
  ok nft

-- `AuctionEvent.objects.select_related('nft').get`, with what its caller makes of DoesNotExist.
abbrev pub get_auction : ℕ → Error → Db → Outcome (AuctionEvent × Nft)
get_auction auction_id missing db = do
  auction ← get_or_raise (find auction_id db.auctions) missing
  nft ← get_or_raise (find auction.nft db.nfts) missing
  ok (auction, nft)

unfoldable pub auction_bid_check : ℕ → ℕ → ℕ → Db → Outcome (AuctionEvent × Nft)
auction_bid_check now bidder_wallet auction_id db = do
  found ← get_auction auction_id does_not_exist db
  require (validate_bid_placement_safety now bidder_wallet found.1 db) value_error
  ok found

unfoldable pub finalize_check : ℕ → ℕ → Db → Outcome (AuctionEvent × Nft)
finalize_check now auction_id db = do
  found ← get_auction auction_id does_not_exist db
  fail_if (not (is_active_auction found.0)) (value_error auction_not_active)
  fail_if (ltb now found.0.end_time) (value_error auction_not_ended)
  ok found

unfoldable pub cancel_auction_check : ℕ → ℕ → Db → Outcome (AuctionEvent × Nft)
unfolding verify_ownership
cancel_auction_check owner_wallet auction_id db = do
  found ← get_auction auction_id (value_error auction_not_found) db
  is_owned found.1 owner_wallet
  fail_if (not (is_active_auction found.0)) (value_error auction_not_active)
  fail_if (not (is_none found.0.current_bid)) (value_error auction_has_bids)
  ok found
