-- ===== src/Tests/Market.antt =====
-- The test data: three wallets, six NFTs, their bids and auctions.
use traitkeeper_eco.Base.{ℕ, ◌+◌, pos, negsuc, true, false, none, some, [], ◌∷◌, ok}
use traitkeeper_eco.Schema.{
  Nft, PrivateBid, BidStatus, AuctionEvent, AuctionStatus, TransactionMonitoring, TransactionStatus,
  NftVitality, MinimumBidThreshold, ThresholdType, blank,
}
use traitkeeper_eco.Chain.{Env}
use traitkeeper_eco.Orm.{Db}

abbrev pub alice : ℕ
alice = 1

abbrev pub bob : ℕ
bob = 2

abbrev pub carol : ℕ
carol = 3

-- A thousand hours after the epoch.
abbrev pub now : ℕ
now = 3_600_000_000_000

abbrev pub env : Env
env = record {
  clock = λ i. now + i;
  uuid = 900;
  build = λ i. ok "instruction";
  confirm = λ signature. ok true;
  is_client_initialized = true;
}

abbrev unlisted : ℕ → ℕ → Nft
unlisted mint owner = record {
  mint_address = mint;
  collection = 50;
  owner = some owner;
  asking_price = none;
  has_sell_intent = false;
  is_open_to_offers = true;
  has_buy_price = false;
  active_auction = none;
  vitality_score = some 8000;
  is_listed = false;
  buy_price = none;
}

-- On direct sale for 2 SOL.
abbrev pub painting : Nft
painting = record (unlisted 101 alice) {
  has_buy_price = true;
  buy_price = some (pos 2_000_000_000);
}

-- With an asking price of 3 SOL.
abbrev pub statue : Nft
statue = record (unlisted 102 alice) {
  has_sell_intent = true;
  asking_price = some (pos 3_000_000_000);
  is_listed = true;
}

-- In an auction that is over, and sold elsewhere by its creator since.
abbrev pub mask : Nft
mask = record (unlisted 103 carol) { active_auction = some 301; is_listed = true }

-- In an auction that runs.
abbrev pub coin : Nft
coin = record (unlisted 104 alice) { active_auction = some 302; is_listed = true }

abbrev pub ring : Nft
ring = unlisted 105 alice

-- In an auction that is over and had no bid.
abbrev pub vase : Nft
vase = record (unlisted 106 alice) { active_auction = some 303; is_listed = true }

abbrev bid_on : ℕ → ℕ → ℕ → PrivateBid
bid_on id mint bidder = record {
  bid_id = id;
  nft = mint;
  collection = 50;
  amount = pos 1_200_000_000;
  bidder = bidder;
  owner_at_creation = alice;
  encrypted_state_account = id;
  status = BidStatus.active;
  created_at = now;
  expires_at = now + 1_000_000;
  resolved_at = none;
}

abbrev pub bid_of_bob : PrivateBid
bid_of_bob = bid_on 201 105 bob

abbrev pub bid_of_carol : PrivateBid
bid_of_carol = bid_on 202 105 carol

abbrev pub rejected_bid : PrivateBid
rejected_bid = record (bid_on 203 105 carol) { status = BidStatus.rejected; resolved_at = some now }

abbrev pub late_bid : PrivateBid
late_bid = record (bid_on 204 105 carol) { expires_at = 5 }

abbrev auction_of : ℕ → ℕ → ℕ → AuctionEvent
auction_of id mint end_time = record {
  auction_id = id;
  nft = mint;
  collection = 50;
  creator = alice;
  start_time = 0;
  end_time = end_time;
  status = AuctionStatus.active;
  starting_price = pos 1_000_000_000;
  current_bid = none;
  current_bidder = none;
  bid_count = 0;
  final_price = none;
  winner = none;
}

abbrev pub ended_auction : AuctionEvent
ended_auction = record (auction_of 301 103 5) {
  current_bid = some (pos 1_500_000_000);
  current_bidder = some bob;
  bid_count = 1;
}

abbrev pub open_auction : AuctionEvent
open_auction = auction_of 302 104 (now + 1_000_000)

abbrev pub lonely_auction : AuctionEvent
lonely_auction = auction_of 303 106 5

abbrev pub past_auction : AuctionEvent
past_auction = record (auction_of 304 105 5) { status = AuctionStatus.cancelled }

abbrev pub failed_transaction : TransactionMonitoring
failed_transaction = record {
  transaction_signature = 401;
  action_type = "accept_bid";
  submitted_at = now;
  confirmed_at = none;
  finalized_at = none;
  status = TransactionStatus.failed;
  confirmation_time_ms = none;
  finalization_time_ms = none;
  nft_mint = some 105;
  user_wallet = some alice;
  error_message = blank;
  retry_count = 0;
}

abbrev pub vitality_of_ring : NftVitality
vitality_of_ring = record {
  nft = 105;
  vitality_score = 8000;
  suggested_price = none;
  has_sufficient_data = true;
}

-- Bids on the collection may lie 10 percent below the suggested price.
abbrev pub collection_threshold : MinimumBidThreshold
collection_threshold = record {
  id = 501;
  collection = some 50;
  nft = none;
  absolute_minimum_sol = none;
  vitality_percentage_threshold = some (negsuc 999);
  threshold_type = ThresholdType.vitality_based;
  is_active = true;
}

abbrev pub market : Db
market = record {
  nfts = painting ∷ statue ∷ mask ∷ coin ∷ ring ∷ vase ∷ [];
  bids = bid_of_bob ∷ bid_of_carol ∷ rejected_bid ∷ late_bid ∷ bid_on 205 102 bob ∷ [];
  auctions = ended_auction ∷ open_auction ∷ lonely_auction ∷ past_auction ∷ [];
  events = [];
  transactions = [];
  monitoring = failed_transaction ∷ [];
  vitalities = vitality_of_ring ∷ [];
  thresholds = collection_threshold ∷ [];
}
