-- ===== src/Chain.antt =====
-- What a call takes from outside: the clock, fresh ids and the Solana client
-- (marketplace/solana_client.py, over the packages solana and anchorpy). The client builds the
-- instruction that the wallet signs, and waits for a signature to be confirmed.
use traitkeeper_eco.Base.{ℕ, ℤ, Bool, Option, String}
use traitkeeper_eco.Outcome.{Outcome}

-- The calls `get_…_instruction` of the client with the arguments that the services pass.
pub data Instruction : Type 0 where
  place_private_bid :
      (bidder_wallet nft_mint : ℕ) (seller_wallet : Option ℕ) (amount_lamports : ℤ)
      (expiry_hours nft_vitality_score : ℕ)
      → Instruction
  accept_bid reject_bid : (seller_wallet bidder_wallet nft_mint : ℕ) → Instruction
  cancel_bid : (bidder_wallet nft_mint seller_wallet : ℕ) → Instruction
  set_sell_intent : (owner_wallet nft_mint : ℕ) (asking_price_lamports : ℤ) → Instruction
  accept_asking_price : (buyer_wallet : ℕ) (seller_wallet : Option ℕ) (nft_mint : ℕ) → Instruction
  counter_bid :
      (seller_wallet bidder_wallet nft_mint : ℕ) (counter_amount_lamports : ℤ) → Instruction
  create_auction :
      (seller_wallet nft_mint : ℕ) (starting_price_lamports reserve_price_lamports : ℤ)
      (duration_hours : ℕ)
      → Instruction
  place_auction_bid :
      (bidder_wallet auction_id nft_mint seller_wallet : ℕ) (bid_amount_lamports : ℤ) → Instruction
  cancel_auction : (seller_wallet nft_mint : ℕ) → Instruction
  finalize_auction : (seller_wallet nft_mint winner_wallet : ℕ) → Instruction

-- `clock i` is the i-th reading of `timezone.now()` in a call, from 0 and in the order of the code,
-- not counting those of the quest checks that a call only logs; `uuid` is the `uuid4()` of the call;
-- `build` gives the instruction data, or what the client raises; `confirm` is
-- `confirm_transaction`; `is_client_initialized` is whether `_initialize_client` has run in the process
-- before the call, without which the client has no attribute `current_provider_name`.
pub record Env : Type 0 where
  pub clock : ℕ → ℕ
  pub uuid : ℕ
  pub build : Instruction → Outcome String
  pub confirm : ℕ → Outcome Bool
  pub is_client_initialized : Bool

-- One hour and one minute in microseconds.
abbrev pub hour : ℕ
hour = 3_600_000_000

abbrev pub minute : ℕ
minute = 60_000_000
