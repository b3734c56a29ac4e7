-- ===== src/Market/Response.antt =====
-- The dictionaries that the methods return, and the first step of the two-step methods.
use traitkeeper_eco.Base.{ℕ, ℤ, Option, String, ok, err}
use traitkeeper_eco.Schema.{key_error}
use traitkeeper_eco.Outcome.{Outcome}
use traitkeeper_eco.Chain.{Env, Instruction}
use traitkeeper_eco.Orm.{Action, lift, pure, ◌>>=◌}

pub data Response : Type 0 where
  requires_signature : String → Response
  bid_placed bid_confirmed : (bid_id : ℕ) → Response
  bid_accepted : (transaction_signature : ℕ) (sale_price : ℤ) → Response
  bid_rejected bid_cancelled : (transaction_signature : ℕ) → Response
  listed intent_set : (nft_mint : ℕ) (price : ℤ) (transaction_signature : ℕ) → Response
  already_inactive : Response
  listing_removed intent_removed : (nft_mint transaction_signature : ℕ) → Response
  bought : (nft_mint buyer : ℕ) (sale_price : ℤ) (transaction_signature : ℕ) → Response
  auction_created : (auction_id end_time : ℕ) → Response
  auction_bid_placed : (transaction_signature : ℕ) (current_bid : ℤ) → Response
  auction_closed : (transaction_signature : ℕ) → Response
  auction_completed : (winner : ℕ) (final_price : Option ℤ) (transaction_signature : ℕ) → Response
  auction_cancelled : (auction_id transaction_signature : ℕ) → Response
  bid_countered : (nft_mint : ℕ) (asking_price : ℤ) (transaction_signature : ℕ) → Response
  counter_placed : (bid_id : ℕ) (amount : ℤ) → Response

-- `result['bid_id']`
unfoldable pub bid_id_of : Response → Outcome ℕ
bid_id_of (bid_placed id) = ok id
bid_id_of (bid_confirmed id) = err key_error
bid_id_of _ = err key_error

-- STEP 1: build the instruction and return it for signing.
abbrev pub unsigned : Env → Instruction → Action Response
unsigned env i = do instruction ← lift (env.build i); pure (requires_signature instruction)
