-- ===== src/Market/Listings.antt =====
-- Direct-sell listings and sell intents: `set_direct_sell`, `remove_direct_sell`,
-- `set_sell_intent` and `remove_sell_intent`.
use traitkeeper_eco.Base.{ℕ, ℤ, Bool, true, false, ◌&&◌, Option, none, some, ◌==◌, if◌then◌else◌}
use traitkeeper_eco.Schema.{Nft, PrivateBid, BidStatus}
use traitkeeper_eco.Amounts.{to_column, to_lamports, column_errors}
use traitkeeper_eco.Chain
use traitkeeper_eco.Chain.{Env}
use traitkeeper_eco.Orm.{Action, pure, lift, query, ◌>>=◌, ◌>>◌, update_nft, update_bids_where}
use traitkeeper_eco.Market.Response.{
  Response, unsigned, listed, already_inactive, listing_removed, intent_set, intent_removed,
}
use traitkeeper_eco.Market.Checks.{is_active_bid, set_direct_sell_check, remove_listing_check}

-- The columns that each method writes.
unfoldable pub direct_sell_columns : ℤ → Nft → Nft
unfolding to_column
direct_sell_columns price n = record n {
  has_buy_price = true;
  buy_price = some (to_column price);
  has_sell_intent = false;
  asking_price = none;
}

unfoldable pub no_direct_sell_columns : Nft → Nft
no_direct_sell_columns n = record n { has_buy_price = false; buy_price = none }

unfoldable pub sell_intent_columns : ℤ → Nft → Nft
unfolding to_column
sell_intent_columns price n = record n {
  has_sell_intent = true;
  asking_price = some (to_column price);
  has_buy_price = false;
  buy_price = none;
  is_listed = true;
}

unfoldable pub no_sell_intent_columns : Nft → Nft
no_sell_intent_columns n = record n {
  has_sell_intent = false;
  asking_price = none;
  is_listed = false;
}

unfoldable pub set_direct_sell : Env → ℕ → ℕ → ℤ → Action Response
set_direct_sell env owner_wallet nft_mint price = do
  nft ← query (set_direct_sell_check owner_wallet nft_mint price)
  lift (column_errors price)
  update_nft nft.mint_address (direct_sell_columns price)
  pure (listed nft_mint price env.uuid)

unfoldable pub remove_direct_sell : Env → ℕ → ℕ → Action Response
remove_direct_sell env owner_wallet nft_mint = do
  nft ← query (remove_listing_check owner_wallet nft_mint)
  if nft.has_buy_price
      then (do
        update_nft nft.mint_address no_direct_sell_columns
        pure (listing_removed nft_mint env.uuid))
      else pure already_inactive

-- The price of a sell intent is checked as that of a direct sell is.
unfoldable pub set_sell_intent : Env → ℕ → ℕ → ℤ → Option ℕ → Action Response
set_sell_intent env owner_wallet nft_mint asking_price signed_transaction = do
  nft ← query (set_direct_sell_check owner_wallet nft_mint asking_price)
  elim signed_transaction [
    | none ↦ unsigned env (Chain.set_sell_intent owner_wallet nft_mint (to_lamports asking_price))
    | some signature ↦ do
      lift (column_errors asking_price)
      update_nft nft.mint_address (sell_intent_columns asking_price)
      pure (intent_set nft_mint asking_price signature)
  ]

-- The active bids on an NFT but for one, or all of them.
abbrev pub is_open_on : ℕ → PrivateBid → Bool
is_open_on mint b = b.nft == mint && is_active_bid b

abbrev pub cancelled_bid : PrivateBid → PrivateBid
cancelled_bid b = record b { status = BidStatus.cancelled }

unfoldable pub remove_sell_intent : Env → ℕ → ℕ → Action Response
remove_sell_intent env owner_wallet nft_mint = do
  nft ← query (remove_listing_check owner_wallet nft_mint)
  if nft.has_sell_intent
      then (do
        update_bids_where (is_open_on nft.mint_address) cancelled_bid
        update_nft nft.mint_address no_sell_intent_columns
        pure (intent_removed nft_mint env.uuid))
      else pure already_inactive
