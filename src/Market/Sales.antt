-- ===== src/Market/Sales.antt =====
-- Sales at a stated price: `execute_direct_buy` and `accept_asking_price`. Both validate outside
-- the lock, and write with the price and the seller that they read then.
use traitkeeper_eco.Base.{ℕ, ℤ, false, Option, none, some, ◌==◌, if◌then◌else◌}
use traitkeeper_eco.Schema.{
  Nft, NftEvent, EventType, MarketplaceTransaction, TransactionType, does_not_exist,
}
use traitkeeper_eco.Chain
use traitkeeper_eco.Chain.{Env}
use traitkeeper_eco.Outcome.{get_or_raise}
use traitkeeper_eco.Table.{find}
use traitkeeper_eco.Orm.{
  Action, pure, query, atomic, ◌>>=◌, ◌>>◌, nft_model, update_nft, create_event, create_transaction,
}
use traitkeeper_eco.Market.Response.{Response, unsigned, bought}
use traitkeeper_eco.Market.Checks.{direct_buy_check, asking_price_check}

-- `NFT.objects.select_for_update().get(pk=…)`
abbrev pub lock_nft : ℕ → Action Nft
lock_nft mint = query (λ db. get_or_raise (find mint db.nfts) does_not_exist)

-- The NFTEvent of a sale.
abbrev pub sale_event :
    (event_id : ℕ) (nft : Nft) (amount : Option ℤ) (buyer seller : Option ℕ) (now : ℕ) → NftEvent
sale_event event_id nft amount buyer seller now = record {
  event_id = event_id;
  collection_address = nft.collection;
  nft_mint = some nft.mint_address;
  event_type = EventType.sale;
  marketplace = "traitkeeper";
  amount = amount;
  buyer = buyer;
  seller = seller;
  timestamp = now;
}

-- `vitality_score or 50.0`
abbrev pub vitality_or_50 : Nft → ℕ
vitality_or_50 n = elim n.vitality_score [ none ↦ 5000 | some v ↦ if v == 0 then 5000 else v ]

abbrev pub direct_transaction : ℕ → Nft → ℤ → MarketplaceTransaction
direct_transaction signature n sale_price = record {
  transaction_id = signature;
  nft_event = signature;
  transaction_type = TransactionType.direct_sale;
  was_encrypted = false;
  reveal_timestamp = none;
  nft_vitality_at_sale = vitality_or_50 n;
  suggested_price_at_sale = sale_price;
  vs_vitality_suggested = 100;
  vs_collection_floor = 100;
}

unfoldable pub bought_columns : ℕ → Nft → Nft
bought_columns buyer n = record n { owner = some buyer; has_buy_price = false; buy_price = none }

unfoldable pub asking_bought_columns : ℕ → Nft → Nft
asking_bought_columns buyer n = record n {
  owner = some buyer;
  has_sell_intent = false;
  asking_price = none;
  is_listed = false;
}

-- The atomic blocks `_execute_sale_in_db` and `_execute_sale`, which differ in the columns that
-- they clear.
unfoldable pub execute_sale :
    (Nft → Nft) → (now signature : ℕ) → Nft → ℤ → (buyer_wallet : ℕ) → Action Unit
unfolding create_event create_transaction
execute_sale columns now signature nft sale_price buyer_wallet = atomic (do
  n ← lock_nft nft.mint_address
  create_event (sale_event signature n (some sale_price) (some buyer_wallet) nft.owner now)
  create_transaction (direct_transaction signature n sale_price)
  update_nft n.mint_address columns)

unfoldable pub execute_direct_buy : Env → ℕ → ℕ → Action Response
unfolding execute_sale
execute_direct_buy env buyer_wallet nft_mint = do
  found ← query (direct_buy_check buyer_wallet nft_mint)
  execute_sale (bought_columns buyer_wallet) (env.clock 0) env.uuid found.0 found.1 buyer_wallet
  pure (bought nft_mint buyer_wallet found.1 env.uuid)

unfoldable pub accept_asking_price : Env → ℕ → ℕ → Option ℕ → Action Response
unfolding execute_sale
accept_asking_price env buyer_wallet nft_mint signed_transaction = do
  found ← query (asking_price_check buyer_wallet nft_mint)
  elim signed_transaction [
    | none ↦ unsigned env (Chain.accept_asking_price buyer_wallet found.0.owner nft_mint)
    | some signature ↦ do
      execute_sale (asking_bought_columns buyer_wallet) (env.clock 0) signature found.0 found.1
          buyer_wallet
      pure (bought nft_mint buyer_wallet found.1 signature)
  ]
