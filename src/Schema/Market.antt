-- ===== src/Schema/Market.antt =====
-- NFT (nft_data/models.py), PrivateBid, AuctionEvent, MarketplaceTransaction
-- (marketplace/models.py) and NFTEvent (indexer/models.py).
use traitkeeper_eco.Base.{ℕ, ℤ, Bool, Option, String}

-- `owner` may be NULL; the listing columns are a cache of the market state.
pub record Nft : Type 0 where
  pub mint_address : ℕ
  pub collection : ℕ
  pub owner : Option ℕ
  pub asking_price : Option ℤ
  pub has_sell_intent : Bool
  pub is_open_to_offers : Bool
  pub has_buy_price : Bool
  pub active_auction : Option ℕ
  pub vitality_score : Option ℕ
  pub is_listed : Bool
  pub buy_price : Option ℤ

-- `PrivateBid.Status`, which has no member PENDING.
pub data BidStatus : Type 0 where
  active accepted rejected cancelled expired : BidStatus

pub record PrivateBid : Type 0 where
  pub bid_id : ℕ
  pub nft : ℕ
  pub collection : ℕ
  pub amount : ℤ
  pub bidder : ℕ
  pub owner_at_creation : ℕ
  pub encrypted_state_account : ℕ
  pub status : BidStatus
  pub created_at : ℕ
  pub expires_at : ℕ
  pub resolved_at : Option ℕ

-- The keyword arguments of `PrivateBid.objects.create`. A column that is left out, or is given
-- `None`, is NULL; `amount` and `owner_at_creation` are NOT NULL columns with no default.
pub record NewBid : Type 0 where
  pub bid_id : ℕ
  pub nft : ℕ
  pub collection : ℕ
  pub amount : Option ℤ
  pub bidder : ℕ
  pub owner_at_creation : Option ℕ
  pub encrypted_state_account : ℕ
  pub status : BidStatus
  pub expires_at : ℕ
  pub resolved_at : Option ℕ

-- `AuctionEvent.Status`
pub data AuctionStatus : Type 0 where
  active completed cancelled : AuctionStatus

pub record AuctionEvent : Type 0 where
  pub auction_id : ℕ
  pub nft : ℕ
  pub collection : ℕ
  pub creator : ℕ
  pub start_time : ℕ
  pub end_time : ℕ
  pub status : AuctionStatus
  pub starting_price : ℤ
  pub current_bid : Option ℤ
  pub current_bidder : Option ℕ
  pub bid_count : ℕ
  pub final_price : Option ℤ
  pub winner : Option ℕ

-- `NFTEvent.EventType`
pub data EventType : Type 0 where
  sale listing cancel_listing bid cancel_bid transfer mint burn : EventType

-- The NFT of an event is the text column `nft_mint`: there is no foreign key `nft`.
pub record NftEvent : Type 0 where
  pub event_id : ℕ
  pub collection_address : ℕ
  pub nft_mint : Option ℕ
  pub event_type : EventType
  pub marketplace : String
  pub amount : Option ℤ
  pub buyer : Option ℕ
  pub seller : Option ℕ
  pub timestamp : ℕ

-- `MarketplaceTransaction.TransactionType`
pub data TransactionType : Type 0 where
  bid_accepted direct_sale auction_sale counter_offer_accepted : TransactionType

pub record MarketplaceTransaction : Type 0 where
  pub transaction_id : ℕ
  pub nft_event : ℕ
  pub transaction_type : TransactionType
  pub was_encrypted : Bool
  pub reveal_timestamp : Option ℕ
  pub nft_vitality_at_sale : ℕ
  pub suggested_price_at_sale : ℤ
  pub vs_vitality_suggested : ℕ
  pub vs_collection_floor : ℕ
