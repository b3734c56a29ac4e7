-- ===== src/Orm.antt =====
-- The database as a state, and a service call as an action on it: Django's autocommit keeps what a
-- call has written before it raises, and `transaction.atomic()` takes it back.
pub mod Preserves
pub mod Tables
use traitkeeper_eco.Base.{ℕ, Bool, List, [], ◌∷◌, ◌++◌, ok, err, if◌then◌else◌}
use traitkeeper_eco.Schema.{
  Nft, PrivateBid, NewBid, AuctionEvent, NftEvent, MarketplaceTransaction, TransactionMonitoring,
  NftVitality, MinimumBidThreshold, Error, integrity_error,
}
use traitkeeper_eco.Outcome.{Outcome, get_or_raise}
use traitkeeper_eco.Table.{Model, update, update_where, remove, is_taken}

instance abbrev pub nft_model : Model Nft
nft_model = record { pk = λ r. r.mint_address }

instance abbrev pub bid_model : Model PrivateBid
bid_model = record { pk = λ r. r.bid_id }

instance abbrev pub auction_model : Model AuctionEvent
auction_model = record { pk = λ r. r.auction_id }

instance abbrev pub event_model : Model NftEvent
event_model = record { pk = λ r. r.event_id }

instance abbrev pub transaction_model : Model MarketplaceTransaction
transaction_model = record { pk = λ r. r.transaction_id }

-- The signature is unique: no two records share it.
instance abbrev pub monitoring_model : Model TransactionMonitoring
monitoring_model = record { pk = λ r. r.transaction_signature }

-- One vitality row for each NFT.
instance abbrev pub vitality_model : Model NftVitality
vitality_model = record { pk = λ r. r.nft }

pub record Db : Type 0 where
  pub nfts : List Nft
  pub bids : List PrivateBid
  pub auctions : List AuctionEvent
  pub events : List NftEvent
  pub transactions : List MarketplaceTransaction
  pub monitoring : List TransactionMonitoring
  pub vitalities : List NftVitality
  pub thresholds : List MinimumBidThreshold

abbrev pub Action : Type 0 → Type 0
Action A = Db → Outcome A × Db

module _ {A : Type 0} where
  unfoldable pub pure : A → Action A
  pure a db = (ok a, db)

  unfoldable pub raise : Error → Action A
  raise e db = (err e, db)

  unfoldable pub lift : Outcome A → Action A
  lift r db = (r, db)

  -- A read of the database.
  unfoldable pub query : (Db → Outcome A) → Action A
  query q db = (q db, db)

  abbrev pub rollback : Db → Outcome A → Db → Db
  rollback old (ok a) new = new
  rollback old (err e) new = old

  -- `with transaction.atomic()`
  unfoldable pub atomic : Action A → Action A
  atomic m db = let (r, db') = m db in (r, rollback db r db')

unfoldable pub modify : (Db → Db) → Action Unit
modify f db = (ok tt, f db)

unfoldable pub update_nft : ℕ → (Nft → Nft) → Action Unit
unfolding modify
update_nft k f = modify (λ db. record db { nfts = update k f db.nfts })

unfoldable pub update_bids_where : (PrivateBid → Bool) → (PrivateBid → PrivateBid) → Action Unit
unfolding modify
update_bids_where p f = modify (λ db. record db { bids = update_where p f db.bids })

unfoldable pub update_bid : ℕ → (PrivateBid → PrivateBid) → Action Unit
unfolding modify
update_bid k f = modify (λ db. record db { bids = update k f db.bids })

unfoldable pub delete_bid : ℕ → Action Unit
unfolding modify
delete_bid k = modify (λ db. record db { bids = remove k db.bids })

unfoldable pub update_auction : ℕ → (AuctionEvent → AuctionEvent) → Action Unit
unfolding modify
update_auction k f = modify (λ db. record db { auctions = update k f db.auctions })

unfoldable pub update_monitoring : ℕ → (TransactionMonitoring → TransactionMonitoring) → Action Unit
unfolding modify
update_monitoring k f = modify (λ db. record db { monitoring = update k f db.monitoring })

module _ {A B : Type 0} where
  abbrev pub continue : Outcome A → (A → Action B) → Action B
  continue (ok a) f db = f a db
  continue (err e) f db = (err e, db)

  infixl 5 ◌>>=◌ ◌>>◌
  -- Opening this opens the statements above too.
  unfoldable pub ◌>>=◌ : Action A → (A → Action B) → Action B
  unfolding pure raise lift query atomic update_nft update_bids_where update_bid delete_bid
      update_auction update_monitoring
  ◌>>=◌ m f db = let (r, db') = m db in continue r f db'

  abbrev pub ◌>>◌ : Action A → Action B → Action B
  m >> k = m >>= λ _. k

-- `objects.create` of each model: a second row with the same key is an IntegrityError.
abbrev insert_bid : PrivateBid → Action PrivateBid
insert_bid r db =
    if is_taken r db.bids
    then (err integrity_error, db)
    else (ok r, record db { bids = db.bids ++ r ∷ [] })

-- `created_at` is `auto_now_add`: the clock, whatever is passed.
unfoldable pub create_bid : ℕ → NewBid → Action PrivateBid
create_bid now new = do
  amount ← lift (get_or_raise new.amount integrity_error)
  owner ← lift (get_or_raise new.owner_at_creation integrity_error)
  insert_bid (record {
    bid_id = new.bid_id;
    nft = new.nft;
    collection = new.collection;
    amount = amount;
    bidder = new.bidder;
    owner_at_creation = owner;
    encrypted_state_account = new.encrypted_state_account;
    status = new.status;
    created_at = now;
    expires_at = new.expires_at;
    resolved_at = new.resolved_at;
  })

unfoldable pub create_auction : AuctionEvent → Action AuctionEvent
create_auction r db =
    if is_taken r db.auctions
    then (err integrity_error, db)
    else (ok r, record db { auctions = db.auctions ++ r ∷ [] })

unfoldable pub create_event : NftEvent → Action NftEvent
create_event r db =
    if is_taken r db.events
    then (err integrity_error, db)
    else (ok r, record db { events = db.events ++ r ∷ [] })

unfoldable pub create_transaction : MarketplaceTransaction → Action MarketplaceTransaction
create_transaction r db =
    if is_taken r db.transactions
    then (err integrity_error, db)
    else (ok r, record db { transactions = db.transactions ++ r ∷ [] })

unfoldable pub create_monitoring : TransactionMonitoring → Action TransactionMonitoring
create_monitoring r db =
    if is_taken r db.monitoring
    then (err integrity_error, db)
    else (ok r, record db { monitoring = db.monitoring ++ r ∷ [] })
