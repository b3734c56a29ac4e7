-- ===== src/Indexer/Parser.antt =====
-- TransactionParserService (indexer/services/parser.py): the way of a parsed event into the tables.
-- What the tiers of parsers find in a transaction is an argument; Native and Tokens have the
-- transfers that they read from balances.
pub mod Native
pub mod Balances
pub mod Prices
pub mod Log
pub mod Redelivery
pub mod Tokens
use traitkeeper_eco.Base.{
  ℕ, suc, ◌+◌, ◌-◌, Bool, true, false, not, ◌&&◌, ◌||◌, Option, none, some, List, [], ◌∷◌, ◌++◌, ℤ,
  pos, negsuc, sub_ℕ, ltb, leb, ◌==◌, length, if◌then◌else◌,
}

-- The words for an event, those of the parsers and those of the table.
pub data EventName : Type 0 where
  sale listing cancel_listing bid bid_cancelled transfer pool_deposit pool_withdraw : EventName
  listing_update burn mint other : EventName
  delisting bid_cancel deposit withdraw : EventName

-- A time stamp: absent, a number of seconds, or a text with what is read of it.
pub data EventTime : Type 0 where
  absent : EventTime
  number : ℤ → EventTime
  text : Option ℕ → EventTime

-- Addresses are none where they are missing or empty; the amount, in lamports, is none where it cannot
-- be compared with a number.
pub record ParsedEvent : Type 0 where
  pub event_type : Option EventName
  pub mint_address : Option ℕ
  pub amount : Option ℤ
  pub buyer : Option ℕ
  pub seller : Option ℕ
  pub timestamp : EventTime
  pub collection_address : Option ℕ

abbrev pub is_valid_type : EventName → Bool
is_valid_type EventName.sale = true
is_valid_type EventName.listing = true
is_valid_type EventName.cancel_listing = true
is_valid_type EventName.bid = true
is_valid_type EventName.bid_cancelled = true
is_valid_type EventName.transfer = true
is_valid_type EventName.pool_deposit = true
is_valid_type EventName.pool_withdraw = true
is_valid_type EventName.listing_update = true
is_valid_type _ = false

-- A million SOL.
abbrev pub max_amount : ℕ
max_amount = 1_000_000_000_000_000

abbrev pub is_reasonable : Option ℤ → Bool
is_reasonable none = false
is_reasonable (some (negsuc n)) = false
is_reasonable (some (pos n)) = leb n max_amount

abbrev pub same_wallet : Option ℕ → Option ℕ → Bool
same_wallet none _ = false
same_wallet (some b) none = false
same_wallet (some b) (some s) = b == s

abbrev pub is_sale : EventName → Bool
is_sale EventName.sale = true
is_sale _ = false

-- From 2020 to an hour from now; texts are not looked at, nor is zero.
abbrev pub is_valid_time : ℕ → EventTime → Bool
is_valid_time now EventTime.absent = true
is_valid_time now (EventTime.text t) = true
is_valid_time now (EventTime.number (negsuc n)) = false
is_valid_time now (EventTime.number (pos n)) =
    n == 0 || (leb n (now + 3_600) && leb 1_577_836_800 n)

unfoldable pub validate_parsed_event : ℕ → ParsedEvent → Bool
validate_parsed_event now e = elim e.event_type [
  | none ↦ false
  | some t ↦
      is_valid_type t
      && (is_reasonable e.amount
          && (not (is_sale t && same_wallet e.buyer e.seller) && is_valid_time now e.timestamp))
]

-- `event_type_mapping`
abbrev pub db_event_type : Option EventName → EventName
db_event_type none = EventName.sale
db_event_type (some EventName.listing) = EventName.listing
db_event_type (some EventName.cancel_listing) = EventName.delisting
db_event_type (some EventName.bid) = EventName.bid
db_event_type (some EventName.bid_cancelled) = EventName.bid_cancel
db_event_type (some EventName.transfer) = EventName.transfer
db_event_type (some EventName.pool_deposit) = EventName.deposit
db_event_type (some EventName.pool_withdraw) = EventName.withdraw
db_event_type (some EventName.listing_update) = EventName.listing
db_event_type (some _) = EventName.sale

abbrev pub time_of : ℕ → EventTime → ℕ
time_of now EventTime.absent = now
time_of now (EventTime.number (pos n)) = n
time_of now (EventTime.number (negsuc n)) = 0
time_of now (EventTime.text none) = now
time_of now (EventTime.text (some t)) = t

abbrev pub amount_of : Option ℤ → ℤ
amount_of none = pos 0
amount_of (some a) = a

pub record StoredEvent : Type 0 where
  pub event_id : ℕ
  pub collection_address : ℕ
  pub event_type : EventName
  pub amount : ℤ
  pub buyer : Option ℕ
  pub seller : Option ℕ
  pub nft_mint : Option ℕ
  pub timestamp : ℕ

unfoldable pub prepare_event_defaults : ℕ → ℕ → ParsedEvent → ℕ → StoredEvent
prepare_event_defaults now signature e collection = record {
  event_id = signature;
  collection_address = collection;
  event_type = db_event_type e.event_type;
  amount = amount_of e.amount;
  buyer = e.buyer;
  seller = e.seller;
  nft_mint = e.mint_address;
  timestamp = time_of now e.timestamp;
}

pub record IndexedNft : Type 0 where
  pub mint_address : ℕ
  pub owner : Option ℕ
  pub is_burned : Bool

pub record State : Type 0 where
  pub events : List StoredEvent
  pub nfts : List IndexedNft
  pub failed : List ℕ

-- `update_or_create`
unfoldable pub put_event : StoredEvent → List StoredEvent → List StoredEvent
put_event x [] = x ∷ []
put_event x (e ∷ es) =
    let rest = put_event x es in if e.event_id == x.event_id then x ∷ es else e ∷ rest

unfoldable pub save_to_failed_transactions : ℕ → List ℕ → List ℕ
save_to_failed_transactions k [] = k ∷ []
save_to_failed_transactions k (j ∷ js) =
    let rest = save_to_failed_transactions k js in if j == k then k ∷ js else j ∷ rest

unfoldable pub set_owner : ℕ → ℕ → List IndexedNft → List IndexedNft
set_owner m buyer [] = []
set_owner m buyer (n ∷ ns) =
    let rest = set_owner m buyer ns in
    if n.mint_address == m then record n { owner = some buyer } ∷ ns else n ∷ rest

unfoldable pub set_burned : ℕ → List IndexedNft → List IndexedNft
set_burned m [] = []
set_burned m (n ∷ ns) =
    let rest = set_burned m ns in
    if n.mint_address == m
    then (if n.is_burned then n ∷ ns else record n { is_burned = true; owner = none } ∷ ns)
    else n ∷ rest

unfoldable pub update_nft_owner : Option ℕ → Option ℕ → List IndexedNft → List IndexedNft
unfolding set_owner
update_nft_owner (some m) (some buyer) ns = set_owner m buyer ns
update_nft_owner _ _ ns = ns

unfoldable pub mark_nft_as_burned : Option ℕ → List IndexedNft → List IndexedNft
unfolding set_burned
mark_nft_as_burned none ns = ns
mark_nft_as_burned (some m) ns = set_burned m ns

-- What follows the storing of an event.
unfoldable pub update_nft : StoredEvent → List IndexedNft → List IndexedNft
unfolding update_nft_owner mark_nft_as_burned
update_nft e ns = elim e.event_type [
  | EventName.sale ↦ update_nft_owner e.nft_mint e.buyer ns
  | EventName.transfer ↦ update_nft_owner e.nft_mint e.buyer ns
  | EventName.burn ↦ mark_nft_as_burned e.nft_mint ns
  | _ ↦ ns
]

-- What the tiers of parsers make of a transaction.
pub data Parsing : Type 0 where
  skipped raised : Parsing
  event : ParsedEvent → Parsing

-- The clock, the addresses in the table of collections, and the collection that is found for a mint.
pub record Surroundings : Type 0 where
  pub now : ℕ
  pub collections : List ℕ
  pub resolve : ℕ → Option ℕ

unfoldable pub has_address : ℕ → List ℕ → Bool
has_address k [] = false
has_address k (j ∷ js) = let rest = has_address k js in j == k || rest

abbrev pub collection_of : Surroundings → ParsedEvent → Option ℕ
collection_of s e = elim e.collection_address [
  | some c ↦ some c
  | none ↦ elim e.mint_address [ none ↦ none | some m ↦ s.resolve m ]
]

unfoldable pub store_event : Surroundings → ℕ → ParsedEvent → ℕ → State → Option StoredEvent × State
unfolding validate_parsed_event prepare_event_defaults put_event update_nft
    save_to_failed_transactions
store_event s signature e collection db =
    let row : StoredEvent = prepare_event_defaults s.now signature e collection in
    if validate_parsed_event s.now e
    then (some row, record db { events = put_event row db.events; nfts = update_nft row db.nfts })
    else (none, record db { failed = save_to_failed_transactions signature db.failed })

-- A transaction whose data have no signature, or which touches no collection of the table, is left.
unfoldable pub parse_and_store_event :
    Surroundings → Option ℕ → Bool → Parsing → State → Option StoredEvent × State
unfolding store_event has_address
parse_and_store_event s none tracked parsing db = (none, db)
parse_and_store_event s (some signature) false parsing db = (none, db)
parse_and_store_event s (some signature) true Parsing.skipped db = (none, db)
parse_and_store_event s (some signature) true Parsing.raised db =
    (none, record db { failed = save_to_failed_transactions signature db.failed })
parse_and_store_event s (some signature) true (Parsing.event e) db = elim (collection_of s e) [
  | none ↦ (none, db)
  | some collection ↦
      let stored : Option StoredEvent × State = store_event s signature e collection db in
      if has_address collection s.collections then stored else (none, db)
]

-- One transaction that comes in.
pub record Delivery : Type 0 where
  pub around : Surroundings
  pub signature : Option ℕ
  pub tracked : Bool
  pub parsing : Parsing

unfoldable pub deliver : Delivery → State → State
unfolding parse_and_store_event
deliver d db = (parse_and_store_event d.around d.signature d.tracked d.parsing db).1

unfoldable pub deliver_all : List Delivery → State → State
unfolding deliver
deliver_all [] db = db
deliver_all (d ∷ ds) db = deliver_all ds (deliver d db)
