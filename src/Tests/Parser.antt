-- ===== src/Tests/Parser.antt =====
-- A sale whose balances, price and event are read.
use traitkeeper_eco.Base.{
  ℕ, ◌-◌, ℤ, negsuc, sub_ℕ, Bool, Text, codes, ltb, ◌==◌, ◌≤◌, ◌<◌, ◌⊎◌, ◌≡◌, refl, true, false,
  none, some, List, [], ◌∷◌, pos, All, map, arith,
}
use traitkeeper_eco.Indexer.Parser.{
  EventName, EventTime, ParsedEvent, Parsing, State, Surroundings, Delivery, parse_and_store_event,
  deliver_all, store_event, has_address, update_nft, update_nft_owner, set_owner,
  validate_parsed_event, prepare_event_defaults,
}
use traitkeeper_eco.Indexer.Parser.Native.{
  NativeTransfer, Direction, extract_price_from_native_transfers, largest, goes, significant_amount,
  changes, parse_native_transfers_from_balances,
}
use traitkeeper_eco.Indexer.Parser.Balances.{sum, total, credits-eq-debits}
use traitkeeper_eco.Indexer.Parser.Tokens.{
  Floats, TokenBalance, balance, last_row, transfer_of, parse_token_transfers_from_balances,
}
use traitkeeper_eco.Indexer.Parser.Tokens.Moves.{
  AreFloats, IsMove, difference, has_key, transfer_in, moved_token_is_transferred,
}
use traitkeeper_eco.Indexer.Parser.Prices.{has_amount, price_is_significant_transfer}
use traitkeeper_eco.Indexer.Parser.Log.{IsValidEvent, delivered_events_are_valid}
use traitkeeper_eco.Indexer.Parser.Redelivery.{redelivery_changes_nothing}

-- The buyer pays ninety to the seller and ten to the market, and a fee of five.
transfers :
    parse_native_transfers_from_balances
      (300 ∷ 50 ∷ 0 ∷ [])
      (195 ∷ 140 ∷ 10 ∷ [])
      (1 ∷ 2 ∷ 3 ∷ [])
      5
    ≡ record { user_account = 1; amount = 100; direction = Direction.debit }
      ∷ record { user_account = 2; amount = 90; direction = Direction.credit }
      ∷ record { user_account = 3; amount = 10; direction = Direction.credit }
      ∷ []
unfolding parse_native_transfers_from_balances changes
transfers = refl

credits-eq-debits_example :
    total Direction.credit (
      parse_native_transfers_from_balances
        (300 ∷ 50 ∷ 0 ∷ [])
        (195 ∷ 140 ∷ 10 ∷ [])
        (1 ∷ 2 ∷ 3 ∷ [])
        5)
    ≡ total Direction.debit (
        parse_native_transfers_from_balances
          (300 ∷ 50 ∷ 0 ∷ [])
          (195 ∷ 140 ∷ 10 ∷ [])
          (1 ∷ 2 ∷ 3 ∷ [])
          5)
unfolding sum
credits-eq-debits_example =
    credits-eq-debits 300 195 1 5 (50 ∷ 0 ∷ []) (140 ∷ 10 ∷ []) (2 ∷ 3 ∷ []) refl refl refl
      (λ h. ground (arith, h))

abbrev paid : List NativeTransfer
paid =
    record { user_account = 1; amount = 92_000_000; direction = Direction.debit }
    ∷ record { user_account = 2; amount = 90_000_000; direction = Direction.credit }
    ∷ []

paid_price : extract_price_from_native_transfers paid 1 2 ≡ (90_000_000, 90)
unfolding extract_price_from_native_transfers largest
paid_price = refl

price_is_significant_transfer_example :
    (((extract_price_from_native_transfers paid 1 2).0 ≡ 0
        × All (λ t. t.amount ≤ significant_amount) paid)
      ⊎ (significant_amount < (extract_price_from_native_transfers paid 1 2).0
          × has_amount (λ t. true) (extract_price_from_native_transfers paid 1 2).0 paid ≡ true))
    × All
        (λ t.
          goes 2 Direction.credit t ≡ true
          → significant_amount < t.amount
          → t.amount ≤ (extract_price_from_native_transfers paid 1 2).0)
        paid
price_is_significant_transfer_example = price_is_significant_transfer paid 1 2

abbrev around : Surroundings
around = record { now = 1_700_000_000; collections = 7 ∷ []; resolve = λ m. some 7 }

abbrev found : ParsedEvent
found = record {
  event_type = some EventName.sale;
  mint_address = some 40;
  amount = some (pos 90);
  buyer = some 1;
  seller = some 2;
  timestamp = EventTime.number (pos 1_699_999_000);
  collection_address = none;
}

abbrev db : State
db = record {
  events = [];
  nfts = record { mint_address = 40; owner = some 2; is_burned = false } ∷ [];
  failed = [];
}

sold :
    (parse_and_store_event around (some 5) true (Parsing.event found) db).1.nfts
    ≡ record { mint_address = 40; owner = some 1; is_burned = false } ∷ []
unfolding parse_and_store_event store_event has_address validate_parsed_event prepare_event_defaults
    update_nft update_nft_owner set_owner
sold = refl

-- An event of a burn is refused.
abbrev burned : ParsedEvent
burned = record found { event_type = some EventName.burn }

refused : (parse_and_store_event around (some 6) true (Parsing.event burned) db).1.nfts ≡ db.nfts
unfolding parse_and_store_event store_event has_address validate_parsed_event
refused = refl

redelivery_changes_nothing_example :
    (parse_and_store_event around
      (some 5)
      true
      (Parsing.event found)
      (parse_and_store_event around (some 5) true (Parsing.event found) db).1).1
    ≡ (parse_and_store_event around (some 5) true (Parsing.event found) db).1
redelivery_changes_nothing_example =
    redelivery_changes_nothing around (some 5) true (Parsing.event found) db

abbrev deliveries : List Delivery
deliveries =
    record { around = around; signature = some 5; tracked = true; parsing = Parsing.event found }
    ∷ record { around = around; signature = some 6; tracked = true; parsing = Parsing.event burned }
    ∷ []

delivered_events_are_valid_example :
    All IsValidEvent (deliver_all deliveries db).events
    × (map (λ n. n.is_burned) (deliver_all deliveries db).nfts ≡ map (λ n. n.is_burned) db.nfts)
delivered_events_are_valid_example = delivered_events_are_valid deliveries db tt

-- Whole tokens below ten, which are read and subtracted exactly.
abbrev whole : Text → ℕ
whole [] = 0
whole (d ∷ ds) = d - 48

abbrev is_positive : ℤ → Bool
is_positive (pos n) = ltb 0 n
is_positive (negsuc n) = false

abbrev is : ℕ → ℤ → Bool
is k (pos n) = n == k
is k (negsuc n) = false

abbrev whole_floats : Floats ℕ ℤ
whole_floats = record {
  float = whole;
  minus = sub_ℕ;
  is_zero = is 0;
  is_positive = is_positive;
  is_one = is 1;
}

whole_floats_lem : AreFloats whole_floats
whole_floats_lem = record {
  is_below = ltb;
  minus_self = λ a. ground arith;
  minus_less = λ a b h. (ground (arith, h), ground (arith, h));
  minus_more = λ a b h. (ground (arith, h), ground (arith, h));
  not_below_zero = λ a. ground arith;
}

-- The token of mint 40 goes from owner 2 to owner 1.
abbrev token : ℕ → Text → TokenBalance
token owner amount = record {
  mint = 40;
  owner = owner;
  ui_amount_string = some amount;
  decimals = 0;
}

abbrev pre : List TokenBalance
pre = token 2 (codes "1") ∷ token 3 (codes "0") ∷ []

abbrev post : List TokenBalance
post = token 2 (codes "0") ∷ token 1 (codes "1") ∷ []

pre-post-IsMove : IsMove whole_floats whole_floats_lem 40 2 1 pre post
unfolding whole_floats_lem balance last_row
pre-post-IsMove = record {
  gain = ground arith;
  loss = ground arith;
  apart = λ h. ground (arith, h);
  others = λ k f g. ground (arith, f, g);
}

moved_token_is_transferred_example :
    transfer_in whole_floats 40
      (parse_token_transfers_from_balances whole_floats pre post ((40, 3) ∷ (40, 1) ∷ (40, 2) ∷ []))
    ≡ some (transfer_of whole_floats post 40 2 1 (difference whole_floats 40 1 pre post))
unfolding has_key
moved_token_is_transferred_example =
    moved_token_is_transferred whole_floats whole_floats_lem 40 2 1 pre post
      ((40, 3) ∷ (40, 1) ∷ (40, 2) ∷ []) pre-post-IsMove refl refl
