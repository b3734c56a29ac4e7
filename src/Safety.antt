-- ===== src/Safety.antt =====
-- SafetyValidationService (marketplace/safety_validation.py): the checks that block a call, and
-- those that only decide on quest credit.
pub mod Quests
pub mod Score
use traitkeeper_eco.Base.{
  ℕ, ◌+◌, ◌-◌, ◌*◌, Bool, true, false, ◌&&◌, Option, none, some, List, [], ◌∷◌, ok, err, leb, ltb,
  length, ◌==◌, is_value, count_if, select, if◌then◌else◌,
}
use traitkeeper_eco.Schema.{
  Nft, PrivateBid, NftEvent, EventType, Message, not_owner, own_nft, bid_spam, Error, field_error,
}
use traitkeeper_eco.Outcome.{Outcome, ◌>>=◌}
use traitkeeper_eco.Orm.{Db}
use traitkeeper_eco.Chain.{hour, minute}

-- A check answers `(True, None)` or `(False, message)`.
abbrev pub Verdict : Type 0
Verdict = Option Message

unfoldable pub verify_ownership : Nft → ℕ → Verdict
verify_ownership nft seller_wallet =
    if is_value nft.owner seller_wallet then none else some not_owner

abbrev pub max_bids_per_hour_spam : ℕ
max_bids_per_hour_spam = 3

-- `count_recent_bids`: created_at >= now - 1h
unfoldable pub count_recent_bids : ℕ → ℕ → Nft → Db → ℕ
count_recent_bids now bidder nft db =
    count_if (λ b. b.bidder == bidder && b.nft == nft.mint_address && leb now (b.created_at + hour))
      db.bids

unfoldable pub validate_bid_placement_safety : ℕ → ℕ → Nft → Db → Verdict
validate_bid_placement_safety now bidder nft db =
    if is_value nft.owner bidder
    then some own_nft
    else let recent_bids = count_recent_bids now bidder nft db in
      if leb max_bids_per_hour_spam recent_bids then some (bid_spam recent_bids) else none

-- A keyword of `NFTEvent.objects.filter`.
pub data Lookup : Type 0 where
  nft buyer event_type timestamp_gte : ℕ → Lookup

-- The model NFTEvent has the columns `buyer`, `event_type` and `timestamp`, and no field `nft`.
unfoldable pub is_field : Lookup → Bool
is_field (nft _) = false
is_field _ = true

unfoldable pub matches : Lookup → NftEvent → Bool
matches (nft mint) e = is_value e.nft_mint mint
matches (buyer wallet) e = is_value e.buyer wallet
matches (event_type _) e = elim e.event_type [ EventType.sale ↦ true | _ ↦ false ]
matches (timestamp_gte t) e = leb t e.timestamp

-- `filter(…)`: a keyword that names no field raises FieldError.
unfoldable pub filter_events : List Lookup → List NftEvent → Outcome (List NftEvent)
unfolding is_field matches
filter_events [] events = ok events
filter_events (l ∷ ls) events =
    let rest = filter_events ls (select (matches l) events) in
    if is_field l then rest else err field_error

-- `order_by('-timestamp').first()`
unfoldable pub latest : List NftEvent → Option NftEvent
latest [] = none
latest (e ∷ es) = elim (latest es) [
  | none ↦ some e
  | some f ↦ if ltb e.timestamp f.timestamp then some f else some e
]

abbrev pub min_ownership_duration_minutes_for_quest : ℕ
min_ownership_duration_minutes_for_quest = 5

abbrev pub max_sales_per_hour_for_quest : ℕ
max_sales_per_hour_for_quest = 5

-- `SALE` as the value of the keyword `event_type`.
abbrev sale_type : Lookup
sale_type = event_type 0

-- time_held < 5 minutes: now < timestamp + 5 minutes
abbrev held_long_enough : ℕ → Option NftEvent → Bool
held_long_enough now none = true
held_long_enough now (some e) =
    leb (e.timestamp + min_ownership_duration_minutes_for_quest * minute) now

unfoldable pub check_ownership_duration_for_quest : ℕ → Nft → ℕ → Db → Outcome Bool
unfolding filter_events latest
check_ownership_duration_for_quest now n seller_wallet db = do
  rows ← filter_events (nft n.mint_address ∷ buyer seller_wallet ∷ sale_type ∷ []) db.events
  ok (held_long_enough now (latest rows))

unfoldable pub check_sale_velocity_for_quest : ℕ → Nft → Db → Outcome Bool
unfolding filter_events
check_sale_velocity_for_quest now n db = do
  rows ← filter_events (nft n.mint_address ∷ sale_type ∷ timestamp_gte (now - hour) ∷ []) db.events
  ok (ltb (length rows) max_sales_per_hour_for_quest)

-- The values that the services pass as `action_type`.
pub data ActionType : Type 0 where
  sale list bid buy : ActionType

-- `except Exception: return False`
abbrev false_on_error : Outcome Bool → Bool
false_on_error (ok b) = b
false_on_error (err e) = false

abbrev both_checks : (ℕ → ℕ) → Nft → ℕ → Db → Outcome Bool
both_checks clock n actor_wallet db = do
  held ← check_ownership_duration_for_quest (clock 0) n actor_wallet db
  slow ← check_sale_velocity_for_quest (clock 1) n db
  ok (held && slow)

unfoldable pub check_quest_eligibility : (ℕ → ℕ) → Nft → ℕ → ActionType → Db → Bool
unfolding check_ownership_duration_for_quest check_sale_velocity_for_quest
check_quest_eligibility clock n actor_wallet sale db =
    false_on_error (both_checks clock n actor_wallet db)
check_quest_eligibility clock n actor_wallet list db =
    false_on_error (both_checks clock n actor_wallet db)
check_quest_eligibility clock n actor_wallet _ db = true
