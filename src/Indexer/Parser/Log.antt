-- ===== src/Indexer/Parser/Log.antt =====
-- The events that are stored, and the NFTs beside them.
use traitkeeper_eco.Base.{
  ℕ, ◌≤◌, ◌≡◌, ◌≢◌, refl, ◌∙◌, Bool, true, false, Option, none, some, List, [], ◌∷◌, ℤ, pos, negsuc,
  ◌==◌, All, map, arith, Bool-cases, Option-cases, inl, inr,
}
use mathlib.Core.Path.{subst⁻¹}
use traitkeeper_eco.Indexer.Parser.{
  StoredEvent, IndexedNft, EventName, ParsedEvent, Parsing, State, Surroundings, max_amount,
  is_valid_type, is_reasonable, same_wallet, is_sale, validate_parsed_event, db_event_type,
  amount_of, prepare_event_defaults, put_event, save_to_failed_transactions, set_owner,
  update_nft_owner, update_nft, collection_of, has_address, store_event, parse_and_store_event,
  Delivery, deliver, deliver_all,
}

-- The amount is between zero and a million SOL, and no sale is between a wallet and itself.
pub record IsValidEvent (e : StoredEvent) : Type 0 where
  pub amount : (n : ℕ) × (e.amount ≡ pos n) × (n ≤ max_amount)
  pub parties : e.event_type ≡ EventName.sale → same_wallet e.buyer e.seller ≡ false
  pub no_burn : e.event_type ≢ EventName.burn

reasonable_amount :
    (a : Option ℤ) → is_reasonable a ≡ true → (n : ℕ) × (amount_of a ≡ pos n) × (n ≤ max_amount)
reasonable_amount none h = absurd (ground (arith, h))
reasonable_amount (some (pos n)) h = (n, refl, ground (arith, h))
reasonable_amount (some (negsuc n)) h = absurd (ground (arith, h))

db_event_type_lem :
    (t : EventName)
    → is_valid_type t ≡ true
    → (db_event_type (some t) ≡ EventName.sale → is_sale t ≡ true)
      × (db_event_type (some t) ≢ EventName.burn)
db_event_type_lem t h = ground (arith, h)

prepared-IsValidEvent :
    (now signature : ℕ) (e : ParsedEvent) (collection : ℕ)
    → validate_parsed_event now e ≡ true
    → IsValidEvent (prepare_event_defaults now signature e collection)
unfolding validate_parsed_event prepare_event_defaults
prepared-IsValidEvent now signature e collection h = elim (Option-cases e.event_type) [
  | inl missing ↦ absurd (ground (arith, missing, h))
  | inr (t, named) ↦ record {
    amount = reasonable_amount e.amount (ground (arith, named, h));
    parties = λ sold. ground (arith, named, h, sold, db_event_type_lem t);
    no_burn = λ burned. ground (arith, named, h, burned, db_event_type_lem t);
  }
]

put_event-All :
    (P : StoredEvent → Type 0) (x : StoredEvent) (es : List StoredEvent)
    → P x
    → All P es
    → All P (put_event x es)
unfolding put_event
put_event-All P x [] p h = (p, tt)
put_event-All P x (e ∷ es) p h = elim (Bool-cases (e.event_id == x.event_id)) [
  | inl same ↦ subst⁻¹ (All P) {y = x ∷ es} (ground (arith, same)) (p, h.1)
  | inr other ↦
      subst⁻¹ (All P) {y = e ∷ put_event x es} (ground (arith, other))
        (h.0, put_event-All P x es p h.1)
]

abbrev burned_flags : List IndexedNft → List Bool
burned_flags ns = map (λ n. n.is_burned) ns

set_owner_keeps_flags :
    (m buyer : ℕ) (ns : List IndexedNft) → burned_flags (set_owner m buyer ns) ≡ burned_flags ns
unfolding set_owner
set_owner_keeps_flags m buyer [] = refl
set_owner_keeps_flags m buyer (n ∷ ns) = ground (arith, set_owner_keeps_flags m buyer ns)

update_nft_owner_keeps_flags :
    (m buyer : Option ℕ) (ns : List IndexedNft)
    → burned_flags (update_nft_owner m buyer ns) ≡ burned_flags ns
unfolding update_nft_owner
update_nft_owner_keeps_flags none buyer ns = refl
update_nft_owner_keeps_flags (some m) none ns = refl
update_nft_owner_keeps_flags (some m) (some buyer) ns = set_owner_keeps_flags m buyer ns

update_nft_keeps_flags :
    (e : StoredEvent) (ns : List IndexedNft)
    → e.event_type ≢ EventName.burn
    → burned_flags (update_nft e ns) ≡ burned_flags ns
unfolding update_nft
update_nft_keeps_flags e ns plain =
    ground (arith, plain, update_nft_owner_keeps_flags e.nft_mint e.buyer ns)

-- What holds after a transaction, of the events and of the flags of the NFTs.
abbrev Kept : State → State → Type 0
Kept db after = All IsValidEvent after.events × (burned_flags after.nfts ≡ burned_flags db.nfts)

same_outcome : (db after other : State) → after ≡ other → Kept db other → Kept db after
same_outcome db after other same h = subst⁻¹ (Kept db) same h

store_event-Kept :
    (s : Surroundings) (signature : ℕ) (e : ParsedEvent) (collection : ℕ) (db : State)
    → All IsValidEvent db.events
    → Kept db (store_event s signature e collection db).1
unfolding store_event
store_event-Kept s signature e collection db h = elim (Bool-cases (validate_parsed_event s.now e)) [
  | inr bad ↦
      same_outcome db (store_event s signature e collection db).1
        (record db { failed = save_to_failed_transactions signature db.failed })
        (ground (arith, bad)) (h, refl)
  | inl good ↦
      let row : StoredEvent = prepare_event_defaults s.now signature e collection in
      same_outcome db (store_event s signature e collection db).1
        (record db { events = put_event row db.events; nfts = update_nft row db.nfts })
        (ground (arith, good))
        (
          put_event-All IsValidEvent _ db.events
              (prepared-IsValidEvent s.now signature e collection good) h,
          update_nft_keeps_flags (prepare_event_defaults s.now signature e collection) db.nfts
              (prepared-IsValidEvent s.now signature e collection good).no_burn,
        )
]

parsed-Kept :
    (s : Surroundings) (signature : ℕ) (e : ParsedEvent) (db : State)
    → All IsValidEvent db.events
    → Kept db (parse_and_store_event s (some signature) true (Parsing.event e) db).1
unfolding parse_and_store_event
parsed-Kept s signature e db h = elim (Option-cases (collection_of s e)) [
  | inl nowhere ↦
      same_outcome db (parse_and_store_event s (some signature) true (Parsing.event e) db).1 db
        (ground (arith, nowhere)) (h, refl)
  | inr (c, found) ↦ elim (Bool-cases (has_address c s.collections)) [
    | inr unknown ↦
        same_outcome db (parse_and_store_event s (some signature) true (Parsing.event e) db).1 db
          (ground (arith, found, unknown)) (h, refl)
    | inl known ↦
        same_outcome db (parse_and_store_event s (some signature) true (Parsing.event e) db).1
          (store_event s signature e c db).1 (ground (arith, found, known))
          (store_event-Kept s signature e c db h)
  ]
]

deliver-Kept :
    (s : Surroundings) (signature : Option ℕ) (tracked : Bool) (parsing : Parsing) (db : State)
    → All IsValidEvent db.events
    → Kept db (parse_and_store_event s signature tracked parsing db).1
unfolding parse_and_store_event
deliver-Kept s none tracked parsing db h = (h, refl)
deliver-Kept s (some k) false parsing db h = (h, refl)
deliver-Kept s (some k) true Parsing.skipped db h = (h, refl)
deliver-Kept s (some k) true Parsing.raised db h = (h, refl)
deliver-Kept s (some k) true (Parsing.event e) db h = parsed-Kept s k e db h

-- Whatever transactions come in and whatever the parsers find in them, if every event that is stored
-- at first has an amount between zero and a million SOL, no wallet that is both its buyer and its
-- seller when it is a sale, though one of the two or both may be missing, and another type than BURN,
-- then so does every event that is stored in the end; and no NFT is marked as burned, nor is such a
-- mark taken back.
pub delivered_events_are_valid :
    (ds : List Delivery) (db : State)
    → All IsValidEvent db.events
    → All IsValidEvent (deliver_all ds db).events
      × (map (λ n. n.is_burned) (deliver_all ds db).nfts ≡ map (λ n. n.is_burned) db.nfts)
unfolding deliver_all deliver
delivered_events_are_valid [] db h = (h, refl)
delivered_events_are_valid (d ∷ ds) db h =
    let kept : Kept db (deliver d db) =
      deliver-Kept d.around d.signature d.tracked d.parsing db h in
    let rest : All IsValidEvent (deliver_all ds (deliver d db)).events
        × (burned_flags (deliver_all ds (deliver d db)).nfts ≡ burned_flags (deliver d db).nfts) =
      delivered_events_are_valid ds (deliver d db) kept.0 in
    (rest.0, rest.1 ∙ kept.1)
