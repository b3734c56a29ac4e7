-- ===== src/Indexer/Parser/Redelivery.antt =====
-- A transaction that is delivered again.
use traitkeeper_eco.Base.{
  ℕ, ◌≡◌, refl, Bool, true, false, Option, none, some, List, [], ◌∷◌, arith, Option-cases, inl, inr,
}
use traitkeeper_eco.Indexer.Parser.{
  StoredEvent, IndexedNft, ParsedEvent, Parsing, State, Surroundings, prepare_event_defaults,
  put_event, save_to_failed_transactions, set_owner, set_burned, update_nft_owner,
  mark_nft_as_burned, update_nft, collection_of, store_event, parse_and_store_event,
}

put_event_twice :
    (x : StoredEvent) (es : List StoredEvent) → put_event x (put_event x es) ≡ put_event x es
unfolding put_event
put_event_twice x [] = ground arith
put_event_twice x (e ∷ es) = ground (arith, put_event_twice x es)

save_failed_twice :
    (k : ℕ) (js : List ℕ)
    → save_to_failed_transactions k (save_to_failed_transactions k js)
      ≡ save_to_failed_transactions k js
unfolding save_to_failed_transactions
save_failed_twice k [] = ground arith
save_failed_twice k (j ∷ js) = ground (arith, save_failed_twice k js)

set_owner_twice :
    (m buyer : ℕ) (ns : List IndexedNft)
    → set_owner m buyer (set_owner m buyer ns) ≡ set_owner m buyer ns
unfolding set_owner
set_owner_twice m buyer [] = refl
set_owner_twice m buyer (n ∷ ns) = ground (arith, set_owner_twice m buyer ns)

set_burned_twice : (m : ℕ) (ns : List IndexedNft) → set_burned m (set_burned m ns) ≡ set_burned m ns
unfolding set_burned
set_burned_twice m [] = refl
set_burned_twice m (n ∷ ns) = ground (arith, set_burned_twice m ns)

update_owner_twice :
    (m buyer : Option ℕ) (ns : List IndexedNft)
    → update_nft_owner m buyer (update_nft_owner m buyer ns) ≡ update_nft_owner m buyer ns
unfolding update_nft_owner
update_owner_twice none buyer ns = refl
update_owner_twice (some m) none ns = refl
update_owner_twice (some m) (some buyer) ns = set_owner_twice m buyer ns

mark_burned_twice :
    (m : Option ℕ) (ns : List IndexedNft)
    → mark_nft_as_burned m (mark_nft_as_burned m ns) ≡ mark_nft_as_burned m ns
unfolding mark_nft_as_burned
mark_burned_twice none ns = refl
mark_burned_twice (some m) ns = set_burned_twice m ns

update_nft_twice :
    (e : StoredEvent) (ns : List IndexedNft) → update_nft e (update_nft e ns) ≡ update_nft e ns
unfolding update_nft
update_nft_twice e ns =
    ground (arith, update_owner_twice e.nft_mint e.buyer ns, mark_burned_twice e.nft_mint ns)

store_event_twice :
    (s : Surroundings) (signature : ℕ) (e : ParsedEvent) (collection : ℕ) (db : State)
    → (store_event s signature e collection (store_event s signature e collection db).1).1
      ≡ (store_event s signature e collection db).1
unfolding store_event
store_event_twice s signature e collection db = ground (
  arith,
  put_event_twice (prepare_event_defaults s.now signature e collection) db.events,
  update_nft_twice (prepare_event_defaults s.now signature e collection) db.nfts,
  save_failed_twice signature db.failed,
)

parsed_twice :
    (s : Surroundings) (k : ℕ) (e : ParsedEvent) (db : State)
    → (parse_and_store_event s
        (some k)
        true
        (Parsing.event e)
        (parse_and_store_event s (some k) true (Parsing.event e) db).1).1
      ≡ (parse_and_store_event s (some k) true (Parsing.event e) db).1
unfolding parse_and_store_event
parsed_twice s k e db = elim (Option-cases (collection_of s e)) [
  | inl nowhere ↦ ground (arith, nowhere)
  | inr (c, found) ↦ ground (arith, found, store_event_twice s k e c db)
]

-- A transaction that is delivered again with the same findings, at the same time of the clock, changes
-- nothing more: no event, no owner, no failed transaction.
pub redelivery_changes_nothing :
    (s : Surroundings) (signature : Option ℕ) (tracked : Bool) (parsing : Parsing) (db : State)
    → (parse_and_store_event s signature tracked parsing
        (parse_and_store_event s signature tracked parsing db).1).1
      ≡ (parse_and_store_event s signature tracked parsing db).1
unfolding parse_and_store_event
redelivery_changes_nothing s none tracked parsing db = refl
redelivery_changes_nothing s (some k) false parsing db = refl
redelivery_changes_nothing s (some k) true Parsing.skipped db = refl
redelivery_changes_nothing s (some k) true Parsing.raised db =
    ground (arith, save_failed_twice k db.failed)
redelivery_changes_nothing s (some k) true (Parsing.event e) db = parsed_twice s k e db
