-- ===== src/Market/Effects/Acceptance.antt =====
-- What the acceptance of a private bid does.
use mathlib.Core.Path.{subst⁻¹}
use traitkeeper_eco.Base.{
  ℕ, ◌≤◌, ◌<◌, ◌≡◌, refl, Bool, true, false, not, ◌&&◌, ◌==◌, Option, none, some, List, [], ◌∷◌, ok,
  err, arith, is_value, All, Option-cases, inl, inr,
}
use traitkeeper_eco.Schema.{Nft, PrivateBid, BidStatus, Error, value_error, bid_has_expired}
use traitkeeper_eco.Chain.{Env}
use traitkeeper_eco.Table.{find, update, update_where, find-update, find-update_where, pk-find}
use traitkeeper_eco.Orm.{
  Db, ◌>>=◌, nft_model, bid_model, event_model, transaction_model, monitoring_model, create_event,
  create_transaction, create_monitoring,
}
use traitkeeper_eco.Monitoring.{create_transaction_record}
use traitkeeper_eco.Safety.{verify_ownership}
use traitkeeper_eco.Market.Response.{Response, bid_accepted}
use traitkeeper_eco.Market.Checks.{is_active_bid, owner_bid_check}
use traitkeeper_eco.Market.Listings.{is_open_on, cancelled_bid}
use traitkeeper_eco.Market.Negotiation.{
  mock_decrypted_amount, accepted_columns, resolved_bid, update_db_after_sale, or_mark_failed,
  accept_signed, expired_bid, accept_private_bid,
}
use traitkeeper_eco.Market.Columns.{accepted-mint}

-- The active bids on an NFT but for one.
abbrev pub is_other_open : ℕ → ℕ → PrivateBid → Bool
is_other_open mint bid_id r = is_open_on mint r && not (r.bid_id == bid_id)

cancelled-All :
    (mint bid_id : ℕ) (bids : List PrivateBid)
    → All
        (λ r. is_other_open mint bid_id r ≡ false)
        (update_where (is_other_open mint bid_id) cancelled_bid bids)
unfolding update_where
cancelled-All mint bid_id [] = tt
cancelled-All mint bid_id (r ∷ bids) = (ground arith, cancelled-All mint bid_id bids)

-- An acceptance that the NFT's owner signs for an active bid that has not expired returns when its
-- signature is fresh and the process has initialized its Solana client before. The bid is then accepted, and its bidder owns the NFT, which has no price and
-- no sell intent and takes no offers.
pub accepted_bid_sells :
    (env : Env) (w sig : ℕ) (b : PrivateBid) (n : Nft) (db : Db)
    → find b.bid_id db.bids ≡ some b
    → find b.nft db.nfts ≡ some n
    → is_active_bid b ≡ true
    → is_value n.owner w ≡ true
    → env.clock 0 ≤ b.expires_at
    → env.is_client_initialized ≡ true
    → find sig db.events ≡ none
    → find sig db.transactions ≡ none
    → find sig db.monitoring ≡ none
    → ((accept_private_bid env w b.bid_id (some sig) db).0
        ≡ ok (bid_accepted sig mock_decrypted_amount))
      × (find b.bid_id (accept_private_bid env w b.bid_id (some sig) db).1.bids
          ≡ some (record b { status = BidStatus.accepted; resolved_at = some (env.clock 3) }))
      × (find b.nft (accept_private_bid env w b.bid_id (some sig) db).1.nfts
          ≡ some (record n {
            owner = some b.bidder;
            has_buy_price = false;
            buy_price = none;
            is_open_to_offers = false;
            has_sell_intent = false;
            asking_price = none;
          }))
unfolding accepted_columns accept_private_bid owner_bid_check verify_ownership accept_signed
    create_transaction_record create_monitoring or_mark_failed update_db_after_sale create_event
    create_transaction ◌>>=◌
accepted_bid_sells env w sig b n db eb en active owned early up fe ft fm = (
  ground arith,
  ground (
    arith,
    pk-find b.nft {r = n} db.nfts,
    find-update (λ _. resolved_bid BidStatus.accepted (env.clock 3) b) b.bid_id db.bids {r = b},
    find-update_where (is_other_open b.nft b.bid_id) cancelled_bid b.bid_id
        (update b.bid_id (λ _. resolved_bid BidStatus.accepted (env.clock 3) b) db.bids)
        (λ r _. refl),
  ),
  ground (
    arith,
    pk-find b.nft {r = n} db.nfts,
    accepted-mint b.bidder n,
    find-update (accepted_columns b.bidder) b.nft db.nfts {r = n},
  ),
)

-- After an acceptance that returns, no other bid on the NFT is active.
pub acceptance_closes_other_bids :
    (env : Env) (w sig : ℕ) (b : PrivateBid) (db : Db) (r : Response)
    → find b.bid_id db.bids ≡ some b
    → (accept_private_bid env w b.bid_id (some sig) db).0 ≡ ok r
    → All
        (λ c. is_other_open b.nft b.bid_id c ≡ false)
        (accept_private_bid env w b.bid_id (some sig) db).1.bids
unfolding accept_private_bid owner_bid_check verify_ownership accept_signed
    create_transaction_record create_monitoring or_mark_failed update_db_after_sale create_event
    create_transaction ◌>>=◌
acceptance_closes_other_bids env w sig b db r eb done = elim (Option-cases (find b.nft db.nfts)) [
  | inl missing ↦ ground arith
  | inr (n, en) ↦
      subst⁻¹ (All (λ (c : PrivateBid). is_other_open b.nft b.bid_id c ≡ false))
        (ground (arith, pk-find b.nft {r = n} db.nfts))
        (cancelled-All b.nft b.bid_id
          (update b.bid_id (λ _. resolved_bid BidStatus.accepted (env.clock 3) b) db.bids))
]

-- An acceptance that raises on a bid that has not expired changes no row but those of the
-- monitoring.
pub failed_acceptance_sells_nothing :
    (env : Env) (w sig : ℕ) (b : PrivateBid) (db : Db) (e : Error)
    → find b.bid_id db.bids ≡ some b
    → env.clock 0 ≤ b.expires_at
    → (accept_private_bid env w b.bid_id (some sig) db).0 ≡ err e
    → record (accept_private_bid env w b.bid_id (some sig) db).1 { monitoring = db.monitoring } ≡ db
unfolding accept_private_bid owner_bid_check accept_signed create_transaction_record
    create_monitoring or_mark_failed update_db_after_sale ◌>>=◌
failed_acceptance_sells_nothing env w sig b db e eb early failed = ground arith

-- An acceptance by the NFT's owner of an active bid that has expired raises, signed or not, and
-- marks the bid as expired; nothing else changes.
pub expired_bid_is_marked :
    (env : Env) (w : ℕ) (signed : Option ℕ) (b : PrivateBid) (n : Nft) (db : Db)
    → find b.bid_id db.bids ≡ some b
    → find b.nft db.nfts ≡ some n
    → is_active_bid b ≡ true
    → is_value n.owner w ≡ true
    → b.expires_at < env.clock 0
    → accept_private_bid env w b.bid_id signed db ≡ (
      err (value_error bid_has_expired),
      record db { bids = update b.bid_id (λ r. record r { status = BidStatus.expired }) db.bids },
    )
unfolding expired_bid accept_private_bid owner_bid_check verify_ownership ◌>>=◌
expired_bid_is_marked env w signed b n db eb en active owned late = ground arith
