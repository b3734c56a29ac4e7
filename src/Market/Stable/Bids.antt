-- ===== src/Market/Stable/Bids.antt =====
-- The calls on private bids.
use traitkeeper_eco.Base.{
  String, ℕ, ℤ, pos, ◌<ℤ◌, ◌≡◌, Bool, true, false, Option, none, some, List, ok, err, arith, ltb,
}
use traitkeeper_eco.Schema.{Nft, PrivateBid, BidStatus, AuctionEvent, does_not_exist}
use traitkeeper_eco.Chain.{Env}
use traitkeeper_eco.Table.{find, pk-find}
use traitkeeper_eco.Outcome.{Outcome, get_or_raise}
use traitkeeper_eco.Orm.{Db, Action, ◌>>=◌, bid_model}
use traitkeeper_eco.Orm.Preserves.{
  Preserves, preserves_rules, Preserves-pure, Preserves-bind, Preserves-bind_query, Preserves-if,
  Preserves-atomic,
}
use traitkeeper_eco.Orm.Tables.{
  OnMarket, create_event-OnMarket, create_transaction-OnMarket, create_monitoring-OnMarket,
  update_monitoring-OnMarket,
}
use traitkeeper_eco.Monitoring.{create_transaction_record}
use traitkeeper_eco.Market.Checks.{
  is_active_bid, owner_bid_check, cancel_bid_check, owner_counter_check,
}
use traitkeeper_eco.Market.Offers.{
  create_bid_in_transaction, place_private_bid, mark_by_reply, finalize_bid_in_transaction,
  confirm_private_bid_tx, bidder_counter_sell_intent,
}
use traitkeeper_eco.Market.Negotiation.{
  or_mark_failed, mock_decrypted_amount, update_db_after_sale, accept_signed, accept_private_bid,
  reject_private_bid, cancel_private_bid, update_db_counter, owner_counter_bid,
}
use traitkeeper_eco.Market.Stable.Writes.{Stable}

-- What a check that passed has found.
record IsFound (b : PrivateBid) (db : Db) : Type 0 where
  row : find b.bid_id db.bids ≡ some b
  is_active : is_active_bid b ≡ true

owner_bid-IsFound :
    (o id : ℕ) (db : Db) (x : PrivateBid × Nft) → owner_bid_check o id db ≡ ok x → IsFound x.0 db
unfolding owner_bid_check
owner_bid-IsFound o id db x e = ground (arith, pk-find id {r = x.0} db.bids)

cancel_bid-IsFound :
    (o id : ℕ) (db : Db) (b : PrivateBid) → cancel_bid_check o id db ≡ ok b → IsFound b db
unfolding cancel_bid_check
cancel_bid-IsFound o id db b e = ground (arith, pk-find id {r = b} db.bids)

owner_counter-IsFound :
    (o id : ℕ) (p : ℤ) (db : Db) (x : PrivateBid × Nft)
    → owner_counter_check o id p db ≡ ok x
    → IsFound x.0 db
unfolding owner_counter_check
owner_counter-IsFound o id p db x e = ground (arith, pk-find id {r = x.0} db.bids)

owner_counter_pos :
    (o id : ℕ) (p : ℤ) (db : Db) (x : PrivateBid × Nft)
    → owner_counter_check o id p db ≡ ok x
    → pos 0 <ℤ p
unfolding owner_counter_check
owner_counter_pos o id p db x e = ground arith

-- A bid with no amount is never created.
create_bid_without_amount :
    {P : Db → Type 0} (env : Env) (w h sig : ℕ) (n : Nft)
    → Preserves P (create_bid_in_transaction env w h sig n)
unfolding create_bid_in_transaction ◌>>=◌
create_bid_without_amount env w h sig n = record { holds = λ db p. p }

-- No bid is pending, so none is finalized.
finalize_no_pending :
    {P : Db → Type 0} (env : Env) (w t sig : ℕ) (p : ℤ)
    → Preserves P (finalize_bid_in_transaction env w t sig p)
unfolding finalize_bid_in_transaction ◌>>=◌
finalize_no_pending env w t sig p = record { holds = λ db h. h }

-- A row that was fetched under the lock is the row of the key.
locked :
    (b b' : PrivateBid) (db : Db)
    → get_or_raise (find b.bid_id db.bids) does_not_exist ≡ ok b'
    → find b.bid_id db.bids ≡ some b'
locked b b' db e = ground arith

module _ {P : List Nft → List PrivateBid → List AuctionEvent → Type 0} (s : Stable P) where
  pub place_private_bid-Preserves :
      (env : Env) (w m : ℕ) (p : ℤ) (h : ℕ) (signed : Option ℕ)
      → Preserves (OnMarket P) (place_private_bid env w m p h signed)
  unfolding place_private_bid
  place_private_bid-Preserves env w m p h none =
      Preserves-bind_query _ _ λ n db hp e. search preserves_rules
  place_private_bid-Preserves env w m p h (some signature) =
      Preserves-bind_query _ _
        λ n db hp e. search (preserves_rules, create_bid_without_amount env w h signature n)

  pub bidder_counter_sell_intent-Preserves :
      (env : Env) (w m : ℕ) (p : ℤ) → Preserves (OnMarket P) (bidder_counter_sell_intent env w m p)
  unfolding bidder_counter_sell_intent
  bidder_counter_sell_intent-Preserves env w m p =
      Preserves-bind_query _ _
        λ n db h e. search (preserves_rules, place_private_bid-Preserves env w m p 72 none)

  mark_by_reply-Preserves :
      (now sig : ℕ) (r : Outcome Bool) → Preserves (OnMarket P) (mark_by_reply now sig r)
  unfolding mark_by_reply
  mark_by_reply-Preserves now sig (ok true) = update_monitoring-OnMarket P sig _
  mark_by_reply-Preserves now sig (ok false) =
      Preserves-bind _ _ (update_monitoring-OnMarket P sig _)
        λ _. search (update_monitoring-OnMarket P, preserves_rules)
  mark_by_reply-Preserves now sig (err e) =
      Preserves-bind _ _ (update_monitoring-OnMarket P sig _) λ _. search preserves_rules

  create_record-Preserves :
      (up : Bool) (now sig : ℕ) (action : String) (mint w : Option ℕ)
      → Preserves (OnMarket P) (create_transaction_record up now sig action mint w)
  unfolding create_transaction_record
  create_record-Preserves up now sig action mint w =
      Preserves-if up _ _ (create_monitoring-OnMarket P _) (search preserves_rules)

  pub confirm_private_bid_tx-Preserves :
      (env : Env) (w t sig : ℕ) (p : ℤ)
      → Preserves (OnMarket P) (confirm_private_bid_tx env w t sig p)
  unfolding confirm_private_bid_tx
  confirm_private_bid_tx-Preserves env w t sig p =
      Preserves-bind _ _ (create_record-Preserves env.is_client_initialized _ sig _ _ _) λ _.
        Preserves-bind _ _ (mark_by_reply-Preserves (env.clock 1) sig (env.confirm sig))
          λ _. Preserves-bind _ _ (finalize_no_pending env w t sig p) λ id. Preserves-pure _

  pub reject_private_bid-Preserves :
      (env : Env) (o id : ℕ) (signed : Option ℕ)
      → Preserves (OnMarket P) (reject_private_bid env o id signed)
  unfolding reject_private_bid
  reject_private_bid-Preserves env o id none =
      Preserves-bind_query _ _ λ x db h e. search preserves_rules
  reject_private_bid-Preserves env o id (some signature) = Preserves-bind_query _ _ λ x db h e.
      let f = owner_bid-IsFound o id db x e in
      search
        (preserves_rules, s.close_bid x.0 db BidStatus.rejected (env.clock 0) h f.row f.is_active)

  pub cancel_private_bid-Preserves :
      (env : Env) (w id : ℕ) (signed : Option ℕ)
      → Preserves (OnMarket P) (cancel_private_bid env w id signed)
  unfolding cancel_private_bid
  cancel_private_bid-Preserves env o id none =
      Preserves-bind_query _ _ λ x db h e. search preserves_rules
  cancel_private_bid-Preserves env o id (some signature) = Preserves-bind_query _ _ λ x db h e.
      let f = cancel_bid-IsFound o id db x e in
      search
        (preserves_rules, s.close_bid x db BidStatus.cancelled (env.clock 0) h f.row f.is_active)

  update_db_after_sale-Preserves :
      (env : Env) (b : PrivateBid) (sig : ℕ) (p : ℤ) (o : ℕ) (db : Db)
      → OnMarket P db
      → IsFound b db
      → Preserves (OnMarket P) (update_db_after_sale env b sig p o)
  unfolding update_db_after_sale
  update_db_after_sale-Preserves env b sig p o db h f = Preserves-atomic _ (
      Preserves-bind_query _ _ λ n db' h' e.
        Preserves-bind _ _ (s.accept_bid b db (env.clock 3) h f.row f.is_active) λ _.
          Preserves-bind _ _ (create_event-OnMarket P _) λ _.
            Preserves-bind _ _ (create_transaction-OnMarket P _) λ _.
              Preserves-bind _ _ (s.accepted n.mint_address b.bidder)
                λ _. s.cancel_other_bids n.mint_address b.bid_id)

  or_mark_failed-Preserves :
      {A : Type 0} (sig : ℕ) (m : Action A)
      → Preserves (OnMarket P) m
      → Preserves (OnMarket P) (or_mark_failed sig m)
  unfolding or_mark_failed ◌>>=◌
  or_mark_failed-Preserves sig m hm = record { holds = λ db h. ground (arith, hm.holds db h) }

  accept_signed-Preserves :
      (env : Env) (o : ℕ) (b : PrivateBid) (n : Nft) (sig : ℕ) (db : Db)
      → OnMarket P db
      → IsFound b db
      → Preserves (OnMarket P) (accept_signed env o b n sig)
  unfolding accept_signed
  accept_signed-Preserves env o b n sig db h f =
      Preserves-bind _ _ (create_record-Preserves env.is_client_initialized _ sig _ _ _) λ _.
        or_mark_failed-Preserves sig _ (
          Preserves-bind _ _ (update_monitoring-OnMarket P sig _) λ _. search (
            preserves_rules,
            update_db_after_sale-Preserves env b sig mock_decrypted_amount o db h f,
          ))

  pub accept_private_bid-Preserves :
      (env : Env) (o id : ℕ) (signed : Option ℕ)
      → Preserves (OnMarket P) (accept_private_bid env o id signed)
  unfolding accept_private_bid
  accept_private_bid-Preserves env o id none = Preserves-bind_query _ _ λ x db h e.
      let f = owner_bid-IsFound o id db x e in
      Preserves-if (ltb x.0.expires_at (env.clock 0)) _ _
        (search (preserves_rules, s.expire_bid x.0 db h f.row f.is_active)) (search preserves_rules)
  accept_private_bid-Preserves env o id (some signature) = Preserves-bind_query _ _ λ x db h e.
      let f = owner_bid-IsFound o id db x e in
      Preserves-if (ltb x.0.expires_at (env.clock 0)) _ _
        (search (preserves_rules, s.expire_bid x.0 db h f.row f.is_active))
        (accept_signed-Preserves env o x.0 x.1 signature db h f)

  update_db_counter-Preserves :
      (env : Env) (b : PrivateBid) (n : Nft) (p : ℤ) (db : Db)
      → OnMarket P db
      → IsFound b db
      → pos 0 <ℤ p
      → Preserves (OnMarket P) (update_db_counter env b n p)
  unfolding update_db_counter
  update_db_counter-Preserves env b n p db h f positive = Preserves-atomic _ (
      Preserves-bind_query _ _ λ n' db' h' e. Preserves-bind_query _ _ λ b' db'' h'' e'.
        Preserves-bind _ _
          (rw (pk-find b.bid_id db''.bids (locked b b' db'' e'))
            (s.close_bid b db BidStatus.rejected (env.clock 0) h f.row f.is_active))
          λ _. search (preserves_rules, s.sell_intent n'.mint_address p positive))

  pub owner_counter_bid-Preserves :
      (env : Env) (o id : ℕ) (p : ℤ) (signed : Option ℕ)
      → Preserves (OnMarket P) (owner_counter_bid env o id p signed)
  unfolding owner_counter_bid
  owner_counter_bid-Preserves env o id p none =
      Preserves-bind_query _ _ λ x db h e. search preserves_rules
  owner_counter_bid-Preserves env o id p (some signature) = Preserves-bind_query _ _ λ x db h e.
      search (
        preserves_rules,
        update_db_counter-Preserves env x.0 x.1 p db h (owner_counter-IsFound o id p db x e)
            (owner_counter_pos o id p db x e),
      )
