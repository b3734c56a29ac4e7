-- ===== src/Tests/Sales.antt =====
-- What acceptances and purchases do to the test market.
use traitkeeper_eco.Base.{
  ◌+◌, pos, ◌≡◌, refl, false, none, some, [], ◌∷◌, ◌++◌, ok, err, arith, All,
}
use traitkeeper_eco.Schema.{BidStatus, integrity_error}
use traitkeeper_eco.Table.{find}
use traitkeeper_eco.Orm.{
  nft_model, bid_model, auction_model, event_model, transaction_model, monitoring_model, ◌>>=◌,
}
use traitkeeper_eco.Market.Response.{bid_accepted}
use traitkeeper_eco.Market.Checks.{owner_bid_check, direct_buy_check}
use traitkeeper_eco.Market.Sales.{sale_event, bought_columns, execute_sale}
use traitkeeper_eco.Market.Negotiation.{mock_decrypted_amount, accept_private_bid}
use traitkeeper_eco.Market.Effects.Acceptance.{
  is_other_open, accepted_bid_sells, acceptance_closes_other_bids, failed_acceptance_sells_nothing,
}
use traitkeeper_eco.Market.Effects.Purchases.{stale_purchase_sells_twice}
use traitkeeper_eco.Tests.Market.{env, now, alice, bob, carol, market, painting, ring, bid_of_bob}

accepted_bid_sells_example :
    ((accept_private_bid env alice 201 (some 601) market).0
      ≡ ok (bid_accepted 601 mock_decrypted_amount))
    × (find 201 (accept_private_bid env alice 201 (some 601) market).1.bids
        ≡ some (record bid_of_bob { status = BidStatus.accepted; resolved_at = some (now + 3) }))
    × (find 105 (accept_private_bid env alice 201 (some 601) market).1.nfts
        ≡ some (record ring { owner = some bob; is_open_to_offers = false }))
unfolding find
accepted_bid_sells_example =
    accepted_bid_sells env alice 601 bid_of_bob ring market refl refl refl refl (omega arith) refl
      refl refl refl

acceptance_closes_other_bids_example :
    All
      (λ c. is_other_open 105 201 c ≡ false)
      (accept_private_bid env alice 201 (some 601) market).1.bids
unfolding find
acceptance_closes_other_bids_example =
    acceptance_closes_other_bids env alice 601 bid_of_bob market
      (bid_accepted 601 mock_decrypted_amount) refl accepted_bid_sells_example.0

-- The transaction 401 is in the monitoring already.
repeated_signature_fails :
    (accept_private_bid env alice 201 (some 401) market).0 ≡ err integrity_error
unfolding find owner_bid_check accept_private_bid ◌>>=◌
repeated_signature_fails = refl

failed_acceptance_sells_nothing_example :
    record (accept_private_bid env alice 201 (some 401) market).1 { monitoring = market.monitoring }
    ≡ market
unfolding find
failed_acceptance_sells_nothing_example =
    failed_acceptance_sells_nothing env alice 401 bid_of_bob market integrity_error refl
      (omega arith) repeated_signature_fails

-- Bob and Carol both buy the painting, and Carol has it.
stale_purchase_sells_twice_example :
    let after =
      (execute_sale (bought_columns bob) now 601 painting (pos 2_000_000_000) bob market).1 in
    let last =
      execute_sale (bought_columns carol) now 602 painting (pos 2_000_000_000) carol after in
    (last.0 ≡ ok tt)
    × (find 101 last.1.nfts
        ≡ some (record painting { owner = some carol; has_buy_price = false; buy_price = none }))
    × (last.1.events
        ≡ ([]
            ++ sale_event 601 painting (some (pos 2_000_000_000)) (some bob) (some alice) now ∷ [])
          ++ sale_event 602 painting (some (pos 2_000_000_000)) (some carol) (some alice) now ∷ [])
unfolding find direct_buy_check
stale_purchase_sells_twice_example =
    stale_purchase_sells_twice now now bob carol 601 602 (pos 2_000_000_000) painting market refl
      refl (omega arith) refl refl refl refl
