-- ===== src/Tests/Broken.antt =====
-- Calls that read what the models do not have.
use traitkeeper_eco.Base.{pos, ◌≡◌, some, [], ◌∷◌}
use traitkeeper_eco.Market.Requests
use traitkeeper_eco.Market.Requests.{serve}
use traitkeeper_eco.Market.Effects.Broken.{ids, no_bid_is_ever_stored}
use traitkeeper_eco.Tests.Market.{env, bob, market}

no_bid_is_ever_stored_example :
    ids
      (serve
        ((env, Requests.place_private_bid bob 105 (pos 2_000_000_000) 24 (some 601))
          ∷ (env, Requests.confirm_private_bid_tx bob 201 602 (pos 1_200_000_000))
          ∷ [])
        market).bids
    ≡ ids market.bids
no_bid_is_ever_stored_example =
    no_bid_is_ever_stored
      ((env, Requests.place_private_bid bob 105 (pos 2_000_000_000) 24 (some 601))
        ∷ (env, Requests.confirm_private_bid_tx bob 201 602 (pos 1_200_000_000))
        ∷ [])
      market
