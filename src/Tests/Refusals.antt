-- ===== src/Tests/Refusals.antt =====
-- Calls that are refused, and calls that write nothing.
use traitkeeper_eco.Base.{refl, some}
use traitkeeper_eco.Table.{find}
use traitkeeper_eco.Orm.{nft_model}
use traitkeeper_eco.Market.Requests
use traitkeeper_eco.Market.Requests.{handle}
use traitkeeper_eco.Market.Effects.Refusals.{IsRefused, only_the_owner_sells}
use traitkeeper_eco.Tests.Market.{env, bob, market, ring}

only_the_owner_sells_example :
    IsRefused (handle env (Requests.accept_private_bid bob 202 (some 601))) market
unfolding find
only_the_owner_sells_example =
    only_the_owner_sells env (Requests.accept_private_bid bob 202 (some 601)) market ring refl refl
