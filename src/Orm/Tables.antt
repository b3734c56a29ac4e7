-- ===== src/Orm/Tables.antt =====
-- Invariants of one table: the statements on the other tables keep them.
use traitkeeper_eco.Base.{ℕ, List, arith}
use traitkeeper_eco.Schema.{
  Nft, PrivateBid, AuctionEvent, NftEvent, MarketplaceTransaction, TransactionMonitoring,
}
use traitkeeper_eco.Orm.{
  Db, ◌>>=◌, update_monitoring, create_event, create_transaction, create_monitoring,
}
use traitkeeper_eco.Orm.Preserves.{Preserves}

-- An invariant that reads NFTs, bids and auctions only.
abbrev pub OnMarket : (List Nft → List PrivateBid → List AuctionEvent → Type 0) → Db → Type 0
OnMarket P db = P db.nfts db.bids db.auctions

module _ (P : List Nft → List PrivateBid → List AuctionEvent → Type 0) where
  pub create_event-OnMarket : (r : NftEvent) → Preserves (OnMarket P) (create_event r)
  unfolding create_event
  create_event-OnMarket r = record { holds = λ db h. ground arith }

  pub create_transaction-OnMarket :
      (r : MarketplaceTransaction) → Preserves (OnMarket P) (create_transaction r)
  unfolding create_transaction
  create_transaction-OnMarket r = record { holds = λ db h. ground arith }

  pub create_monitoring-OnMarket :
      (r : TransactionMonitoring) → Preserves (OnMarket P) (create_monitoring r)
  unfolding create_monitoring
  create_monitoring-OnMarket r = record { holds = λ db h. ground arith }

  pub update_monitoring-OnMarket :
      (k : ℕ) (f : TransactionMonitoring → TransactionMonitoring)
      → Preserves (OnMarket P) (update_monitoring k f)
  unfolding ◌>>=◌
  update_monitoring-OnMarket k f = record { holds = λ db h. h }
