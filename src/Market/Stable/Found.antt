-- ===== src/Market/Stable/Found.antt =====
-- What the checks of the calls on auctions have found.
use traitkeeper_eco.Base.{ℕ, ℤ, pos, ◌<ℤ◌, ◌≡◌, true, false, some, ok, arith}
use traitkeeper_eco.Schema.{Nft, AuctionEvent, does_not_exist}
use traitkeeper_eco.Table.{find, pk-find}
use traitkeeper_eco.Outcome.{Outcome, get_or_raise}
use traitkeeper_eco.Orm.{Db, nft_model, auction_model}
use traitkeeper_eco.Market.Checks.{
  is_active_auction, get_auction, create_auction_check, has_active_auction, finalize_check,
  cancel_auction_check,
}

pub record IsFound (a : AuctionEvent) (db : Db) : Type 0 where
  pub row : find a.auction_id db.auctions ≡ some a
  pub is_active : is_active_auction a ≡ true

pub finalize-IsFound :
    (now id : ℕ) (db : Db) (x : AuctionEvent × Nft)
    → finalize_check now id db ≡ ok x
    → IsFound x.0 db
unfolding finalize_check
finalize-IsFound now id db x e = ground (arith, pk-find id {r = x.0} db.auctions)

pub cancel-IsFound :
    (o id : ℕ) (db : Db) (x : AuctionEvent × Nft)
    → cancel_auction_check o id db ≡ ok x
    → IsFound x.0 db
unfolding cancel_auction_check
cancel-IsFound o id db x e = ground (arith, pk-find id {r = x.0} db.auctions)

pub creation_terms :
    (o m : ℕ) (p : ℤ) (hours : ℕ) (db : Db) (n : Nft)
    → create_auction_check o m p hours db ≡ ok n
    → (pos 0 <ℤ p) × (has_active_auction n.mint_address db.auctions ≡ false)
unfolding create_auction_check
creation_terms o m p hours db n e = ground arith

pub same_mint :
    (n n' : Nft) (db : Db)
    → get_or_raise (find n.mint_address db.nfts) does_not_exist ≡ ok n'
    → n'.mint_address ≡ n.mint_address
same_mint n n' db e = ground (arith, pk-find n.mint_address {r = n'} db.nfts)

-- A row that was fetched under the lock is the row of its key.
pub locked_self :
    (id : ℕ) (a : AuctionEvent) (db : Db)
    → get_or_raise (find id db.auctions) does_not_exist ≡ ok a
    → find a.auction_id db.auctions ≡ some a
locked_self id a db e = ground (arith, pk-find id {r = a} db.auctions)

-- A second fetch in the same database finds the same auction.
pub refetched :
    (a : AuctionEvent) (x : AuctionEvent × Nft) (db : Db)
    → find a.auction_id db.auctions ≡ some a
    → get_auction a.auction_id does_not_exist db ≡ ok x
    → x.0 ≡ a
refetched a x db h e = ground arith

pub passed_unit : {r : Outcome Unit} (u : Unit) → r ≡ ok u → r ≡ ok tt
passed_unit u e = e
