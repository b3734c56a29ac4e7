-- ===== src/Market/Columns.antt =====
-- What the writes of the service leave in a row: its key, and the owner that they set.
use traitkeeper_eco.Base.{ℕ, ℤ, ◌≡◌, refl, Option, some}
use traitkeeper_eco.Schema.{Nft, AuctionEvent}
use traitkeeper_eco.Market.Sales.{bought_columns, asking_bought_columns}
use traitkeeper_eco.Market.Negotiation.{accepted_columns}
use traitkeeper_eco.Market.Auctions.{
  auctioned_columns, no_auction_columns, won_columns, outbid, completed_auction, cancelled_auction,
}

pub cancelled-id :
    {k : ℕ} (a : AuctionEvent) → a.auction_id ≡ k → (cancelled_auction a).auction_id ≡ k
unfolding cancelled_auction
cancelled-id a same = same

pub completed-id : (a : AuctionEvent) → (completed_auction a).auction_id ≡ a.auction_id
unfolding completed_auction
completed-id a = refl

pub outbid-id : (w : ℕ) (p : ℤ) (a : AuctionEvent) → (outbid w p a).auction_id ≡ a.auction_id
unfolding outbid
outbid-id w p a = refl

pub accepted-mint : (w : ℕ) (n : Nft) → (accepted_columns w n).mint_address ≡ n.mint_address
unfolding accepted_columns
accepted-mint w n = refl

pub asking_bought-mint :
    (w : ℕ) (n : Nft) → (asking_bought_columns w n).mint_address ≡ n.mint_address
unfolding asking_bought_columns
asking_bought-mint w n = refl

pub auctioned-mint : (k : ℕ) (n : Nft) → (auctioned_columns k n).mint_address ≡ n.mint_address
unfolding auctioned_columns
auctioned-mint k n = refl

pub bought-mint : (w : ℕ) (n : Nft) → (bought_columns w n).mint_address ≡ n.mint_address
unfolding bought_columns
bought-mint w n = refl

pub free-mint : (n : Nft) → (no_auction_columns n).mint_address ≡ n.mint_address
unfolding no_auction_columns
free-mint n = refl

pub won-mint : (w : Option ℕ) (n : Nft) → (won_columns w n).mint_address ≡ n.mint_address
unfolding won_columns
won-mint w n = refl

pub cancelled-nft : (a : AuctionEvent) → (cancelled_auction a).nft ≡ a.nft
unfolding cancelled_auction
cancelled-nft a = refl

pub completed-nft : (a : AuctionEvent) → (completed_auction a).nft ≡ a.nft
unfolding completed_auction
completed-nft a = refl

pub outbid-nft : (w : ℕ) (p : ℤ) (a : AuctionEvent) → (outbid w p a).nft ≡ a.nft
unfolding outbid
outbid-nft w p a = refl

pub accepted-owner : (w : ℕ) (n : Nft) → (accepted_columns w n).owner ≡ some w
unfolding accepted_columns
accepted-owner w n = refl

pub asking_bought-owner : (w : ℕ) (n : Nft) → (asking_bought_columns w n).owner ≡ some w
unfolding asking_bought_columns
asking_bought-owner w n = refl

pub bought-owner : (w : ℕ) (n : Nft) → (bought_columns w n).owner ≡ some w
unfolding bought_columns
bought-owner w n = refl

pub won-owner : (w : Option ℕ) (n : Nft) → (won_columns w n).owner ≡ w
unfolding won_columns
won-owner w n = refl
