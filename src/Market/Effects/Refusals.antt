-- ===== src/Market/Effects/Refusals.antt =====
-- Whose calls are refused.
use traitkeeper_eco.Base.{
  ℕ, ◌≡◌, Bool, true, false, Option, none, some, ok, err, arith, is_value, inl, inr, Result-cases,
}
use traitkeeper_eco.Schema.{Nft, Error}
use traitkeeper_eco.Outcome.{Outcome}
use traitkeeper_eco.Chain.{Env}
use traitkeeper_eco.Table.{find}
use traitkeeper_eco.Orm.{Db, Action, query, ◌>>=◌, nft_model, bid_model, auction_model}
use traitkeeper_eco.Safety.{verify_ownership}
use traitkeeper_eco.Market.Checks.{
  set_direct_sell_check, remove_listing_check, owner_bid_check, owner_counter_check,
  create_auction_check, cancel_auction_check,
}
use traitkeeper_eco.Market.Requests
use traitkeeper_eco.Market.Requests.{Request, handle}
use traitkeeper_eco.Market.Listings.{
  set_direct_sell, remove_direct_sell, set_sell_intent, remove_sell_intent,
}
use traitkeeper_eco.Market.Negotiation.{accept_private_bid, reject_private_bid, owner_counter_bid}
use traitkeeper_eco.Market.Auctions.{create_private_auction, cancel_auction}

-- A call that raises and leaves the database as it was.
abbrev pub IsRefused : {A : Type 0} → Action A → Db → Type 0
IsRefused m db = (e : Error) × (m db ≡ (err e, db))

module _ {A B : Type 0} where
  pub by_check :
      (q : Db → Outcome A) (f : A → Action B) (db : Db)
      → ((a : A) → q db ≡ ok a → ⊥)
      → IsRefused (query q >>= f) db
  unfolding ◌>>=◌
  by_check q f db never = elim (Result-cases (q db)) [
    | inl (a, e) ↦ absurd (never a e)
    | inr (x, e) ↦ (x, ground (arith))
  ]

  -- A statement that is refused ends the call.
  pub bind-IsRefused :
      (m : Action A) (f : A → Action B) (db : Db) → IsRefused m db → IsRefused (m >>= f) db
  unfolding ◌>>=◌
  bind-IsRefused m f db (e, h) = (e, ground (arith, h))

  -- A read that is followed by a call that is refused whatever was read.
  pub query-IsRefused :
      (q : Db → Outcome A) (f : A → Action B) (db : Db)
      → ((a : A) → IsRefused (f a) db)
      → IsRefused (query q >>= f) db
  unfolding ◌>>=◌
  query-IsRefused q f db refuses = elim (Result-cases (q db)) [
    | inl (a, e) ↦ let (x, r) = refuses a in (x, ground (arith, r))
    | inr (x, e) ↦ (x, ground arith)
  ]

abbrev pub is_error : {A : Type 0} → Outcome A → Bool
is_error (ok a) = false
is_error (err e) = true

pub by_result :
    {A : Type 0} (m : Action A) (db : Db)
    → is_error (m db).0 ≡ true
    → (m db).1 ≡ db
    → IsRefused m db
by_result m db is same = elim (Result-cases (m db).0) [
  | inl (a, e) ↦ ground arith
  | inr (x, e) ↦ (x, ground arith)
]

abbrev pub bid_nft : ℕ → Db → Option Nft
bid_nft id db = elim (find id db.bids) [ none ↦ none | some b ↦ find b.nft db.nfts ]

abbrev pub auction_nft : ℕ → Db → Option Nft
auction_nft id db = elim (find id db.auctions) [ none ↦ none | some a ↦ find a.nft db.nfts ]

-- The wallet and the NFT of a call that is the owner's to make.
abbrev pub wallet_of : Request → ℕ
wallet_of (Requests.accept_private_bid w b s) = w
wallet_of (Requests.reject_private_bid w b s) = w
wallet_of (Requests.owner_counter_bid w b p s) = w
wallet_of (Requests.set_direct_sell w m p) = w
wallet_of (Requests.remove_direct_sell w m) = w
wallet_of (Requests.remove_sell_intent w m) = w
wallet_of (Requests.set_sell_intent w m p s) = w
wallet_of (Requests.create_private_auction w m p h r s) = w
wallet_of (Requests.cancel_auction w a s) = w
wallet_of _ = 0

abbrev pub sold_nft : Request → Db → Option Nft
sold_nft (Requests.accept_private_bid w b s) db = bid_nft b db
sold_nft (Requests.reject_private_bid w b s) db = bid_nft b db
sold_nft (Requests.owner_counter_bid w b p s) db = bid_nft b db
sold_nft (Requests.set_direct_sell w m p) db = find m db.nfts
sold_nft (Requests.remove_direct_sell w m) db = find m db.nfts
sold_nft (Requests.remove_sell_intent w m) db = find m db.nfts
sold_nft (Requests.set_sell_intent w m p s) db = find m db.nfts
sold_nft (Requests.create_private_auction w m p h r s) db = find m db.nfts
sold_nft (Requests.cancel_auction w a s) db = auction_nft a db
sold_nft _ db = none

-- A call that is the owner's to make on an NFT (to list it or take it off sale, to answer a bid on
-- it, to start or cancel its auction) raises and changes no row when it is not made by the wallet
-- that owns the NFT.
pub only_the_owner_sells :
    (env : Env) (r : Request) (db : Db) (n : Nft)
    → sold_nft r db ≡ some n
    → is_value n.owner (wallet_of r) ≡ false
    → IsRefused (handle env r) db
unfolding handle accept_private_bid reject_private_bid owner_counter_bid set_direct_sell
    remove_direct_sell remove_sell_intent set_sell_intent create_private_auction cancel_auction
    set_direct_sell_check remove_listing_check owner_bid_check owner_counter_check
    create_auction_check cancel_auction_check verify_ownership
only_the_owner_sells env (Requests.accept_private_bid w b s) db n e other =
    by_check _ _ db λ x passed. ground arith
only_the_owner_sells env (Requests.reject_private_bid w b s) db n e other =
    by_check _ _ db λ x passed. ground arith
only_the_owner_sells env (Requests.owner_counter_bid w b p s) db n e other =
    by_check _ _ db λ x passed. ground arith
only_the_owner_sells env (Requests.set_direct_sell w m p) db n e other =
    by_check _ _ db λ x passed. ground arith
only_the_owner_sells env (Requests.remove_direct_sell w m) db n e other =
    by_check _ _ db λ x passed. ground arith
only_the_owner_sells env (Requests.remove_sell_intent w m) db n e other =
    by_check _ _ db λ x passed. ground arith
only_the_owner_sells env (Requests.set_sell_intent w m p s) db n e other =
    by_check _ _ db λ x passed. ground arith
only_the_owner_sells env (Requests.create_private_auction w m p h r s) db n e other =
    by_check _ _ db λ x passed. ground arith
only_the_owner_sells env (Requests.cancel_auction w a s) db n e other =
    by_check _ _ db λ x passed. ground arith
only_the_owner_sells env _ db n e other = ground arith
