-- ===== src/Wallet/Primary.antt =====
-- The primary wallet of a user.

use traitkeeper_eco.Base.{
  ℕ, ◌≡◌, ◌↔◌, Bool, true, false, not, ◌&&◌, none, some, List, [], ◌∷◌, arith, ◌==◌, count_if,
  Option-cases, inl, inr,
}
use traitkeeper_eco.Wallet.{WalletProfile, wallet_model, first_of, get_primary_wallet}

abbrev is_wallet_of : ℕ → WalletProfile → Bool
is_wallet_of user r = r.user == user

abbrev is_primary_of : ℕ → WalletProfile → Bool
is_primary_of user r = r.user == user && r.is_primary

first_of-matches :
    (p : WalletProfile → Bool) (rows : List WalletProfile) (w : WalletProfile)
    → first_of p rows ≡ some w
    → p w ≡ true
unfolding first_of
first_of-matches p [] w e = ground arith
first_of-matches p (r ∷ rows) w e = elim (Option-cases (first_of p rows)) [
  | inl missing ↦ ground arith
  | inr (s, found) ↦ ground (arith, first_of-matches p rows s found)
]

first_of-none :
    (p : WalletProfile → Bool) (rows : List WalletProfile)
    → (first_of p rows ≡ none) ↔ (count_if p rows ≡ 0)
unfolding first_of
first_of-none p [] = ground arith
first_of-none p (r ∷ rows) = ground (arith, first_of-none p rows)

first_of-counted :
    (p q : WalletProfile → Bool) (rows : List WalletProfile) (w : WalletProfile)
    → first_of p rows ≡ some w
    → q w ≡ true
    → (count_if q rows == 0) ≡ false
unfolding first_of
first_of-counted p q [] w e h = ground arith
first_of-counted p q (r ∷ rows) w e h = elim (Option-cases (first_of p rows)) [
  | inl missing ↦ ground arith
  | inr (s, found) ↦ ground (arith, first_of-counted p q rows s found)
]

-- The primary wallet that is found for a user is one of the user's, and is marked as primary exactly
-- when the user has a wallet that is marked.
pub primary_wallet_found :
    (user : ℕ) (rows : List WalletProfile) (w : WalletProfile)
    → get_primary_wallet user rows ≡ some w
    → (w.user ≡ user)
      × (w.is_primary ≡ not (count_if (λ r. r.user == user && r.is_primary) rows == 0))
unfolding get_primary_wallet
primary_wallet_found user rows w e = elim (Option-cases (first_of (is_primary_of user) rows)) [
  | inl missing ↦ ground (
    arith,
    first_of-none (is_primary_of user) rows,
    first_of-matches (is_wallet_of user) rows w,
    first_of-counted (is_wallet_of user) (is_primary_of user) rows w,
  )
  | inr (s, found) ↦ ground (
    arith,
    first_of-matches (is_primary_of user) rows s found,
    first_of-counted (is_primary_of user) (is_primary_of user) rows s found,
  )
]

-- No primary wallet is found for a user exactly when the user has no wallet.
pub no_primary_wallet_iff :
    (user : ℕ) (rows : List WalletProfile)
    → (get_primary_wallet user rows ≡ none) ↔ (count_if (λ r. r.user == user) rows ≡ 0)
unfolding get_primary_wallet
no_primary_wallet_iff user rows = elim (Option-cases (first_of (is_primary_of user) rows)) [
  | inl missing ↦ ground (arith, first_of-none (is_wallet_of user) rows)
  | inr (s, found) ↦ ground (
    arith,
    first_of-matches (is_primary_of user) rows s found,
    first_of-counted (is_primary_of user) (is_wallet_of user) rows s found,
  )
]
