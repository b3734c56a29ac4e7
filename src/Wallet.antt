-- ===== src/Wallet.antt =====
-- WalletProfile (wallet/models.py): the wallets that a user has linked, of which one is primary.
-- A public key is the list of its character codes.
pub mod Primary
pub mod Single
use traitkeeper_eco.Base.{
  ℕ, ◌+◌, Bool, true, false, not, ◌&&◌, ◌||◌, Option, none, some, List, [], ◌∷◌, ◌++◌, Result, ok,
  err, ◌==◌, ltb, leb, length, count_if, is_value, is_none, if◌then◌else◌,
}
use traitkeeper_eco.Table.{Model, or_else, find, update, update_where, remove, is_taken}

pub record WalletProfile : Type 0 where
  pub id : ℕ
  pub user : ℕ
  pub public_key : List ℕ
  pub is_primary : Bool
  pub created_at : ℕ

instance abbrev pub wallet_model : Model WalletProfile
wallet_model = record { pk = λ r. r.id }

abbrev between : ℕ → ℕ → ℕ → Bool
between a b c = leb a c && leb c b

-- `[1-9A-HJ-NP-Za-km-z]`
abbrev is_base58 : ℕ → Bool
is_base58 c =
    between 49 57 c
    || between 65 72 c
    || between 74 78 c
    || between 80 90 c
    || between 97 107 c
    || between 109 122 c

-- The key less a newline at its end, which `$` lets pass.
abbrev body : List ℕ → List ℕ
body [] = []
body (c ∷ []) = if c == 10 then [] else c ∷ []
body (c ∷ d ∷ cs) = c ∷ body (d ∷ cs)

-- `^[…]{32,44}$`, and `max_length=44` on the whole.
unfoldable pub is_key : List ℕ → Bool
is_key k =
    count_if (λ c. not (is_base58 c)) (body k) == 0
    && between 32 44 (length (body k))
    && leb (length k) 44

abbrev pub same_key : List ℕ → List ℕ → Bool
same_key [] [] = true
same_key [] (d ∷ ds) = false
same_key (c ∷ cs) [] = false
same_key (c ∷ cs) (d ∷ ds) = let rest = same_key cs ds in c == d && rest

-- An instance before it is saved: without a key it is new.
pub record Instance : Type 0 where
  pub pk : Option ℕ
  pub user : ℕ
  pub public_key : List ℕ
  pub is_primary : Bool

pub data Failure : Type 0 where
  validation_error integrity_error : Failure

abbrev pub Saved : Type 0
Saved = Result Failure Unit × List WalletProfile

-- `full_clean`: the pattern of the key, and that no other row has it.
unfoldable pub is_clean : Instance → List WalletProfile → Bool
is_clean w rows =
    is_key w.public_key
    && count_if (λ r. same_key r.public_key w.public_key && not (is_value w.pk r.id)) rows == 0

abbrev pub is_other_primary : Instance → WalletProfile → Bool
is_other_primary w r = r.user == w.user && r.is_primary && not (is_value w.pk r.id)

abbrev pub not_primary : WalletProfile → WalletProfile
not_primary r = record r { is_primary = false }

-- The other primary wallets of the user lose the mark.
unfoldable pub unset_others : Instance → List WalletProfile → List WalletProfile
unset_others w rows =
    if w.is_primary then update_where (is_other_primary w) not_primary rows else rows

-- A new wallet is primary too when its user has none.
abbrev pub is_first : Instance → List WalletProfile → Bool
is_first w rows = is_none w.pk && count_if (λ r. r.user == w.user) rows == 0

abbrev pub stored : (now id : ℕ) → Instance → List WalletProfile → WalletProfile
stored now id w rows = record {
  id = id;
  user = w.user;
  public_key = w.public_key;
  is_primary = w.is_primary || is_first w rows;
  created_at = now;
}

abbrev pub insert : WalletProfile → List WalletProfile → Saved
insert r rows = if is_taken r rows then (err integrity_error, rows) else (ok tt, rows ++ r ∷ [])

abbrev pub saved : Instance → WalletProfile → WalletProfile
saved w r = record r { user = w.user; public_key = w.public_key; is_primary = w.is_primary }

-- `save`, with the clock and the id that a new row gets. A key that no row has is inserted.
unfoldable pub save : (now new_id : ℕ) → Instance → List WalletProfile → Saved
save now new_id w rows =
    if is_clean w rows
    then (let others = unset_others w rows in
        elim w.pk [
          | none ↦ insert (stored now new_id w rows) others
          | some k ↦ elim (find k others) [
            | none ↦ insert (stored now k w rows) others
            | some r ↦ (ok tt, update k (saved w) others)
          ]
        ])
    else (err validation_error, rows)

-- `ordering = ['-is_primary', '-created_at']`
abbrev comes_before : WalletProfile → WalletProfile → Bool
comes_before r s =
    (r.is_primary && not s.is_primary)
    || ((not r.is_primary || s.is_primary) && ltb s.created_at r.created_at)

-- `filter(…).first()`
unfoldable pub first_of : (WalletProfile → Bool) → List WalletProfile → Option WalletProfile
first_of p [] = none
first_of p (r ∷ rows) =
    let rest = first_of p rows in
    if p r
    then elim rest [ none ↦ some r | some s ↦ if comes_before s r then some s else some r ]
    else rest

unfoldable pub get_primary_wallet : ℕ → List WalletProfile → Option WalletProfile
unfolding first_of
get_primary_wallet user rows =
    or_else (first_of (λ r. r.user == user && r.is_primary) rows)
      (first_of (λ r. r.user == user) rows)
