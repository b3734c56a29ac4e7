-- ===== src/Tests/Wallet.antt =====
-- The wallets of two users.
use traitkeeper_eco.Base.{ℕ, true, false, none, some, List, [], ◌∷◌, ◌≡◌, refl, arith}
use traitkeeper_eco.Table.{find, update_where, remove}
use traitkeeper_eco.Wallet.{WalletProfile, wallet_model, save, is_clean, is_key, unset_others}
use traitkeeper_eco.Wallet.Single.{HasOnePrimary, Step, steps, steps-HasOnePrimary}

-- 32 letters.
abbrev key_of : ℕ → List ℕ
key_of c =
    c ∷ c ∷ c ∷ c ∷ c ∷ c ∷ c ∷ c ∷ c ∷ c ∷ c ∷ c ∷ c ∷ c ∷ c ∷ c ∷ c ∷ c ∷ c ∷ c ∷ c ∷ c ∷ c ∷ c
    ∷ c ∷ c ∷ c ∷ c ∷ c ∷ c ∷ c ∷ c ∷ []

abbrev first_wallet : WalletProfile
first_wallet = record {
  id = 1;
  user = 7;
  public_key = key_of 65;
  is_primary = true;
  created_at = 10;
}

abbrev second_wallet : WalletProfile
second_wallet = record {
  id = 2;
  user = 7;
  public_key = key_of 66;
  is_primary = false;
  created_at = 20;
}

abbrev wallets : List WalletProfile
wallets = first_wallet ∷ second_wallet ∷ []

-- A third wallet of the user becomes primary, and another user links one.
abbrev changes : List Step
changes =
    Step.saving 30 3 (record { pk = none; user = 7; public_key = key_of 67; is_primary = true })
    ∷ Step.saving 40 4 (record { pk = none; user = 8; public_key = key_of 68; is_primary = false })
    ∷ Step.deleting 1
    ∷ []

wallets-HasOnePrimary : HasOnePrimary wallets
unfolding find
wallets-HasOnePrimary j k a b ea eb pa pb same = ground arith

steps-HasOnePrimary_example : HasOnePrimary (steps changes wallets)
steps-HasOnePrimary_example = steps-HasOnePrimary changes wallets wallets-HasOnePrimary

-- The first wallet of a user is primary, and a new primary wallet takes the mark from the others.
marks_after :
    (find 3 (steps changes wallets)
      ≡ some (record first_wallet { id = 3; public_key = key_of 67; created_at = 30 }))
    × (find 4 (steps changes wallets)
        ≡ some (record {
          id = 4;
          user = 8;
          public_key = key_of 68;
          is_primary = true;
          created_at = 40;
        }))
    × (find 1 (steps changes wallets) ≡ none)
unfolding find save is_clean is_key unset_others update_where remove
marks_after = (refl, refl, refl)
