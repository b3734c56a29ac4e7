-- ===== src/Indexer/Parser/Native.antt =====
-- The transfers of SOL that are read from balances, and the price in them
-- (indexer/services/parser.py).
use traitkeeper_eco.Base.{
  ℕ, ◌+◌, ◌-◌, Bool, true, false, ◌&&◌, List, [], ◌∷◌, ◌++◌, ltb, ◌==◌, length, if◌then◌else◌,
}

pub data Direction : Type 0 where
  credit debit : Direction

pub record NativeTransfer : Type 0 where
  pub user_account : ℕ
  pub amount : ℕ
  pub direction : Direction

-- The change of a balance that is not zero, as a transfer.
abbrev pub transfer_of : ℕ → ℕ → ℕ → List NativeTransfer
transfer_of account before after =
    if after == before
    then []
    else if ltb before after
    then record { user_account = account; amount = after - before; direction = Direction.credit }
      ∷ []
    else record { user_account = account; amount = before - after; direction = Direction.debit }
      ∷ []

unfoldable pub changes : List ℕ → List ℕ → List ℕ → List NativeTransfer
changes (b ∷ bs) (a ∷ as_) (k ∷ ks) = let rest = changes bs as_ ks in transfer_of k b a ++ rest
changes _ _ _ = []

-- The first account pays the fee, which is added to its change unless that is zero.
unfoldable pub parse_native_transfers_from_balances :
    List ℕ → List ℕ → List ℕ → ℕ → List NativeTransfer
unfolding changes
parse_native_transfers_from_balances (b ∷ bs) (a ∷ as_) (k ∷ ks) fee =
    if length bs == length as_ && length bs == length ks
    then transfer_of k b (if a == b then a else a + fee) ++ changes bs as_ ks
    else []
parse_native_transfers_from_balances _ _ _ fee = []

abbrev pub same_direction : Direction → Direction → Bool
same_direction Direction.credit Direction.credit = true
same_direction Direction.debit Direction.debit = true
same_direction _ _ = false

-- The largest amount of the transfers that pass a test, zero when none does.
unfoldable pub largest : (NativeTransfer → Bool) → List NativeTransfer → ℕ
largest p [] = 0
largest p (t ∷ ts) = let rest = largest p ts in if p t && ltb rest t.amount then t.amount else rest

abbrev pub goes : ℕ → Direction → NativeTransfer → Bool
goes account d t = t.user_account == account && same_direction t.direction d

abbrev pub significant_amount : ℕ
significant_amount = 5_000_000

-- The amount and the confidence in it, in hundredths: the largest credit of the seller, the largest
-- debit of the buyer, the largest credit or the largest transfer, the first of these that is
-- significant.
unfoldable pub extract_price_from_native_transfers : List NativeTransfer → ℕ → ℕ → ℕ × ℕ
unfolding largest
extract_price_from_native_transfers ts buyer seller =
    let seller_credit = largest (goes seller Direction.credit) ts in
    let buyer_debit = largest (goes buyer Direction.debit) ts in
    let any_credit = largest (λ t. same_direction t.direction Direction.credit) ts in
    let any_transfer = largest (λ t. true) ts in
    if ltb significant_amount seller_credit
    then (seller_credit, 90)
    else if ltb significant_amount buyer_debit
    then (buyer_debit, 85)
    else if ltb significant_amount any_credit
    then (any_credit, 70)
    else if ltb significant_amount any_transfer
    then (any_transfer, 60)
    else (0, 50)
