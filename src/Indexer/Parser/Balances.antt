-- ===== src/Indexer/Parser/Balances.antt =====
-- The transfers of SOL that are read from balances.
use traitkeeper_eco.Base.{ℕ, ◌+◌, ◌≡◌, ◌≢◌, refl, List, [], ◌∷◌, ◌++◌, length, arith}
use traitkeeper_eco.Indexer.Parser.Native.{
  NativeTransfer, Direction, transfer_of, changes, parse_native_transfers_from_balances,
}

unfoldable pub sum : List ℕ → ℕ
sum [] = 0
sum (b ∷ bs) = b + sum bs

abbrev part : Direction → NativeTransfer → ℕ
part Direction.credit t = elim t.direction [ Direction.credit ↦ t.amount | Direction.debit ↦ 0 ]
part Direction.debit t = elim t.direction [ Direction.credit ↦ 0 | Direction.debit ↦ t.amount ]

-- What was credited, or debited, in all.
unfoldable pub total : Direction → List NativeTransfer → ℕ
total d [] = 0
total d (t ∷ ts) = part d t + total d ts

total-append :
    (d : Direction) (xs ys : List NativeTransfer) → total d (xs ++ ys) ≡ total d xs + total d ys
unfolding total
total-append d [] ys = ground arith
total-append d (x ∷ xs) ys = ground (arith, total-append d xs ys)

transfer_balances :
    (k b a : ℕ)
    → b + total Direction.credit (transfer_of k b a) ≡ a + total Direction.debit (transfer_of k b a)
unfolding total
transfer_balances k b a = ground arith

changes_balance :
    (bs as_ ks : List ℕ)
    → length bs ≡ length as_
    → length bs ≡ length ks
    → sum bs + total Direction.credit (changes bs as_ ks)
      ≡ sum as_ + total Direction.debit (changes bs as_ ks)
unfolding sum total changes
changes_balance [] [] ks h g = refl
changes_balance [] (a ∷ as_) ks h g = absurd (ground (arith, h))
changes_balance (b ∷ bs) [] ks h g = absurd (ground (arith, h))
changes_balance (b ∷ bs) (a ∷ as_) [] h g = absurd (ground (arith, g))
changes_balance (b ∷ bs) (a ∷ as_) (k ∷ ks) h g = ground (
  arith,
  changes_balance bs as_ ks (ground (arith, h)) (ground (arith, g)),
  transfer_balances k b a,
  total-append Direction.credit (transfer_of k b a) (changes bs as_ ks),
  total-append Direction.debit (transfer_of k b a) (changes bs as_ ks),
)

-- When a transaction moves SOL between its accounts and burns its fee, and the balance of the payer
-- changes, what the transfers credit is what they debit: the fee is in neither.
pub credits-eq-debits :
    (b a k fee : ℕ) (bs as_ ks : List ℕ)
    → length bs ≡ length as_
    → length bs ≡ length ks
    → sum (b ∷ bs) ≡ sum (a ∷ as_) + fee
    → a ≢ b
    → total Direction.credit (parse_native_transfers_from_balances (b ∷ bs) (a ∷ as_) (k ∷ ks) fee)
      ≡ total Direction.debit (parse_native_transfers_from_balances (b ∷ bs) (a ∷ as_) (k ∷ ks) fee)
unfolding parse_native_transfers_from_balances sum
credits-eq-debits b a k fee bs as_ ks h g conserved paid = ground (
  arith,
  h,
  g,
  changes_balance bs as_ ks h g,
  transfer_balances k b (a + fee),
  total-append Direction.credit (transfer_of k b (a + fee)) (changes bs as_ ks),
  total-append Direction.debit (transfer_of k b (a + fee)) (changes bs as_ ks),
)
