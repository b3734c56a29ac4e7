-- ===== src/Indexer/Parser/Prices.antt =====
-- The price that is read from the transfers of SOL.
use traitkeeper_eco.Base.{
  ℕ, ◌≤◌, ◌<◌, ◌≡◌, ap, ◌∙◌, Bool, true, false, ◌&&◌, ◌||◌, List, [], ◌∷◌, ltb, ◌==◌, All, arith,
  Bool-cases, ◌⊎◌, inl, inr,
}
use traitkeeper_eco.Indexer.Parser.Native.{
  NativeTransfer, Direction, largest, goes, same_direction, significant_amount,
  extract_price_from_native_transfers,
}

-- Some transfer passes the test and has the amount.
unfoldable pub has_amount : (NativeTransfer → Bool) → ℕ → List NativeTransfer → Bool
has_amount p n [] = false
has_amount p n (t ∷ ts) = let rest = has_amount p n ts in (p t && t.amount == n) || rest

largest_is_there :
    (p : NativeTransfer → Bool) (ts : List NativeTransfer)
    → 0 < largest p ts
    → has_amount p (largest p ts) ts ≡ true
unfolding largest has_amount
largest_is_there p [] h = ground (arith, h)
largest_is_there p (t ∷ ts) h = ground (arith, h, largest_is_there p ts)

large_ones_are_bounded :
    (p : NativeTransfer → Bool) (n : ℕ) (ts : List NativeTransfer)
    → (largest p ts ≤ n) ⊎ (largest p ts ≤ significant_amount)
    → All (λ t. p t ≡ true → significant_amount < t.amount → t.amount ≤ n) ts
unfolding largest
large_ones_are_bounded p n [] h = tt
large_ones_are_bounded p n (t ∷ ts) h = (
  λ passes large. ground (arith, h, passes, large),
  large_ones_are_bounded p n ts (ground (arith, h)),
)

weaker_test :
    (p : NativeTransfer → Bool) (n : ℕ) (ts : List NativeTransfer)
    → has_amount p n ts ≡ true
    → has_amount (λ t. true) n ts ≡ true
unfolding has_amount
weaker_test p n [] h = ground (arith, h)
weaker_test p n (t ∷ ts) h = ground (arith, h, weaker_test p n ts)

significant_is_there :
    (p : NativeTransfer → Bool) (ts : List NativeTransfer)
    → significant_amount < largest p ts
    → has_amount (λ t. true) (largest p ts) ts ≡ true
significant_is_there p ts h =
    weaker_test p (largest p ts) ts (largest_is_there p ts (ground (arith, h)))

small_transfers :
    (ts : List NativeTransfer)
    → largest (λ t. true) ts ≤ significant_amount
    → All (λ t. t.amount ≤ significant_amount) ts
unfolding largest
small_transfers [] h = tt
small_transfers (t ∷ ts) h = (ground (arith, h), small_transfers ts (ground (arith, h)))

-- The price is the largest transfer that passes a test, and it is significant.
chosen :
    (p : NativeTransfer → Bool) (ts : List NativeTransfer) (price : ℕ)
    → price ≡ largest p ts
    → significant_amount < largest p ts
    → (significant_amount < price) × (has_amount (λ t. true) price ts ≡ true)
chosen p ts price same h = (
  omega (arith, same, h),
  ap (λ n. has_amount (λ t. true) n ts) same ∙ significant_is_there p ts h,
)

price_is_there :
    (ts : List NativeTransfer) (buyer seller : ℕ)
    → ((extract_price_from_native_transfers ts buyer seller).0 ≡ 0
        × All (λ t. t.amount ≤ significant_amount) ts)
      ⊎ (significant_amount < (extract_price_from_native_transfers ts buyer seller).0
          × has_amount (λ t. true) (extract_price_from_native_transfers ts buyer seller).0 ts
            ≡ true)
unfolding extract_price_from_native_transfers
price_is_there ts buyer seller =
    elim (Bool-cases (ltb significant_amount (largest (goes seller Direction.credit) ts))) [
      | inl a ↦
          inr (chosen (goes seller Direction.credit) ts _ (ground (arith, a)) (ground (arith, a)))
      | inr a ↦
          elim (Bool-cases (ltb significant_amount (largest (goes buyer Direction.debit) ts))) [
            | inl b ↦ inr (
                chosen (goes buyer Direction.debit) ts _ (ground (arith, a, b)) (ground (arith, b)))
            | inr b ↦
                elim (Bool-cases (
                  ltb significant_amount
                    (largest (λ t. same_direction t.direction Direction.credit) ts))) [
                      | inl c ↦ inr (
                          chosen (λ t. same_direction t.direction Direction.credit) ts _
                            (ground (arith, a, b, c)) (ground (arith, c)))
                      | inr c ↦
                          elim (Bool-cases (ltb significant_amount (largest (λ t. true) ts))) [
                            | inl d ↦ inr (
                                chosen (λ t. true) ts _ (ground (arith, a, b, c, d))
                                  (ground (arith, d)))
                            | inr d ↦
                                inl (
                                  ground (arith, a, b, c, d),
                                  small_transfers ts (ground (arith, d)),
                                )
                          ]
                    ]
          ]
    ]

seller_credit_bound :
    (ts : List NativeTransfer) (buyer seller : ℕ)
    → (largest (goes seller Direction.credit) ts
        ≤ (extract_price_from_native_transfers ts buyer seller).0)
      ⊎ (largest (goes seller Direction.credit) ts ≤ significant_amount)
unfolding extract_price_from_native_transfers
seller_credit_bound ts buyer seller =
    elim (Bool-cases (ltb significant_amount (largest (goes seller Direction.credit) ts))) [
      | inl a ↦ inl (ground (arith, a))
      | inr a ↦ inr (ground (arith, a))
    ]

-- The price is zero when no transfer is above 0.005 SOL, and else the amount of one that is; and no
-- credit of the seller above 0.005 SOL is above the price.
pub price_is_significant_transfer :
    (ts : List NativeTransfer) (buyer seller : ℕ)
    → (((extract_price_from_native_transfers ts buyer seller).0 ≡ 0
          × All (λ t. t.amount ≤ significant_amount) ts)
        ⊎ (significant_amount < (extract_price_from_native_transfers ts buyer seller).0
            × has_amount (λ t. true) (extract_price_from_native_transfers ts buyer seller).0 ts
              ≡ true))
      × All
          (λ t.
            goes seller Direction.credit t ≡ true
            → significant_amount < t.amount
            → t.amount ≤ (extract_price_from_native_transfers ts buyer seller).0)
          ts
price_is_significant_transfer ts buyer seller = (
  price_is_there ts buyer seller,
  large_ones_are_bounded (goes seller Direction.credit) _ ts (seller_credit_bound ts buyer seller),
)
