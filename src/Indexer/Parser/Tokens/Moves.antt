-- ===== src/Indexer/Parser/Tokens/Moves.antt =====
-- The transfer that is read when a token of a mint goes from one owner to another.
use traitkeeper_eco.Base.{
  ℕ, ◌≡◌, ◌≢◌, refl, ◌∙◌, Bool, true, false, ◌&&◌, ◌||◌, Option, none, some, List, [], ◌∷◌, codes,
  ◌==◌, arith, Bool-cases, inl, inr, if◌then◌else◌,
}
use traitkeeper_eco.Indexer.Parser.Tokens.{
  Floats, TokenBalance, MintChange, TokenTransfer, balance, changed, put_change, note_change,
  mint_changes, transfer_of, transfers_of, parse_token_transfers_from_balances,
}

-- What is relied on in floats that are finite, as IEEE 754 has it: the difference of two of them is
-- zero only when they are equal, and otherwise has the sign of their order, `is_below`; no amount is
-- below 0. Nothing is said of how the difference is rounded.
pub record AreFloats {F D : Type 0} (fl : Floats F D) : Type 0 where
  pub is_below : F → F → Bool
  pub minus_self : (a : F) → fl.is_zero (fl.minus a a) ≡ true
  pub minus_less :
      (a b : F)
      → is_below b a ≡ true
      → (fl.is_zero (fl.minus a b) ≡ false) × (fl.is_positive (fl.minus a b) ≡ true)
  pub minus_more :
      (a b : F)
      → is_below a b ≡ true
      → (fl.is_zero (fl.minus a b) ≡ false) × (fl.is_positive (fl.minus a b) ≡ false)
  pub not_below_zero : (a : F) → is_below a (fl.float (codes "0")) ≡ false

unfoldable pub has_key : ℕ → ℕ → List (ℕ × ℕ) → Bool
has_key m k [] = false
has_key m k ((n, j) ∷ keys) = let rest = has_key m k keys in (n == m && j == k) || rest

module _ {F D : Type 0} (fl : Floats F D) where
  unfoldable pub change_of : ℕ → List (MintChange D) → Option (MintChange D)
  change_of m [] = none
  change_of m (c ∷ cs) = let rest = change_of m cs in if c.mint == m then some c else rest

  abbrev or_empty : ℕ → Option (MintChange D) → MintChange D
  or_empty m none = record { mint = m; sender = none; receiver = none }
  or_empty m (some c) = c

  change_of-put_change :
      (m k : ℕ) (d : D) (cs : List (MintChange D))
      → change_of m (put_change fl m k d cs) ≡ some (changed fl k d (or_empty m (change_of m cs)))
  unfolding change_of put_change
  change_of-put_change m k d [] = ground arith
  change_of-put_change m k d (c ∷ cs) = ground (arith, change_of-put_change m k d cs)

  other_change :
      (m n k : ℕ) (d : D) (cs : List (MintChange D))
      → n ≢ m
      → change_of m (put_change fl n k d cs) ≡ change_of m cs
  unfolding change_of put_change
  other_change m n k d [] other = ground (arith, other)
  other_change m n k d (c ∷ cs) other = ground (arith, other, other_change m n k d cs other)

  -- The entry of the mint, when the key of the sender or that of the receiver was gone through.
  abbrev expected : ℕ → ℕ → ℕ → D → Bool → Bool → Option (MintChange D)
  expected m sender receiver amount s r =
      if s || r
      then some (record {
        mint = m;
        sender = if s then some sender else none;
        receiver = if r then some (receiver, amount) else none;
      })
      else none

  step_keeps_expected :
      (m sender receiver n k : ℕ) (amount d : D) (s r : Bool) (cs : List (MintChange D))
      → sender ≢ receiver
      → (n ≡ m → k ≡ sender → (fl.is_zero d ≡ false) × (fl.is_positive d ≡ false))
      → (n ≡ m → k ≡ receiver → (fl.is_zero d ≡ false) × (fl.is_positive d ≡ true) × (d ≡ amount))
      → (n ≡ m → k ≢ sender → k ≢ receiver → fl.is_zero d ≡ true)
      → change_of m cs ≡ expected m sender receiver amount s r
      → change_of m (note_change fl n k d cs)
        ≡ expected m sender receiver amount
            (s || n == m && k == sender)
            (r || n == m && k == receiver)
  unfolding note_change
  step_keeps_expected m sender receiver n k amount d s r cs apart at_s at_r others h =
      elim (Bool-cases (n == m)) [
        | inr other ↦ ground (arith, other, h, other_change m n k d cs)
        | inl same ↦ ground (
          arith,
          same,
          apart,
          at_s (ground (arith, same)),
          at_r (ground (arith, same)),
          others (ground (arith, same)),
          h,
          change_of-put_change m k d cs,
        )
      ]

  or_assoc :
      (m sender receiver : ℕ) (amount : D) (s r a b x y : Bool)
      → expected m sender receiver amount ((s || a) || x) ((r || b) || y)
        ≡ expected m sender receiver amount (s || (a || x)) (r || (b || y))
  or_assoc m sender receiver amount s r a b x y = ground arith

  seen :
      (m sender receiver : ℕ) (amount : D) (x y : Bool)
      → x ≡ true
      → y ≡ true
      → expected m sender receiver amount (false || x) (false || y)
        ≡ some (record { mint = m; sender = some sender; receiver = some (receiver, amount) })
  seen m sender receiver amount x y a b = ground (arith, a, b)

  -- The float of one owner's balance rises and that of another's falls; that of no other's changes.
  pub record IsMove (laws : AreFloats fl) (m sender receiver : ℕ) (pre post : List TokenBalance)
      : Type 0 where
    pub gain : laws.is_below (balance fl m receiver pre) (balance fl m receiver post) ≡ true
    pub loss : laws.is_below (balance fl m sender post) (balance fl m sender pre) ≡ true
    pub apart : sender ≢ receiver
    pub others : (k : ℕ) → k ≢ sender → k ≢ receiver → balance fl m k pre ≡ balance fl m k post

  -- The change of an owner's balance.
  abbrev pub difference : ℕ → ℕ → List TokenBalance → List TokenBalance → D
  difference m k pre post = fl.minus (balance fl m k post) (balance fl m k pre)

  unfoldable pub transfer_in : ℕ → List (TokenTransfer D) → Option (TokenTransfer D)
  transfer_in m [] = none
  transfer_in m (t ∷ ts) = let rest = transfer_in m ts in if t.mint == m then some t else rest

  -- A complete entry becomes the transfer of its mint.
  transfer_of_change :
      (post : List TokenBalance) (m s r : ℕ) (amount : D) (cs : List (MintChange D))
      → change_of m cs ≡ some (record { mint = m; sender = some s; receiver = some (r, amount) })
      → transfer_in m (transfers_of fl post cs) ≡ some (transfer_of fl post m s r amount)
  unfolding change_of transfer_in transfers_of
  transfer_of_change post m s r amount [] h = ground (arith, h)
  transfer_of_change post m s r amount (c ∷ cs) h =
      ground (arith, h, transfer_of_change post m s r amount cs)

  start :
      (m sender receiver : ℕ) (amount : D)
      → change_of m [] ≡ expected m sender receiver amount false false
  unfolding change_of
  start m sender receiver amount = refl

module _ {F D : Type 0} (fl : Floats F D) (laws : AreFloats fl) where
  no_loss : (m k : ℕ) (a : F) → laws.is_below a (balance fl m k []) ≡ true → ⊥
  unfolding balance
  no_loss m k a h = ground (arith, h, laws.not_below_zero a)

  module _ (m sender receiver : ℕ) (pre post : List TokenBalance)
      (move : IsMove fl laws m sender receiver pre post) where
    at_sender :
        (n k : ℕ)
        → n ≡ m
        → k ≡ sender
        → (fl.is_zero (difference fl n k pre post) ≡ false)
          × (fl.is_positive (difference fl n k pre post) ≡ false)
    at_sender n k e f = ground (
      arith,
      e,
      f,
      laws.minus_more (balance fl m sender post) (balance fl m sender pre) move.loss,
    )

    at_receiver :
        (n k : ℕ)
        → n ≡ m
        → k ≡ receiver
        → (fl.is_zero (difference fl n k pre post) ≡ false)
          × (fl.is_positive (difference fl n k pre post) ≡ true)
          × (difference fl n k pre post ≡ difference fl m receiver pre post)
    at_receiver n k e f = ground (
      arith,
      e,
      f,
      laws.minus_less (balance fl m receiver post) (balance fl m receiver pre) move.gain,
    )

    at_others :
        (n k : ℕ)
        → n ≡ m
        → k ≢ sender
        → k ≢ receiver
        → fl.is_zero (difference fl n k pre post) ≡ true
    at_others n k e f g =
        ground (arith, e, move.others k f g, laws.minus_self (balance fl m k post))

    keys_keep_expected :
        (keys : List (ℕ × ℕ)) (s r : Bool) (cs : List (MintChange D))
        → change_of fl m cs ≡ expected fl m sender receiver (difference fl m receiver pre post) s r
        → change_of fl m (mint_changes fl pre post keys cs)
          ≡ expected fl m sender receiver
              (difference fl m receiver pre post)
              (s || has_key m sender keys)
              (r || has_key m receiver keys)
    unfolding mint_changes has_key
    keys_keep_expected [] s r cs h = ground (arith, h)
    keys_keep_expected ((n, k) ∷ keys) s r cs h =
        keys_keep_expected keys (s || n == m && k == sender) (r || n == m && k == receiver)
          (note_change fl n k (difference fl n k pre post) cs)
          (step_keeps_expected fl m sender receiver n k (difference fl m receiver pre post)
            (difference fl n k pre post) s r cs move.apart (at_sender n k) (at_receiver n k)
            (at_others n k) h)
        ∙ or_assoc fl m sender receiver (difference fl m receiver pre post) s r
            (n == m && k == sender) (n == m && k == receiver) (has_key m sender keys)
            (has_key m receiver keys)

  -- When the float of one owner's balance of a mint falls, that of another's rises and that of no
  -- other's changes, the transfer that is read for the mint goes from the one owner to the other,
  -- with the difference of the second owner's floats as its amount, in whatever order the keys are
  -- gone through that has both.
  pub moved_token_is_transferred :
      (m sender receiver : ℕ) (pre post : List TokenBalance) (keys : List (ℕ × ℕ))
      → IsMove fl laws m sender receiver pre post
      → has_key m sender keys ≡ true
      → has_key m receiver keys ≡ true
      → transfer_in fl m (parse_token_transfers_from_balances fl pre post keys)
        ≡ some (transfer_of fl post m sender receiver (difference fl m receiver pre post))
  unfolding parse_token_transfers_from_balances
  moved_token_is_transferred m sender receiver [] post keys move a b =
      absurd (no_loss m sender _ move.loss)
  moved_token_is_transferred m sender receiver (x ∷ pre) [] keys move a b =
      absurd (no_loss m receiver _ move.gain)
  moved_token_is_transferred m sender receiver (x ∷ pre) (y ∷ post) keys move a b =
      transfer_of_change fl (y ∷ post) m sender receiver _ _ (
        keys_keep_expected m sender receiver (x ∷ pre) (y ∷ post) move keys false false []
          (start fl m sender receiver (difference fl m receiver (x ∷ pre) (y ∷ post)))
        ∙ seen fl m sender receiver _ _ _ a b)
