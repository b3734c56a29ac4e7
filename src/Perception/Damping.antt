-- ===== src/Perception/Damping.antt =====
-- The adjustment of a score by the probability of manipulation.
use traitkeeper_eco.Base.{
  ℕ, ◌+◌, ◌-◌, ◌*◌, ◌≤◌, ◌≡◌, sym, ap, ◌∙◌, ℤ, pos, negsuc, ◌≤ℤ◌, Option, none, some, arith, ltb,
  Bool-cases, inl, inr,
}
use traitkeeper_eco.Perception.{Snapshot, million}
use traitkeeper_eco.Perception.Calls.{adjust, adjusted, damped}

-- The probability is missing, or at most one.
abbrev pub IsProbability : Option ℤ → Type 0
IsProbability none = Unit
IsProbability (some (pos m)) = m ≤ million
IsProbability (some (negsuc n)) = Unit

mul_le_million : (p m : ℕ) → m ≤ million → p * m ≤ p * million
mul_le_million p m h = grind arith

distribute : (p q m : ℕ) → (2 * p + q) * m ≡ 2 * (p * m) + q * m
distribute p q m = grind arith

-- The distance of a score to one half, `q` in twice the unit, shrinks by the damping.
parted : (p q m : ℕ) → 2 * p + q ≡ million → 2 * (p * m) + q * m ≡ million * m
parted p q m e = sym (distribute p q m) ∙ ap (λ x. x * m) e

-- A score of at most one half does not fall and stays below it.
damped_below :
    (p m : ℕ)
    → 2 * p ≤ million
    → m ≤ million
    → (pos (4 * (p * million)) ≤ℤ damped p m) × (damped p m ≤ℤ pos (2 * (million * million)))
damped_below p m hp hm = ground (
  arith,
  parted p (million - 2 * p) m (omega arith),
  mul_le_million (million - 2 * p) m hm,
  mul_le_million p m hm,
)

-- The distance of a score above one half.
excess : (p q m : ℕ) → 2 * p ≡ million + q → 2 * (p * m) ≡ million * m + q * m
excess p q m e = grind (arith, ap (λ x. x * m) e)

damped_above :
    (p m : ℕ)
    → million ≤ 2 * p
    → m ≤ million
    → (damped p m ≤ℤ pos (4 * (p * million))) × (pos (2 * (million * million)) ≤ℤ damped p m)
damped_above p m hp hm = ground (
  arith,
  excess p (2 * p - million) m (omega arith),
  mul_le_million (2 * p - million) m hm,
  mul_le_million p m hm,
)

abbrev IsPulled : ℕ → Option ℤ → Type 0
IsPulled p o =
    (2 * p ≤ million
      → (pos (4 * (p * million)) ≤ℤ adjust p o) × (adjust p o ≤ℤ pos (2 * (million * million))))
    × (million ≤ 2 * p
        → (adjust p o ≤ℤ pos (4 * (p * million))) × (pos (2 * (million * million)) ≤ℤ adjust p o))

adjust-IsPulled : (p : ℕ) (o : Option ℤ) → IsProbability o → IsPulled p o
unfolding adjust
adjust-IsPulled p none h = (λ low. ground arith, λ high. ground arith)
adjust-IsPulled p (some (negsuc n)) h = (λ low. ground arith, λ high. ground arith)
adjust-IsPulled p (some (pos m)) h = elim (Bool-cases (ltb 700_000 m)) [
  | inl much ↦ (
    λ low. ground (arith, much, damped_below p m low h),
    λ high. ground (arith, much, damped_above p m high h),
  )
  | inr little ↦ (λ low. ground (arith, little), λ high. ground (arith, little))
]

-- The score that is answered for a snapshot lies between the snapshot's own index and the neutral
-- one half, on the side of the index, when its probability of manipulation is missing or at most
-- one.
pub adjustment_pulls_to_neutral :
    (s : Snapshot)
    → IsProbability s.manipulation_probability
    → (2 * s.perception_index ≤ million
        → (pos (4 * (s.perception_index * million)) ≤ℤ adjusted s)
          × (adjusted s ≤ℤ pos (2 * (million * million))))
      × (million ≤ 2 * s.perception_index
          → (adjusted s ≤ℤ pos (4 * (s.perception_index * million)))
            × (pos (2 * (million * million)) ≤ℤ adjusted s))
unfolding adjusted
adjustment_pulls_to_neutral s h = adjust-IsPulled s.perception_index s.manipulation_probability h
