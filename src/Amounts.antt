-- ===== src/Amounts.antt =====
-- Amounts of SOL, on their way from a call to a column. A call has a `Decimal`, counted in 10^-13 SOL
-- (marketplace/services.py); a column `DecimalField(max_digits=20, decimal_places=9)` of
-- marketplace/models.py and nft_data/models.py has lamports, 10^-9 SOL, since PostgreSQL rounds to
-- its decimals, half away from zero, and refuses what is too large for its digits.
use traitkeeper_eco.Base.{
  ℕ, ◌+◌, ◌*◌, ◌/◌, ℤ, pos, negsuc, sub_ℕ, pos_part, neg_part, ◌<ℤ◌, ◌≤ℤ◌, leb, arith,
}
use traitkeeper_eco.Schema.{data_error}
use traitkeeper_eco.Outcome.{Outcome, fail_if}

-- An amount of lamports in the unit of the calls.
abbrev pub scaled : ℤ → ℤ
scaled (pos n) = pos (10_000 * n)
scaled (negsuc n) = negsuc (10_000 * n + 9_999)

-- What a column makes of an amount.
unfoldable pub to_column : ℤ → ℤ
to_column (pos n) = pos ((n + 5_000) / 10_000)
to_column (negsuc n) = sub_ℕ 0 ((n + 5_001) / 10_000)

-- 10^20 lamports.
abbrev column_limit : ℕ
column_limit = 100_000_000_000_000_000_000

-- The `DataError` of a column that an amount does not fit.
unfoldable pub column_errors : ℤ → Outcome Unit
unfolding to_column
column_errors p =
    fail_if (leb column_limit (pos_part (to_column p) + neg_part (to_column p))) data_error

-- `int(amount * 1_000_000_000)`, towards zero.
unfoldable pub to_lamports : ℤ → ℤ
to_lamports (pos n) = pos (n / 10_000)
to_lamports (negsuc n) = sub_ℕ 0 ((n + 1) / 10_000)

-- A positive amount may become zero.
pub to_column_pos : (p : ℤ) → pos 0 <ℤ p → pos 0 ≤ℤ to_column p
unfolding to_column
to_column_pos (pos n) h = ground arith
to_column_pos (negsuc n) h = ground (arith, h)

-- An amount above one of lamports may become equal to it.
pub to_column_above : (m p : ℤ) → scaled m <ℤ p → m ≤ℤ to_column p
unfolding to_column
to_column_above (pos m) (pos n) h = ground (arith, h)
to_column_above (pos m) (negsuc n) h = ground (arith, h)
to_column_above (negsuc m) (pos n) h = ground (arith, h)
to_column_above (negsuc m) (negsuc n) h = ground (arith, h)
