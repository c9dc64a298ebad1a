-- ===== src/Common/Growth.antt =====
-- The growth of veNEAR (common/src/venear.rs and the fractions of common/src/types.rs).
-- Products are taken in 384 bits, where three 128-bit factors always fit.
use house_of_stake_contracts.Base.{
  ℕ, ◌-◌, ◌*◌, ◌/◌, ◌%◌, ◌==◌, leb, if◌then◌else◌, Result, ok, ◌>>◌, require, checked, u128_max,
  not, division_by_zero, rounding_error, timestamp_order, timestamp_not_truncated,
}
use house_of_stake_contracts.Common.Token.{truncate_to_seconds, truncate_near_to_millis}

pub record Fraction : Type 0 where
  pub numerator : ℕ
  pub denominator : ℕ

pub data VenearGrowthConfig : Type 0 where
  fixed_rate : Fraction → VenearGrowthConfig

-- `Fraction::u384_mul`: the product must divide exactly.
unfoldable pub u384_mul : Fraction → ℕ → ℕ → Result ℕ
u384_mul f a b = do
  require (not (f.denominator == 0)) division_by_zero
  require (f.numerator * a * b % f.denominator == 0) rounding_error
  checked u128_max (f.numerator * a * b / f.denominator)

-- `VenearGrowthConfig::calculate`
unfoldable pub calculate : VenearGrowthConfig → ℕ → ℕ → ℕ → Result ℕ
unfolding u384_mul
calculate (fixed_rate rate) previous current balance = do
  require (leb previous current) timestamp_order
  require (current == truncate_to_seconds current) timestamp_not_truncated
  require (previous == truncate_to_seconds previous) timestamp_not_truncated
  if previous == current
      then ok 0
      else u384_mul rate (current - previous) (truncate_near_to_millis balance)
