-- ===== src/Common/Examples.antt =====
-- The theorems about balances and their growth at concrete inputs.
use house_of_stake_contracts.Base.{
  Result, ok, panic, ◌>>=◌, require, expect, u128_max, checked, ℕ, ◌*◌, ◌≡◌, refl, arith,
}
use house_of_stake_contracts.Common.Token.{nanos_per_second, yocto_per_millinear, bps_mul}
use house_of_stake_contracts.Common.Growth.{Fraction, fixed_rate, calculate, u384_mul}
use house_of_stake_contracts.Common.Exact.{fine_grain, exact_growth, calculate-exact}
use house_of_stake_contracts.Common.Balance.{
  VenearBalance, zero_balance, update, pooled_add_delegation, pooled_sub_delegation,
  delegation_contribution, add,
}
use house_of_stake_contracts.Common.Balance.Growing.{update-update_balance}
use house_of_stake_contracts.Common.Balance.Delegation.{pooled_sub_delegation-after_growth}

-- The rate of the deployed contract, 6% in a year.
abbrev pub sample_rate : Fraction
sample_rate = record { numerator = 1_902_587_519_026; denominator = fine_grain }

abbrev pub day : ℕ
day = 86_400 * nanos_per_second

-- 4.1 NEAR, of which 2512 basis points are no whole number of milliNEAR.
abbrev sample_balance : VenearBalance
sample_balance = record {
  near_balance = 4_100 * yocto_per_millinear;
  extra_venear_balance = 50 * yocto_per_millinear;
}

calculate-exact_example :
    calculate (fixed_rate sample_rate) day (28 * day) sample_balance.near_balance
    ≡ checked u128_max (exact_growth sample_rate day (28 * day) sample_balance.near_balance)
calculate-exact_example =
    calculate-exact sample_rate day (28 * day) sample_balance.near_balance refl (omega arith) refl
      refl

update-update_balance_example :
    (update sample_balance 0 day (fixed_rate sample_rate) >>= λ c.
    update c day (28 * day) (fixed_rate sample_rate))
    ≡ update sample_balance 0 (28 * day) (fixed_rate sample_rate)
update-update_balance_example =
    update-update_balance sample_rate refl sample_balance 0 day (28 * day) (omega arith)
      (omega arith) refl refl refl

-- What a call returns, or the value given in its place.
abbrev returned {ℓ} : {A : Type ℓ} → A → Result A → A
returned a (ok b) = b
returned a (panic e) = a

abbrev credited : VenearBalance
credited = returned zero_balance (pooled_add_delegation zero_balance sample_balance 2_512)

abbrev grown_pool : VenearBalance
grown_pool = returned zero_balance (update credited 0 (27 * day) (fixed_rate sample_rate))

abbrev grown_owner : VenearBalance
grown_owner = returned zero_balance (update sample_balance 0 (27 * day) (fixed_rate sample_rate))

pooled_sub_delegation-after_growth_example :
    pooled_sub_delegation grown_pool grown_owner 2_512
    ≡ update zero_balance 0 (27 * day) (fixed_rate sample_rate)
unfolding pooled_add_delegation delegation_contribution bps_mul add update calculate u384_mul ◌>>=◌
    require expect
pooled_sub_delegation-after_growth_example =
    pooled_sub_delegation-after_growth sample_rate refl zero_balance credited grown_pool
      sample_balance grown_owner 2_512 0 (27 * day) (omega arith) refl refl refl refl refl refl
