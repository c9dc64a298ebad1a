-- ===== src/Staking/Shares.antt =====
-- The arithmetic of shares, prices and rewards (staking-contract/src/utils.rs, stake.rs). The products
-- of 256 bits always fit; what is taken back to 128 bits panics when it does not.
use house_of_stake_contracts.Base.{
  ◌>>=◌, ◌>>◌, ◌==◌, if◌then◌else◌, Result, ok, u128_max, checked, ℕ, ◌*◌, ◌/◌, ◌||◌, Bool, leb,
  require, ◌^◌, ltb, ◌-◌, division_by_zero, ◌%◌, u128_saturating_add, out_of_bounds, min, max,
}

abbrev pub lock_factor_denom : ℕ
lock_factor_denom = 1_000_000_000_000_000_000_000_000

abbrev pub ns_per_day : ℕ
ns_per_day = 86_400_000_000_000

-- 30.4375 days.
abbrev pub avg_month_ns : ℕ
avg_month_ns = ns_per_day * 487 / 16

unfoldable pub mint_shares : (total_shares effective_total deposit_yocto : ℕ) → Result ℕ
mint_shares total_shares effective_total deposit_yocto =
    if (total_shares == 0) || (effective_total == 0)
    then ok deposit_yocto
    else checked u128_max (deposit_yocto * total_shares / effective_total)

unfoldable pub near_from_shares : (shares effective_total total_shares : ℕ) → Result ℕ
near_from_shares shares effective_total total_shares =
    if total_shares == 0 then ok 0 else checked u128_max (shares * effective_total / total_shares)

-- `required_near_months` of a price.
unfoldable pub required_near_months : (price_amount lock_factor_near_months : ℕ) → ℕ
required_near_months price_amount lock_factor_near_months =
    price_amount * lock_factor_near_months / lock_factor_denom

unfoldable pub check_near_price_lock :
    (price_amount lock_factor_near_months locked_yocto duration_ns : ℕ) → Bool
check_near_price_lock price_amount lock_factor_near_months locked_yocto duration_ns =
    leb (required_near_months price_amount lock_factor_near_months * avg_month_ns)
      (locked_yocto * duration_ns)

unfoldable pub check_near_recurring_price_lock :
    (price_amount lock_factor_near_months locked_yocto : ℕ) → Bool
check_near_recurring_price_lock price_amount lock_factor_near_months locked_yocto =
    check_near_price_lock price_amount lock_factor_near_months locked_yocto avg_month_ns

abbrev pub farm_reward_rate_denom : ℕ
farm_reward_rate_denom = 1

abbrev pub farm_acc_reward_per_share_denom : ℕ
farm_acc_reward_per_share_denom = 1_000_000_000_000_000_000_000_000

abbrev pub yocto_per_near : ℕ
yocto_per_near = 1_000_000_000_000_000_000_000_000

abbrev pub ns_per_second : ℕ
ns_per_second = 1_000_000_000

-- Three factors can leave 256 bits.
unfoldable pub farm_delta_reward_units :
    (total_farm_near_yocto elapsed_ns reward_rate : ℕ) → Result ℕ
farm_delta_reward_units total_farm_near_yocto elapsed_ns reward_rate = do
  product ← checked (2 ^ 256 - 1) (total_farm_near_yocto * elapsed_ns * reward_rate)
  checked u128_max (product / yocto_per_near / ns_per_second / farm_reward_rate_denom)

unfoldable pub farm_position_accumulated : (shares acc_reward_per_share : ℕ) → Result ℕ
farm_position_accumulated shares acc_reward_per_share =
    checked u128_max (shares * acc_reward_per_share / farm_acc_reward_per_share_denom)

-- `clamp` panics when its bounds are in the wrong order.
unfoldable pub farm_shares_for_amount_ceil :
    (amount_yocto validator_total_shares net_stake_yocto max_shares : ℕ) → Result ℕ
farm_shares_for_amount_ceil amount_yocto validator_total_shares net_stake_yocto max_shares = do
  require (ltb 0 net_stake_yocto) division_by_zero
  let numerator = amount_yocto * validator_total_shares
  floor ← checked u128_max (numerator / net_stake_yocto)
  let shares = if numerator % net_stake_yocto == 0 then floor else u128_saturating_add floor 1
  require (leb 1 max_shares) out_of_bounds
  ok (min max_shares (max 1 shares))
