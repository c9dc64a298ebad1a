-- ===== src/Common/Balance.antt =====
-- Balances of NEAR and veNEAR, alone and pooled (common/src/types.rs).
pub mod Growing
pub mod Delegation
use house_of_stake_contracts.Base.{
  ◌==◌, if◌then◌else◌, Result, ok, ◌>>=◌, ◌>>◌, u128_max, checked, ℕ, ◌*◌, ◌/◌,
}
use house_of_stake_contracts.Common.Token.{near_add, near_sub, truncate_near_to_millis, bps_mul}
use house_of_stake_contracts.Common.Growth.{VenearGrowthConfig, calculate}

pub record VenearBalance : Type 0 where
  pub near_balance : ℕ
  pub extra_venear_balance : ℕ

-- `VenearBalance::default`
abbrev pub zero_balance : VenearBalance
zero_balance = record { near_balance = 0; extra_venear_balance = 0 }

unfoldable pub total : VenearBalance → Result ℕ
total b = near_add b.near_balance b.extra_venear_balance

unfoldable pub update : VenearBalance → ℕ → ℕ → VenearGrowthConfig → Result VenearBalance
update b previous current config = do
  growth ← calculate config previous current b.near_balance
  extra ← near_add b.extra_venear_balance growth
  ok (record b { extra_venear_balance = extra })

abbrev pub from_near : ℕ → VenearBalance
from_near near = record { near_balance = near; extra_venear_balance = 0 }

-- `VenearBalance::delegation_contribution`. The product is taken in 256 bits, where it always fits.
unfoldable pub delegation_contribution : VenearBalance → ℕ → Result VenearBalance
delegation_contribution b bps =
    if truncate_near_to_millis b.near_balance == 0 then ok zero_balance else do
      share ← bps_mul bps b.near_balance
      let near = truncate_near_to_millis share
      extra ←
          checked u128_max (b.extra_venear_balance * near / truncate_near_to_millis b.near_balance)
      ok (record { near_balance = near; extra_venear_balance = extra })

-- `Add` and `Sub` on balances.
unfoldable pub add : VenearBalance → VenearBalance → Result VenearBalance
add a b = do
  near ← near_add a.near_balance b.near_balance
  extra ← near_add a.extra_venear_balance b.extra_venear_balance
  ok (record { near_balance = near; extra_venear_balance = extra })

unfoldable pub sub : VenearBalance → VenearBalance → Result VenearBalance
sub a b = do
  near ← near_sub a.near_balance b.near_balance
  extra ← near_sub a.extra_venear_balance b.extra_venear_balance
  ok (record { near_balance = near; extra_venear_balance = extra })

-- `PooledVenearBalance` is a balance that only the pooled operations below change, so its total and
-- its growth are those of the balance.
abbrev pub PooledVenearBalance : Type 0
PooledVenearBalance = VenearBalance

-- The sub-milliNEAR remainder of the NEAR goes to the extra veNEAR.
unfoldable pub pooled_add : PooledVenearBalance → VenearBalance → Result PooledVenearBalance
pooled_add pool other = do
  let truncated = truncate_near_to_millis other.near_balance
  difference ← near_sub other.near_balance truncated
  near ← near_add pool.near_balance truncated
  extra ← near_add pool.extra_venear_balance (← near_add other.extra_venear_balance difference)
  ok (record { near_balance = near; extra_venear_balance = extra })

unfoldable pub pooled_sub : PooledVenearBalance → VenearBalance → Result PooledVenearBalance
pooled_sub pool other = do
  let truncated = truncate_near_to_millis other.near_balance
  difference ← near_sub other.near_balance truncated
  near ← near_sub pool.near_balance truncated
  extra ← near_sub pool.extra_venear_balance (← near_add other.extra_venear_balance difference)
  ok (record { near_balance = near; extra_venear_balance = extra })

unfoldable pub pooled_add_delegation :
    PooledVenearBalance → VenearBalance → ℕ → Result PooledVenearBalance
unfolding add
pooled_add_delegation pool other bps = do add pool (← delegation_contribution other bps)

unfoldable pub pooled_sub_delegation :
    PooledVenearBalance → VenearBalance → ℕ → Result PooledVenearBalance
unfolding sub
pooled_sub_delegation pool other bps = do sub pool (← delegation_contribution other bps)
