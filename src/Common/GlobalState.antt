-- ===== src/Common/GlobalState.antt =====
-- The global state beside the Merkle tree (common/src/global_state.rs).
use house_of_stake_contracts.Base.{Result, ok, ◌>>=◌, ℕ}
use house_of_stake_contracts.Common.Token.{truncate_to_seconds}
use house_of_stake_contracts.Common.Growth.{VenearGrowthConfig}
use house_of_stake_contracts.Common.Balance
use house_of_stake_contracts.Common.Balance.{zero_balance, PooledVenearBalance}

pub record GlobalState : Type 0 where
  pub update_timestamp : ℕ
  pub total_venear_balance : PooledVenearBalance
  pub venear_growth_config : VenearGrowthConfig

-- `GlobalState::new`
unfoldable pub new_global_state : ℕ → VenearGrowthConfig → GlobalState
new_global_state timestamp config = record {
  update_timestamp = truncate_to_seconds timestamp;
  total_venear_balance = zero_balance;
  venear_growth_config = config;
}

unfoldable pub update : GlobalState → ℕ → Result GlobalState
update g timestamp = do
  let current = truncate_to_seconds timestamp
  pool ← Balance.update g.total_venear_balance g.update_timestamp current g.venear_growth_config
  ok (record g { total_venear_balance = pool; update_timestamp = current })

pub data VGlobalState : Type 0 where
  v0 : GlobalState → VGlobalState

-- `From<VGlobalState> for GlobalState`
abbrev pub of_versioned : VGlobalState → GlobalState
of_versioned (v0 g) = g

abbrev pub get_venear_growth_config : VGlobalState → VenearGrowthConfig
get_venear_growth_config (v0 g) = g.venear_growth_config
