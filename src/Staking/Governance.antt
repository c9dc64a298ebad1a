-- ===== src/Staking/Governance.antt =====
-- The owner, the guardians and the settings (staking-contract/src/governance.rs, pause.rs, config.rs).
use house_of_stake_contracts.Base.{
  leb, Result, ok, ◌>>=◌, ◌>>◌, require, ℕ, true, false, Option, none, List, [],
  min_lock_amount_low, lock_bounds_order, is_some_id, only_proposed_owner,
}
use house_of_stake_contracts.Common.Account.{AccountId}
use house_of_stake_contracts.Staking.Types.{
  Env, Config, Contract, assert_owner_payable, assert_one_yocto, assert_owner, assert_guardian,
}

abbrev pub protocol_min_lock_amount_yocto : ℕ
protocol_min_lock_amount_yocto = 1_000_000_000_000_000_000_000_000

abbrev pub require_min_lock_amount_at_protocol_floor : ℕ → Result (Unit {0})
require_min_lock_amount_at_protocol_floor amount =
    require (leb protocol_min_lock_amount_yocto amount) min_lock_amount_low

-- `Contract::new`
unfoldable pub new : Config → Result Contract
new config = do
  require_min_lock_amount_at_protocol_floor config.min_lock_amount
  ok (record {
    config = config;
    is_paused = false;
    validators = λ id. none;
    validator_ids = [];
    user_validator_shares = λ account id. none;
    user_pending_unstake = λ account id. none;
    user_pending_unstake_validator_count = λ account. none;
  })

pub data Setting : Type 0 where
  proposed_new_owner_account_id : Option AccountId → Setting
  guardians : List AccountId → Setting
  per_lock_storage_stake per_farm_position_storage_stake per_purchase_storage_stake : ℕ → Setting
  lock_bounds : (min_lock_duration_ns max_lock_duration_ns : ℕ) → Setting
  min_lock_amount min_storage_deposit epoch_unstake_settle_epochs : ℕ → Setting

-- The body of the method that sets it.
unfoldable pub with_setting : Config → Setting → Result Config
with_setting k (proposed_new_owner_account_id o) =
    ok (record k { proposed_new_owner_account_id = o })
with_setting k (guardians gs) = ok (record k { guardians = gs })
with_setting k (per_lock_storage_stake n) = ok (record k { per_lock_storage_stake = n })
with_setting k (per_farm_position_storage_stake n) =
    ok (record k { per_farm_position_storage_stake = n })
with_setting k (per_purchase_storage_stake n) = ok (record k { per_purchase_storage_stake = n })
with_setting k (lock_bounds lowest highest) = do
  require (leb lowest highest) lock_bounds_order
  ok (record k { min_lock_duration_ns = lowest; max_lock_duration_ns = highest })
with_setting k (min_lock_amount n) = do
  require_min_lock_amount_at_protocol_floor n
  ok (record k { min_lock_amount = n })
with_setting k (min_storage_deposit n) = ok (record k { min_storage_deposit = n })
with_setting k (epoch_unstake_settle_epochs n) = ok (record k { epoch_unstake_settle_epochs = n })

unfoldable pub owner_sets : Env → Contract → Setting → Result Contract
owner_sets env c setting = do
  assert_owner_payable env c
  k ← with_setting c.config setting
  ok (record c { config = k })

unfoldable pub accept_ownership : Env → Contract → Result Contract
accept_ownership env c = do
  assert_one_yocto env
  require (is_some_id c.config.proposed_new_owner_account_id env.predecessor_account_id)
      only_proposed_owner
  let k : Config = record c.config {
    owner_account_id = env.predecessor_account_id;
    proposed_new_owner_account_id = none;
  }
  ok (record c { config = k })

unfoldable pub pause : Env → Contract → Result Contract
pause env c = do assert_one_yocto env; assert_guardian env c; ok (record c { is_paused = true })

unfoldable pub unpause : Env → Contract → Result Contract
unpause env c = do assert_one_yocto env; assert_owner env c; ok (record c { is_paused = false })
