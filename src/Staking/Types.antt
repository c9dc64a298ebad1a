-- ===== src/Staking/Types.antt =====
-- The state of the staking contract, as far as the pools are concerned
-- (staking-contract/src/lib.rs, types.rs, config.rs), and its checks (validators.rs, governance.rs,
-- pause.rs).
use house_of_stake_contracts.Base.{
  ◌==◌, if◌then◌else◌, contains, Result, ◌>>◌, require, ℕ, ◌-◌, Bool, not, ◌&&◌, ◌||◌, Option, List,
  not_one_yocto, u128_saturating_add, private_method, paused, only_owner, only_guardian,
}
use house_of_stake_contracts.Common.Account.{AccountId}

pub data ValidatorStatus : Type 0 where
  active paused_status removed : ValidatorStatus

pub data TransactionStatus : Type 0 where
  idle is_busy : TransactionStatus

pub record Validator : Type 0 where
  pub validator_id : AccountId
  pub catalog_manager_account_ids : List AccountId
  pub status : ValidatorStatus
  pub total_shares : ℕ
  pub total_staked_balance : ℕ
  pub last_balance_refresh_ns : ℕ
  pub pending_to_stake : ℕ
  pub pending_to_unstake : ℕ
  pub last_unstake_epoch : ℕ
  pub last_settlement_epoch : ℕ
  pub pending_to_withdraw : ℕ
  pub pending_to_claim : ℕ
  pub tx_status : TransactionStatus

unfoldable pub pending_user_liability_yocto : Validator → ℕ
pending_user_liability_yocto v =
    u128_saturating_add (u128_saturating_add v.pending_to_unstake v.pending_to_withdraw)
      v.pending_to_claim

unfoldable pub pending_not_in_contract_yocto : Validator → ℕ
pending_not_in_contract_yocto v = u128_saturating_add v.pending_to_unstake v.pending_to_withdraw

unfoldable pub gross_stake_yocto : Validator → ℕ
gross_stake_yocto v = u128_saturating_add v.total_staked_balance v.pending_to_stake

unfoldable pub net_stake_yocto : Validator → ℕ
net_stake_yocto v = gross_stake_yocto v - pending_not_in_contract_yocto v

pub record PendingUnstakeTranche : Type 0 where
  pub amount : ℕ
  pub available_epoch_height : ℕ

-- What a staking pool's `get_account` answers.
pub record PoolAccountView : Type 0 where
  pub unstaked_balance : ℕ
  pub staked_balance : ℕ
  pub can_withdraw : Bool

unfoldable pub total_balance : PoolAccountView → ℕ
total_balance p = u128_saturating_add p.unstaked_balance p.staked_balance

pub record Config : Type 0 where
  pub owner_account_id : AccountId
  pub proposed_new_owner_account_id : Option AccountId
  pub guardians : List AccountId
  pub min_lock_duration_ns : ℕ
  pub max_lock_duration_ns : ℕ
  pub epoch_unstake_settle_epochs : ℕ
  pub min_storage_deposit : ℕ
  pub per_lock_storage_stake : ℕ
  pub per_farm_position_storage_stake : ℕ
  pub per_purchase_storage_stake : ℕ
  pub min_lock_amount : ℕ

-- The part of the contract's state that the pools use.
pub record Contract : Type 0 where
  pub config : Config
  pub is_paused : Bool
  pub validators : AccountId → Option Validator
  pub validator_ids : List AccountId
  pub user_validator_shares : AccountId → AccountId → Option ℕ
  pub user_pending_unstake : AccountId → AccountId → Option (List PendingUnstakeTranche)
  pub user_pending_unstake_validator_count : AccountId → Option ℕ

pub record Env : Type 0 where
  pub predecessor_account_id : AccountId
  pub current_account_id : AccountId
  pub block_timestamp : ℕ
  pub epoch_height : ℕ
  pub attached_deposit : ℕ
  pub account_balance : ℕ
  pub promise_succeeded : Bool

-- The entry of a map with two keys is written, or removed.
abbrev pub put {ℓ} :
    {A : Type ℓ}
    → (AccountId → AccountId → Option A)
    → AccountId
    → AccountId
    → Option A
    → AccountId
    → AccountId
    → Option A
put m a v o b w = if (b == a) && (w == v) then o else m b w

abbrev pub assert_one_yocto : Env → Result (Unit {0})
assert_one_yocto env = require (env.attached_deposit == 1) not_one_yocto

abbrev pub assert_private : Env → Result (Unit {0})
assert_private env = require (env.predecessor_account_id == env.current_account_id) private_method

abbrev pub assert_not_paused : Contract → Result (Unit {0})
assert_not_paused c = require (not c.is_paused) paused

abbrev pub assert_owner : Env → Contract → Result (Unit {0})
assert_owner env c = require (env.predecessor_account_id == c.config.owner_account_id) only_owner

abbrev pub assert_owner_payable : Env → Contract → Result (Unit {0})
assert_owner_payable env c = assert_one_yocto env >> assert_owner env c

abbrev pub assert_guardian : Env → Contract → Result (Unit {0})
assert_guardian env c =
    require
      (contains c.config.guardians env.predecessor_account_id
        || (env.predecessor_account_id == c.config.owner_account_id))
      only_guardian
