-- ===== src/Venear/Contract.antt =====
-- The state of the veNEAR contract, its environment and its access checks (venear-contract/src/lib.rs,
-- config.rs, account.rs, pause.rs and governance.rs). An entry point that creates promises returns
-- them beside the new state.
use house_of_stake_contracts.Merkle.Tree
use house_of_stake_contracts.Common.GlobalState
use house_of_stake_contracts.Base.{
  ltb, ◌==◌, if◌then◌else◌, contains, Result, ok, ◌>>◌, require, ℕ, Bool, false, not, ◌||◌, Option,
  none, List, [], ◌∷◌, only_owner, paused, private_method, only_guardian, not_one_yocto,
  wrong_denominator,
}
use house_of_stake_contracts.Common.Account.{AccountId, VAccount}
use house_of_stake_contracts.Merkle.Tree.{MerkleTree}
use house_of_stake_contracts.Common.Growth.{Fraction, VenearGrowthConfig, fixed_rate}
use house_of_stake_contracts.Merkle.{CryptoHash}
use house_of_stake_contracts.Common.GlobalState.{
  get_venear_growth_config, VGlobalState, new_global_state,
}

pub record LockupContractConfig : Type 0 where
  pub contract_size : ℕ
  pub contract_version : ℕ
  pub contract_hash : CryptoHash

pub record Config : Type 0 where
  pub lockup_contract_config : Option LockupContractConfig
  pub unlock_duration_ns : ℕ
  pub staking_pool_whitelist_account_id : AccountId
  pub lockup_code_deployers : List AccountId
  pub local_deposit : ℕ
  pub min_lockup_deposit : ℕ
  pub owner_account_id : AccountId
  pub guardians : List AccountId
  pub proposed_new_owner_account_id : Option AccountId
  pub max_delegations : ℕ

pub record AccountInternal : Type 0 where
  pub lockup_version : Option ℕ
  pub deposit : ℕ
  pub lockup_update_nonce : ℕ

pub data VAccountInternal : Type 0 where
  current : AccountInternal → VAccountInternal

-- `From<VAccountInternal> for AccountInternal`
abbrev pub internal_of : VAccountInternal → AccountInternal
internal_of (current a) = a

-- Stored lockup code: its length, and what sha256 makes of it.
pub record LockupCode : Type 0 where
  pub size : ℕ
  pub hash : CryptoHash

-- The code is in the contract's storage beside its state, under `StorageKeys::LockupCode`.
pub record Contract : Type 0 where
  pub tree : MerkleTree VAccount VGlobalState
  pub accounts : AccountId → Option VAccountInternal
  pub config : Config
  pub is_paused : Bool
  pub lockup_code : CryptoHash → Option LockupCode

-- What the runtime tells a call. The storage in use is read before and after the writes.
pub record Env : Type 0 where
  pub predecessor_account_id : AccountId
  pub current_account_id : AccountId
  pub block_timestamp : ℕ
  pub block_height : ℕ
  pub attached_deposit : ℕ
  pub storage_byte_cost : ℕ
  pub storage_before : ℕ
  pub storage_after : ℕ
  pub remaining_gas : ℕ
  pub promise_succeeded : Bool

-- `LockupInitArgs`
pub record LockupInitArgs : Type 0 where
  pub version : ℕ
  pub owner_account_id : AccountId
  pub venear_account_id : AccountId
  pub unlock_duration_ns : ℕ
  pub staking_pool_whitelist_account_id : AccountId
  pub lockup_update_nonce : ℕ
  pub min_lockup_deposit : ℕ

-- `OnLockupDeployedArgs`
pub record OnLockupDeployedArgs : Type 0 where
  pub version : ℕ
  pub account_id : AccountId
  pub lockup_update_nonce : ℕ
  pub lockup_deposit : ℕ

-- The promises that the entry points create.
pub data Promise : Type 0 where
  -- A transfer of tokens.
  pays : (receiver : AccountId) (amount : ℕ) → Promise
  -- Creates the lockup account with the code, calls its `new`, then calls `on_lockup_deployed`.
  deploys :
      (lockup : AccountId) (code : LockupCode) (init : LockupInitArgs)
      (callback : OnLockupDeployedArgs)
      → Promise

-- A transfer unless there is nothing to pay.
abbrev pub refunds : AccountId → ℕ → List Promise
refunds receiver amount = if ltb 0 amount then pays receiver amount ∷ [] else []

-- `10u128.pow(30)`
abbrev pub required_denominator : ℕ
required_denominator = 1_000_000_000_000_000_000_000_000_000_000

-- `Contract::new`
unfoldable pub new : Env → Config → Fraction → Result Contract
new env config annual_growth_rate_ns = do
  require (annual_growth_rate_ns.denominator == required_denominator) wrong_denominator
  ok (record {
    tree =
        Tree.new env.block_height (
          GlobalState.v0 (new_global_state env.block_timestamp (fixed_rate annual_growth_rate_ns)));
    accounts = λ a. none;
    config = config;
    is_paused = false;
    lockup_code = λ h. none;
  })

abbrev pub assert_one_yocto : Env → Result (Unit {0})
assert_one_yocto env = require (env.attached_deposit == 1) not_one_yocto

abbrev pub assert_not_paused : Contract → Result (Unit {0})
assert_not_paused c = require (not c.is_paused) paused

abbrev pub assert_owner : Env → Contract → Result (Unit {0})
assert_owner env c = require (env.predecessor_account_id == c.config.owner_account_id) only_owner

abbrev pub assert_guardian : Env → Contract → Result (Unit {0})
assert_guardian env c =
    require
      (contains c.config.guardians env.predecessor_account_id
        || env.predecessor_account_id == c.config.owner_account_id)
      only_guardian

-- The check that `#[private]` adds.
abbrev pub assert_private : Env → Result (Unit {0})
assert_private env = require (env.predecessor_account_id == env.current_account_id) private_method

-- `internal_get_venear_growth_config`
abbrev pub growth_config : Contract → VenearGrowthConfig
growth_config c = get_venear_growth_config c.tree.global_state
