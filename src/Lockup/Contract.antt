-- ===== src/Lockup/Contract.antt =====
-- The state of a lockup contract, its environment, getters and internal checks
-- (lockup-contract/src/lib.rs, types.rs, internal.rs, getters.rs, transfer.rs). An entry point returns
-- the new state and the promises that it creates.
use house_of_stake_contracts.Base.{
  leb, ◌==◌, is_some, Result, ok, ◌>>=◌, ◌>>◌, require, expect, u128_add, ℕ, ◌-◌, Bool, true, false,
  not, Option, none, some, pool_already_selected, not_one_yocto, private_method, is_some_id, busy,
  not_owner, pool_not_selected, insufficient_balance, not_selected_pool,
}
use house_of_stake_contracts.Venear.Lockup.{LockupUpdateV1}
use house_of_stake_contracts.Common.Account.{AccountId}

pub data TransactionStatus : Type 0 where
  idle is_busy : TransactionStatus

pub record StakingInformation : Type 0 where
  pub staking_pool_account_id : AccountId
  pub status : TransactionStatus
  pub deposit_amount : ℕ

pub record LockupContract : Type 0 where
  pub owner_account_id : AccountId
  pub venear_account_id : AccountId
  pub staking_pool_whitelist_account_id : AccountId
  pub staking_information : Option StakingInformation
  pub unlock_duration_ns : ℕ
  pub venear_locked_balance : ℕ
  pub venear_unlock_timestamp : ℕ
  pub venear_pending_balance : ℕ
  pub lockup_update_nonce : ℕ
  pub version : ℕ
  pub min_lockup_deposit : ℕ

-- What the runtime tells a call. The account balance is the one without what is staked.
pub record Env : Type 0 where
  pub predecessor_account_id : AccountId
  pub current_account_id : AccountId
  pub block_timestamp : ℕ
  pub attached_deposit : ℕ
  pub account_balance : ℕ
  pub promise_succeeded : Bool

-- The methods of a staking pool that are called (`ExtStakingPool`), each with its own callback.
pub data PoolCall : Type 0 where
  deposits deposits_and_stakes withdraws stakes unstakes : (amount : ℕ) → PoolCall
  unstakes_all gets_total_balance gets_unstaked_balance : PoolCall

-- The promises that the entry points create.
pub data Promise : Type 0 where
  -- `on_lockup_update` of the veNEAR contract.
  updates_venear :
      (venear : AccountId) (version : ℕ) (owner : AccountId) (update : LockupUpdateV1) → Promise
  -- `is_whitelisted` of the whitelist, then `on_whitelist_is_whitelisted`.
  checks_whitelist : (whitelist : AccountId) (pool : AccountId) → Promise
  -- A method of the staking pool, then the callback for it.
  calls_pool : (pool : AccountId) (call : PoolCall) → Promise
  transfers : (receiver : AccountId) (amount : ℕ) → Promise
  deletes_account : (beneficiary : AccountId) → Promise

-- `LockupContract::new`
unfoldable pub new : Env → AccountId → AccountId → ℕ → AccountId → ℕ → ℕ → ℕ → Result LockupContract
new env owner venear unlock_duration_ns whitelist version nonce min_lockup_deposit = do
  require (leb min_lockup_deposit env.account_balance) insufficient_balance
  ok (record {
    owner_account_id = owner;
    venear_account_id = venear;
    staking_pool_whitelist_account_id = whitelist;
    staking_information = none;
    unlock_duration_ns = unlock_duration_ns;
    venear_locked_balance = 0;
    venear_unlock_timestamp = 0;
    venear_pending_balance = 0;
    lockup_update_nonce = nonce;
    version = version;
    min_lockup_deposit = min_lockup_deposit;
  })

abbrev pub assert_owner : Env → LockupContract → Result (Unit {0})
assert_owner env c = require (env.predecessor_account_id == c.owner_account_id) not_owner

abbrev pub assert_one_yocto : Env → Result (Unit {0})
assert_one_yocto env = require (env.attached_deposit == 1) not_one_yocto

-- The check that `#[private]` adds.
abbrev pub assert_private : Env → Result (Unit {0})
assert_private env = require (env.predecessor_account_id == env.current_account_id) private_method

abbrev pub is_idle : TransactionStatus → Bool
is_idle idle = true
is_idle is_busy = false

-- `get_account_balance`: without what is kept for storage.
abbrev pub get_account_balance : Env → LockupContract → ℕ
get_account_balance env c = env.account_balance - c.min_lockup_deposit

unfoldable pub set_staking_pool_status : TransactionStatus → LockupContract → Result LockupContract
set_staking_pool_status status c = do
  info ← expect c.staking_information pool_not_selected
  ok (record c { staking_information = some (record info { status = status }) })

unfoldable pub assert_no_staking_or_idle : LockupContract → Result (Unit {0})
assert_no_staking_or_idle c = elim c.staking_information [
  | none ↦ ok tt
  | some info ↦ require (is_idle info.status) busy
]

-- `assert_staking_pool_is_idle`, with the information that its callers unwrap.
unfoldable pub idle_pool : LockupContract → Result StakingInformation
idle_pool c = do
  info ← expect c.staking_information pool_not_selected
  require (is_idle info.status) busy
  ok info

abbrev pub assert_staking_pool_is_not_selected : LockupContract → Result (Unit {0})
assert_staking_pool_is_not_selected c =
    require (not (is_some c.staking_information)) pool_already_selected

unfoldable pub get_staking_pool_account_id : LockupContract → Option AccountId
get_staking_pool_account_id c = elim c.staking_information [
  | none ↦ none
  | some info ↦ some info.staking_pool_account_id
]

abbrev pub deposited : Option StakingInformation → ℕ
deposited none = 0
deposited (some info) = info.deposit_amount

abbrev pub get_known_deposited_balance : LockupContract → ℕ
get_known_deposited_balance c = deposited c.staking_information

-- `get_balance`
unfoldable pub get_balance : Env → LockupContract → Result ℕ
get_balance env c = u128_add env.account_balance (get_known_deposited_balance c)

-- `ft_on_transfer`: the selected pool's tokens are all kept.
unfoldable pub ft_on_transfer : Env → LockupContract → Result ℕ
ft_on_transfer env c = do
  require (is_some_id (get_staking_pool_account_id c) env.predecessor_account_id) not_selected_pool
  ok 0
