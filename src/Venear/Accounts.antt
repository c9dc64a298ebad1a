-- ===== src/Venear/Accounts.antt =====
-- Accounts of the veNEAR contract, their registration and the global state
-- (venear-contract/src/account.rs, storage.rs, global_state.rs).
use house_of_stake_contracts.Merkle.Tree
use house_of_stake_contracts.Common.Balance
use mathlib.Core.Option.{map}
use house_of_stake_contracts.Base.{
  ltb, if◌then◌else◌, is_some, Result, ok, panic, ◌>>=◌, ◌>>◌, require, expect, u32_max, ℕ, zero,
  suc, ◌+◌, ◌-◌, min, not, Option, none, some, List, [], ◌∷◌, not_supported, unwrap_or,
  not_registered, unwrap_none, already_registered, snapshot_unavailable, account_not_found,
  insufficient_deposit,
}
use house_of_stake_contracts.Common.Account
use house_of_stake_contracts.Common.GlobalState
use house_of_stake_contracts.Venear.Contract.{
  Contract, Env, growth_config, AccountInternal, Promise, current, assert_not_paused, internal_of,
  refunds,
}
use house_of_stake_contracts.Merkle.{MerkleTreeSnapshot, CryptoHash, MerkleProof}
use house_of_stake_contracts.Common.Account.{Account, VAccount, AccountId, owned_total}
use house_of_stake_contracts.Common.GlobalState.{GlobalState, VGlobalState}
use house_of_stake_contracts.Merkle.Tree.{set_global_state, insert, set_value}
use house_of_stake_contracts.Common.Token.{truncate_to_seconds}
use house_of_stake_contracts.Common.Balance.{pooled_add, from_near, zero_balance}

unfoldable pub internal_get_account_internal : Contract → AccountId → Option AccountInternal
internal_get_account_internal c a = map internal_of (c.accounts a)

-- `internal_set_account_internal`, without the old value that it returns.
unfoldable pub internal_set_account_internal : AccountId → AccountInternal → Contract → Contract
internal_set_account_internal a internal c = record c {
  accounts = insert c.accounts a (current internal);
}

unfoldable pub internal_get_account : Contract → AccountId → Option Account
internal_get_account c a = map Account.of_versioned (Tree.get c.tree a)

unfoldable pub internal_expect_account_updated : Env → Contract → AccountId → Result Account
internal_expect_account_updated env c a = do
  account ← expect (internal_get_account c a) not_registered
  Account.update account env.block_timestamp (growth_config c)

-- `unwrap_or_default` of the owned total.
unfoldable pub owned_total_or_zero : Option Account → Result ℕ
owned_total_or_zero none = ok 0
owned_total_or_zero (some account) = owned_total account

unfoldable pub internal_global_state_updated : Env → Contract → Result GlobalState
internal_global_state_updated env c =
    GlobalState.update (GlobalState.of_versioned c.tree.global_state) env.block_timestamp

unfoldable pub internal_set_global_state : Env → GlobalState → Contract → Contract
internal_set_global_state env g c = record c {
  tree = set_global_state env.block_height (GlobalState.v0 g) c.tree;
}

abbrev pub min_storage_balance : Contract → ℕ
min_storage_balance c = c.config.local_deposit

-- `StorageBalance`
pub record StorageBalance : Type 0 where
  pub total : ℕ
  pub available : ℕ

-- `internal_storage_balance_of`
unfoldable pub storage_balance_of : Contract → AccountId → Option StorageBalance
storage_balance_of c a =
    if is_some (c.accounts a)
    then some (record { total = min_storage_balance c; available = 0 })
    else none

-- `StorageBalanceBounds`
pub record StorageBalanceBounds : Type 0 where
  pub min_balance : ℕ
  pub max_balance : Option ℕ

unfoldable pub storage_balance_bounds : Contract → StorageBalanceBounds
storage_balance_bounds c = record {
  min_balance = c.config.local_deposit;
  max_balance = some c.config.local_deposit;
}

abbrev pub get_lockup_deployment_cost : Contract → ℕ
get_lockup_deployment_cost c = c.config.min_lockup_deposit

unfoldable pub storage_withdraw : Result Contract
storage_withdraw = panic not_supported

-- `ft_balance_of`
unfoldable pub ft_balance_of : Env → Contract → AccountId → Result ℕ
ft_balance_of env c a = elim (internal_get_account c a) [
  | none ↦ ok 0
  | some account ↦ Account.total_balance account env.block_timestamp (growth_config c)
]

-- `ft_total_supply`
unfoldable pub ft_total_supply : Env → Contract → Result ℕ
ft_total_supply env c = do
  g ← internal_global_state_updated env c
  Balance.total g.total_venear_balance

unfoldable pub ft_transfer : Result Contract
ft_transfer = panic not_supported

-- `AccountInfo`
pub record AccountInfo : Type 0 where
  pub account : Account
  pub internal : AccountInternal

unfoldable pub get_account_info : Env → Contract → AccountId → Result (Option AccountInfo)
get_account_info env c a = elim (internal_get_account_internal c a) [
  | none ↦ ok none
  | some internal ↦ do
    account ← internal_expect_account_updated env c a
    ok (some (record { account = account; internal = internal }))
]

unfoldable pub get_account_by_index : Env → Contract → ℕ → Result (Option AccountInfo)
get_account_by_index env c index = elim (c.tree.data_at index) [
  | none ↦ ok none
  | some stored ↦ do
    account ← Account.update (Account.of_versioned stored) env.block_timestamp (growth_config c)
    internal ← expect (internal_get_account_internal c account.account_id) unwrap_none
    ok (some (record { account = account; internal = internal }))
]

-- The accounts that are found among the next ones by index.
unfoldable pub accounts_from : Env → Contract → ℕ → ℕ → Result (List AccountInfo)
accounts_from env c from_index zero = ok []
accounts_from env c from_index (suc count) = do
  found ← get_account_by_index env c from_index
  rest ← accounts_from env c (suc from_index) count
  ok (elim found [ none ↦ rest | some info ↦ info ∷ rest ])

-- `get_accounts`
unfoldable pub get_accounts : Env → Contract → Option ℕ → Option ℕ → Result (List AccountInfo)
get_accounts env c from_index limit =
    let start = unwrap_or 0 from_index in
    let count = unwrap_or u32_max limit in
    let end = min (min (start + count) u32_max) c.tree.leaves in
    accounts_from env c start (end - start)

-- `get_snapshot`
unfoldable pub get_snapshot : Env → Contract → Result (MerkleTreeSnapshot × VGlobalState)
get_snapshot env c = do
  assert_not_paused c
  expect (Tree.get_snapshot env.block_height c.tree) snapshot_unavailable

-- `get_proof`
unfoldable pub get_proof : Contract → AccountId → Result (MerkleProof × VAccount)
get_proof c a = do
  assert_not_paused c
  found ← Tree.get_proof c.tree a
  expect found account_not_found

module _ (hash_value : VAccount → CryptoHash)
    (hash_pair : CryptoHash → CryptoHash → CryptoHash) where
  -- `internal_set_account`. The owned totals before and after are only compared and logged, but
  -- computing them can panic.
  unfoldable pub internal_set_account : Env → AccountId → Account → Contract → Result Contract
  internal_set_account env a account c = do
    old_balance ← owned_total_or_zero (internal_get_account c a)
    new_balance ← owned_total account
    tree ← set_value hash_value hash_pair env.block_height a (Account.v1 account) c.tree
    ok (record c { tree = tree })

  abbrev pub fresh_internal : ℕ → AccountInternal
  fresh_internal deposit = record {
    lockup_version = none;
    deposit = deposit;
    lockup_update_nonce = 0;
  }

  abbrev pub fresh_account : Env → AccountId → ℕ → Account
  fresh_account env a deposit = record {
    account_id = a;
    update_timestamp = truncate_to_seconds env.block_timestamp;
    balance = from_near deposit;
    delegated_balance = zero_balance;
    delegations = [];
  }

  unfoldable pub internal_register_account : Env → AccountId → ℕ → Contract → Result Contract
  internal_register_account env a deposit c = do
    require (not (is_some (c.accounts a))) already_registered
    let d = internal_set_account_internal a (fresh_internal deposit) c
    g ← internal_global_state_updated env d
    supply ← pooled_add g.total_venear_balance (from_near deposit)
    e ← internal_set_account env a (fresh_account env a deposit) d
    ok (internal_set_global_state env (record g { total_venear_balance = supply }) e)

  -- `storage_deposit`
  unfoldable pub storage_deposit :
      Env → Contract → Option AccountId → Result (Contract × List Promise × StorageBalance)
  storage_deposit env c account_id = do
    assert_not_paused c
    let a = unwrap_or env.predecessor_account_id account_id
    (d, promises) ←
        if is_some (internal_get_account_internal c a)
        then ok (c, refunds env.predecessor_account_id env.attached_deposit)
        else do
          require (not (ltb env.attached_deposit (min_storage_balance c))) insufficient_deposit
          d ← internal_register_account env a (min_storage_balance c) c
          ok (d, refunds env.predecessor_account_id (env.attached_deposit - min_storage_balance c))
    balance ← expect (storage_balance_of d a) unwrap_none
    ok (d, promises, balance)
