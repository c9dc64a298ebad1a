-- ===== src/Venear/Lockup.antt =====
-- Lockup contracts as the veNEAR contract sees them (venear-contract/src/lockup.rs and
-- common/src/lockup_update.rs). The id of an owner's lockup account is made by sha256 and is a
-- parameter; so is the hash of stored code, which comes with the code.
use house_of_stake_contracts.Base.{
  leb, ltb, ◌==◌, if◌then◌else◌, is_some, contains, Result, ok, ◌>>=◌, ◌>>◌, require, expect,
  u64_max, checked, u128_mul, checked_sub, ℕ, ◌+◌, ◌-◌, ◌*◌, ◌%◌, ◌^◌, Bool, false, Option, none,
  some, List, [], ◌∷◌, permission_denied, code_not_found, invalid_nonce, not_enough_gas,
  invalid_code_hash, not_registered, account_not_found, insufficient_deposit,
  invalid_lockup_version, no_lockup_code,
}
use house_of_stake_contracts.Venear.Contract.{
  Contract, Env, LockupCode, OnLockupDeployedArgs, AccountInternal, Promise, assert_not_paused,
  assert_private, pays, refunds, deploys, LockupInitArgs,
}
use house_of_stake_contracts.Common.Balance.{
  VenearBalance, pooled_sub_delegation, pooled_add_delegation, pooled_sub, pooled_add,
}
use house_of_stake_contracts.Common.Account.{AccountId, VAccount, DelegationEntry}
use house_of_stake_contracts.Merkle.{CryptoHash, same_hash}
use house_of_stake_contracts.Common.Token.{near_sub, near_add}
use house_of_stake_contracts.Venear.Accounts.{
  internal_get_account_internal, internal_expect_account_updated, internal_global_state_updated,
  internal_set_account_internal, get_lockup_deployment_cost, internal_set_account,
  internal_set_global_state,
}
use house_of_stake_contracts.Venear.Delegations.{change_pool}

pub record LockupUpdateV1 : Type 0 where
  pub locked_near_balance : ℕ
  pub timestamp : ℕ
  pub lockup_update_nonce : ℕ

pub data VLockupUpdate : Type 0 where
  update_v1 : LockupUpdateV1 → VLockupUpdate

-- `Option` equality with a version.
abbrev pub is_version : Option ℕ → ℕ → Bool
is_version none version = false
is_version (some deployed) version = deployed == version

-- 35 Tgas
abbrev pub min_internal_deploy_lockup_gas : ℕ
min_internal_deploy_lockup_gas = 35_000_000_000_000

-- The balance after an update: a decrease of the locked NEAR drops the extra veNEAR.
unfoldable pub rebalanced : VenearBalance → AccountInternal → LockupUpdateV1 → Result VenearBalance
rebalanced old internal update = do
  old_locked ← near_sub old.near_balance internal.deposit
  near ← near_add update.locked_near_balance internal.deposit
  ok (record {
    near_balance = near;
    extra_venear_balance =
        if ltb update.locked_near_balance old_locked then 0 else old.extra_venear_balance;
  })

module _ (hash_value : VAccount → CryptoHash)
    (hash_pair : CryptoHash → CryptoHash → CryptoHash) where
  -- The loop of `internal_lockup_update`: each delegate's pool moves to the new balance.
  unfoldable pub redelegate_all :
      Env → VenearBalance → VenearBalance → List DelegationEntry → Contract → Result Contract
  redelegate_all env old new [] c = ok c
  redelegate_all env old new (d ∷ ds) c = do
    e ←
        change_pool hash_value hash_pair env d.account_id
          (λ pool.
            pooled_sub_delegation pool old d.bps >>= λ rest. pooled_add_delegation rest new d.bps)
          c
    redelegate_all env old new ds e

  unfoldable pub internal_lockup_update :
      Env → AccountId → AccountInternal → LockupUpdateV1 → Contract → Result Contract
  internal_lockup_update env a internal update c = do
    require (ltb internal.lockup_update_nonce update.lockup_update_nonce) invalid_nonce
    account ← internal_expect_account_updated env c a
    g ← internal_global_state_updated env c
    balance ← rebalanced account.balance internal update
    without ← pooled_sub g.total_venear_balance account.balance
    supply ← pooled_add without balance
    d ← redelegate_all env account.balance balance account.delegations c
    let e =
        internal_set_account_internal a
          (record internal { lockup_update_nonce = update.lockup_update_nonce }) d
    f ← internal_set_account hash_value hash_pair env a (record account { balance = balance }) e
    ok (internal_set_global_state env (record g { total_venear_balance = supply }) f)

  module _ (get_lockup_account_id : AccountId → AccountId) where
    unfoldable pub on_lockup_update :
        Env → Contract → ℕ → AccountId → VLockupUpdate → Result Contract
    on_lockup_update env c version owner (update_v1 update) = do
      require (env.predecessor_account_id == get_lockup_account_id owner) permission_denied
      internal ← expect (internal_get_account_internal c owner) account_not_found
      require (is_version internal.lockup_version version) invalid_lockup_version
      internal_lockup_update env owner internal update c

module _ (get_lockup_account_id : AccountId → AccountId) where
  unfoldable pub on_lockup_deployed :
      Env → Contract → OnLockupDeployedArgs → Result (Contract × List Promise × Option AccountId)
  on_lockup_deployed env c args = do
    assert_private env
    if env.promise_succeeded
        then (do
          internal ← expect (internal_get_account_internal c args.account_id) account_not_found
          require (leb internal.lockup_update_nonce args.lockup_update_nonce) invalid_nonce
          let deployed = record internal {
            lockup_version = some args.version;
            lockup_update_nonce = args.lockup_update_nonce;
          }
          ok (
            internal_set_account_internal args.account_id deployed c,
            [],
            some (get_lockup_account_id args.account_id),
          ))
        else ok (c, pays args.account_id args.lockup_deposit ∷ [], none)

  unfoldable pub internal_deploy_lockup :
      Env → Contract → AccountId → Result (Contract × List Promise)
  internal_deploy_lockup env c owner = do
    require (leb min_internal_deploy_lockup_gas env.remaining_gas) not_enough_gas
    require (is_some (internal_get_account_internal c owner)) not_registered
    require (leb (get_lockup_deployment_cost c) env.attached_deposit) insufficient_deposit
    lockup ← expect c.config.lockup_contract_config no_lockup_code
    code ← expect (c.lockup_code lockup.contract_hash) code_not_found
    nonce ← checked u64_max (env.block_height * 1_000_000)
    let init : LockupInitArgs = record {
      version = lockup.contract_version;
      owner_account_id = owner;
      venear_account_id = env.current_account_id;
      unlock_duration_ns = c.config.unlock_duration_ns;
      staking_pool_whitelist_account_id = c.config.staking_pool_whitelist_account_id;
      lockup_update_nonce = nonce;
      min_lockup_deposit = c.config.min_lockup_deposit;
    }
    let callback : OnLockupDeployedArgs = record {
      version = lockup.contract_version;
      account_id = owner;
      lockup_update_nonce = nonce;
      lockup_deposit = env.attached_deposit;
    }
    ok (c, deploys (get_lockup_account_id owner) code init callback ∷ [])

  unfoldable pub deploy_lockup : Env → Contract → Result (Contract × List Promise)
  deploy_lockup env c = do
    assert_not_paused c
    internal_deploy_lockup env c env.predecessor_account_id

-- `internal_set_lockup`. The size is cut to 32 bits.
unfoldable pub internal_set_lockup : CryptoHash → Contract → Result Contract
internal_set_lockup contract_hash c = do
  code ← expect (c.lockup_code contract_hash) code_not_found
  require (same_hash code.hash contract_hash) invalid_code_hash
  version ←
      checked u64_max
        (elim c.config.lockup_contract_config [ none ↦ 0 | some l ↦ l.contract_version ] + 1)
  ok (record c {
    config = record (c.config) {
      lockup_contract_config = some (record {
        contract_size = code.size % 2 ^ 32;
        contract_version = version;
        contract_hash = contract_hash;
      });
    };
  })

-- `prepare_lockup_code`, with the code that the input holds.
unfoldable pub prepare_lockup_code : Env → Contract → LockupCode → Result (Contract × List Promise)
prepare_lockup_code env c code = do
  assert_not_paused c
  require (contains c.config.lockup_code_deployers env.predecessor_account_id) permission_denied
  grown_by ← checked_sub env.storage_after env.storage_before
  cost ← u128_mul env.storage_byte_cost grown_by
  require (leb cost env.attached_deposit) insufficient_deposit
  ok (
    record c { lockup_code = λ h. if same_hash h code.hash then some code else c.lockup_code h },
    refunds env.predecessor_account_id (env.attached_deposit - cost),
  )
