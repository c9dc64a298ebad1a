-- ===== src/Staking/Validators.antt =====
-- Validators, and the shares of the users in them (staking-contract/src/validators.rs,
-- accounts.rs: the tranches of unstaked NEAR).
use house_of_stake_contracts.Base.{
  leb, ltb, ◌==◌, if◌then◌else◌, is_some, length, Result, ok, ◌>>=◌, ◌>>◌, require, expect, u32_add,
  u128_add, ℕ, ◌-◌, max, Bool, true, false, not, ◌&&◌, ◌||◌, none, some, List, [], ◌∷◌, ◌++◌,
  validator_not_found, validator_busy, u64_saturating_add, zero_shares, unwrap_or,
  validator_not_busy, shares_exceed_pool, no_effective_stake, validator_exists, validator_not_empty,
  shares_exceed_account, validator_limit, u128_saturating_add,
}
use house_of_stake_contracts.Common.Account.{AccountId}
use house_of_stake_contracts.Staking.Types.{
  is_busy, Contract, TransactionStatus, PendingUnstakeTranche, Env, Validator, net_stake_yocto, put,
  assert_one_yocto, assert_owner, paused_status, removed, active, idle,
}
use house_of_stake_contracts.Merkle.Tree.{insert}
use house_of_stake_contracts.Staking.Shares.{near_from_shares, mint_shares}

abbrev pub max_validators : ℕ
max_validators = 1_000

abbrev pub internal_set_validator : AccountId → Validator → Contract → Contract
internal_set_validator id v c = record c { validators = insert c.validators id v }

abbrev pub require_validator : Contract → AccountId → Result Validator
require_validator c id = expect (c.validators id) validator_not_found

abbrev pub is_idle : TransactionStatus → Bool
is_idle idle = true
is_idle is_busy = false

unfoldable pub require_validator_idle : Contract → AccountId → Result Validator
require_validator_idle c id = do
  v ← require_validator c id
  require (is_idle v.tx_status) validator_busy
  ok v

unfoldable pub require_validator_busy : Contract → AccountId → Result Validator
require_validator_busy c id = do
  v ← require_validator c id
  require (not (is_idle v.tx_status)) validator_not_busy
  ok v

unfoldable pub validator_unstake_waiting_finished : Env → Contract → Validator → Bool
validator_unstake_waiting_finished env c v =
    ltb 0 v.last_unstake_epoch
    && leb (u64_saturating_add v.last_unstake_epoch c.config.epoch_unstake_settle_epochs)
        env.epoch_height

unfoldable pub pending_unstake_tranche_available_epoch_height : Env → Contract → Validator → ℕ
pending_unstake_tranche_available_epoch_height env c v =
    let settle = c.config.epoch_unstake_settle_epochs in
    u64_saturating_add
      (max (u64_saturating_add env.epoch_height 1) (u64_saturating_add v.last_unstake_epoch settle))
      settle

abbrev pub shares_of : Contract → AccountId → AccountId → ℕ
shares_of c account id = unwrap_or 0 (c.user_validator_shares account id)

abbrev pub tranches_of : Contract → AccountId → AccountId → List PendingUnstakeTranche
tranches_of c account id = unwrap_or [] (c.user_pending_unstake account id)

abbrev pub has_any : List PendingUnstakeTranche → Bool
has_any [] = false
has_any (t ∷ ts) = true

unfoldable pub increment_pending_unstake_validator_count : AccountId → Contract → Result Contract
increment_pending_unstake_validator_count account c = do
  next ← u32_add (unwrap_or 0 (c.user_pending_unstake_validator_count account)) 1
  ok (record c {
    user_pending_unstake_validator_count =
        insert c.user_pending_unstake_validator_count account next;
  })

unfoldable pub decrement_pending_unstake_validator_count : AccountId → Contract → Contract
decrement_pending_unstake_validator_count account c =
    let count = unwrap_or 0 (c.user_pending_unstake_validator_count account) in
    let left = if leb count 1 then none else some (count - 1) in
    record c {
      user_pending_unstake_validator_count =
          λ a. if a == account then left else c.user_pending_unstake_validator_count a;
    }

-- Whether the account had tranches at the validator, and whether it has now.
unfoldable pub count_validators : Bool → Bool → AccountId → Contract → Result Contract
count_validators false true account c = increment_pending_unstake_validator_count account c
count_validators true false account c = ok (decrement_pending_unstake_validator_count account c)
count_validators true true account c = ok c
count_validators false false account c = ok c

unfoldable pub set_user_pending_unstake_tranches :
    AccountId → AccountId → List PendingUnstakeTranche → Contract → Result Contract
set_user_pending_unstake_tranches account id ts c =
    count_validators (has_any (tranches_of c account id)) (has_any ts) account (record c {
      user_pending_unstake =
          put c.user_pending_unstake account id (if has_any ts then some ts else none);
    })

-- The new shares are returned.
unfoldable pub internal_stake : Contract → AccountId → AccountId → ℕ → Result (Contract × ℕ)
internal_stake c buyer id deposit = do
  v ← require_validator c id
  let net = net_stake_yocto v
  require (leb v.total_shares 0 || ltb 0 net) no_effective_stake
  new_shares ← mint_shares v.total_shares net deposit
  pending ← u128_add v.pending_to_stake deposit
  let bought = u128_saturating_add (shares_of c buyer id) new_shares
  let d : Contract = record c {
    user_validator_shares = put c.user_validator_shares buyer id (some bought);
  }
  ok (
    internal_set_validator id
        (record v {
          total_shares = u128_saturating_add v.total_shares new_shares;
          pending_to_stake = pending;
        })
        d,
    new_shares,
  )

-- The NEAR that the shares are worth is returned.
unfoldable pub internal_unstake : Env → Contract → AccountId → AccountId → ℕ → Result (Contract × ℕ)
internal_unstake env c account id shares_remove = do
  require (ltb 0 shares_remove) zero_shares
  v ← require_validator c id
  require (ltb 0 v.total_shares && leb shares_remove v.total_shares) shares_exceed_pool
  let net = net_stake_yocto v
  require (ltb 0 net) no_effective_stake
  near ← near_from_shares shares_remove net v.total_shares
  pending ← u128_add v.pending_to_unstake near
  let held = shares_of c account id
  require (leb shares_remove held) shares_exceed_account
  let left = if held == shares_remove then none else some (held - shares_remove)
  let w : Validator = record v {
    total_shares = v.total_shares - shares_remove;
    pending_to_unstake = pending;
  }
  let tranche : PendingUnstakeTranche = record {
    amount = near;
    available_epoch_height = pending_unstake_tranche_available_epoch_height env c w;
  }
  d ←
      set_user_pending_unstake_tranches account id (tranches_of c account id ++ tranche ∷ [])
        (record c { user_validator_shares = put c.user_validator_shares account id left })
  ok (internal_set_validator id w d, near)

unfoldable pub add_validator : Env → Contract → AccountId → Result Contract
add_validator env c id = do
  assert_one_yocto env
  assert_owner env c
  require (not (is_some (c.validators id))) validator_exists
  require (ltb (length c.validator_ids) max_validators) validator_limit
  let v : Validator = record {
    validator_id = id;
    catalog_manager_account_ids = [];
    status = active;
    total_shares = 0;
    total_staked_balance = 0;
    last_balance_refresh_ns = env.block_timestamp;
    pending_to_stake = 0;
    pending_to_unstake = 0;
    last_unstake_epoch = 0;
    last_settlement_epoch = 0;
    pending_to_withdraw = 0;
    pending_to_claim = 0;
    tx_status = idle;
  }
  ok (record (internal_set_validator id v c) { validator_ids = c.validator_ids ++ id ∷ [] })

unfoldable pub pause_validator : Env → Contract → AccountId → Result Contract
pause_validator env c id = do
  assert_one_yocto env
  assert_owner env c
  v ← require_validator c id
  ok (internal_set_validator id (record v { status = paused_status }) c)

unfoldable pub remove_validator : Env → Contract → AccountId → Result Contract
remove_validator env c id = do
  assert_one_yocto env
  assert_owner env c
  v ← require_validator c id
  let nothing =
      (v.total_shares == 0)
      && (v.pending_to_stake == 0)
      && (v.pending_to_unstake == 0)
      && (v.pending_to_withdraw == 0)
      && (v.pending_to_claim == 0)
  require nothing validator_not_empty
  ok (internal_set_validator id (record v { status = removed }) c)
