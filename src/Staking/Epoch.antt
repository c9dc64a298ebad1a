-- ===== src/Staking/Epoch.antt =====
-- The settlement of a pool, once an epoch (staking-contract/src/epoch.rs): the pool's balance is
-- read, unstaked NEAR is fetched, and what waits to be staked and to be unstaked is settled against
-- each other. What follows on the settlement (a lock, an unlock, ...) is passed on as it is, with
-- the refund that it asks for when the settlement fails.
use house_of_stake_contracts.Base.{
  leb, ltb, ◌==◌, if◌then◌else◌, Result, ok, ◌>>=◌, ◌>>◌, require, u128_add, ℕ, ◌-◌, Bool, false,
  not, ◌&&◌, ◌||◌, Option, none, some, recorded_balance_low, not_net_unstake, unwrap_or,
  not_net_stake, u128_saturating_add,
}
use house_of_stake_contracts.Common.Account.{AccountId}
use house_of_stake_contracts.Staking.Types.{
  Contract, Env, assert_private, PoolAccountView, Validator, total_balance, is_busy, idle,
}
use house_of_stake_contracts.Staking.Validators.{
  require_validator, require_validator_busy, require_validator_idle, internal_set_validator,
  validator_unstake_waiting_finished,
}

-- What the pipeline does next. `UserAction` is any type of what the user has asked for.
pub data Next (UserAction : Type 0) : Type 0 where
  -- `get_account` of the pool, then `on_epoch_settlement_after_pool_account`.
  gets_account : UserAction → Next UserAction
  -- `withdraw` of the pool, then `on_epoch_withdraw_transfer_done` and
  -- `on_after_pool_withdraw_maybe_settle`.
  withdraws : (amount : ℕ) → UserAction → Next UserAction
  -- `deposit_and_stake` of the pool, then `on_deposit_and_stake` and the user's action.
  stakes : (amount : ℕ) → UserAction → Next UserAction
  -- `unstake` of the pool, then `on_unstake` and the user's action.
  unstakes : (amount : ℕ) → UserAction → Next UserAction
  -- `on_epoch_settlement_dispatch_continue`
  dispatches : UserAction → Next UserAction
  -- `on_epoch_pipeline_terminal_release`
  releases : Next UserAction
  transfers : (receiver : AccountId) (amount : ℕ) → Next UserAction

unfoldable pub mark_epoch_settlement_handled : Env → Contract → AccountId → Result Contract
mark_epoch_settlement_handled env c id = do
  v ← require_validator c id
  ok (internal_set_validator id (record v { last_settlement_epoch = env.epoch_height }) c)

unfoldable pub apply_net_zero_pending_matched_clear :
    Env → Contract → AccountId → ℕ → Result Contract
apply_net_zero_pending_matched_clear env c id matched = do
  v ← require_validator c id
  if not (v.pending_to_stake == matched) || not (v.pending_to_unstake == matched)
      then ok c
      else ok (
          internal_set_validator id
            (record v {
              pending_to_stake = 0;
              pending_to_unstake = 0;
              pending_to_claim =
                  if ltb 0 matched
                  then u128_saturating_add v.pending_to_claim matched
                  else v.pending_to_claim;
              last_settlement_epoch = env.epoch_height;
            })
            c)

unfoldable pub release_validator_pool_pipeline : Contract → AccountId → Result Contract
release_validator_pool_pipeline c id = do
  v ← require_validator c id
  ok (internal_set_validator id (record v { tx_status = idle }) c)

module _ {UserAction : Type 0} where
  -- `promise_validator_per_epoch_settlement_then`
  unfoldable pub start_settlement :
      Env → Contract → AccountId → UserAction → Result (Contract × Next UserAction)
  start_settlement env c id cont = do
    v ← require_validator_idle c id
    let d : Contract = internal_set_validator id (record v { tx_status = is_busy }) c
    ok (
      d,
      if ltb v.last_settlement_epoch env.epoch_height then gets_account cont else dispatches cont,
    )

  unfoldable pub try_epoch_stake_or_unstake :
      Env → Contract → AccountId → UserAction → Result (Contract × Next UserAction)
  try_epoch_stake_or_unstake env c id cont = do
    v ← require_validator_busy c id
    let has_pending = ltb 0 v.pending_to_stake || ltb 0 v.pending_to_unstake
    let can_settle = ltb v.last_settlement_epoch env.epoch_height
    if not has_pending || not can_settle
        then (if not has_pending && can_settle
            then (mark_epoch_settlement_handled env c id >>= λ d. ok (d, dispatches cont))
            else ok (c, dispatches cont))
        else if (v.pending_to_stake == v.pending_to_unstake) && ltb 0 v.pending_to_stake
        then (apply_net_zero_pending_matched_clear env c id v.pending_to_stake >>= λ d.
            ok (d, dispatches cont))
        else if ltb v.pending_to_unstake v.pending_to_stake
        then ok (c, stakes (v.pending_to_stake - v.pending_to_unstake) cont)
        else if ltb 0 v.last_unstake_epoch && not (validator_unstake_waiting_finished env c v)
        then (mark_epoch_settlement_handled env c id >>= λ d. ok (d, dispatches cont))
        else ok (c, unstakes (v.pending_to_unstake - v.pending_to_stake) cont)

  -- With `refund_payable_pipeline`; `payable_refund` says what an action gets back.
  unfoldable pub on_epoch_settlement_after_pool_account :
      (UserAction → Option (AccountId × ℕ))
      → Env
      → Contract
      → Option PoolAccountView
      → AccountId
      → UserAction
      → Result (Contract × Next UserAction)
  on_epoch_settlement_after_pool_account payable_refund env c none id cont =
      assert_private env >> elim (payable_refund cont) [
        | none ↦ ok (c, releases)
        | some (buyer, amount) ↦
            release_validator_pool_pipeline c id >>= λ d. ok (d, transfers buyer amount)
      ]
  on_epoch_settlement_after_pool_account payable_refund env c (some account) id cont = do
    assert_private env
    v ← require_validator_busy c id
    let w : Validator = record v {
      total_staked_balance = total_balance account;
      last_balance_refresh_ns = env.block_timestamp;
    }
    let d : Contract = internal_set_validator id w c
    if ltb 0 account.unstaked_balance && account.can_withdraw
        then ok (d, withdraws account.unstaked_balance cont)
        else try_epoch_stake_or_unstake env d id cont

  unfoldable pub on_after_pool_withdraw_maybe_settle :
      Env → Contract → Option Bool → AccountId → UserAction → Result (Contract × Next UserAction)
  on_after_pool_withdraw_maybe_settle env c result id cont = do
    assert_private env
    v ← require_validator_busy c id
    if unwrap_or false result
        then try_epoch_stake_or_unstake env c id cont
        else ok (c, dispatches cont)

-- What has come back from the pool can be claimed.
unfoldable pub credit_withdrawn : Contract → AccountId → Validator → ℕ → Result Contract
credit_withdrawn c id v credited = do
  require (leb credited v.total_staked_balance) recorded_balance_low
  claim ← u128_add v.pending_to_claim credited
  ok (
      internal_set_validator id
        (record v {
          total_staked_balance = v.total_staked_balance - credited;
          pending_to_withdraw = v.pending_to_withdraw - credited;
          pending_to_claim = claim;
        })
        c)

unfoldable pub on_epoch_withdraw_transfer_done : Env → Contract → AccountId → ℕ → Result Contract
on_epoch_withdraw_transfer_done env c id withdrawn = do
  assert_private env
  v ← require_validator c id
  if env.promise_succeeded && ltb 0 withdrawn then credit_withdrawn c id v withdrawn else ok c

unfoldable pub on_deposit_and_stake : Env → Contract → AccountId → Result Contract
on_deposit_and_stake env c id = do
  assert_private env
  if not env.promise_succeeded then ok c else (do
    v ← require_validator c id
    require (ltb v.pending_to_unstake v.pending_to_stake) not_net_stake
    staked ← u128_add v.total_staked_balance (v.pending_to_stake - v.pending_to_unstake)
    ok (
        internal_set_validator id
          (record v {
            pending_to_claim =
                if ltb 0 v.pending_to_unstake
                then u128_saturating_add v.pending_to_claim v.pending_to_unstake
                else v.pending_to_claim;
            pending_to_stake = 0;
            pending_to_unstake = 0;
            total_staked_balance = staked;
            last_settlement_epoch = env.epoch_height;
          })
          c))

unfoldable pub on_unstake : Env → Contract → AccountId → Result Contract
on_unstake env c id = do
  assert_private env
  if not env.promise_succeeded then ok c else (do
    v ← require_validator c id
    require (ltb v.pending_to_stake v.pending_to_unstake) not_net_unstake
    ok (
        internal_set_validator id
          (record v {
            pending_to_claim =
                if ltb 0 v.pending_to_stake
                then u128_saturating_add v.pending_to_claim v.pending_to_stake
                else v.pending_to_claim;
            pending_to_unstake = 0;
            pending_to_stake = 0;
            pending_to_withdraw =
                u128_saturating_add v.pending_to_withdraw
                  (v.pending_to_unstake - v.pending_to_stake);
            last_unstake_epoch = env.epoch_height;
            last_settlement_epoch = env.epoch_height;
          })
          c))

unfoldable pub on_epoch_pipeline_terminal_release : Env → Contract → AccountId → Result Contract
on_epoch_pipeline_terminal_release env c id = do
  assert_private env
  release_validator_pool_pipeline c id
