-- ===== src/Staking/Examples.antt =====
-- The theorems about the staking contract on concrete contracts.
use house_of_stake_contracts.Base.{
  ok, ◌>>=◌, require, expect, u128_max, ℕ, ◌≤◌, ◌<◌, ◌≡◌, refl, ap, inl, inr, true, false, Option,
  none, some, List, [], ◌∷◌, arith,
}
use house_of_stake_contracts.Common.Account.{AccountId}
use house_of_stake_contracts.Staking.Calls.{adds, perform, buys_shares}
use house_of_stake_contracts.Staking.Trades.{
  internal_stake-internal_unstake, trade, trade-NoLoss, buys,
}
use house_of_stake_contracts.Staking.Types.{
  Validator, Contract, Env, PendingUnstakeTranche, active, put, net_stake_yocto, idle,
  gross_stake_yocto, pending_not_in_contract_yocto,
}
use house_of_stake_contracts.Staking.Solvency.Shares.{IsFit, IsSolvent}
use house_of_stake_contracts.Staking.Sums.{sum_over}
use house_of_stake_contracts.Staking.Validators.{
  internal_stake, internal_unstake, internal_set_validator, add_validator,
  pending_unstake_tranche_available_epoch_height, set_user_pending_unstake_tranches,
  count_validators, increment_pending_unstake_validator_count,
}
use house_of_stake_contracts.Staking.Price.{NoLoss}
use house_of_stake_contracts.Staking.Shares.{near_from_shares, mint_shares}
use house_of_stake_contracts.Merkle.Tree.{insert}
use house_of_stake_contracts.Staking.Solvency.History.{goes_on, begins, History-IsSolvent}
use house_of_stake_contracts.Staking.Solvency.{liability, insert-cases, liability_at, issued_at}

abbrev no_refund : ℕ → Option (AccountId × ℕ)
no_refund action = none

-- A contract of the owner 1 without validators.
abbrev start : Contract
start = record {
  config = record {
    owner_account_id = 1;
    proposed_new_owner_account_id = none;
    guardians = [];
    min_lock_duration_ns = 0;
    max_lock_duration_ns = 1_000;
    epoch_unstake_settle_epochs = 4;
    min_storage_deposit = 0;
    per_lock_storage_stake = 0;
    per_farm_position_storage_stake = 0;
    per_purchase_storage_stake = 0;
    min_lock_amount = 1;
  };
  is_paused = false;
  validators = λ id. none;
  validator_ids = [];
  user_validator_shares = λ account id. none;
  user_pending_unstake = λ account id. none;
  user_pending_unstake_validator_count = λ account. none;
}

abbrev by_account : AccountId → Env
by_account account = record {
  predecessor_account_id = account;
  current_account_id = 9;
  block_timestamp = 10;
  epoch_height = 5;
  attached_deposit = 1;
  account_balance = 1_000;
  promise_succeeded = true;
}

-- The validator 7, with shares, NEAR to stake and NEAR to unstake.
abbrev pool_with : ℕ → ℕ → ℕ → Validator
pool_with shares to_stake to_unstake = record {
  validator_id = 7;
  catalog_manager_account_ids = [];
  status = active;
  total_shares = shares;
  total_staked_balance = 0;
  last_balance_refresh_ns = 10;
  pending_to_stake = to_stake;
  pending_to_unstake = to_unstake;
  last_unstake_epoch = 0;
  last_settlement_epoch = 0;
  pending_to_withdraw = 0;
  pending_to_claim = 0;
  tx_status = idle;
}

abbrev with_validator : Contract
with_validator = record (internal_set_validator 7 (pool_with 0 0 0) start) {
  validator_ids = 7 ∷ [];
}

abbrev with_shares : Contract
with_shares = internal_set_validator 7 (pool_with 100 100 0) (record with_validator {
  user_validator_shares = put with_validator.user_validator_shares 2 7 (some 100);
})

one_pool-IsFit :
    (c d : Contract) (w : Validator)
    → IsFit c
    → d.validators ≡ insert c.validators 7 w
    → liability w ≤ u128_max
    → w.total_shares < u128_max
    → IsFit d
one_pool-IsFit c d w fits written owes shares id =
    let read = ap (λ m. m id) written in
    elim (insert-cases c.validators 7 w id) [
      | inl (here, now) ↦ (
        omega (arith, owes, ap liability_at read, ap liability_at now),
        omega (arith, shares, ap issued_at read, ap issued_at now),
      )
      | inr now ↦ (
        omega (arith, (fits id).0, ap liability_at read, ap liability_at now),
        omega (arith, (fits id).1, ap issued_at read, ap issued_at now),
      )
    ]

start-IsFit : IsFit start
start-IsFit id = (omega arith, omega arith)

with_validator-IsFit : IsFit with_validator
with_validator-IsFit =
    one_pool-IsFit start with_validator (pool_with 0 0 0) start-IsFit refl (omega arith)
      (omega arith)

with_shares-IsFit : IsFit with_shares
with_shares-IsFit =
    one_pool-IsFit with_validator with_shares (pool_with 100 100 0) with_validator-IsFit refl
      (omega arith) (omega arith)

nothing_owed : (xs : List AccountId) → sum_over (λ a. 0) xs ≤ 0
nothing_owed [] = omega arith
nothing_owed (x ∷ xs) = omega (arith, nothing_owed xs)

start-IsSolvent : IsSolvent start
start-IsSolvent = (λ id xs distinct. nothing_owed xs, λ id xs distinct. nothing_owed xs)

adding-runs : perform no_refund (by_account 1) start (7, adds) ≡ ok with_validator
unfolding perform add_validator ◌>>=◌ require
adding-runs = refl

buying-runs :
    perform no_refund (by_account 2) with_validator (7, buys_shares 2 100) ≡ ok with_shares
unfolding perform internal_stake mint_shares net_stake_yocto gross_stake_yocto
    pending_not_in_contract_yocto ◌>>=◌ require expect
buying-runs = refl

History-IsSolvent_example : IsSolvent with_shares
History-IsSolvent_example = History-IsSolvent no_refund start with_shares start-IsSolvent (
    goes_on with_validator with_shares (by_account 2) (7, buys_shares 2 100)
      (goes_on start with_validator (by_account 1) (7, adds) begins adding-runs start-IsFit
        with_validator-IsFit)
      buying-runs with_validator-IsFit with_shares-IsFit)

-- A validator whose shares have grown in worth, from 1 to 1.5, and more shares of it.
abbrev grown_pool : Contract
grown_pool =
    internal_set_validator 7 (record (pool_with 100 0 0) { total_staked_balance = 150 }) start

abbrev after_purchase : Contract × ℕ
after_purchase = (
  internal_set_validator 7 (record (pool_with 106 10 0) { total_staked_balance = 150 })
      (record grown_pool {
        user_validator_shares = put grown_pool.user_validator_shares 2 7 (some 6);
      }),
  6,
)

purchase-runs : internal_stake grown_pool 2 7 10 ≡ ok after_purchase
unfolding internal_stake mint_shares net_stake_yocto gross_stake_yocto pending_not_in_contract_yocto
    ◌>>=◌ require expect
purchase-runs = refl

abbrev after_sale : Contract × ℕ
after_sale =
    let sold : Validator = record (pool_with 100 10 9) { total_staked_balance = 150 } in
    let tranche : PendingUnstakeTranche = record { amount = 9; available_epoch_height = 10 } in
    (
      internal_set_validator 7 sold (record (after_purchase.0) {
        user_validator_shares = put (after_purchase.0).user_validator_shares 2 7 none;
        user_pending_unstake =
            put (after_purchase.0).user_pending_unstake 2 7 (some (tranche ∷ []));
        user_pending_unstake_validator_count =
            insert (after_purchase.0).user_pending_unstake_validator_count 2 1;
      }),
      9,
    )

sale-runs : internal_unstake (by_account 2) (after_purchase.0) 2 7 6 ≡ ok after_sale
unfolding internal_unstake near_from_shares net_stake_yocto gross_stake_yocto
    pending_not_in_contract_yocto pending_unstake_tranche_available_epoch_height
    set_user_pending_unstake_tranches count_validators increment_pending_unstake_validator_count
    ◌>>=◌ require expect
sale-runs = refl

internal_stake-internal_unstake_example : 9 ≤ 10
internal_stake-internal_unstake_example =
    internal_stake-internal_unstake (by_account 2) grown_pool 2 7 10
      (record (pool_with 100 0 0) { total_staked_balance = 150 }) after_purchase after_sale refl
      (omega arith) (omega arith) purchase-runs sale-runs

purchase-trade : trade (by_account 2) grown_pool 7 (buys 2 10) ≡ ok (after_purchase.0)
unfolding trade internal_stake mint_shares net_stake_yocto gross_stake_yocto
    pending_not_in_contract_yocto ◌>>=◌ require expect
purchase-trade = refl

trade-NoLoss_example :
    NoLoss
      (record (pool_with 100 0 0) { total_staked_balance = 150 })
      (record (pool_with 106 10 0) { total_staked_balance = 150 })
trade-NoLoss_example =
    trade-NoLoss (by_account 2) grown_pool (after_purchase.0) 7 (buys 2 10)
      (record (pool_with 100 0 0) { total_staked_balance = 150 })
      (record (pool_with 106 10 0) { total_staked_balance = 150 }) purchase-trade refl refl
      (omega arith) (omega arith, omega arith) (omega arith, omega arith)
