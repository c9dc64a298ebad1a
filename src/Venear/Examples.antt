-- ===== src/Venear/Examples.antt =====
-- The theorems about the veNEAR contract at concrete inputs.
use house_of_stake_contracts.Base.{
  ltb, Ensures, ◌==◌, if◌then◌else◌, length, All, Result, ok, panic, ◌>>=◌, require, expect,
  u128_max, checked, ℕ, ◌+◌, ◌*◌, ◌≤◌, ◌<◌, ◌≡◌, refl, ◌↔◌, Bool, true, false, none, some, List, [],
  ◌∷◌, arith, run,
}
use house_of_stake_contracts.Venear.Contract.{Contract, Env, Config, new, current, AccountInternal}
use house_of_stake_contracts.Venear.Lockup.{
  internal_lockup_update, rebalanced, redelegate_all, LockupUpdateV1,
}
use house_of_stake_contracts.Venear.Accounts.{
  internal_get_account_internal, internal_expect_account_updated, internal_get_account,
  internal_global_state_updated, internal_set_account, internal_set_account_internal,
  internal_set_global_state, owned_total_or_zero,
}
use house_of_stake_contracts.Common.Growth.{calculate, u384_mul}
use house_of_stake_contracts.Common.Balance.{pooled_sub, pooled_add, delegation_contribution}
use house_of_stake_contracts.Merkle.{bit_length, height_of_leaves}
use house_of_stake_contracts.Venear.Governance.{pause}
use house_of_stake_contracts.Merkle.Tree
use house_of_stake_contracts.Common.GlobalState
use house_of_stake_contracts.Common.Account
use house_of_stake_contracts.Common.Balance
use house_of_stake_contracts.Common.Examples.{sample_rate, day}
use house_of_stake_contracts.Common.Token.{yocto_per_millinear, max_raw, truncate_to_seconds}
use house_of_stake_contracts.Venear.Accounts.{ft_total_supply}
use house_of_stake_contracts.Common.Account.{AccountId, VAccount, DelegationEntry}
use house_of_stake_contracts.Merkle.{CryptoHash}
use house_of_stake_contracts.Merkle.Examples.{hash_of}
use house_of_stake_contracts.Venear.Calls.{
  Call, perform, deposits_storage, delegates, finishes_deployment, updates_lockup, pauses,
}
use house_of_stake_contracts.Venear.Delegations.{validate_delegations, set_delegations}
use house_of_stake_contracts.Venear.Delegations.Validation.{
  IsProper, IsAscending, validate_delegations_iff, bps_sum,
}
use house_of_stake_contracts.Merkle.Sums.{sum_of}
use house_of_stake_contracts.Venear.Supply.{measured, worth, IsAccounted}
use house_of_stake_contracts.Venear.Lockup.{update_v1, on_lockup_update}
use house_of_stake_contracts.Venear.Supply.Total.{ft_total_supply-run, run-IsAccounted}
use house_of_stake_contracts.Common.Balance.{from_near, zero_balance}
use house_of_stake_contracts.Venear.Nonces.Replay.{nonce_increases}
use house_of_stake_contracts.Common.GlobalState.{new_global_state}
use house_of_stake_contracts.Common.Growth.{fixed_rate}
use house_of_stake_contracts.Venear.Effects.{internal_lockup_update-balance, set_delegations-stored}

abbrev pub sample_hash : VAccount → CryptoHash
sample_hash account = hash_of 7

abbrev pub sample_pair : CryptoHash → CryptoHash → CryptoHash
sample_pair left right = hash_of (3 * left.0 + right.0 + 1)

-- The lockup account of an owner.
abbrev pub lockup_of : AccountId → AccountId
lockup_of owner = 1_000 + owner

abbrev pub one_near : ℕ
one_near = 1_000 * yocto_per_millinear

abbrev pub sample_config : Config
sample_config = record {
  lockup_contract_config = none;
  unlock_duration_ns = day;
  staking_pool_whitelist_account_id = 9;
  lockup_code_deployers = [];
  local_deposit = one_near;
  min_lockup_deposit = 2 * one_near;
  owner_account_id = 1;
  guardians = [];
  proposed_new_owner_account_id = none;
  max_delegations = 8;
}

abbrev pub call_by : AccountId → ℕ → ℕ → Env
call_by caller days deposit = record {
  predecessor_account_id = caller;
  current_account_id = 500;
  block_timestamp = days * day;
  block_height = days;
  attached_deposit = deposit;
  storage_byte_cost = 1;
  storage_before = 0;
  storage_after = 0;
  remaining_gas = 0;
  promise_succeeded = true;
}

unfoldable pub created_contract : Contract
created_contract = elim (new (call_by 1 1 0) sample_config sample_rate) [
  | ok c ↦ c
  | panic e ↦ record {
    tree = Tree.new 0 (GlobalState.v0 (new_global_state 0 (fixed_rate sample_rate)));
    accounts = λ a. none;
    config = sample_config;
    is_paused = true;
    lockup_code = λ h. none;
  }
]

created_contract-new : new (call_by 1 1 0) sample_config sample_rate ≡ ok created_contract
unfolding created_contract new ◌>>=◌ require
created_contract-new = refl

abbrev pub one_entry : List DelegationEntry
one_entry = record { account_id = 4; bps = 2_512 } ∷ []

-- Two accounts register, one delegates to the other, and its lockup reports 5 NEAR.
abbrev pub sample_calls : List (Env × Call)
sample_calls =
    (call_by 3 2 one_near, deposits_storage none)
    ∷ (call_by 4 2 one_near, deposits_storage none)
    ∷ (call_by 3 3 1, delegates one_entry)
    ∷ (
      call_by 500 4 0,
      finishes_deployment (record {
        version = 1;
        account_id = 3;
        lockup_update_nonce = 10;
        lockup_deposit = 2 * one_near;
      }),
    )
    ∷ (
      call_by 1_003 5 0,
      updates_lockup 1 3 (
          update_v1 (record {
            locked_near_balance = 5 * one_near;
            timestamp = 5 * day;
            lockup_update_nonce = 11;
          })),
    )
    ∷ []

abbrev pub sample_run : Contract
sample_run = run (perform sample_hash sample_pair lockup_of) created_contract sample_calls

ft_total_supply-run_example :
    ft_total_supply (call_by 7 6 0) sample_run
    ≡ checked u128_max
        (sum_of (measured (worth sample_rate (truncate_to_seconds (6 * day)))) sample_run.tree)
ft_total_supply-run_example =
    ft_total_supply-run sample_hash sample_pair lockup_of sample_rate (call_by 1 1 0)
      (call_by 7 6 0) sample_config created_contract sample_calls created_contract-new (omega arith)
      (omega arith)

validate_delegations_iff_example : (validate_delegations one_entry 3 8 ≡ ok 2_512) ↔ (
    (length one_entry ≤ 8)
    × All (IsProper 3) one_entry
    × IsAscending one_entry
    × (bps_sum one_entry ≤ max_raw)
    × (2_512 ≡ bps_sum one_entry))
validate_delegations_iff_example = validate_delegations_iff one_entry 3 8 2_512

abbrev is_ok : Result Contract → Bool
is_ok (ok c) = true
is_ok (panic e) = false

abbrev outcome : Result Contract → Contract
outcome (ok c) = c
outcome (panic e) = created_contract

is_ok-outcome : (r : Result Contract) → is_ok r ≡ true → r ≡ ok (outcome r)
is_ok-outcome (ok c) h = refl
is_ok-outcome (panic e) h = cc

-- An update of the lockup of account 3.
unfoldable updated_by : ℕ → ℕ → Contract → Result Contract
updated_by days nonce c =
    on_lockup_update sample_hash sample_pair lockup_of (call_by 1_003 days 0) c 1 3 (
      update_v1 (record {
        locked_near_balance = 4 * one_near;
        timestamp = days * day;
        lockup_update_nonce = nonce;
      }))

-- One account with one NEAR, whose lockup is deployed.
abbrev one_account : Contract
one_account = record {
  tree = record {
    root = hash_of 7;
    leaves = 1;
    hashes = λ h i. some (hash_of 7);
    data_at = λ i. some (
        Account.v1 (record {
          account_id = 3;
          update_timestamp = day;
          balance = from_near one_near;
          delegated_balance = zero_balance;
          delegations = [];
        }));
    accounts = λ a. if a == 3 then some 0 else none;
    global_state = GlobalState.v0 (record {
      update_timestamp = day;
      total_venear_balance = from_near one_near;
      venear_growth_config = fixed_rate sample_rate;
    });
    previous_snapshot = none;
    last_block_height = 1;
  };
  accounts = λ a.
      if a == 3
      then some (
          current
            (record { lockup_version = some 1; deposit = one_near; lockup_update_nonce = 10 }))
      else none;
  config = sample_config;
  is_paused = false;
  lockup_code = λ h. none;
}

unfoldable updated_once : Contract
updated_once = outcome (updated_by 2 12 one_account)

first_taken : is_ok (updated_by 2 12 one_account) ≡ true
unfolding updated_by on_lockup_update ◌>>=◌ require expect internal_get_account_internal
    internal_lockup_update internal_expect_account_updated internal_get_account Tree.get
    Account.update Account.of_versioned Balance.update calculate internal_global_state_updated
    GlobalState.update rebalanced pooled_sub Account.owned_total Account.retain Balance.add
    delegation_contribution pooled_add Balance.sub Balance.total u384_mul Tree.claim_index
    Tree.get_hash Tree.internal_post_update Tree.internal_pre_update Tree.rehash
    Tree.set_global_state Tree.set_hash Tree.set_value Tree.tree_height bit_length height_of_leaves
    internal_set_account internal_set_account_internal internal_set_global_state owned_total_or_zero
    redelegate_all
first_taken = refl

abbrev pausing : List (Env × Call)
pausing = (call_by 1 3 1, pauses) ∷ []

abbrev paused_contract : Contract
paused_contract = run (perform sample_hash sample_pair lockup_of) updated_once pausing

second_taken : is_ok (updated_by 4 13 paused_contract) ≡ true
unfolding updated_by updated_once run perform pause on_lockup_update ◌>>=◌ require expect
    internal_get_account_internal internal_lockup_update internal_expect_account_updated
    internal_get_account Tree.get Account.update Account.of_versioned Balance.update calculate
    internal_global_state_updated GlobalState.update rebalanced pooled_sub Account.owned_total
    Account.retain Balance.add delegation_contribution pooled_add Balance.sub Balance.total u384_mul
    Tree.claim_index Tree.get_hash Tree.internal_post_update Tree.internal_pre_update Tree.rehash
    Tree.set_global_state Tree.set_hash Tree.set_value Tree.tree_height bit_length height_of_leaves
    internal_set_account internal_set_account_internal internal_set_global_state owned_total_or_zero
    redelegate_all
second_taken = refl

nonce_increases_example : 12 < 13
unfolding updated_by updated_once
nonce_increases_example =
    nonce_increases sample_hash sample_pair lockup_of (call_by 1_003 2 0) (call_by 1_003 4 0)
      one_account updated_once (outcome (updated_by 4 13 paused_contract)) 1 1 3
      (record { locked_near_balance = 4 * one_near; timestamp = 2 * day; lockup_update_nonce = 12 })
      (record { locked_near_balance = 4 * one_near; timestamp = 4 * day; lockup_update_nonce = 13 })
      pausing (is_ok-outcome (updated_by 2 12 one_account) first_taken)
      (is_ok-outcome (updated_by 4 13 paused_contract) second_taken)

-- Day 6 after the sample calls.
pub sample_run-IsAccounted : IsAccounted sample_hash sample_pair sample_rate (6 * day) sample_run
sample_run-IsAccounted =
    run-IsAccounted sample_hash sample_pair lockup_of sample_rate (call_by 1 1 0) (6 * day)
      sample_config created_contract sample_calls created_contract-new (omega arith) (omega arith)

abbrev sample_internal : AccountInternal
sample_internal = record { lockup_version = some 1; deposit = one_near; lockup_update_nonce = 11 }

-- The lockup reports less than before.
abbrev sample_update : LockupUpdateV1
sample_update = record {
  locked_near_balance = 4 * one_near;
  timestamp = 6 * day;
  lockup_update_nonce = 12;
}

internal_lockup_update-balance_example :
    Ensures
      (λ d.
        (x : Account.Account) × (y : Account.Account) × (internal_expect_account_updated
            (call_by 1_003 6 0)
            sample_run
            3
          ≡ ok x)
        × (internal_get_account d 3 ≡ some y)
        × (y.delegations ≡ x.delegations)
        × (y.balance.near_balance ≡ 4 * one_near + one_near)
        × (y.balance.extra_venear_balance ≡ (
            if ltb y.balance.near_balance x.balance.near_balance
            then 0
            else x.balance.extra_venear_balance)))
      (internal_lockup_update sample_hash sample_pair
        (call_by 1_003 6 0)
        3
        sample_internal
        sample_update
        sample_run)
internal_lockup_update-balance_example =
    internal_lockup_update-balance sample_hash sample_pair sample_rate refl (call_by 1_003 6 0) 3
      sample_internal sample_update sample_run sample_run-IsAccounted

set_delegations-stored_example :
    Ensures
      (λ r.
        (x : Account.Account) × (internal_expect_account_updated (call_by 3 6 1) sample_run 3
          ≡ ok x)
        × (internal_get_account r.0 3 ≡ some (record x { delegations = one_entry })))
      (set_delegations sample_hash sample_pair (call_by 3 6 1) sample_run one_entry)
set_delegations-stored_example =
    set_delegations-stored sample_hash sample_pair sample_rate refl (call_by 3 6 1) sample_run
      one_entry sample_run-IsAccounted
