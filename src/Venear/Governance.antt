-- ===== src/Venear/Governance.antt =====
-- The owner's settings and pausing (venear-contract/src/governance.rs and pause.rs).
use house_of_stake_contracts.Base.{
  ◌==◌, Result, ok, ◌>>=◌, ◌>>◌, require, ℕ, ◌*◌, Bool, true, false, Option, none, some, List,
  only_proposed_owner,
}
use house_of_stake_contracts.Venear.Contract.{
  Contract, Config, Env, assert_one_yocto, assert_owner, assert_guardian,
}
use house_of_stake_contracts.Merkle.{CryptoHash}
use house_of_stake_contracts.Common.Account.{AccountId}
use house_of_stake_contracts.Venear.Lockup.{internal_set_lockup}

unfoldable pub set_lockup_contract : Env → Contract → CryptoHash → ℕ → Result Contract
set_lockup_contract env c contract_hash min_lockup_deposit = do
  assert_one_yocto env
  assert_owner env c
  d ← internal_set_lockup contract_hash c
  ok (record d { config = record (d.config) { min_lockup_deposit = min_lockup_deposit } })

-- The setters change one field of the configuration each.
abbrev pub set_local_deposit : ℕ → Config → Config
set_local_deposit amount config = record config { local_deposit = amount }

abbrev pub set_staking_pool_whitelist_account_id : AccountId → Config → Config
set_staking_pool_whitelist_account_id a config = record config {
  staking_pool_whitelist_account_id = a;
}

abbrev pub propose_new_owner_account_id : Option AccountId → Config → Config
propose_new_owner_account_id a config = record config { proposed_new_owner_account_id = a }

-- A duration in seconds, of 32 bits, so the product fits into 64.
abbrev pub set_unlock_duration_sec : ℕ → Config → Config
set_unlock_duration_sec seconds config = record config {
  unlock_duration_ns = seconds * 1_000_000_000;
}

abbrev pub set_lockup_code_deployers : List AccountId → Config → Config
set_lockup_code_deployers ids config = record config { lockup_code_deployers = ids }

abbrev pub set_guardians : List AccountId → Config → Config
set_guardians ids config = record config { guardians = ids }

abbrev pub set_max_delegations : ℕ → Config → Config
set_max_delegations n config = record config { max_delegations = n }

pub data Setting : Type 0 where
  sets_local_deposit sets_max_delegations sets_unlock_duration_sec : ℕ → Setting
  sets_staking_pool_whitelist : AccountId → Setting
  sets_proposed_new_owner : Option AccountId → Setting
  sets_lockup_code_deployers sets_guardians : List AccountId → Setting

abbrev pub apply_setting : Setting → Config → Config
apply_setting (sets_local_deposit amount) = set_local_deposit amount
apply_setting (sets_max_delegations n) = set_max_delegations n
apply_setting (sets_unlock_duration_sec seconds) = set_unlock_duration_sec seconds
apply_setting (sets_staking_pool_whitelist a) = set_staking_pool_whitelist_account_id a
apply_setting (sets_proposed_new_owner a) = propose_new_owner_account_id a
apply_setting (sets_lockup_code_deployers ids) = set_lockup_code_deployers ids
apply_setting (sets_guardians ids) = set_guardians ids

-- What every setter does around its change.
unfoldable pub owner_sets : Env → Contract → Setting → Result Contract
owner_sets env c setting = do
  assert_one_yocto env
  assert_owner env c
  ok (record c { config = apply_setting setting c.config })

abbrev pub is_proposed : Option AccountId → AccountId → Bool
is_proposed none a = false
is_proposed (some p) a = p == a

unfoldable pub accept_ownership : Env → Contract → Result Contract
accept_ownership env c = do
  assert_one_yocto env
  require (is_proposed c.config.proposed_new_owner_account_id env.predecessor_account_id)
      only_proposed_owner
  ok (record c {
    config = record (c.config) {
      owner_account_id = env.predecessor_account_id;
      proposed_new_owner_account_id = none;
    };
  })

unfoldable pub pause : Env → Contract → Result Contract
pause env c = do assert_one_yocto env; assert_guardian env c; ok (record c { is_paused = true })

unfoldable pub unpause : Env → Contract → Result Contract
unpause env c = do assert_one_yocto env; assert_owner env c; ok (record c { is_paused = false })
