-- ===== src/Common/Account.antt =====
-- Accounts as the Merkle tree stores them (common/src/account.rs). Account ids are only compared, so
-- they are numbers.
use house_of_stake_contracts.Base.{
  leb, timestamp_order, Result, ok, ◌>>=◌, ◌>>◌, require, ℕ, Option, none, some, List, [], ◌∷◌,
}
use house_of_stake_contracts.Common.Token.{near_add, truncate_to_seconds, max_raw}
use house_of_stake_contracts.Common.Growth.{VenearGrowthConfig}
use house_of_stake_contracts.Common.Balance
use house_of_stake_contracts.Common.Balance.{
  VenearBalance, total, delegation_contribution, sub, PooledVenearBalance,
}

abbrev pub AccountId : Type 0
AccountId = ℕ

-- The older form of an account, with at most one delegate.
pub record AccountV0 : Type 0 where
  pub account_id : AccountId
  pub update_timestamp : ℕ
  pub balance : VenearBalance
  pub delegated_balance : PooledVenearBalance
  pub delegation : Option AccountId

pub record DelegationEntry : Type 0 where
  pub account_id : AccountId
  pub bps : ℕ

pub record Account : Type 0 where
  pub account_id : AccountId
  pub update_timestamp : ℕ
  pub balance : VenearBalance
  pub delegated_balance : PooledVenearBalance
  pub delegations : List DelegationEntry

pub data VAccount : Type 0 where
  v0 : AccountV0 → VAccount
  v1 : Account → VAccount

-- A delegation of the whole balance, as `AccountV0` means it.
abbrev full_delegation : Option AccountId → List DelegationEntry
full_delegation none = []
full_delegation (some delegate) = record { account_id = delegate; bps = max_raw } ∷ []

-- `From<VAccount> for Account`
unfoldable pub of_versioned : VAccount → Account
of_versioned (v1 account) = account
of_versioned (v0 account) = record {
  account_id = account.account_id;
  update_timestamp = account.update_timestamp;
  balance = account.balance;
  delegated_balance = account.delegated_balance;
  delegations = full_delegation account.delegation;
}

-- The loop of `owned_total`: what is left of `retained` after each delegate's share of `balance`.
unfoldable pub retain : VenearBalance → VenearBalance → List DelegationEntry → Result VenearBalance
retain balance retained [] = ok retained
retain balance retained (d ∷ ds) = do
  contribution ← Balance.delegation_contribution balance d.bps
  left ← Balance.sub retained contribution
  retain balance left ds

unfoldable pub owned_total : Account → Result ℕ
owned_total a = do
  retained ← retain a.balance a.balance a.delegations
  delegated ← Balance.total a.delegated_balance
  own ← Balance.total retained
  near_add delegated own

unfoldable pub update : Account → ℕ → VenearGrowthConfig → Result Account
update a timestamp config = do
  let current = truncate_to_seconds timestamp
  require (leb a.update_timestamp current) timestamp_order
  balance ← Balance.update a.balance a.update_timestamp current config
  delegated ← Balance.update a.delegated_balance a.update_timestamp current config
  ok (record a { balance = balance; delegated_balance = delegated; update_timestamp = current })

-- The voting power of the account at a later time.
unfoldable pub total_balance : Account → ℕ → VenearGrowthConfig → Result ℕ
total_balance a timestamp config = do owned_total (← update a timestamp config)
