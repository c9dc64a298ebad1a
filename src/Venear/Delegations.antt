-- ===== src/Venear/Delegations.antt =====
-- Delegations (venear-contract/src/delegation.rs).
pub mod Validation
use house_of_stake_contracts.Base.{
  leb, ltb, ◌==◌, if◌then◌else◌, is_some, Bool-cases, Option-cases, ltb→lt, leb→le, le→leb, ==_iff,
  ==_refl, length, get_elem?, set, drop, All, contains, length-append, length-set, Panic, Result,
  ok, panic, ◌>>=◌, ◌>>◌, require, expect, u128_max, u64_max, u32_max, checked, u32_add, u64_add,
  u128_add, u128_mul, checked_sub, >>=-eq-ok, Result-cases, ok-injective, >>=-congr, >>=-assoc,
  Ensures, returns, panics, Ensures-ok, Ensures-of, Ensures-apply, Ensures-require, Ensures-bind,
  Ensures-then, Ensures-if, Ensures-map, ℕ, zero, suc, ◌+◌, ◌-◌, ◌*◌, ◌/◌, ◌%◌, ◌^◌, ◌≤◌, ◌<◌, min,
  max, ◌≡◌, refl, sym, ap, subst, ◌∙◌, ◌≢◌, ◌↔◌, ◌⊎◌, inl, inr, Bool, true, false, not, ◌&&◌, ◌||◌,
  Option, none, some, List, [], ◌∷◌, ◌++◌, map, arith, insufficient_deposit, too_many_delegations,
  zero_bps, self_delegation, total_bps_exceeded, unsorted_delegations, no_deposit,
}
use house_of_stake_contracts.Venear.Contract.{Contract, Env, Promise, assert_not_paused, refunds}
use house_of_stake_contracts.Common.Account.{DelegationEntry, AccountId, VAccount}
use house_of_stake_contracts.Merkle.{CryptoHash}
use house_of_stake_contracts.Common.Token.{max_raw}
use house_of_stake_contracts.Common.Balance.{
  PooledVenearBalance, VenearBalance, pooled_sub_delegation, pooled_add_delegation,
}
use house_of_stake_contracts.Venear.Accounts.{internal_expect_account_updated, internal_set_account}

-- Whether an entry comes after the one before it, if there is one.
abbrev pub is_after : Option AccountId → AccountId → Bool
is_after none a = true
is_after (some previous) a = ltb previous a

-- The loop of `validate_delegations`: the sum of the basis points.
unfoldable pub sum_checked : AccountId → Option AccountId → ℕ → List DelegationEntry → Result ℕ
sum_checked owner previous sum_bps [] = ok sum_bps
sum_checked owner previous sum_bps (entry ∷ entries) = do
  require (not (entry.bps == 0)) zero_bps
  require (not (entry.account_id == owner)) self_delegation
  require (is_after previous entry.account_id) unsorted_delegations
  next ← u32_add sum_bps entry.bps
  sum_checked owner (some entry.account_id) next entries

unfoldable pub validate_delegations : List DelegationEntry → AccountId → ℕ → Result ℕ
unfolding sum_checked
validate_delegations entries owner max_delegations = do
  require (leb (length entries) max_delegations) too_many_delegations
  sum_bps ← sum_checked owner none 0 entries
  require (leb sum_bps max_raw) total_bps_exceeded
  ok sum_bps

-- What remains of the deposit after the growth of the storage is paid.
unfoldable pub storage_refund : Env → Result ℕ
storage_refund env =
    if ltb env.storage_before env.storage_after
    then (do
      cost ← u128_mul env.storage_byte_cost (env.storage_after - env.storage_before)
      require (leb cost env.attached_deposit) insufficient_deposit
      ok (env.attached_deposit - cost))
    else ok env.attached_deposit

module _ (hash_value : VAccount → CryptoHash)
    (hash_pair : CryptoHash → CryptoHash → CryptoHash) where
  -- One iteration of the loops: the delegate's pool changed, by the account as of now.
  unfoldable pub change_pool :
      Env
      → AccountId
      → (PooledVenearBalance → Result PooledVenearBalance)
      → Contract
      → Result Contract
  change_pool env a change c = do
    delegate ← internal_expect_account_updated env c a
    pool ← change delegate.delegated_balance
    internal_set_account hash_value hash_pair env a (record delegate { delegated_balance = pool }) c

  -- The loop over the old delegations.
  unfoldable pub undelegate_all :
      Env → VenearBalance → List DelegationEntry → Contract → Result Contract
  undelegate_all env balance [] c = ok c
  undelegate_all env balance (d ∷ ds) c = do
    e ← change_pool env d.account_id (λ pool. pooled_sub_delegation pool balance d.bps) c
    undelegate_all env balance ds e

  -- The loop over the new entries.
  unfoldable pub delegate_all :
      Env → VenearBalance → List DelegationEntry → Contract → Result Contract
  delegate_all env balance [] c = ok c
  delegate_all env balance (d ∷ ds) c = do
    e ← change_pool env d.account_id (λ pool. pooled_add_delegation pool balance d.bps) c
    delegate_all env balance ds e

  unfoldable pub set_delegations :
      Env → Contract → List DelegationEntry → Result (Contract × List Promise)
  set_delegations env c entries = do
    assert_not_paused c
    require (ltb 0 env.attached_deposit) no_deposit
    sum_bps ← validate_delegations entries env.predecessor_account_id c.config.max_delegations
    owner ← internal_expect_account_updated env c env.predecessor_account_id
    d ← undelegate_all env owner.balance owner.delegations c
    e ← delegate_all env owner.balance entries d
    f ←
        internal_set_account hash_value hash_pair env env.predecessor_account_id
          (record owner { delegations = entries }) e
    refund ← storage_refund env
    ok (f, refunds env.predecessor_account_id refund)
