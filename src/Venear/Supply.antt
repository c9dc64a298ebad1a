-- ===== src/Venear/Supply.antt =====
-- What the veNEAR contract's total supply stands for: the accounts' own balances, summed over the
-- leaves of the tree. The pool of the global state is one balance that grows at once; the accounts
-- grow one by one, whenever one of them is touched.
pub mod Measures
pub mod Keeping
pub mod Pool
pub mod Delegating
pub mod Registering
pub mod Rebalancing
pub mod Calls
pub mod Total
use house_of_stake_contracts.Base.{
  leb, ltb, ◌==◌, if◌then◌else◌, is_some, Bool-cases, Option-cases, ltb→lt, leb→le, le→leb, ==_iff,
  ==_refl, length, get_elem?, set, drop, All, contains, length-append, length-set, Panic, Result,
  ok, panic, ◌>>=◌, ◌>>◌, require, expect, u128_max, u64_max, u32_max, checked, u32_add, u64_add,
  u128_add, u128_mul, checked_sub, >>=-eq-ok, Result-cases, ok-injective, >>=-congr, >>=-assoc,
  Ensures, returns, panics, Ensures-ok, Ensures-of, Ensures-apply, Ensures-require, Ensures-bind,
  Ensures-then, Ensures-if, Ensures-map, ℕ, zero, suc, ◌+◌, ◌-◌, ◌*◌, ◌/◌, ◌%◌, ◌^◌, ◌≤◌, ◌<◌, min,
  max, ◌≡◌, refl, sym, ap, subst, ◌∙◌, ◌≢◌, ◌↔◌, ◌⊎◌, inl, inr, Bool, true, false, not, ◌&&◌, ◌||◌,
  Option, none, some, List, [], ◌∷◌, ◌++◌, map, arith,
}
use house_of_stake_contracts.Common.Account
use house_of_stake_contracts.Common.GlobalState
use house_of_stake_contracts.Common.Growth.{Fraction, fixed_rate}
use house_of_stake_contracts.Common.Account.{Account, VAccount, AccountId}
use house_of_stake_contracts.Merkle.Tree.{MerkleTree, get}
use house_of_stake_contracts.Common.Token.{truncate_near_to_millis, truncate_to_seconds}
use house_of_stake_contracts.Common.GlobalState.{VGlobalState, get_venear_growth_config}
use house_of_stake_contracts.Common.Balance.{VenearBalance}
use house_of_stake_contracts.Common.Balance.Growing.{IsWhole}
use house_of_stake_contracts.Merkle.{CryptoHash}
use house_of_stake_contracts.Merkle.Invariant.{IsMerkle}
use house_of_stake_contracts.Common.Exact.{exact_growth}
use house_of_stake_contracts.Merkle.Sums.{AllLeaves, sum_of}
use house_of_stake_contracts.Venear.Contract.{Contract}

-- An account's NEAR in whole milliNEAR.
abbrev pub whole_near : Account → ℕ
whole_near a = truncate_near_to_millis a.balance.near_balance

module _ (rate : Fraction) where
  -- NEAR and extra veNEAR, with the growth up to a time.
  abbrev pub worth_of : VenearBalance → ℕ → ℕ → ℕ
  worth_of b start time =
      b.near_balance + b.extra_venear_balance + exact_growth rate start time b.near_balance

  -- What an account's own balance comes to at a time.
  abbrev pub worth : ℕ → Account → ℕ
  worth time a = worth_of a.balance a.update_timestamp time

-- A number of an account, as one of what the tree stores.
abbrev pub measured : (Account → ℕ) → VAccount → ℕ
measured f v = f (Account.of_versioned v)

abbrev pub HasWholeTime : VAccount → Type 0
HasWholeTime v = IsWhole (Account.of_versioned v).update_timestamp

abbrev pub State : Type 0
State = MerkleTree VAccount VGlobalState

module _ (hash_value : VAccount → CryptoHash)
    (hash_pair : CryptoHash → CryptoHash → CryptoHash) where
  pub record IsSound (t : State) : Type 0 where
    pub merkle : IsMerkle hash_value hash_pair t
    pub leaves_whole : AllLeaves HasWholeTime t

  -- The pool is the accounts': in whole milliNEAR, and in worth at every whole second from now on.
  pub record IsBacked (rate : Fraction) (now : ℕ) (t : State) : Type 0 where
    pub sound : IsSound t
    pub config : get_venear_growth_config t.global_state ≡ fixed_rate rate
    pub pool_whole : IsWhole (GlobalState.of_versioned t.global_state).update_timestamp
    pub pool_past : (GlobalState.of_versioned t.global_state).update_timestamp ≤ now
    pub pool_near :
        (GlobalState.of_versioned t.global_state).total_venear_balance.near_balance
        ≡ sum_of (measured whole_near) t
    pub pool_worth :
        (time : ℕ)
        → IsWhole time
        → truncate_to_seconds now ≤ time
        → worth_of rate
            (GlobalState.of_versioned t.global_state).total_venear_balance
            (GlobalState.of_versioned t.global_state).update_timestamp
            time
          ≡ sum_of (measured (worth rate time)) t

  -- And whoever is not registered has no leaf.
  pub record IsAccounted (rate : Fraction) (now : ℕ) (c : Contract) : Type 0 where
    pub backed : IsBacked rate now c.tree
    pub known : (a : AccountId) → c.accounts a ≡ none → get c.tree a ≡ none
