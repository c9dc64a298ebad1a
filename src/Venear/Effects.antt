-- ===== src/Venear/Effects.antt =====
-- What the caller's account is after a lockup update, and after setting its delegations.
use mathlib.Core.Option.{map}
use house_of_stake_contracts.Base.{
  if◌then◌else◌, ltb, ==_refl, ok, ◌>>=◌, Ensures, returns, Ensures-bind, Ensures-then, ◌+◌, ◌≡◌,
  refl, ap, ◌∙◌, some, List, arith,
}
use house_of_stake_contracts.Common.Account
use house_of_stake_contracts.Common.GlobalState
use house_of_stake_contracts.Merkle.Tree.{get}
use house_of_stake_contracts.Venear.Contract.{Contract, Env, AccountInternal}
use house_of_stake_contracts.Common.Account.{VAccount, AccountId, DelegationEntry, Account}
use house_of_stake_contracts.Merkle.{CryptoHash}
use house_of_stake_contracts.Common.Growth.{Fraction}
use house_of_stake_contracts.Common.Exact.{fine_grain}
use house_of_stake_contracts.Venear.Lockup.{internal_lockup_update, rebalanced, LockupUpdateV1}
use house_of_stake_contracts.Venear.Delegations.{set_delegations}
use house_of_stake_contracts.Venear.Accounts.{
  internal_get_account, internal_set_account_internal, internal_set_global_state,
  internal_expect_account_updated,
}
use house_of_stake_contracts.Common.Balance.{VenearBalance}
use house_of_stake_contracts.Common.GlobalState.{GlobalState}
use house_of_stake_contracts.Venear.Supply.{IsAccounted}
use house_of_stake_contracts.Venear.Supply.Keeping.{HasSet, internal_set_account-HasSet}
use house_of_stake_contracts.Merkle.Sums.{get-set_global_state}
use house_of_stake_contracts.Venear.Supply.Delegating.{
  redelegate_all-Follows, undelegate_all-Follows, delegate_all-Follows, config-Keeps,
  expect-IsWhole,
}

module _ (hash_value : VAccount → CryptoHash) (hash_pair : CryptoHash → CryptoHash → CryptoHash)
    (rate : Fraction) (fine : rate.denominator ≡ fine_grain) where
  -- The account that was just written.
  read-set :
      (a : AccountId) (x : Account) (c d : Contract)
      → HasSet hash_value hash_pair a x c.tree d.tree
      → internal_get_account d a ≡ some x
  unfolding internal_get_account Account.of_versioned
  read-set a x c d w =
      let found : get d.tree a ≡ some (Account.v1 x) = w.reads a ∙ rw (==_refl a) refl in
      ap (map Account.of_versioned) found

  read-set_global_state :
      (env : Env) (g : GlobalState) (a : AccountId) (d : Contract)
      → internal_get_account (internal_set_global_state env g d) a ≡ internal_get_account d a
  unfolding internal_get_account internal_set_global_state
  read-set_global_state env g a d =
      ap (map Account.of_versioned)
        (get-set_global_state env.block_height (GlobalState.v0 g) d.tree a)

  -- The parts of a rebalanced balance.
  rebalanced-parts :
      (old new : VenearBalance) (internal : AccountInternal) (update : LockupUpdateV1)
      → rebalanced old internal update ≡ ok new
      → (new.near_balance ≡ update.locked_near_balance + internal.deposit)
        × (new.extra_venear_balance
            ≡ (if ltb new.near_balance old.near_balance then 0 else old.extra_venear_balance))
  unfolding rebalanced ◌>>=◌
  rebalanced-parts old new internal update h = (ground arith, ground arith)

  -- At the denominator 10^30, in a state whose supply is backed, after a lockup update that returns
  -- the account has the locked NEAR and its own deposit. If that is less than it
  -- had, all extra veNEAR is gone; otherwise the extra veNEAR that had grown until now stays. The
  -- account's delegations stay as they were.
  pub internal_lockup_update-balance :
      (env : Env) (a : AccountId) (internal : AccountInternal) (update : LockupUpdateV1)
      (c : Contract)
      → IsAccounted hash_value hash_pair rate env.block_timestamp c
      → Ensures
          (λ d.
            (x : Account) × (y : Account) × (internal_expect_account_updated env c a ≡ ok x)
            × (internal_get_account d a ≡ some y)
            × (y.delegations ≡ x.delegations)
            × (y.balance.near_balance ≡ update.locked_near_balance + internal.deposit)
            × (y.balance.extra_venear_balance ≡ (
                if ltb y.balance.near_balance x.balance.near_balance
                then 0
                else x.balance.extra_venear_balance)))
          (internal_lockup_update hash_value hash_pair env a internal update c)
  unfolding internal_lockup_update internal_set_account_internal
  internal_lockup_update-balance env a internal update c b = Ensures-then _ _ λ _ h1.
      Ensures-then _ _ λ x read. Ensures-then _ _ λ g h2. Ensures-then _ _ λ balance h.
        Ensures-then _ _ λ without h3. Ensures-then _ _ λ pool h4.
          Ensures-bind _ _
            (redelegate_all-Follows hash_value hash_pair rate fine env x.balance balance
              x.delegations c b.backed.sound b.backed.config)
            λ d h5 (k, kept).
              let after = record internal { lockup_update_nonce = update.lockup_update_nonce } in
              let y = record x { balance = balance } in
              Ensures-bind _ _
                (internal_set_account-HasSet hash_value hash_pair env a y
                  (internal_set_account_internal a after d) k.sound
                  (expect-IsWhole hash_value hash_pair rate fine env c a x b read))
                λ e h6 (w, same).
                  let (near, extra) = rebalanced-parts x.balance balance internal update h in
                  returns _ (
                    x,
                    y,
                    read,
                    read-set_global_state env (record g { total_venear_balance = pool }) a e
                        ∙ read-set a y (internal_set_account_internal a after d) e w,
                    refl,
                    near,
                    extra,
                  )

  -- At the denominator 10^30, in a state whose supply is backed, after a `set_delegations` that
  -- returns the caller's account has the entries as its delegations, and the balance
  -- that it had grown to.
  pub set_delegations-stored :
      (env : Env) (c : Contract) (entries : List DelegationEntry)
      → IsAccounted hash_value hash_pair rate env.block_timestamp c
      → Ensures
          (λ r.
            (x : Account) × (internal_expect_account_updated env c env.predecessor_account_id
              ≡ ok x)
            × (internal_get_account r.0 env.predecessor_account_id
                ≡ some (record x { delegations = entries })))
          (set_delegations hash_value hash_pair env c entries)
  unfolding set_delegations
  set_delegations-stored env c entries b = Ensures-then _ _ λ _ h1. Ensures-then _ _ λ _ h2.
      Ensures-then _ _ λ sum h3. Ensures-then _ _ λ owner read.
        Ensures-bind _ _
          (undelegate_all-Follows hash_value hash_pair rate fine env owner.balance owner.delegations
            c b.backed.sound b.backed.config)
          λ d h5 (k, same).
            Ensures-bind _ _
              (delegate_all-Follows hash_value hash_pair rate fine env owner.balance entries d
                k.sound
                (config-Keeps hash_value hash_pair rate fine env.block_timestamp c d k
                  b.backed.config))
              λ e h6 (l, again).
                Ensures-bind _ _
                  (internal_set_account-HasSet hash_value hash_pair env env.predecessor_account_id
                    (record owner { delegations = entries }) e l.sound
                    (expect-IsWhole hash_value hash_pair rate fine env c env.predecessor_account_id
                      owner b read))
                  λ f h7 (w, _). Ensures-then _ _ λ refund h8.
                    returns _ (owner, read, read-set env.predecessor_account_id _ e f w)
