-- ===== src/Venear/Nonces.antt =====
-- The nonces of lockup updates: no update is taken twice, and none out of order.
pub mod Replay
use house_of_stake_contracts.Base.{
  is_some, ltb→lt, Result, ◌>>=◌, Ensures, returns, Ensures-of, Ensures-apply, Ensures-require,
  Ensures-bind, Ensures-then, ℕ, ◌≤◌, ◌<◌, ◌≡◌, refl, sym, ap, ◌∙◌, false, some, List, [], ◌∷◌,
  arith,
}
use house_of_stake_contracts.Venear.Contract.{Contract, Env, AccountInternal, current}
use house_of_stake_contracts.Common.GlobalState
use house_of_stake_contracts.Common.Account
use house_of_stake_contracts.Common.Account.{VAccount, AccountId, Account, DelegationEntry}
use house_of_stake_contracts.Merkle.{CryptoHash}
use house_of_stake_contracts.Venear.Delegations.{
  delegate_all, change_pool, undelegate_all, set_delegations,
}
use house_of_stake_contracts.Merkle.Tree.{insert}
use house_of_stake_contracts.Venear.Lockup.{internal_lockup_update, redelegate_all, LockupUpdateV1}
use house_of_stake_contracts.Venear.Accounts.{
  internal_set_account, internal_register_account, internal_set_account_internal,
  internal_set_global_state, fresh_internal,
}
use house_of_stake_contracts.Common.Balance.{VenearBalance, PooledVenearBalance}
use native.Mathlib.Decide.{ℕ_discrete}

-- An account that is registered with a deposit, and whose nonce is at least `nonce`.
abbrev pub HasNonce : AccountId → ℕ → ℕ → Contract → Type 0
HasNonce a nonce deposit c =
    (x : AccountInternal) × (c.accounts a ≡ some (current x))
    × (nonce ≤ x.lockup_update_nonce)
    × (x.deposit ≡ deposit)

pub same-HasNonce :
    (a : AccountId) (nonce deposit : ℕ) (c d : Contract)
    → HasNonce a nonce deposit c
    → d.accounts ≡ c.accounts
    → HasNonce a nonce deposit d
same-HasNonce a nonce deposit c d (x, e, le, same) accounts =
    (x, ap (λ m. m a) accounts ∙ e, le, same)

-- An entry is written that is new, or that has the deposit of the old one and no smaller nonce.
pub insert-HasNonce :
    (a b : AccountId) (nonce deposit : ℕ) (y : AccountInternal) (c d : Contract)
    → HasNonce a nonce deposit c
    → d.accounts ≡ insert c.accounts b (current y)
    → ((x : AccountInternal)
        → c.accounts b ≡ some (current x)
        → (x.lockup_update_nonce ≤ y.lockup_update_nonce) × (y.deposit ≡ x.deposit))
    → HasNonce a nonce deposit d
insert-HasNonce a b nonce deposit y c d (x, e, le, same) accounts grows = elim (ℕ_discrete a b) [
  | yes here ↦
      let (more, kept) = grows x (ap c.accounts (sym here) ∙ e) in
      (y, ap (λ m. m a) accounts ∙ ground arith, omega arith, kept ∙ same)
  | no apart ↦ (x, ap (λ m. m a) accounts ∙ ground arith, le, same)
]

module _ (hash_value : VAccount → CryptoHash)
    (hash_pair : CryptoHash → CryptoHash → CryptoHash) where
  abbrev SameAccounts : Contract → Contract → Type 0
  SameAccounts c d = d.accounts ≡ c.accounts

  internal_set_account-SameAccounts :
      (env : Env) (a : AccountId) (x : Account) (c : Contract)
      → Ensures (SameAccounts c) (internal_set_account hash_value hash_pair env a x c)
  unfolding internal_set_account
  internal_set_account-SameAccounts env a x c =
      Ensures-then _ _
        λ old h1. Ensures-then _ _ λ new h2. Ensures-then _ _ λ tree h3. returns _ refl

  change_pool-SameAccounts :
      (env : Env) (a : AccountId) (change : PooledVenearBalance → Result PooledVenearBalance)
      (c : Contract)
      → Ensures (SameAccounts c) (change_pool hash_value hash_pair env a change c)
  unfolding change_pool
  change_pool-SameAccounts env a change c =
      Ensures-then _ _
        λ delegate h1. Ensures-then _ _ λ pool h2. internal_set_account-SameAccounts env a _ c

  then-SameAccounts :
      (m : Result Contract) (rest : Contract → Result Contract) (c : Contract)
      → Ensures (SameAccounts c) m
      → ((d : Contract) → Ensures (SameAccounts d) (rest d))
      → Ensures (SameAccounts c) (m >>= rest)
  then-SameAccounts m rest c first onward =
      Ensures-bind m rest first λ d h same. Ensures-of _ λ e k. Ensures-apply (onward d) k ∙ same

  undelegate_all-SameAccounts :
      (env : Env) (balance : VenearBalance) (ds : List DelegationEntry) (c : Contract)
      → Ensures (SameAccounts c) (undelegate_all hash_value hash_pair env balance ds c)
  unfolding undelegate_all
  undelegate_all-SameAccounts env balance [] c = returns c refl
  undelegate_all-SameAccounts env balance (d ∷ ds) c =
      then-SameAccounts _ _ c (change_pool-SameAccounts env d.account_id _ c)
        (undelegate_all-SameAccounts env balance ds)

  delegate_all-SameAccounts :
      (env : Env) (balance : VenearBalance) (ds : List DelegationEntry) (c : Contract)
      → Ensures (SameAccounts c) (delegate_all hash_value hash_pair env balance ds c)
  unfolding delegate_all
  delegate_all-SameAccounts env balance [] c = returns c refl
  delegate_all-SameAccounts env balance (d ∷ ds) c =
      then-SameAccounts _ _ c (change_pool-SameAccounts env d.account_id _ c)
        (delegate_all-SameAccounts env balance ds)

  redelegate_all-SameAccounts :
      (env : Env) (old new : VenearBalance) (ds : List DelegationEntry) (c : Contract)
      → Ensures (SameAccounts c) (redelegate_all hash_value hash_pair env old new ds c)
  unfolding redelegate_all
  redelegate_all-SameAccounts env old new [] c = returns c refl
  redelegate_all-SameAccounts env old new (d ∷ ds) c =
      then-SameAccounts _ _ c (change_pool-SameAccounts env d.account_id _ c)
        (redelegate_all-SameAccounts env old new ds)

  pub set_delegations-SameAccounts :
      (env : Env) (c : Contract) (entries : List DelegationEntry)
      → Ensures (λ r. SameAccounts c r.0) (set_delegations hash_value hash_pair env c entries)
  unfolding set_delegations
  set_delegations-SameAccounts env c entries = Ensures-then _ _ λ _ h1. Ensures-then _ _ λ _ h2.
      Ensures-then _ _ λ sum h3. Ensures-then _ _ λ owner h4.
        Ensures-bind _ _ (undelegate_all-SameAccounts env owner.balance owner.delegations c)
          λ d h5 s5.
            Ensures-bind _ _ (delegate_all-SameAccounts env owner.balance entries d) λ e h6 s6.
              Ensures-bind _ _ (internal_set_account-SameAccounts env _ _ e)
                λ f h7 s7. Ensures-then _ _ λ refund h8. returns _ (s7 ∙ s6 ∙ s5)

  -- What a lockup update does to the accounts.
  pub internal_lockup_update-accounts :
      (env : Env) (a : AccountId) (internal : AccountInternal) (update : LockupUpdateV1)
      (c : Contract)
      → Ensures
          (λ d.
            (internal.lockup_update_nonce < update.lockup_update_nonce)
            × (d.accounts
                ≡ insert c.accounts a (
                    current
                      (record internal { lockup_update_nonce = update.lockup_update_nonce }))))
          (internal_lockup_update hash_value hash_pair env a internal update c)
  unfolding internal_lockup_update internal_set_account_internal internal_set_global_state
  internal_lockup_update-accounts env a internal update c = Ensures-require _ _ _ λ newer.
      Ensures-then _ _ λ x h1. Ensures-then _ _ λ g h2. Ensures-then _ _ λ balance h3.
        Ensures-then _ _ λ without h4. Ensures-then _ _ λ supply h5.
          Ensures-bind _ _ (redelegate_all-SameAccounts env x.balance balance x.delegations c)
            λ d h6 s6. Ensures-bind _ _ (internal_set_account-SameAccounts env a _ _) λ e h7 s7.
              returns _ (
                ltb→lt _ _ newer,
                s7
                    ∙ ap
                        (λ m. insert m a (
                          current
                            (record internal { lockup_update_nonce = update.lockup_update_nonce })))
                        s6,
              )

  pub internal_register_account-accounts :
      (env : Env) (a : AccountId) (deposit : ℕ) (c : Contract)
      → Ensures
          (λ d.
            (is_some (c.accounts a) ≡ false)
            × (d.accounts
                ≡ insert c.accounts a (current (fresh_internal hash_value hash_pair deposit))))
          (internal_register_account hash_value hash_pair env a deposit c)
  unfolding internal_register_account internal_set_account_internal internal_set_global_state
  internal_register_account-accounts env a deposit c = Ensures-require _ _ _ λ fresh.
      Ensures-then _ _ λ g h2. Ensures-then _ _ λ supply h3.
        Ensures-bind _ _ (internal_set_account-SameAccounts env a _ _)
          λ e h7 s7. returns _ (ground arith, s7)
