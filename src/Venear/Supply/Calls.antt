-- ===== src/Venear/Supply/Calls.antt =====
-- Every entry point of the veNEAR contract keeps the total supply backed.
use house_of_stake_contracts.Base.{
  leb, ltb, ◌==◌, if◌then◌else◌, is_some, ok, ◌>>=◌, ◌>>◌, require, expect, Ensures, returns,
  Ensures-bind, Ensures-then, Ensures-if, ℕ, ◌-◌, ◌≤◌, ◌≡◌, refl, sym, ap, subst, ◌∙◌, not, Option,
  none, arith, unwrap_or, only_proposed_owner, paused, account_not_found, invalid_nonce,
  insufficient_deposit, unwrap_none, permission_denied, invalid_lockup_version,
}
use house_of_stake_contracts.Venear.Contract.{
  Contract, Env, assert_one_yocto, LockupCode, assert_guardian, assert_owner, OnLockupDeployedArgs,
  assert_private, refunds,
}
use house_of_stake_contracts.Merkle.Tree.{get}
use house_of_stake_contracts.Venear.Supply.{IsBacked, IsAccounted}
use house_of_stake_contracts.Common.Account.{VAccount, AccountId}
use house_of_stake_contracts.Merkle.{CryptoHash}
use house_of_stake_contracts.Common.Growth.{Fraction}
use house_of_stake_contracts.Venear.Lockup.{
  update_v1, prepare_lockup_code, on_lockup_deployed, deploy_lockup, on_lockup_update,
  internal_deploy_lockup, internal_set_lockup, VLockupUpdate, is_version,
}
use house_of_stake_contracts.Venear.Governance.{
  accept_ownership, set_lockup_contract, owner_sets, pause, unpause, Setting, is_proposed,
}
use house_of_stake_contracts.Venear.Accounts.{
  storage_deposit, internal_set_account_internal, internal_get_account_internal,
  min_storage_balance, internal_register_account, storage_balance_of,
}
use house_of_stake_contracts.Common.Exact.{fine_grain}
use house_of_stake_contracts.Venear.Supply.Registering.{internal_register_account-IsAccounted}
use house_of_stake_contracts.Venear.Supply.Rebalancing.{internal_lockup_update-IsAccounted}

module _ (hash_value : VAccount → CryptoHash) (hash_pair : CryptoHash → CryptoHash → CryptoHash)
    (rate : Fraction) where
  -- A call that leaves the tree alone and forgets no account.
  beside-IsAccounted :
      (now : ℕ) (c d : Contract)
      → IsAccounted hash_value hash_pair rate now c
      → d.tree ≡ c.tree
      → ((a : AccountId) → d.accounts a ≡ none → c.accounts a ≡ none)
      → IsAccounted hash_value hash_pair rate now d
  beside-IsAccounted now c d b same none_there = record {
    backed = subst (IsBacked hash_value hash_pair rate now) (sym same) b.backed;
    known = λ a e. ap (λ t. get t a) same ∙ b.known a (none_there a e);
  }

  -- Time passes.
  pub later-IsAccounted :
      (now later : ℕ) (c : Contract)
      → now ≤ later
      → IsAccounted hash_value hash_pair rate now c
      → IsAccounted hash_value hash_pair rate later c
  later-IsAccounted now later c le b = record {
    backed = record {
      sound = b.backed.sound;
      config = b.backed.config;
      pool_whole = b.backed.pool_whole;
      pool_past = omega (arith, b.backed.pool_past);
      pool_near = b.backed.pool_near;
      pool_worth = λ time whole after. b.backed.pool_worth time whole (omega arith);
    };
    known = b.known;
  }

  module _ (env : Env) (c : Contract)
      (b : IsAccounted hash_value hash_pair rate env.block_timestamp c) where
    abbrev Kept : Contract → Type 0
    Kept = IsAccounted hash_value hash_pair rate env.block_timestamp

    abbrev aside : (d : Contract) → d.tree ≡ c.tree → d.accounts ≡ c.accounts → Kept d
    aside d tree accounts =
        beside-IsAccounted env.block_timestamp c d b tree λ a e. sym (ap (λ m. m a) accounts) ∙ e

    pub storage_deposit-IsAccounted :
        rate.denominator ≡ fine_grain
        → (account_id : Option AccountId)
        → Ensures (λ r. Kept r.0) (storage_deposit hash_value hash_pair env c account_id)
    unfolding storage_deposit
    storage_deposit-IsAccounted fine account_id =
        let a = unwrap_or env.predecessor_account_id account_id in
        Ensures-then (require (not c.is_paused) paused) _ λ _ h1.
          Ensures-bind {Q = λ r. Kept r.0}
            (if is_some (internal_get_account_internal c a)
              then ok (c, refunds env.predecessor_account_id env.attached_deposit)
              else do
                require (not (ltb env.attached_deposit (min_storage_balance c)))
                    insufficient_deposit
                d ← internal_register_account hash_value hash_pair env a (min_storage_balance c) c
                ok (
                  d,
                  refunds env.predecessor_account_id (env.attached_deposit - min_storage_balance c),
                ))
            _
            (Ensures-if (is_some (internal_get_account_internal c a)) _ _ (λ e. returns _ b)
              λ e.
                Ensures-then
                  (require (not (ltb env.attached_deposit (min_storage_balance c)))
                    insufficient_deposit)
                  _
                  λ _ h2.
                    Ensures-bind
                      (internal_register_account hash_value hash_pair env a (min_storage_balance c)
                        c)
                      _
                      (internal_register_account-IsAccounted hash_value hash_pair rate fine env a
                        (min_storage_balance c) c b)
                      λ d h3 k. returns _ k)
            λ r h k.
              Ensures-then (expect (storage_balance_of r.0 a) unwrap_none) _
                λ balance h4. returns _ k

    pub on_lockup_update-IsAccounted :
        rate.denominator ≡ fine_grain
        → (get_lockup_account_id : AccountId → AccountId) (version : ℕ) (owner : AccountId)
          (update : VLockupUpdate)
        → Ensures Kept
            (on_lockup_update hash_value hash_pair get_lockup_account_id env c version owner update)
    unfolding on_lockup_update
    on_lockup_update-IsAccounted fine get_lockup_account_id version owner (update_v1 update) =
        Ensures-then
          (require (env.predecessor_account_id == get_lockup_account_id owner) permission_denied) _
          λ _ h1.
            Ensures-then (expect (internal_get_account_internal c owner) account_not_found) _
              λ internal h2.
                Ensures-then
                  (require (is_version internal.lockup_version version) invalid_lockup_version) _
                  λ _ h3.
                    internal_lockup_update-IsAccounted hash_value hash_pair rate fine env owner
                      internal update c b

    pub on_lockup_deployed-IsAccounted :
        (get_lockup_account_id : AccountId → AccountId) (args : OnLockupDeployedArgs)
        → Ensures (λ r. Kept r.0) (on_lockup_deployed get_lockup_account_id env c args)
    unfolding on_lockup_deployed internal_set_account_internal
    on_lockup_deployed-IsAccounted get_lockup_account_id args =
        Ensures-then (assert_private env) _ λ _ h1.
          Ensures-if env.promise_succeeded _ _
            (λ e.
              Ensures-then
                (expect (internal_get_account_internal c args.account_id) account_not_found) _
                λ internal h2.
                  Ensures-then
                    (require (leb internal.lockup_update_nonce args.lockup_update_nonce)
                      invalid_nonce)
                    _
                    λ _ h3.
                      returns _ (
                        beside-IsAccounted env.block_timestamp c _ b refl λ a gone. (ground arith)))
            λ e. returns _ b

    pub deploy_lockup-IsAccounted :
        (get_lockup_account_id : AccountId → AccountId)
        → Ensures (λ r. Kept r.0) (deploy_lockup get_lockup_account_id env c)
    unfolding deploy_lockup internal_deploy_lockup
    deploy_lockup-IsAccounted get_lockup_account_id = Ensures-then _ _ λ _ h1.
        Ensures-then _ _ λ _ h2. Ensures-then _ _ λ _ h3. Ensures-then _ _ λ _ h4.
          Ensures-then _ _
            λ lockup h5. Ensures-then _ _ λ code h6. Ensures-then _ _ λ nonce h7. returns _ b

    pub prepare_lockup_code-IsAccounted :
        (code : LockupCode) → Ensures (λ r. Kept r.0) (prepare_lockup_code env c code)
    unfolding prepare_lockup_code
    prepare_lockup_code-IsAccounted code = Ensures-then _ _ λ _ h1. Ensures-then _ _ λ _ h2.
        Ensures-then _ _ λ grown_by h3.
          Ensures-then _ _ λ cost h4. Ensures-then _ _ λ _ h5. returns _ (aside _ refl refl)

    pub set_lockup_contract-IsAccounted :
        (contract_hash : CryptoHash) (deposit : ℕ)
        → Ensures Kept (set_lockup_contract env c contract_hash deposit)
    unfolding set_lockup_contract internal_set_lockup
    set_lockup_contract-IsAccounted contract_hash deposit = Ensures-then _ _ λ _ h1.
        Ensures-then _ _ λ _ h2.
          Ensures-bind {Q = λ d. (d.tree ≡ c.tree) × (d.accounts ≡ c.accounts)} _ _
            (Ensures-then _ _ λ code h3.
              Ensures-then _ _ λ _ h4. Ensures-then _ _ λ version h5. returns _ (refl, refl))
            λ d h6 (tree, accounts). returns _ (aside _ tree accounts)

    pub owner_sets-IsAccounted : (setting : Setting) → Ensures Kept (owner_sets env c setting)
    unfolding owner_sets
    owner_sets-IsAccounted setting =
        Ensures-then (assert_one_yocto env) _
          λ _ h1. Ensures-then (assert_owner env c) _ λ _ h2. returns _ (aside _ refl refl)

    pub accept_ownership-IsAccounted : Ensures Kept (accept_ownership env c)
    unfolding accept_ownership
    accept_ownership-IsAccounted = Ensures-then (assert_one_yocto env) _ λ _ h1.
        Ensures-then
          (require (is_proposed c.config.proposed_new_owner_account_id env.predecessor_account_id)
            only_proposed_owner)
          _ λ _ h2. returns _ (aside _ refl refl)

    pub pause-IsAccounted : Ensures Kept (pause env c)
    unfolding pause
    pause-IsAccounted =
        Ensures-then (assert_one_yocto env) _
          λ _ h1. Ensures-then (assert_guardian env c) _ λ _ h2. returns _ (aside _ refl refl)

    pub unpause-IsAccounted : Ensures Kept (unpause env c)
    unfolding unpause
    unpause-IsAccounted =
        Ensures-then (assert_one_yocto env) _
          λ _ h1. Ensures-then (assert_owner env c) _ λ _ h2. returns _ (aside _ refl refl)
