-- ===== src/Venear/Nonces/Replay.antt =====
-- Lockup updates in any history: each account's nonces increase from one to the next.
use house_of_stake_contracts.Base.{
  ltb, if◌then◌else◌, is_some, leb→le, Panic, ok, ◌>>=◌, ◌>>◌, require, expect, ok-injective,
  Ensures, returns, Ensures-of, Ensures-apply, Ensures-require, Ensures-bind, Ensures-then,
  Ensures-if, Ensures-map, ℕ, ◌-◌, ◌<◌, ◌≡◌, refl, ap, ◌∙◌, not, Option, none, some, List, arith,
  unwrap_or, run, account_not_found, run-keeps, insufficient_deposit,
}
use mathlib.Core.Option.{map}
use house_of_stake_contracts.Venear.Contract.{
  internal_of, Contract, Env, AccountInternal, current, refunds, VAccountInternal,
}
use house_of_stake_contracts.Venear.Accounts.{
  internal_get_account_internal, storage_deposit, min_storage_balance,
  internal_set_account_internal, internal_register_account,
}
use house_of_stake_contracts.Common.Account.{VAccount, AccountId}
use house_of_stake_contracts.Merkle.{CryptoHash}
use house_of_stake_contracts.Venear.Lockup.{
  LockupUpdateV1, on_lockup_update, deploy_lockup, update_v1, internal_deploy_lockup,
  on_lockup_deployed, prepare_lockup_code, internal_set_lockup,
}
use house_of_stake_contracts.Venear.Calls.{
  deposits_storage, delegates, updates_lockup, deploys_lockup, finishes_deployment,
  prepares_lockup_code, sets_lockup_contract, configures, accepts_ownership, pauses, unpauses,
  perform, Call,
}
use house_of_stake_contracts.Venear.Nonces.{
  HasNonce, internal_register_account-accounts, internal_lockup_update-accounts, insert-HasNonce,
  set_delegations-SameAccounts, same-HasNonce,
}
use house_of_stake_contracts.Merkle.Tree.{insert}
use house_of_stake_contracts.Venear.Governance.{
  set_lockup_contract, owner_sets, accept_ownership, pause, unpause,
}

-- What is read as an account's internals is stored.
expected-stored :
    (o : Option VAccountInternal) (x : AccountInternal) (e : Panic)
    → expect (map internal_of o) e ≡ ok x
    → o ≡ some (current x)
unfolding expect
expected-stored none x e h = cc
expected-stored (some (current y)) x e h = ap (λ i. some (current i)) (ok-injective h)

pub read-stored :
    (c : Contract) (a : AccountId) (x : AccountInternal) (e : Panic)
    → expect (internal_get_account_internal c a) e ≡ ok x
    → c.accounts a ≡ some (current x)
unfolding internal_get_account_internal
read-stored c a x e h = expected-stored (c.accounts a) x e h

current-injective :
    {o : Option VAccountInternal} {x y : AccountInternal}
    → o ≡ some (current x)
    → o ≡ some (current y)
    → x ≡ y
current-injective h k = cc

module _ (hash_value : VAccount → CryptoHash) (hash_pair : CryptoHash → CryptoHash → CryptoHash)
    (get_lockup_account_id : AccountId → AccountId) where
  -- An accepted update is newer than the account's nonce, and becomes it.
  on_lockup_update-accounts :
      (env : Env) (c : Contract) (version : ℕ) (owner : AccountId) (update : LockupUpdateV1)
      → Ensures
          (λ d.
            (x : AccountInternal) × (c.accounts owner ≡ some (current x))
            × (x.lockup_update_nonce < update.lockup_update_nonce)
            × (d.accounts
                ≡ insert c.accounts owner
                    (current (record x { lockup_update_nonce = update.lockup_update_nonce }))))
          (on_lockup_update hash_value hash_pair get_lockup_account_id env c version owner
            (update_v1 update))
  unfolding on_lockup_update
  on_lockup_update-accounts env c version owner update = Ensures-then _ _ λ _ h1.
      Ensures-then _ _ λ x h2. Ensures-then _ _ λ _ h3. Ensures-of _ λ d h.
        let (newer, written) =
          Ensures-apply (internal_lockup_update-accounts hash_value hash_pair env owner x update c)
            h in
        (x, read-stored c owner x account_not_found h2, newer, written)

  module _ (a : AccountId) (nonce deposit : ℕ) where
    storage_deposit-HasNonce :
        (env : Env) (c : Contract) (account_id : Option AccountId)
        → HasNonce a nonce deposit c
        → Ensures
            (λ r. HasNonce a nonce deposit r.0)
            (storage_deposit hash_value hash_pair env c account_id)
    unfolding storage_deposit
    storage_deposit-HasNonce env c account_id n =
        let b = unwrap_or env.predecessor_account_id account_id in
        Ensures-then _ _ λ _ h1.
          Ensures-bind {Q = λ r. HasNonce a nonce deposit r.0}
            (if is_some (internal_get_account_internal c b)
              then ok (c, refunds env.predecessor_account_id env.attached_deposit)
              else do
                require (not (ltb env.attached_deposit (min_storage_balance c)))
                    insufficient_deposit
                d ← internal_register_account hash_value hash_pair env b (min_storage_balance c) c
                ok (
                  d,
                  refunds env.predecessor_account_id (env.attached_deposit - min_storage_balance c),
                ))
            _
            (Ensures-if (is_some (internal_get_account_internal c b)) _ _ (λ e. returns _ n)
              λ e.
                Ensures-then
                  (require (not (ltb env.attached_deposit (min_storage_balance c)))
                    insufficient_deposit)
                  _
                  λ _ h2.
                    Ensures-bind _ _
                      (internal_register_account-accounts hash_value hash_pair env b
                        (min_storage_balance c) c)
                      λ d h3 (fresh, written).
                        returns _
                          (insert-HasNonce a b nonce deposit _ c d n written λ x f. (ground arith)))
            λ r h k. Ensures-then _ _ λ balance h4. returns _ k

    perform-HasNonce :
        (env : Env) (c : Contract) (call : Call)
        → HasNonce a nonce deposit c
        → Ensures
            (HasNonce a nonce deposit)
            (perform hash_value hash_pair get_lockup_account_id env c call)
    unfolding perform deploy_lockup internal_deploy_lockup on_lockup_deployed
        internal_set_account_internal prepare_lockup_code set_lockup_contract internal_set_lockup
        owner_sets accept_ownership pause unpause
    perform-HasNonce env c (deposits_storage account_id) n =
        Ensures-map _ _ (storage_deposit-HasNonce env c account_id n)
    perform-HasNonce env c (delegates entries) n =
        Ensures-bind _ _ (set_delegations-SameAccounts hash_value hash_pair env c entries)
          λ r h same. returns _ (same-HasNonce a nonce deposit c r.0 n same)
    perform-HasNonce env c (updates_lockup version owner (update_v1 update)) n = Ensures-of _ λ d h.
        let (x, e, newer, written) =
          Ensures-apply (on_lockup_update-accounts env c version owner update) h in
        insert-HasNonce a owner nonce deposit _ c d n written λ y f.
          let same : x ≡ y = current-injective e f in
          (omega (arith, ap (λ i. i.lockup_update_nonce) same), ap (λ i. i.deposit) same)
    perform-HasNonce env c deploys_lockup n = Ensures-map _ _ (
        Ensures-then _ _ λ _ h1. Ensures-then _ _ λ _ h2. Ensures-then _ _ λ _ h3.
          Ensures-then _ _ λ _ h4.
            Ensures-then _ _
              λ lockup h5. Ensures-then _ _ λ code h6. Ensures-then _ _ λ nonce h7. returns _ n)
    perform-HasNonce env c (finishes_deployment args) n = Ensures-map _ _ (
        Ensures-then _ _ λ _ h1.
          Ensures-if env.promise_succeeded _ _
            (λ e. Ensures-then _ _ λ x h2. Ensures-require _ _ _ λ le.
              let deployed = record x {
                lockup_version = some args.version;
                lockup_update_nonce = args.lockup_update_nonce;
              } in
              returns _ (
                insert-HasNonce a args.account_id nonce deposit deployed c
                  (internal_set_account_internal args.account_id deployed c) n refl
                  λ y f.
                    let same : x ≡ y =
                      current-injective (read-stored c args.account_id x account_not_found h2) f in
                    (
                      omega (arith, leb→le _ _ le, ap (λ i. i.lockup_update_nonce) same),
                      ap (λ i. i.deposit) same,
                    )))
            λ e. returns _ n)
    perform-HasNonce env c (prepares_lockup_code code) n = Ensures-map _ _ (
        Ensures-then _ _ λ _ h1. Ensures-then _ _ λ _ h2.
          Ensures-then _ _
            λ grown_by h3. Ensures-then _ _ λ cost h4. Ensures-then _ _ λ _ h5. returns _ n)
    perform-HasNonce env c (sets_lockup_contract h d) n = Ensures-then _ _ λ _ h1.
        Ensures-then _ _ λ _ h2.
          Ensures-bind {Q = HasNonce a nonce deposit} _ _
            (Ensures-then _ _
              λ code h3. Ensures-then _ _ λ _ h4. Ensures-then _ _ λ version h5. returns _ n)
            λ d h6 k. returns _ k
    perform-HasNonce env c (configures setting) n =
        Ensures-then _ _ λ _ h1. Ensures-then _ _ λ _ h2. returns _ n
    perform-HasNonce env c accepts_ownership n =
        Ensures-then _ _ λ _ h1. Ensures-then _ _ λ _ h2. returns _ n
    perform-HasNonce env c pauses n = Ensures-then _ _ λ _ h1. Ensures-then _ _ λ _ h2. returns _ n
    perform-HasNonce env c unpauses n =
        Ensures-then _ _ λ _ h1. Ensures-then _ _ λ _ h2. returns _ n

  -- Once a lockup update of an account has been taken, whatever calls follow, in any order and by any
  -- caller: only an update with a greater nonce is taken for that account, so none is taken twice.
  pub nonce_increases :
      (env later : Env) (c d e : Contract) (v w : ℕ) (owner : AccountId)
      (first second : LockupUpdateV1) (calls : List (Env × Call))
      → on_lockup_update hash_value hash_pair get_lockup_account_id env c v owner (update_v1 first)
        ≡ ok d
      → on_lockup_update hash_value hash_pair get_lockup_account_id later
          (run (perform hash_value hash_pair get_lockup_account_id) d calls)
          w
          owner
          (update_v1 second)
        ≡ ok e
      → first.lockup_update_nonce < second.lockup_update_nonce
  nonce_increases env later c d e v w owner first second calls taken again =
      let (x, stored, newer, written) =
        Ensures-apply (on_lockup_update-accounts env c v owner first) taken in
      let here : HasNonce owner first.lockup_update_nonce x.deposit d = (
        record x { lockup_update_nonce = first.lockup_update_nonce },
        ap (λ m. m owner) written ∙ ground arith,
        omega arith,
        refl,
      ) in
      let (y, there, at_least, _) =
        run-keeps (perform hash_value hash_pair get_lockup_account_id)
          (HasNonce owner first.lockup_update_nonce x.deposit)
          (perform-HasNonce owner first.lockup_update_nonce x.deposit) d calls here in
      let (z, found, newer_still, _) =
        Ensures-apply (on_lockup_update-accounts later _ w owner second) again in
      let same : y.lockup_update_nonce ≡ z.lockup_update_nonce =
        ap (λ i. i.lockup_update_nonce) (current-injective there found) in
      omega arith
