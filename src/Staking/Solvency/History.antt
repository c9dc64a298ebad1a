-- ===== src/Staking/Solvency/History.antt =====
-- What users have coming is in the buckets of their validator, in any history of calls
-- (staking-contract/src).
use house_of_stake_contracts.Base.{
  is_some, Result, ok, ◌>>=◌, >>=-eq-ok, ok-injective, Ensures, returns, Ensures-of, Ensures-apply,
  Ensures-require, Ensures-bind, Ensures-then, ℕ, ◌≤◌, ◌≡◌, refl, sym, ap, subst, false, Option,
  none, some, List, arith, validator_not_found,
}
use house_of_stake_contracts.Common.Account.{AccountId}
use house_of_stake_contracts.Staking.Calls.{
  Call, staked_net, unstaked_net, is_released, adds, pauses, removes, perform, buys_shares,
  sells_shares, claims, starts, reads_account, fetched, resumes,
}
use house_of_stake_contracts.Staking.Types.{Contract, Env, Validator}
use house_of_stake_contracts.Staking.Solvency.Shares.{
  IsFit, IsSolvent, owed, owed_in, liabilities, Staked-IsSolvent, shares_in, Unstaked-IsSolvent,
}
use house_of_stake_contracts.Staking.Epoch.{on_epoch_pipeline_terminal_release}
use house_of_stake_contracts.Staking.Solvency.{Grows, set-Grows, Covers, insert-Covers}
use house_of_stake_contracts.Staking.Validators.{
  add_validator, pause_validator, internal_set_validator, remove_validator, shares_of,
}
use house_of_stake_contracts.Staking.Sums.{sum_over-same}
use house_of_stake_contracts.Staking.Effects.{
  internal_stake-Staked, internal_unstake-Unstaked, expect-eq,
}
use house_of_stake_contracts.Staking.Solvency.Claims.{
  Claimed-IsSolvent, payout_user_withdraw-Claimed,
}
use house_of_stake_contracts.Staking.Solvency.Settling.{
  start-Grows, after_account-Grows, on_epoch_withdraw_transfer_done-Grows, after_withdraw-Grows,
  on_deposit_and_stake-Grows, on_unstake-Grows, release-Grows, written,
}

-- Calls, and the pipeline's answers, one after the other; amounts stay within their types.
pub data History {UserAction : Type 0} (payable_refund : UserAction → Option (AccountId × ℕ))
    (c : Contract) : Contract → Type 0 where
  begins : History payable_refund c c
  goes_on :
      (d e : Contract) (env : Env) (call : AccountId × Call UserAction)
      → History payable_refund c d
      → perform payable_refund env d call ≡ ok e
      → IsFit d
      → IsFit e
      → History payable_refund c e

Grows-IsSolvent : (c d : Contract) → IsFit c → IsSolvent c → Grows c d → IsSolvent d
Grows-IsSolvent c d fits (owes, holds) g = (
  λ id xs distinct.
      let same =
        sum_over-same (λ a. owed c a id) (λ a. owed d a id) xs
          λ a. ap (λ m. owed_in (m a id)) g.same_tranches in
      let more : liabilities c id ≤ liabilities d id = (g.covers id).1 ((fits id).0) in
      omega (arith, owes id xs distinct, same, more),
  λ id xs distinct.
      let same =
        sum_over-same (λ a. shares_of c a id) (λ a. shares_of d a id) xs
          λ a. ap (λ m. shares_in (m a id)) g.same_shares in
      omega (arith, holds id xs distinct, same, (g.covers id).0),
)

none-Covers :
    (o : Option Validator) (w : Validator)
    → is_some o ≡ false
    → w.total_shares ≡ 0
    → Covers o (some w)
none-Covers none w fresh none_issued = (sym none_issued, λ fits. omega arith)
none-Covers (some v) w fresh none_issued = absurd (cc)

fresh-Grows :
    (c : Contract) (id : AccountId) (w : Validator) (ids : List AccountId)
    → is_some (c.validators id) ≡ false
    → w.total_shares ≡ 0
    → Grows c (record (internal_set_validator id w c) { validator_ids = ids })
fresh-Grows c id w ids fresh none_issued = record {
  same_tranches = refl;
  same_shares = refl;
  covers =
      λ i. insert-Covers c.validators id i w (none-Covers (c.validators id) w fresh none_issued);
}

module _ {UserAction : Type 0} (payable_refund : UserAction → Option (AccountId × ℕ)) where
  -- A call whose state, of what it returns, is sound.
  grown :
      {B : Type 0} (c : Contract) (m : Result (Contract × B))
      → IsFit c
      → IsSolvent c
      → Ensures (λ r. Grows c (r.0)) m
      → Ensures IsSolvent (m >>= λ r. ok (r.0))
  grown c m fits solvent h =
      Ensures-bind m _ h λ r e g. returns _ (Grows-IsSolvent c (r.0) fits solvent g)

  grown_alone :
      (c : Contract) (m : Result Contract)
      → IsFit c
      → IsSolvent c
      → Ensures (Grows c) m
      → Ensures IsSolvent m
  grown_alone c m fits solvent h =
      Ensures-of m λ d e. Grows-IsSolvent c d fits solvent (Ensures-apply h e)

  perform-IsSolvent :
      (env : Env) (c d : Contract) (call : AccountId × Call UserAction)
      → IsFit c
      → IsFit d
      → IsSolvent c
      → perform payable_refund env c call ≡ ok d
      → IsSolvent d
  unfolding perform on_epoch_pipeline_terminal_release add_validator pause_validator
      remove_validator
  perform-IsSolvent env c d (id, buys_shares buyer deposit) fits later solvent h =
      let (r, returned, last) = >>=-eq-ok _ _ h in
      let same : r.0 ≡ d = ok-injective last in
      subst IsSolvent same (
        Staked-IsSolvent c buyer id deposit r solvent (subst IsFit (sym same) later)
          (Ensures-apply (internal_stake-Staked c buyer id deposit) returned))
  perform-IsSolvent env c d (id, sells_shares account shares) fits later solvent h =
      let (r, returned, last) = >>=-eq-ok _ _ h in
      subst IsSolvent (ok-injective last) (
        Unstaked-IsSolvent env c account id shares r solvent
          (Ensures-apply (internal_unstake-Unstaked env c account id shares) returned))
  perform-IsSolvent env c d (id, claims account) fits later solvent h =
      let (r, returned, last) = >>=-eq-ok _ _ h in
      subst IsSolvent (ok-injective last) (
        Claimed-IsSolvent env c account id r solvent
          (Ensures-apply (payout_user_withdraw-Claimed env c account id) returned))
  perform-IsSolvent env c d (id, starts cont) fits later solvent h =
      Ensures-apply (grown c _ fits solvent (start-Grows env c id cont)) h
  perform-IsSolvent env c d (id, reads_account answer cont) fits later solvent h =
      Ensures-apply
        (grown c _ fits solvent (after_account-Grows payable_refund env c answer id cont)) h
  perform-IsSolvent env c d (id, fetched withdrawn) fits later solvent h =
      Ensures-apply
        (grown_alone c _ fits solvent (on_epoch_withdraw_transfer_done-Grows env c id withdrawn)) h
  perform-IsSolvent env c d (id, resumes answer cont) fits later solvent h =
      Ensures-apply (grown c _ fits solvent (after_withdraw-Grows env c answer id cont)) h
  perform-IsSolvent env c d (id, staked_net) fits later solvent h =
      Ensures-apply (grown_alone c _ fits solvent (on_deposit_and_stake-Grows env c id)) h
  perform-IsSolvent env c d (id, unstaked_net) fits later solvent h =
      Ensures-apply (grown_alone c _ fits solvent (on_unstake-Grows env c id)) h
  perform-IsSolvent env c d (id, is_released) fits later solvent h =
      Ensures-apply (grown_alone c _ fits solvent (Ensures-then _ _ λ _ h1. release-Grows c id)) h
  perform-IsSolvent env c d (id, adds) fits later solvent h =
      Ensures-apply
        (grown_alone c _ fits solvent (
          Ensures-then _ _ λ _ h1. Ensures-then _ _ λ _ h2.
            Ensures-require _ _ _
              λ h3. Ensures-then _ _ λ _ h4. returns _ (fresh-Grows c id _ _ (ground arith) refl)))
        h
  perform-IsSolvent env c d (id, pauses) fits later solvent h =
      Ensures-apply
        (grown_alone c _ fits solvent (
          Ensures-then _ _
            λ _ h1. Ensures-then _ _ λ _ h2. written c id _ λ v. (refl, λ fit. omega arith)))
        h
  perform-IsSolvent env c d (id, removes) fits later solvent h =
      Ensures-apply
        (grown_alone c _ fits solvent (
          Ensures-then _ _ λ _ h1. Ensures-then _ _ λ _ h2.
            Ensures-bind _ _ (expect-eq _ validator_not_found) λ v h3 found.
              Ensures-then _ _
                λ _ h4. returns _ (set-Grows c id v _ found refl λ fit. omega arith)))
        h

  -- From a contract in which it is so, in any history of calls and answers in any order, by any
  -- callers: however many different accounts are looked at, what they have unstaked at a
  -- validator and not claimed is at most what its buckets hold for users (to unstake, to
  -- withdraw and to claim), and the shares that they hold are at most those issued. The amounts of
  -- the buckets and the shares have to stay within their types.
  pub History-IsSolvent : (c d : Contract) → IsSolvent c → History payable_refund c d → IsSolvent d
  History-IsSolvent c _ solvent begins = solvent
  History-IsSolvent c _ solvent (goes_on d e env call history returned fits later) =
      perform-IsSolvent env d e call fits later (History-IsSolvent c d solvent history) returned
