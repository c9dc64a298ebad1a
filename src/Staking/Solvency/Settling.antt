-- ===== src/Staking/Solvency/Settling.antt =====
-- The pipeline of an epoch takes nothing from the users (staking-contract/src/epoch.rs).
use house_of_stake_contracts.Base.{
  ltb, ◌==◌, Result, ok, ◌>>=◌, u128_max, Ensures, returns, Ensures-of, Ensures-apply,
  Ensures-require, Ensures-bind, Ensures-then, Ensures-if, ℕ, ◌-◌, ◌≤◌, ◌≡◌, refl, sym, ap, ◌∙◌,
  inl, inr, Bool, false, not, ◌&&◌, ◌||◌, Option, none, some, arith, validator_not_found, unwrap_or,
}
use house_of_stake_contracts.Common.Account.{AccountId}
use house_of_stake_contracts.Staking.Epoch.{
  mark_epoch_settlement_handled, on_deposit_and_stake, release_validator_pool_pipeline,
  apply_net_zero_pending_matched_clear, on_epoch_withdraw_transfer_done, on_unstake,
  try_epoch_stake_or_unstake, Next, credit_withdrawn, on_epoch_settlement_after_pool_account,
  start_settlement, on_after_pool_withdraw_maybe_settle, dispatches, releases, transfers,
}
use house_of_stake_contracts.Staking.Types.{
  Contract, Validator, Env, idle, PoolAccountView, total_balance, is_busy,
}
use house_of_stake_contracts.Staking.Solvency.{
  Grows, Grows-refl, liability, set-Grows, issued_at, liability_at, insert-cases,
}
use house_of_stake_contracts.Staking.Effects.{expect-eq}
use house_of_stake_contracts.Staking.Validators.{
  require_validator, internal_set_validator, require_validator_busy, require_validator_idle,
  validator_unstake_waiting_finished,
}
use house_of_stake_contracts.Merkle.Tree.{insert}

-- One validator is read, and written with buckets that hold no less.
pub written :
    (c : Contract) (id : AccountId) (w : Validator → Validator)
    → ((v : Validator)
        → ((w v).total_shares ≡ v.total_shares)
          × (liability v ≤ u128_max → liability v ≤ liability (w v)))
    → Ensures (Grows c) (require_validator c id >>= λ v. ok (internal_set_validator id (w v) c))
written c id w keeps =
    Ensures-bind _ _ (expect-eq _ validator_not_found)
      λ v h found. returns _ (set-Grows c id v (w v) found ((keeps v).0) ((keeps v).1))

mark-Grows :
    (env : Env) (c : Contract) (id : AccountId)
    → Ensures (Grows c) (mark_epoch_settlement_handled env c id)
unfolding mark_epoch_settlement_handled
mark-Grows env c id =
    written c id (λ v. record v { last_settlement_epoch = env.epoch_height })
      λ v. (refl, λ fits. omega arith)

pub release-Grows :
    (c : Contract) (id : AccountId) → Ensures (Grows c) (release_validator_pool_pipeline c id)
unfolding release_validator_pool_pipeline
release-Grows c id =
    written c id (λ v. record v { tx_status = idle }) λ v. (refl, λ fits. omega arith)

net_zero-Grows :
    (env : Env) (c : Contract) (id : AccountId) (matched : ℕ)
    → Ensures (Grows c) (apply_net_zero_pending_matched_clear env c id matched)
unfolding apply_net_zero_pending_matched_clear
net_zero-Grows env c id matched = Ensures-bind _ _ (expect-eq _ validator_not_found) λ v h found.
    Ensures-if (not (v.pending_to_stake == matched) || not (v.pending_to_unstake == matched)) _ _
      (λ changed. returns _ (Grows-refl c))
      λ same. returns _ (set-Grows c id v _ found refl λ fits. (ground arith))

pub on_unstake-Grows :
    (env : Env) (c : Contract) (id : AccountId) → Ensures (Grows c) (on_unstake env c id)
unfolding on_unstake
on_unstake-Grows env c id = Ensures-then _ _ λ _ h1.
    Ensures-if (not env.promise_succeeded) _ _ (λ e. returns _ (Grows-refl c))
      λ e. Ensures-bind _ _ (expect-eq _ validator_not_found) λ v h2 found.
        Ensures-require _ _ _ λ h3. returns _ (set-Grows c id v _ found refl λ fits. (ground arith))

pub on_deposit_and_stake-Grows :
    (env : Env) (c : Contract) (id : AccountId) → Ensures (Grows c) (on_deposit_and_stake env c id)
unfolding on_deposit_and_stake
on_deposit_and_stake-Grows env c id = Ensures-then _ _ λ _ h1.
    Ensures-if (not env.promise_succeeded) _ _ (λ e. returns _ (Grows-refl c))
      λ e. Ensures-bind _ _ (expect-eq _ validator_not_found) λ v h2 found.
        Ensures-require _ _ _ λ h3.
          Ensures-then _ _
            λ total h4. returns _ (set-Grows c id v _ found refl λ fits. (ground arith))

pub on_epoch_withdraw_transfer_done-Grows :
    (env : Env) (c : Contract) (id : AccountId) (withdrawn : ℕ)
    → Ensures (Grows c) (on_epoch_withdraw_transfer_done env c id withdrawn)
unfolding on_epoch_withdraw_transfer_done credit_withdrawn
on_epoch_withdraw_transfer_done-Grows env c id withdrawn = Ensures-then _ _ λ _ h1.
    Ensures-bind _ _ (expect-eq _ validator_not_found) λ v h2 found.
      Ensures-if (env.promise_succeeded && ltb 0 withdrawn) _ _
        (λ e. Ensures-require _ _ _ λ h3. Ensures-then _ _ λ claim h4. returns _ (
          set-Grows c id v
            (record v {
              total_staked_balance = v.total_staked_balance - withdrawn;
              pending_to_withdraw = v.pending_to_withdraw - withdrawn;
              pending_to_claim = claim;
            })
            found refl λ fits. (ground arith)))
        λ e. returns _ (Grows-refl c)

pub require_busy-found :
    (c : Contract) (id : AccountId)
    → Ensures (λ v. c.validators id ≡ some v) (require_validator_busy c id)
unfolding require_validator_busy
require_busy-found c id =
    Ensures-bind _ _ (expect-eq _ validator_not_found)
      λ v h1 found. Ensures-then _ _ λ _ h2. returns _ found

refreshed-same :
    (c : Contract) (id i : AccountId) (v w : Validator)
    → c.validators id ≡ some v
    → w.total_shares ≡ v.total_shares
    → liability w ≡ liability v
    → (issued_at (c.validators i) ≡ issued_at (insert c.validators id w i))
      × (liability_at (c.validators i) ≡ liability_at (insert c.validators id w i))
refreshed-same c id i v w found shares owed = elim (insert-cases c.validators id w i) [
  | inl (here, read) ↦
      let was : c.validators i ≡ some v = ap c.validators here ∙ found in
      (
        ap issued_at was ∙ sym shares ∙ sym (ap issued_at read),
        ap liability_at was ∙ sym owed ∙ sym (ap liability_at read),
      )
  | inr read ↦ (sym (ap issued_at read), sym (ap liability_at read))
]

module _ {UserAction : Type 0} where
  abbrev GrowsTo : Contract → Contract × Next UserAction → Type 0
  GrowsTo c r = Grows c (r.0)

  passed :
      (c : Contract) (m : Result Contract) (next : Next UserAction)
      → Ensures (Grows c) m
      → Ensures (GrowsTo c) (m >>= λ d. ok (d, next))
  passed c m next h = Ensures-bind m _ h λ d e grows. returns _ grows

  pub try_settle-Grows :
      (env : Env) (c : Contract) (id : AccountId) (cont : UserAction)
      → Ensures (GrowsTo c) (try_epoch_stake_or_unstake env c id cont)
  unfolding try_epoch_stake_or_unstake
  try_settle-Grows env c id cont = Ensures-then _ _ λ v h.
      let has_pending = ltb 0 v.pending_to_stake || ltb 0 v.pending_to_unstake in
      let can_settle = ltb v.last_settlement_epoch env.epoch_height in
      Ensures-if (not has_pending || not can_settle) _ _
        (λ e.
          Ensures-if (not has_pending && can_settle) _ _
            (λ f. passed c _ (dispatches cont) (mark-Grows env c id)) λ f. returns _ (Grows-refl c))
        λ e.
          Ensures-if ((v.pending_to_stake == v.pending_to_unstake) && ltb 0 v.pending_to_stake) _ _
            (λ f. passed c _ (dispatches cont) (net_zero-Grows env c id v.pending_to_stake))
            λ f.
              Ensures-if (ltb v.pending_to_unstake v.pending_to_stake) _ _
                (λ g. returns _ (Grows-refl c))
                λ g.
                  Ensures-if
                    (ltb 0 v.last_unstake_epoch && not (validator_unstake_waiting_finished env c v))
                    _ _ (λ k. passed c _ (dispatches cont) (mark-Grows env c id))
                    λ k. returns _ (Grows-refl c)

  -- A validator is written whose buckets and shares are the same, and then more happens.
  first_same :
      (c d : Contract) (r : Contract × Next UserAction)
      → d.user_pending_unstake ≡ c.user_pending_unstake
      → d.user_validator_shares ≡ c.user_validator_shares
      → ((i : AccountId)
          → (issued_at (c.validators i) ≡ issued_at (d.validators i))
            × (liability_at (c.validators i) ≡ liability_at (d.validators i)))
      → GrowsTo d r
      → GrowsTo c r
  first_same c d r ts ss same h = record {
    same_tranches = h.same_tranches ∙ ts;
    same_shares = h.same_shares ∙ ss;
    covers = λ i.
        let (shares, owed) = same i in
        let (later, more) = h.covers i in
        (
          shares ∙ later,
          λ fits.
              let le : liability_at (d.validators i) ≤ liability_at ((r.0).validators i) =
                more (omega (arith, fits, owed)) in
              omega (arith, le, owed),
        );
  }

  pub start-Grows :
      (env : Env) (c : Contract) (id : AccountId) (cont : UserAction)
      → Ensures (GrowsTo c) (start_settlement env c id cont)
  unfolding start_settlement require_validator_idle
  start-Grows env c id cont =
      Ensures-bind {Q = λ v. c.validators id ≡ some v} _ _
        (Ensures-bind _ _ (expect-eq _ validator_not_found)
          λ v h1 found. Ensures-then _ _ λ _ h2. returns _ found)
        λ v h found.
          returns _
            (set-Grows c id v (record v { tx_status = is_busy }) found refl λ fits. omega arith)

  refund-Grows :
      (c : Contract) (id : AccountId) (refund : Option (AccountId × ℕ))
      → Ensures (GrowsTo c) (elim refund [
        | none ↦ ok (c, releases)
        | some (buyer, amount) ↦
            release_validator_pool_pipeline c id >>= λ d. ok (d, transfers buyer amount)
      ])
  refund-Grows c id none = returns _ (Grows-refl c)
  refund-Grows c id (some (buyer, amount)) =
      passed c _ (transfers buyer amount) (release-Grows c id)

  pub after_account-Grows :
      (payable_refund : UserAction → Option (AccountId × ℕ)) (env : Env) (c : Contract)
      (answer : Option PoolAccountView) (id : AccountId) (cont : UserAction)
      → Ensures
          (GrowsTo c)
          (on_epoch_settlement_after_pool_account payable_refund env c answer id cont)
  unfolding on_epoch_settlement_after_pool_account
  after_account-Grows payable_refund env c none id cont =
      Ensures-then _ _ λ _ h1. refund-Grows c id (payable_refund cont)
  after_account-Grows payable_refund env c (some account) id cont = Ensures-then _ _ λ _ h1.
      Ensures-bind _ _ (require_busy-found c id) λ v h2 found.
        let w : Validator = record v {
          total_staked_balance = total_balance account;
          last_balance_refresh_ns = env.block_timestamp;
        } in
        Ensures-if (ltb 0 account.unstaked_balance && account.can_withdraw) _ _
          (λ e. returns _ (set-Grows c id v w found refl λ fits. omega arith))
          λ e. Ensures-of _ λ r k.
            first_same c (internal_set_validator id w c) r refl refl
              (λ i. refreshed-same c id i v w found refl refl)
              (Ensures-apply (try_settle-Grows env (internal_set_validator id w c) id cont) k)

  pub after_withdraw-Grows :
      (env : Env) (c : Contract) (answer : Option Bool) (id : AccountId) (cont : UserAction)
      → Ensures (GrowsTo c) (on_after_pool_withdraw_maybe_settle env c answer id cont)
  unfolding on_after_pool_withdraw_maybe_settle
  after_withdraw-Grows env c answer id cont = Ensures-then _ _ λ _ h1. Ensures-then _ _ λ v h2.
      Ensures-if (unwrap_or false answer) _ _ (λ e. try_settle-Grows env c id cont)
        λ e. returns _ (Grows-refl c)
