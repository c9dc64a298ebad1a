-- ===== src/Venear/Supply/Rebalancing.antt =====
-- A lockup update replaces one balance, in the total supply as on the account's leaf.
use house_of_stake_contracts.Base.{
  ltb, ◌==◌, ok, require, Ensures, returns, Ensures-bind, Ensures-then, ℕ, ◌+◌, ◌≡◌, sym, ap, ◌∙◌,
  false, none, arith, invalid_nonce,
}
use house_of_stake_contracts.Common.Account
use house_of_stake_contracts.Common.GlobalState
use house_of_stake_contracts.Venear.Contract.{Contract, Env, AccountInternal, current}
use house_of_stake_contracts.Merkle.Tree.{get, insert}
use house_of_stake_contracts.Common.Account.{VAccount, AccountId, Account}
use house_of_stake_contracts.Merkle.{CryptoHash}
use house_of_stake_contracts.Common.Growth.{Fraction}
use house_of_stake_contracts.Common.Exact.{fine_grain}
use house_of_stake_contracts.Venear.Supply.{
  IsAccounted, IsBacked, measured, whole_near, worth_of, worth,
}
use house_of_stake_contracts.Common.GlobalState.{GlobalState}
use house_of_stake_contracts.Venear.Accounts.{
  internal_expect_account_updated, internal_set_account_internal, internal_set_global_state,
  internal_global_state_updated, internal_set_account,
}
use house_of_stake_contracts.Common.Balance.{VenearBalance, pooled_sub, pooled_add}
use house_of_stake_contracts.Venear.Supply.Measures.{IsSteady, whole_near-IsSteady, worth-IsSteady}
use house_of_stake_contracts.Venear.Supply.Keeping.{
  Keeps, HasSet, expect-IsGrownTo, internal_set_account-HasSet,
}
use house_of_stake_contracts.Merkle.Sums.{sum_of, weight, get-set_global_state}
use house_of_stake_contracts.Venear.Lockup.{
  internal_lockup_update, LockupUpdateV1, rebalanced, redelegate_all,
}
use house_of_stake_contracts.Venear.Supply.Pool.{
  update-HasGrownPool, pooled_sub-parts, pooled_add-parts, pooled_sub-worth_of, pooled_add-worth_of,
}
use house_of_stake_contracts.Venear.Supply.Registering.{
  config_of, pool-whole, set_global_state-IsBacked,
}
use house_of_stake_contracts.Venear.Supply.Delegating.{
  Follows, redelegate_all-Follows, expect-IsWhole,
}
use house_of_stake_contracts.Common.Token.{truncate_near_to_millis}

module _ (hash_value : VAccount → CryptoHash) (hash_pair : CryptoHash → CryptoHash → CryptoHash)
    (rate : Fraction) (fine : rate.denominator ≡ fine_grain) where
  -- What a written account changes in a sum, after the loop over its delegates.
  replaced :
      (env : Env) (a : AccountId) (x y : Account) (c d e : Contract) (f : Account → ℕ)
      → IsAccounted hash_value hash_pair rate env.block_timestamp c
      → internal_expect_account_updated env c a ≡ ok x
      → IsSteady rate env.block_timestamp f
      → Keeps hash_value hash_pair rate env.block_timestamp c.tree d.tree
      → HasSet hash_value hash_pair a y d.tree e.tree
      → sum_of (measured f) e.tree + f x ≡ sum_of (measured f) c.tree + f y
  replaced env a x y c d e f b read steady k w =
      let (v, found, g) =
        expect-IsGrownTo hash_value hash_pair rate fine env c a x b.backed.sound b.backed.config
          read in
      let there = ap (weight (measured f)) found in
      omega
        (arith, k.sums f steady, k.each f steady a, w.sums f, steady (Account.of_versioned v) x g)

  rebalanced-IsBacked :
      (env : Env) (a : AccountId) (x : Account) (c d e : Contract) (g : GlobalState)
      (balance without pool : VenearBalance)
      → IsAccounted hash_value hash_pair rate env.block_timestamp c
      → internal_expect_account_updated env c a ≡ ok x
      → GlobalState.update (GlobalState.of_versioned c.tree.global_state) env.block_timestamp ≡ ok g
      → pooled_sub g.total_venear_balance x.balance ≡ ok without
      → pooled_add without balance ≡ ok pool
      → Keeps hash_value hash_pair rate env.block_timestamp c.tree d.tree
      → HasSet hash_value hash_pair a (record x { balance = balance }) d.tree e.tree
      → IsBacked hash_value hash_pair rate env.block_timestamp
          (internal_set_global_state env (record g { total_venear_balance = pool }) e).tree
  rebalanced-IsBacked env a x c d e g balance without pool b read h2 h3 h4 k w =
      let grown =
        update-HasGrownPool rate fine (GlobalState.of_versioned c.tree.global_state) g
          env.block_timestamp (sym (config_of c.tree.global_state) ∙ b.backed.config)
          b.backed.pool_whole h2 in
      let whole : truncate_near_to_millis g.total_venear_balance.near_balance
          ≡ g.total_venear_balance.near_balance =
        rw grown.near
          (pool-whole hash_value hash_pair rate fine env.block_timestamp c.tree b.backed) in
      let out = pooled_sub-parts rate g.total_venear_balance x.balance without h3 in
      let back = pooled_add-parts rate without balance pool h4 in
      let rest : truncate_near_to_millis without.near_balance ≡ without.near_balance =
        omega (arith, out.0) in
      let change : (f : Account → ℕ)
          → IsSteady rate env.block_timestamp f
          → sum_of (measured f) e.tree + f x
            ≡ sum_of (measured f) c.tree + f (record x { balance = balance }) =
        λ f steady. replaced env a x (record x { balance = balance }) c d e f b read steady k w in
      set_global_state-IsBacked hash_value hash_pair rate fine env c e g pool b.backed grown w.sound
        (omega (
          arith,
          out.0,
          back.0,
          grown.near,
          b.backed.pool_near,
          change whole_near (whole_near-IsSteady rate env.block_timestamp),
        ))
        λ time wt le.
          let leaves =
            pooled_sub-worth_of rate g.total_venear_balance x.balance without g.update_timestamp
              time whole h3 in
          let comes =
            pooled_add-worth_of rate without balance pool g.update_timestamp time rest h4 in
          let at : x.update_timestamp ≡ g.update_timestamp =
            (expect-IsGrownTo hash_value hash_pair rate fine env c a x b.backed.sound
              b.backed.config read).2.at
            ∙ sym grown.at in
          let old = ap (λ s. worth_of rate x.balance s time) at in
          let new = ap (λ s. worth_of rate balance s time) at in
          omega (
            arith,
            leaves,
            comes,
            old,
            new,
            grown.same_worth time wt le,
            b.backed.pool_worth time wt le,
            change (worth rate time) (worth-IsSteady rate fine env.block_timestamp time le wt),
          )

  redelegated-known :
      (env : Env) (a : AccountId) (x y : Account) (internal : AccountInternal) (g : GlobalState)
      (pool : VenearBalance) (c d e : Contract)
      → IsAccounted hash_value hash_pair rate env.block_timestamp c
      → internal_expect_account_updated env c a ≡ ok x
      → Follows hash_value hash_pair rate fine env.block_timestamp c d
      → HasSet hash_value hash_pair a y d.tree e.tree
      → e.accounts ≡ (internal_set_account_internal a internal d).accounts
      → (o : AccountId)
      → (internal_set_global_state env (record g { total_venear_balance = pool }) e).accounts o
        ≡ none
      → get (internal_set_global_state env (record g { total_venear_balance = pool }) e).tree o
        ≡ none
  unfolding internal_set_account_internal internal_set_global_state
  redelegated-known env a x y internal g pool c d e b read (k, kept) w same o h =
      let there : insert d.accounts a (current internal) o ≡ none = sym (ap (λ m. m o) same) ∙ h in
      let other : (o == a) ≡ false = ground arith in
      let before : c.accounts o ≡ none = sym (ap (λ m. m o) kept) ∙ ground arith in
      get-set_global_state env.block_height _ e.tree o
      ∙ w.reads o
      ∙ rw other (k.absent o (b.known o before))

  pub internal_lockup_update-IsAccounted :
      (env : Env) (a : AccountId) (internal : AccountInternal) (update : LockupUpdateV1)
      (c : Contract)
      → IsAccounted hash_value hash_pair rate env.block_timestamp c
      → Ensures
          (IsAccounted hash_value hash_pair rate env.block_timestamp)
          (internal_lockup_update hash_value hash_pair env a internal update c)
  unfolding internal_lockup_update internal_set_account_internal internal_global_state_updated
  internal_lockup_update-IsAccounted env a internal update c b =
      Ensures-then
        (require (ltb internal.lockup_update_nonce update.lockup_update_nonce) invalid_nonce) _
        λ _ h1. Ensures-then (internal_expect_account_updated env c a) _ λ x read.
          Ensures-then
            (GlobalState.update (GlobalState.of_versioned c.tree.global_state) env.block_timestamp)
            _
            λ g h2. Ensures-then (rebalanced x.balance internal update) _ λ balance h.
              Ensures-then (pooled_sub g.total_venear_balance x.balance) _ λ without h3.
                Ensures-then (pooled_add without balance) _ λ pool h4.
                  Ensures-bind
                    (redelegate_all hash_value hash_pair env x.balance balance x.delegations c) _
                    (redelegate_all-Follows hash_value hash_pair rate fine env x.balance balance
                      x.delegations c b.backed.sound b.backed.config)
                    λ d h5 (k, kept).
                      let after = record internal {
                        lockup_update_nonce = update.lockup_update_nonce;
                      } in
                      Ensures-bind
                        (internal_set_account hash_value hash_pair env a
                          (record x { balance = balance })
                          (internal_set_account_internal a after d))
                        _
                        (internal_set_account-HasSet hash_value hash_pair env a
                          (record x { balance = balance }) (internal_set_account_internal a after d)
                          k.sound (expect-IsWhole hash_value hash_pair rate fine env c a x b read))
                        λ e h6 (w, same). returns _ (record {
                          backed =
                              rebalanced-IsBacked env a x c d e g balance without pool b read h2 h3
                                h4 k w;
                          known =
                              redelegated-known env a x (record x { balance = balance }) after g
                                pool c d e b read (k, kept) w same;
                        })
