-- ===== src/Venear/Supply/Registering.antt =====
-- Registration brings its deposit into the total supply.
use house_of_stake_contracts.Base.{
  ◌==◌, false, inl, inr, is_some, ok, Ensures, returns, Ensures-bind, Ensures-then, ℕ, ◌≤◌, ◌≡◌,
  refl, sym, ap, ◌∙◌, not, none, arith, already_registered, true, Ensures-require, Option-cases,
}
use house_of_stake_contracts.Common.GlobalState
use house_of_stake_contracts.Venear.Contract.{Contract, Env, AccountInternal, current}
use house_of_stake_contracts.Merkle.Tree.{get, set_global_state, insert}
use house_of_stake_contracts.Common.Account.{VAccount, AccountId, Account}
use house_of_stake_contracts.Merkle.{CryptoHash}
use house_of_stake_contracts.Common.Growth.{Fraction}
use house_of_stake_contracts.Common.Exact.{fine_grain}
use house_of_stake_contracts.Venear.Supply.Keeping.{internal_set_account-HasSet, HasSet}
use house_of_stake_contracts.Venear.Supply.{
  State, IsBacked, IsSound, whole_near, worth, measured, worth_of, HasWholeTime, IsAccounted,
}
use house_of_stake_contracts.Common.Balance.{VenearBalance, pooled_add, from_near}
use house_of_stake_contracts.Common.GlobalState.{
  get_venear_growth_config, GlobalState, VGlobalState,
}
use house_of_stake_contracts.Venear.Supply.Measures.{truncate_to_seconds-IsWhole}
use house_of_stake_contracts.Venear.Accounts.{
  internal_set_account, internal_set_global_state, internal_register_account,
  internal_set_account_internal, internal_global_state_updated, fresh_account, fresh_internal,
}
use house_of_stake_contracts.Common.Token.{truncate_near_to_millis, truncate_to_seconds}
use house_of_stake_contracts.Merkle.Sums.{
  sum_of-closed, sum_of, set_global_state-AllLeaves, sum_of-set_global_state, weight,
  get-set_global_state,
}
use house_of_stake_contracts.Venear.Supply.Pool.{
  HasGrownPool, update-HasGrownPool, pooled_add-parts, pooled_add-worth_of,
}
use house_of_stake_contracts.Common.Balance.Growing.{IsWhole}
use house_of_stake_contracts.Merkle.History.{set_global_state-IsMerkle}

pub config_of :
    (v : VGlobalState)
    → get_venear_growth_config v ≡ (GlobalState.of_versioned v).venear_growth_config
config_of (GlobalState.v0 g) = refl

module _ (hash_value : VAccount → CryptoHash) (hash_pair : CryptoHash → CryptoHash → CryptoHash)
    (rate : Fraction) (fine : rate.denominator ≡ fine_grain) where
  -- The pool's NEAR is whole milliNEAR.
  pub pool-whole :
      (now : ℕ) (t : State)
      → IsBacked hash_value hash_pair rate now t
      → truncate_near_to_millis
          (GlobalState.of_versioned t.global_state).total_venear_balance.near_balance
        ≡ (GlobalState.of_versioned t.global_state).total_venear_balance.near_balance
  pool-whole now t b = rw b.pool_near (
      sum_of-closed (λ n. truncate_near_to_millis n ≡ n) refl (λ a b h k. omega arith)
        (measured whole_near) t (λ v. omega arith))

  -- A new global state, grown from the old one, whose pool matches the accounts.
  pub set_global_state-IsBacked :
      (env : Env) (c d : Contract) (g : GlobalState) (pool : VenearBalance)
      → IsBacked hash_value hash_pair rate env.block_timestamp c.tree
      → HasGrownPool rate env.block_timestamp (GlobalState.of_versioned c.tree.global_state) g
      → IsSound hash_value hash_pair d.tree
      → pool.near_balance ≡ sum_of (measured whole_near) d.tree
      → ((time : ℕ)
          → IsWhole time
          → truncate_to_seconds env.block_timestamp ≤ time
          → worth_of rate pool g.update_timestamp time ≡ sum_of (measured (worth rate time)) d.tree)
      → IsBacked hash_value hash_pair rate env.block_timestamp
          (internal_set_global_state env (record g { total_venear_balance = pool }) d).tree
  unfolding internal_set_global_state set_global_state
  set_global_state-IsBacked env c d g pool b grown s near same = record {
    sound = record {
      merkle =
          set_global_state-IsMerkle hash_value hash_pair env.block_height
            (GlobalState.v0 (record g { total_venear_balance = pool })) d.tree s.merkle;
      leaves_whole =
          set_global_state-AllLeaves env.block_height
            (GlobalState.v0 (record g { total_venear_balance = pool })) d.tree HasWholeTime
            s.leaves_whole;
    };
    config = grown.config ∙ sym (config_of c.tree.global_state) ∙ b.config;
    pool_whole = rw grown.at (truncate_to_seconds-IsWhole env.block_timestamp);
    pool_past = omega (arith, grown.at);
    pool_near =
        near
        ∙ sym (
            sum_of-set_global_state env.block_height
              (GlobalState.v0 (record g { total_venear_balance = pool })) d.tree
              (measured whole_near));
    pool_worth = λ time whole le.
        same time whole le
        ∙ sym (
            sum_of-set_global_state env.block_height
              (GlobalState.v0 (record g { total_venear_balance = pool })) d.tree
              (measured (worth rate time)));
  }

  unregistered :
      (c : Contract) (a : AccountId) → not (is_some (c.accounts a)) ≡ true → c.accounts a ≡ none
  unregistered c a h = elim (Option-cases (c.accounts a)) [ inl e ↦ e | inr (v, e) ↦ ground arith ]

  registered-IsBacked :
      (env : Env) (a : AccountId) (x : Account) (c d : Contract) (g : GlobalState)
      (pool : VenearBalance)
      → get c.tree a ≡ none
      → x.update_timestamp ≡ truncate_to_seconds env.block_timestamp
      → IsBacked hash_value hash_pair rate env.block_timestamp c.tree
      → GlobalState.update (GlobalState.of_versioned c.tree.global_state) env.block_timestamp ≡ ok g
      → pooled_add g.total_venear_balance x.balance ≡ ok pool
      → HasSet hash_value hash_pair a x c.tree d.tree
      → IsBacked hash_value hash_pair rate env.block_timestamp
          (internal_set_global_state env (record g { total_venear_balance = pool }) d).tree
  registered-IsBacked env a x c d g pool absent at b h2 h3 w =
      let grown =
        update-HasGrownPool rate fine (GlobalState.of_versioned c.tree.global_state) g
          env.block_timestamp (sym (config_of c.tree.global_state) ∙ b.config) b.pool_whole h2 in
      let whole : truncate_near_to_millis g.total_venear_balance.near_balance
          ≡ g.total_venear_balance.near_balance =
        rw grown.near (pool-whole env.block_timestamp c.tree b) in
      let new : (f : Account → ℕ) → weight (measured f) (get c.tree a) ≡ 0 =
        λ f. ap (weight (measured f)) absent in
      set_global_state-IsBacked env c d g pool b grown w.sound
        (omega (
          arith,
          (pooled_add-parts rate g.total_venear_balance x.balance pool h3).0,
          grown.near,
          b.pool_near,
          w.sums whole_near,
          new whole_near,
        ))
        λ time wt le.
          let sum =
            pooled_add-worth_of rate g.total_venear_balance x.balance pool g.update_timestamp time
              whole h3 in
          let start = ap (λ s. worth_of rate x.balance s time) (grown.at ∙ sym at) in
          omega (
            arith,
            sum,
            start,
            grown.same_worth time wt le,
            b.pool_worth time wt le,
            w.sums (worth rate time),
            new (worth rate time),
          )

  registered-known :
      (a : AccountId) (x : Account) (internal : AccountInternal) (env : Env) (g : GlobalState)
      (pool : VenearBalance) (c d : Contract)
      → IsAccounted hash_value hash_pair rate env.block_timestamp c
      → HasSet hash_value hash_pair a x c.tree d.tree
      → d.accounts ≡ (internal_set_account_internal a internal c).accounts
      → (o : AccountId)
      → (internal_set_global_state env (record g { total_venear_balance = pool }) d).accounts o
        ≡ none
      → get (internal_set_global_state env (record g { total_venear_balance = pool }) d).tree o
        ≡ none
  unfolding internal_set_account_internal internal_set_global_state
  registered-known a x internal env g pool c d b w same o h =
      let there : insert c.accounts a (current internal) o ≡ none = sym (ap (λ m. m o) same) ∙ h in
      let other : (o == a) ≡ false = ground arith in
      let before : get c.tree o ≡ none = b.known o (ground arith) in
      get-set_global_state env.block_height _ d.tree o ∙ w.reads o ∙ rw other before

  -- Registration: the deposit comes into the pool, and onto a new leaf.
  pub internal_register_account-IsAccounted :
      (env : Env) (a : AccountId) (deposit : ℕ) (c : Contract)
      → IsAccounted hash_value hash_pair rate env.block_timestamp c
      → Ensures
          (IsAccounted hash_value hash_pair rate env.block_timestamp)
          (internal_register_account hash_value hash_pair env a deposit c)
  unfolding internal_register_account internal_set_account_internal internal_global_state_updated
  internal_register_account-IsAccounted env a deposit c b =
      Ensures-require (not (is_some (c.accounts a))) already_registered _ λ fresh.
        Ensures-then
          (GlobalState.update (GlobalState.of_versioned c.tree.global_state) env.block_timestamp) _
          λ g h2. Ensures-then (pooled_add g.total_venear_balance (from_near deposit)) _ λ pool h3.
            Ensures-bind
              (internal_set_account hash_value hash_pair env a
                (fresh_account hash_value hash_pair env a deposit)
                (internal_set_account_internal a (fresh_internal hash_value hash_pair deposit) c))
              _
              (internal_set_account-HasSet hash_value hash_pair env a
                (fresh_account hash_value hash_pair env a deposit)
                (internal_set_account_internal a (fresh_internal hash_value hash_pair deposit) c)
                b.backed.sound (truncate_to_seconds-IsWhole env.block_timestamp))
              λ d h4 (w, same). returns _ (record {
                backed =
                    registered-IsBacked env a (fresh_account hash_value hash_pair env a deposit) c d
                      g pool (b.known a (unregistered c a fresh)) refl b.backed h2 h3 w;
                known = λ o h.
                    registered-known a _ (fresh_internal hash_value hash_pair deposit) env g pool c
                      d b w same o h;
              })
