-- ===== src/Venear/Supply/Total.antt =====
-- The total supply after any history of calls.
use house_of_stake_contracts.Base.{
  ok, ◌>>=◌, require, u128_max, checked, Ensures, returns, Ensures-apply, Ensures-then, Ensures-map,
  ℕ, ◌+◌, ◌≤◌, ◌≡◌, refl, sym, ap, ◌∙◌, List, arith, IsChronological, end_time, run,
  run-keeps_in_time,
}
use house_of_stake_contracts.Common.GlobalState
use house_of_stake_contracts.Merkle.Tree
use house_of_stake_contracts.Common.Balance
use house_of_stake_contracts.Venear.Contract.{Contract, Env, Config, new}
use house_of_stake_contracts.Common.Account.{VAccount, AccountId}
use house_of_stake_contracts.Merkle.{CryptoHash}
use house_of_stake_contracts.Common.Growth.{Fraction, fixed_rate}
use house_of_stake_contracts.Common.Exact.{fine_grain, exact_growth}
use house_of_stake_contracts.Venear.Calls.{
  deposits_storage, delegates, updates_lockup, deploys_lockup, finishes_deployment,
  prepares_lockup_code, sets_lockup_contract, configures, accepts_ownership, pauses, unpauses, Call,
  perform,
}
use house_of_stake_contracts.Venear.Accounts.{ft_total_supply, internal_global_state_updated}
use house_of_stake_contracts.Venear.Supply.{IsAccounted, measured, worth, worth_of}
use house_of_stake_contracts.Merkle.Sums.{sum_of, sum_to}
use house_of_stake_contracts.Common.Token.{truncate_to_seconds}
use house_of_stake_contracts.Common.GlobalState.{GlobalState, new_global_state}
use house_of_stake_contracts.Venear.Supply.Calls.{
  storage_deposit-IsAccounted, on_lockup_update-IsAccounted, deploy_lockup-IsAccounted,
  on_lockup_deployed-IsAccounted, prepare_lockup_code-IsAccounted, later-IsAccounted,
  set_lockup_contract-IsAccounted, owner_sets-IsAccounted, accept_ownership-IsAccounted,
  pause-IsAccounted, unpause-IsAccounted,
}
use house_of_stake_contracts.Common.Balance.Growing.{grown, IsWhole, update-eq-grown}
use house_of_stake_contracts.Venear.Supply.Registering.{config_of}
use house_of_stake_contracts.Venear.Supply.Delegating.{set_delegations-IsAccounted}
use house_of_stake_contracts.Venear.Supply.Measures.{truncate_to_seconds-IsWhole}
use house_of_stake_contracts.Merkle.Invariant.{new-IsMerkle}

module _ (hash_value : VAccount → CryptoHash) (hash_pair : CryptoHash → CryptoHash → CryptoHash)
    (get_lockup_account_id : AccountId → AccountId) (rate : Fraction)
    (fine : rate.denominator ≡ fine_grain) where
  total-grown :
      (g : GlobalState) (at growth : ℕ)
      → ((grown g.total_venear_balance growth >>= λ p.
            ok (record g { update_timestamp = at; total_venear_balance = p }))
          >>= λ h. Balance.total h.total_venear_balance)
        ≡ checked u128_max (
            g.total_venear_balance.near_balance + g.total_venear_balance.extra_venear_balance
            + growth)
  unfolding grown Balance.total ◌>>=◌
  total-grown g at growth = ground arith

  -- The total of the pool at a later time.
  update-total :
      (g : GlobalState) (now : ℕ)
      → g.venear_growth_config ≡ fixed_rate rate
      → IsWhole g.update_timestamp
      → g.update_timestamp ≤ now
      → (GlobalState.update g now >>= λ h. Balance.total h.total_venear_balance)
        ≡ checked u128_max
            (worth_of rate g.total_venear_balance g.update_timestamp (truncate_to_seconds now))
  unfolding GlobalState.update
  update-total g now config whole past =
      rw
        (
          config,
          update-eq-grown rate fine g.total_venear_balance g.update_timestamp
              (truncate_to_seconds now) (omega arith) whole (truncate_to_seconds-IsWhole now),
          sym config,
        )
        (total-grown g (truncate_to_seconds now) (
          exact_growth rate g.update_timestamp (truncate_to_seconds now)
            g.total_venear_balance.near_balance))

  perform-IsAccounted :
      (env : Env) (c : Contract) (call : Call)
      → IsAccounted hash_value hash_pair rate env.block_timestamp c
      → Ensures
          (IsAccounted hash_value hash_pair rate env.block_timestamp)
          (perform hash_value hash_pair get_lockup_account_id env c call)
  unfolding perform
  perform-IsAccounted env c (deposits_storage a) b =
      Ensures-map _ _ (storage_deposit-IsAccounted hash_value hash_pair rate env c b fine a)
  perform-IsAccounted env c (delegates entries) b =
      Ensures-map _ _ (set_delegations-IsAccounted hash_value hash_pair rate fine env c entries b)
  perform-IsAccounted env c (updates_lockup version owner update) b =
      on_lockup_update-IsAccounted hash_value hash_pair rate env c b fine get_lockup_account_id
        version owner update
  perform-IsAccounted env c deploys_lockup b =
      Ensures-map _ _
        (deploy_lockup-IsAccounted hash_value hash_pair rate env c b get_lockup_account_id)
  perform-IsAccounted env c (finishes_deployment args) b =
      Ensures-map _ _ (
        on_lockup_deployed-IsAccounted hash_value hash_pair rate env c b get_lockup_account_id args)
  perform-IsAccounted env c (prepares_lockup_code code) b =
      Ensures-map _ _ (prepare_lockup_code-IsAccounted hash_value hash_pair rate env c b code)
  perform-IsAccounted env c (sets_lockup_contract h deposit) b =
      set_lockup_contract-IsAccounted hash_value hash_pair rate env c b h deposit
  perform-IsAccounted env c (configures setting) b =
      owner_sets-IsAccounted hash_value hash_pair rate env c b setting
  perform-IsAccounted env c accepts_ownership b =
      accept_ownership-IsAccounted hash_value hash_pair rate env c b
  perform-IsAccounted env c pauses b = pause-IsAccounted hash_value hash_pair rate env c b
  perform-IsAccounted env c unpauses b = unpause-IsAccounted hash_value hash_pair rate env c b

  new-IsAccounted :
      (env : Env) (config : Config)
      → Ensures (IsAccounted hash_value hash_pair rate env.block_timestamp) (new env config rate)
  unfolding new Tree.new new_global_state Tree.get sum_of sum_to
  new-IsAccounted env config = Ensures-then _ _ λ _ h. returns _ (record {
    backed = record {
      sound = record {
        merkle = new-IsMerkle hash_value hash_pair env.block_height _;
        leaves_whole = λ i v lt e. absurd (omega arith);
      };
      config = refl;
      pool_whole = truncate_to_seconds-IsWhole env.block_timestamp;
      pool_past = omega arith;
      pool_near = refl;
      pool_worth = λ time whole le. omega arith;
    };
    known = λ a e. refl;
  })

  -- The total supply of a state whose pool is the accounts'.
  ft_total_supply-IsAccounted :
      (now : ℕ) (env : Env) (c : Contract)
      → IsAccounted hash_value hash_pair rate now c
      → now ≤ env.block_timestamp
      → ft_total_supply env c
        ≡ checked u128_max
            (sum_of (measured (worth rate (truncate_to_seconds env.block_timestamp))) c.tree)
  unfolding ft_total_supply internal_global_state_updated
  ft_total_supply-IsAccounted now env c b le =
      update-total (GlobalState.of_versioned c.tree.global_state) env.block_timestamp
        (sym (config_of c.tree.global_state) ∙ b.backed.config) b.backed.pool_whole
        (omega (arith, b.backed.pool_past))
      ∙ ap (checked u128_max) (
          b.backed.pool_worth (truncate_to_seconds env.block_timestamp)
            (truncate_to_seconds-IsWhole env.block_timestamp) (omega arith))

module _ (hash_value : VAccount → CryptoHash) (hash_pair : CryptoHash → CryptoHash → CryptoHash)
    (get_lockup_account_id : AccountId → AccountId) (rate : Fraction) where
  -- The contract is only created at the denominator 10^30.
  created_fine :
      (env : Env) (config : Config) (c : Contract)
      → new env config rate ≡ ok c
      → rate.denominator ≡ fine_grain
  unfolding new ◌>>=◌ require
  created_fine env config c h = ground arith

  -- Any history from the contract's creation on, in order of time, keeps the supply backed.
  pub run-IsAccounted :
      (start : Env) (now : ℕ) (config : Config) (c : Contract) (calls : List (Env × Call))
      → new start config rate ≡ ok c
      → IsChronological
          (perform hash_value hash_pair get_lockup_account_id)
          (λ e. e.block_timestamp)
          start.block_timestamp
          calls
      → end_time
          (perform hash_value hash_pair get_lockup_account_id)
          (λ e. e.block_timestamp)
          start.block_timestamp
          calls
        ≤ now
      → IsAccounted hash_value hash_pair rate now
          (run (perform hash_value hash_pair get_lockup_account_id) c calls)
  run-IsAccounted start now config c calls created order le =
      let fine = created_fine start config c created in
      later-IsAccounted hash_value hash_pair rate _ now _ le (
        run-keeps_in_time (perform hash_value hash_pair get_lockup_account_id)
          (λ e. e.block_timestamp) (IsAccounted hash_value hash_pair rate)
          (λ now later d. later-IsAccounted hash_value hash_pair rate now later d)
          (perform-IsAccounted hash_value hash_pair get_lockup_account_id rate fine)
          start.block_timestamp c calls
          (Ensures-apply
            (new-IsAccounted hash_value hash_pair get_lockup_account_id rate fine start config)
            created)
          order)

  -- From the contract's creation on, whatever calls come in order of time, some of them panicking:
  -- the total supply at a later time is the sum over all accounts of their NEAR, their extra veNEAR
  -- and its growth until then, or it panics since that sum does not fit into u128.
  pub ft_total_supply-run :
      (start env : Env) (config : Config) (c : Contract) (calls : List (Env × Call))
      → new start config rate ≡ ok c
      → IsChronological
          (perform hash_value hash_pair get_lockup_account_id)
          (λ e. e.block_timestamp)
          start.block_timestamp
          calls
      → end_time
          (perform hash_value hash_pair get_lockup_account_id)
          (λ e. e.block_timestamp)
          start.block_timestamp
          calls
        ≤ env.block_timestamp
      → ft_total_supply env (run (perform hash_value hash_pair get_lockup_account_id) c calls)
        ≡ checked u128_max (
            sum_of
              (measured (worth rate (truncate_to_seconds env.block_timestamp)))
              (run (perform hash_value hash_pair get_lockup_account_id) c calls).tree)
  ft_total_supply-run start env config c calls created order le =
      ft_total_supply-IsAccounted hash_value hash_pair get_lockup_account_id rate
        (created_fine start config c created) env.block_timestamp env _
        (run-IsAccounted start env.block_timestamp config c calls created order le) (omega arith)
