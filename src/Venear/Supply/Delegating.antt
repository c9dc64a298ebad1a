-- ===== src/Venear/Supply/Delegating.antt =====
-- Delegations move votes, not balances: `set_delegations` keeps the total supply backed.
use house_of_stake_contracts.Base.{
  ltb, Result, ok, ◌>>=◌, require, Ensures, returns, Ensures-of, Ensures-apply, Ensures-bind,
  Ensures-then, ℕ, ◌≡◌, refl, sym, ap, ◌∙◌, not, List, [], ◌∷◌, paused, no_deposit,
}
use house_of_stake_contracts.Common.Account
use house_of_stake_contracts.Venear.Contract.{Contract, Env, growth_config}
use house_of_stake_contracts.Common.Account.{VAccount, AccountId, DelegationEntry, Account}
use house_of_stake_contracts.Merkle.{CryptoHash}
use house_of_stake_contracts.Common.Growth.{Fraction, fixed_rate}
use house_of_stake_contracts.Common.Exact.{fine_grain}
use house_of_stake_contracts.Venear.Delegations.{
  set_delegations, undelegate_all, delegate_all, change_pool, validate_delegations, storage_refund,
}
use house_of_stake_contracts.Venear.Supply.Keeping.{
  Keeps, Keeps-refl, change_pool-Keeps, Keeps-trans, internal_set_account-HasSet, expect-IsGrownTo,
  Keeps-HasSet, HasSet,
}
use house_of_stake_contracts.Venear.Lockup.{redelegate_all}
use house_of_stake_contracts.Venear.Supply.{
  State, IsBacked, IsSound, whole_near, worth, IsAccounted,
}
use house_of_stake_contracts.Common.Balance.{PooledVenearBalance, VenearBalance}
use house_of_stake_contracts.Common.GlobalState.{get_venear_growth_config}
use house_of_stake_contracts.Venear.Supply.Measures.{
  whole_near-IsSteady, worth-IsSteady, IsGrownTo-delegated, IsGrownTo,
}
use house_of_stake_contracts.Venear.Accounts.{internal_expect_account_updated, internal_set_account}
use house_of_stake_contracts.Common.Balance.Growing.{IsWhole}

module _ (hash_value : VAccount → CryptoHash) (hash_pair : CryptoHash → CryptoHash → CryptoHash)
    (rate : Fraction) (fine : rate.denominator ≡ fine_grain) where
  pub config-Keeps :
      (now : ℕ) (c d : Contract)
      → Keeps hash_value hash_pair rate now c.tree d.tree
      → growth_config c ≡ fixed_rate rate
      → growth_config d ≡ fixed_rate rate
  config-Keeps now c d k config = ap get_venear_growth_config k.global ∙ config

  -- No steady number changes, and the accounts stay registered as they were.
  abbrev pub Follows : ℕ → Contract → Contract → Type 0
  Follows now c d = Keeps hash_value hash_pair rate now c.tree d.tree × (d.accounts ≡ c.accounts)

  -- One change of a pool, then what the rest keeps.
  then-Keeps :
      (env : Env) (a : AccountId) (change : PooledVenearBalance → Result PooledVenearBalance)
      (rest : Contract → Result Contract) (c : Contract)
      → IsSound hash_value hash_pair c.tree
      → growth_config c ≡ fixed_rate rate
      → ((d : Contract)
          → IsSound hash_value hash_pair d.tree
          → growth_config d ≡ fixed_rate rate
          → Ensures (Follows env.block_timestamp d) (rest d))
      → Ensures
          (Follows env.block_timestamp c)
          (change_pool hash_value hash_pair env a change c >>= rest)
  then-Keeps env a change rest c s config onward =
      Ensures-bind (change_pool hash_value hash_pair env a change c) rest
        (change_pool-Keeps hash_value hash_pair rate fine env a change c s config)
        λ d e (k, same). Ensures-of _ λ f h.
          let (l, again) =
            Ensures-apply (onward d k.sound (config-Keeps env.block_timestamp c d k config)) h in
          (
            Keeps-trans hash_value hash_pair rate env.block_timestamp c.tree d.tree f.tree k l,
            again ∙ same,
          )

  pub undelegate_all-Follows :
      (env : Env) (balance : VenearBalance) (ds : List DelegationEntry) (c : Contract)
      → IsSound hash_value hash_pair c.tree
      → growth_config c ≡ fixed_rate rate
      → Ensures
          (Follows env.block_timestamp c)
          (undelegate_all hash_value hash_pair env balance ds c)
  unfolding undelegate_all
  undelegate_all-Follows env balance [] c s config =
      returns c (Keeps-refl hash_value hash_pair rate env.block_timestamp c.tree s, refl)
  undelegate_all-Follows env balance (d ∷ ds) c s config =
      then-Keeps env d.account_id _ (undelegate_all hash_value hash_pair env balance ds) c s config
        (undelegate_all-Follows env balance ds)

  pub delegate_all-Follows :
      (env : Env) (balance : VenearBalance) (ds : List DelegationEntry) (c : Contract)
      → IsSound hash_value hash_pair c.tree
      → growth_config c ≡ fixed_rate rate
      → Ensures (Follows env.block_timestamp c) (delegate_all hash_value hash_pair env balance ds c)
  unfolding delegate_all
  delegate_all-Follows env balance [] c s config =
      returns c (Keeps-refl hash_value hash_pair rate env.block_timestamp c.tree s, refl)
  delegate_all-Follows env balance (d ∷ ds) c s config =
      then-Keeps env d.account_id _ (delegate_all hash_value hash_pair env balance ds) c s config
        (delegate_all-Follows env balance ds)

  pub redelegate_all-Follows :
      (env : Env) (old new : VenearBalance) (ds : List DelegationEntry) (c : Contract)
      → IsSound hash_value hash_pair c.tree
      → growth_config c ≡ fixed_rate rate
      → Ensures
          (Follows env.block_timestamp c)
          (redelegate_all hash_value hash_pair env old new ds c)
  unfolding redelegate_all
  redelegate_all-Follows env old new [] c s config =
      returns c (Keeps-refl hash_value hash_pair rate env.block_timestamp c.tree s, refl)
  redelegate_all-Follows env old new (d ∷ ds) c s config =
      then-Keeps env d.account_id _ (redelegate_all hash_value hash_pair env old new ds) c s config
        (redelegate_all-Follows env old new ds)

  -- What keeps every steady number keeps the supply backed.
  Keeps-IsBacked :
      (now : ℕ) (t u : State)
      → IsBacked hash_value hash_pair rate now t
      → Keeps hash_value hash_pair rate now t u
      → IsBacked hash_value hash_pair rate now u
  Keeps-IsBacked now t u b k = record {
    sound = k.sound;
    config = ap get_venear_growth_config k.global ∙ b.config;
    pool_whole = rw k.global b.pool_whole;
    pool_past = rw k.global b.pool_past;
    pool_near = rw k.global b.pool_near ∙ sym (k.sums whole_near (whole_near-IsSteady rate now));
    pool_worth = λ time whole le.
        rw k.global (b.pool_worth time whole le)
        ∙ sym (k.sums (worth rate time) (worth-IsSteady rate fine now time le whole));
  }

  -- A write of an account that has only grown, after the loops.
  pub grown-IsAccounted :
      (env : Env) (a : AccountId) (x y : Account) (c d e : Contract)
      → IsAccounted hash_value hash_pair rate env.block_timestamp c
      → internal_expect_account_updated env c a ≡ ok x
      → ((v : Account)
          → IsGrownTo rate env.block_timestamp v x
          → IsGrownTo rate env.block_timestamp v y)
      → Follows env.block_timestamp c d
      → HasSet hash_value hash_pair a y d.tree e.tree × (e.accounts ≡ d.accounts)
      → IsAccounted hash_value hash_pair rate env.block_timestamp e
  grown-IsAccounted env a x y c d e b read grows (k, same) (w, again) =
      let (v, found, g) =
        expect-IsGrownTo hash_value hash_pair rate fine env c a x b.backed.sound b.backed.config
          read in
      let l =
        Keeps-HasSet hash_value hash_pair rate env.block_timestamp a v y c.tree d.tree e.tree found
          (grows (Account.of_versioned v) g) k w in
      record {
        backed = Keeps-IsBacked env.block_timestamp c.tree e.tree b.backed l;
        known = λ o none_there.
            l.absent o (b.known o (sym (ap (λ m. m o) (again ∙ same)) ∙ none_there));
      }

  pub expect-IsWhole :
      (env : Env) (c : Contract) (a : AccountId) (x : Account)
      → IsAccounted hash_value hash_pair rate env.block_timestamp c
      → internal_expect_account_updated env c a ≡ ok x
      → IsWhole x.update_timestamp
  expect-IsWhole env c a x b read =
      (expect-IsGrownTo hash_value hash_pair rate fine env c a x b.backed.sound b.backed.config
        read).2.end_whole

  pub set_delegations-IsAccounted :
      (env : Env) (c : Contract) (entries : List DelegationEntry)
      → IsAccounted hash_value hash_pair rate env.block_timestamp c
      → Ensures
          (λ r. IsAccounted hash_value hash_pair rate env.block_timestamp r.0)
          (set_delegations hash_value hash_pair env c entries)
  unfolding set_delegations
  set_delegations-IsAccounted env c entries b =
      Ensures-then (require (not c.is_paused) paused) _ λ _ h1.
        Ensures-then (require (ltb 0 env.attached_deposit) no_deposit) _ λ _ h2.
          Ensures-then
            (validate_delegations entries env.predecessor_account_id c.config.max_delegations) _
            λ sum h3.
              Ensures-then (internal_expect_account_updated env c env.predecessor_account_id) _
                λ owner read.
                  Ensures-bind
                    (undelegate_all hash_value hash_pair env owner.balance owner.delegations c) _
                    (undelegate_all-Follows env owner.balance owner.delegations c b.backed.sound
                      b.backed.config)
                    λ d h5 (k, same).
                      Ensures-bind (delegate_all hash_value hash_pair env owner.balance entries d) _
                        (delegate_all-Follows env owner.balance entries d k.sound
                          (config-Keeps env.block_timestamp c d k b.backed.config))
                        λ e h6 (l, again).
                          Ensures-bind
                            (internal_set_account hash_value hash_pair env
                              env.predecessor_account_id (record owner { delegations = entries }) e)
                            _
                            (internal_set_account-HasSet hash_value hash_pair env
                              env.predecessor_account_id (record owner { delegations = entries }) e
                              l.sound
                              (expect-IsWhole env c env.predecessor_account_id owner b read))
                            λ f h7 w. Ensures-then (storage_refund env) _ λ refund h8. returns _ (
                              grown-IsAccounted env env.predecessor_account_id owner
                                (record owner { delegations = entries }) c e f b read
                                (λ v g.
                                  IsGrownTo-delegated rate env.block_timestamp v owner
                                    owner.delegated_balance entries g)
                                (
                                  Keeps-trans hash_value hash_pair rate env.block_timestamp c.tree
                                      d.tree e.tree k l,
                                  again ∙ same,
                                )
                                w)
