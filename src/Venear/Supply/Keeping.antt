-- ===== src/Venear/Supply/Keeping.antt =====
-- Writes of accounts, and the changes of delegates' pools, which keep every steady number.
use house_of_stake_contracts.Base.{
  not_registered, ◌==◌, if◌then◌else◌, Panic, Result, ok, ◌>>=◌, expect, Ensures, returns,
  Ensures-of, Ensures-apply, Ensures-then, ℕ, ◌+◌, ◌≡◌, refl, sym, ap, ◌∙◌, Bool, Option, none,
  some, arith,
}
use house_of_stake_contracts.Common.Account
use mathlib.Core.Option.{map}
use house_of_stake_contracts.Venear.Contract.{Contract, Env, growth_config}
use house_of_stake_contracts.Merkle.Tree.{get, set_value}
use house_of_stake_contracts.Common.Account.{VAccount, AccountId, Account, owned_total}
use house_of_stake_contracts.Merkle.{CryptoHash}
use house_of_stake_contracts.Common.Growth.{Fraction, fixed_rate}
use house_of_stake_contracts.Venear.Accounts.{
  internal_set_account, owned_total_or_zero, internal_get_account, internal_expect_account_updated,
}
use house_of_stake_contracts.Venear.Supply.{State, IsSound, measured, HasWholeTime}
use house_of_stake_contracts.Merkle.Sums.{
  weight, sum_of, set_value-AllLeaves, set_value-global_state, sum_of-set_value, get-AllLeaves,
}
use house_of_stake_contracts.Venear.Supply.Measures.{
  IsSteady, IsGrownTo, update-IsGrownTo, IsGrownTo-delegated,
}
use house_of_stake_contracts.Common.Balance.Growing.{IsWhole}
use house_of_stake_contracts.Merkle.Writes.{get-set_value, set_value-IsMerkle, get-set_value}
use native.Mathlib.Decide.{ℕ_discrete}
use house_of_stake_contracts.Common.Exact.{fine_grain}
use house_of_stake_contracts.Venear.Delegations.{change_pool}
use house_of_stake_contracts.Common.Balance.{PooledVenearBalance}

none≢some : {A : Type 0} (a : A) → none ≡ some a → ⊥
none≢some a e = cc

expect-mapped :
    {A B C : Type 0} {x : C} (f : A → B) (o : Option A) (e : Panic) (next : B → Result C)
    → (expect (map f o) e >>= next) ≡ ok x
    → (a : A) × (o ≡ some a) × (next (f a) ≡ ok x)
unfolding ◌>>=◌ expect
expect-mapped f none e next h = cc
expect-mapped f (some a) e next h = (a, refl, h)

module _ (hash_value : VAccount → CryptoHash)
    (hash_pair : CryptoHash → CryptoHash → CryptoHash) where
  -- One account is written.
  pub record HasSet (a : AccountId) (x : Account) (t u : State) : Type 0 where
    pub sound : IsSound hash_value hash_pair u
    pub global : u.global_state ≡ t.global_state
    pub sums :
        (f : Account → ℕ)
        → sum_of (measured f) u + weight (measured f) (get t a) ≡ sum_of (measured f) t + f x
    pub each :
        (f : Account → ℕ) (b : AccountId)
        → weight (measured f) (get u b) ≡ (if b == a then f x else weight (measured f) (get t b))
    pub reads : (b : AccountId) → get u b ≡ (if b == a then some (Account.v1 x) else get t b)

  weight-if :
      (f : Account → ℕ) (p : Bool) (x : Account) (o : Option VAccount)
      → weight (measured f) (if p then some (Account.v1 x) else o)
        ≡ (if p then f x else weight (measured f) o)
  unfolding Account.of_versioned
  weight-if f p x o = ground arith

  set_value-HasSet :
      (block_height : ℕ) (a : AccountId) (x : Account) (t u : State)
      → IsSound hash_value hash_pair t
      → IsWhole x.update_timestamp
      → set_value hash_value hash_pair block_height a (Account.v1 x) t ≡ ok u
      → HasSet a x t u
  unfolding Account.of_versioned
  set_value-HasSet block_height a x t u s whole e = record {
    sound = record {
      merkle =
          Ensures-apply
            (set_value-IsMerkle hash_value hash_pair block_height a (Account.v1 x) t s.merkle) e;
      leaves_whole =
          Ensures-apply
            (set_value-AllLeaves hash_value hash_pair HasWholeTime block_height a (Account.v1 x) t
              s.merkle s.leaves_whole whole)
            e;
    };
    global =
        Ensures-apply
          (set_value-global_state hash_value hash_pair block_height a (Account.v1 x) t s.merkle) e;
    sums = λ f.
        Ensures-apply
          (sum_of-set_value hash_value hash_pair (measured f) block_height a (Account.v1 x) t
            s.merkle)
          e;
    each = λ f b.
        ap (weight (measured f)) (
          Ensures-apply
            (get-set_value hash_value hash_pair block_height a b (Account.v1 x) t s.merkle) e)
        ∙ weight-if f (b == a) x (get t b);
    reads = λ b.
        Ensures-apply
          (get-set_value hash_value hash_pair block_height a b (Account.v1 x) t s.merkle) e;
  }

  pub internal_set_account-HasSet :
      (env : Env) (a : AccountId) (x : Account) (c : Contract)
      → IsSound hash_value hash_pair c.tree
      → IsWhole x.update_timestamp
      → Ensures
          (λ d. HasSet a x c.tree d.tree × (d.accounts ≡ c.accounts))
          (internal_set_account hash_value hash_pair env a x c)
  unfolding internal_set_account
  internal_set_account-HasSet env a x c s whole =
      Ensures-then (owned_total_or_zero (internal_get_account c a)) _ λ old e.
        Ensures-then (owned_total x) _ λ new f.
          Ensures-then (set_value hash_value hash_pair env.block_height a (Account.v1 x) c.tree) _
            λ tree g. returns _ (set_value-HasSet env.block_height a x c.tree tree s whole g, refl)

  module _ (rate : Fraction) (now : ℕ) where
    -- No steady number changes: of all accounts, or of one.
    pub record Keeps (t u : State) : Type 0 where
      pub sound : IsSound hash_value hash_pair u
      pub global : u.global_state ≡ t.global_state
      pub sums :
          (f : Account → ℕ) → IsSteady rate now f → sum_of (measured f) u ≡ sum_of (measured f) t
      pub each :
          (f : Account → ℕ)
          → IsSteady rate now f
          → (b : AccountId) → weight (measured f) (get u b) ≡ weight (measured f) (get t b)
      pub absent : (b : AccountId) → get t b ≡ none → get u b ≡ none

    pub Keeps-refl : (t : State) → IsSound hash_value hash_pair t → Keeps t t
    Keeps-refl t s = record {
      sound = s;
      global = refl;
      sums = λ f h. refl;
      each = λ f h b. refl;
      absent = λ b e. e;
    }

    pub Keeps-trans : (t u v : State) → Keeps t u → Keeps u v → Keeps t v
    Keeps-trans t u v k l = record {
      sound = l.sound;
      global = l.global ∙ k.global;
      sums = λ f h. l.sums f h ∙ k.sums f h;
      each = λ f h b. l.each f h b ∙ k.each f h b;
      absent = λ b e. l.absent b (k.absent b e);
    }

    -- A write of an account that has only grown, after what keeps every steady number.
    pub Keeps-HasSet :
        (a : AccountId) (v : VAccount) (x : Account) (t u w : State)
        → get t a ≡ some v
        → IsGrownTo rate now (Account.of_versioned v) x
        → Keeps t u
        → HasSet a x u w
        → Keeps t w
    Keeps-HasSet a v x t u w found g k s = record {
      sound = s.sound;
      global = s.global ∙ k.global;
      sums = λ f h.
          let same = ap (weight (measured f)) found in
          omega (arith, s.sums f, k.sums f h, k.each f h a, h (Account.of_versioned v) x g);
      each = λ f h b.
          let same = ap (weight (measured f)) found in
          elim (ℕ_discrete b a) [
            | yes e ↦
                let there = ap (λ c. weight (measured f) (get t c)) e in
                ground (arith, s.each f b, h (Account.of_versioned v) x g)
            | no apart ↦ ground (arith, s.each f b, k.each f h b)
          ];
      absent = λ b e. elim (ℕ_discrete b a) [
        | yes same ↦ let there = ap (get t) same in absurd (none≢some v (sym e ∙ there ∙ found))
        | no apart ↦ s.reads b ∙ ground (arith, k.absent b e)
      ];
    }

  module _ (rate : Fraction) (fine : rate.denominator ≡ fine_grain) where
    -- The account that is read is the stored one, grown to now.
    pub expect-IsGrownTo :
        (env : Env) (c : Contract) (a : AccountId) (x : Account)
        → IsSound hash_value hash_pair c.tree
        → growth_config c ≡ fixed_rate rate
        → internal_expect_account_updated env c a ≡ ok x
        → (v : VAccount) × (get c.tree a ≡ some v)
          × (IsGrownTo rate env.block_timestamp (Account.of_versioned v) x)
    unfolding internal_expect_account_updated internal_get_account
    expect-IsGrownTo env c a x s config h =
        let (v, e, grows) =
          expect-mapped Account.of_versioned (get c.tree a) not_registered
            (λ y. Account.update y env.block_timestamp (growth_config c)) h in
        let whole =
          get-AllLeaves hash_value hash_pair HasWholeTime a v c.tree s.merkle s.leaves_whole e in
        let by_rate =
          ap (Account.update (Account.of_versioned v) env.block_timestamp) (sym config) ∙ grows in
        (
          v,
          e,
          update-IsGrownTo rate fine (Account.of_versioned v) x env.block_timestamp whole by_rate,
        )

    -- A change of a delegate's pool keeps what every account has of its own.
    pub change_pool-Keeps :
        (env : Env) (a : AccountId) (change : PooledVenearBalance → Result PooledVenearBalance)
        (c : Contract)
        → IsSound hash_value hash_pair c.tree
        → growth_config c ≡ fixed_rate rate
        → Ensures
            (λ d. Keeps rate env.block_timestamp c.tree d.tree × (d.accounts ≡ c.accounts))
            (change_pool hash_value hash_pair env a change c)
    unfolding change_pool
    change_pool-Keeps env a change c s config =
        Ensures-then (internal_expect_account_updated env c a) _ λ x e.
          Ensures-then (change x.delegated_balance) _ λ pool f.
            let (v, found, g) = expect-IsGrownTo env c a x s config e in
            Ensures-of _ λ d h.
              let (w, same) =
                Ensures-apply
                  (internal_set_account-HasSet env a (record x { delegated_balance = pool }) c s
                    g.end_whole)
                  h in
              (
                Keeps-HasSet rate env.block_timestamp a v (record x { delegated_balance = pool })
                    c.tree c.tree d.tree found
                    (IsGrownTo-delegated rate env.block_timestamp (Account.of_versioned v) x pool
                      x.delegations g)
                    (Keeps-refl rate env.block_timestamp c.tree s) w,
                same,
              )
