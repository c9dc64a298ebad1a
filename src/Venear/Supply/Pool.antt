-- ===== src/Venear/Supply/Pool.antt =====
-- The pool of the global state as balances come in, go out and grow.
use house_of_stake_contracts.Base.{
  leb, Bool-cases, leb→le, ok, ◌>>=◌, require, expect, Result-cases, ℕ, ◌+◌, ◌/◌, ◌≤◌, ◌≡◌, refl,
  sym, ap, ◌∙◌, inl, inr, arith,
}
use house_of_stake_contracts.Common.GlobalState
use house_of_stake_contracts.Common.Balance
use house_of_stake_contracts.Common.Growth.{Fraction, fixed_rate, calculate}
use house_of_stake_contracts.Common.Balance.{pooled_add, VenearBalance, pooled_sub}
use house_of_stake_contracts.Common.Exact.{fine_grain, exact_growth}
use house_of_stake_contracts.Common.Token.{
  truncate_near_to_millis, truncate_to_seconds, yocto_per_millinear,
}
use house_of_stake_contracts.Common.GlobalState.{GlobalState}
use house_of_stake_contracts.Venear.Supply.{worth_of}
use house_of_stake_contracts.Common.Balance.Delegation.{exact_growth-sum, update-parts}
use house_of_stake_contracts.Common.Balance.Growing.{IsWhole, exact_growth-add}

module _ (rate : Fraction) where
  growth-truncated :
      (s t near : ℕ)
      → exact_growth rate s t (truncate_near_to_millis near) ≡ exact_growth rate s t near
  growth-truncated s t near =
      let whole : truncate_near_to_millis near / yocto_per_millinear ≡ near / yocto_per_millinear =
        omega arith in
      rw whole refl

  -- Growth on a pool of whole milliNEAR and on a balance beside it.
  growth-with :
      (s t pool near : ℕ)
      → truncate_near_to_millis pool ≡ pool
      → exact_growth rate s t (pool + truncate_near_to_millis near)
        ≡ exact_growth rate s t pool + exact_growth rate s t near
  growth-with s t pool near whole =
      let twice : truncate_near_to_millis (truncate_near_to_millis near)
          ≡ truncate_near_to_millis near =
        omega arith in
      let sum = exact_growth-sum rate s t pool (truncate_near_to_millis near) whole twice in
      omega (arith, growth-truncated s t near)

  pub pooled_add-parts :
      (pool b p : VenearBalance)
      → pooled_add pool b ≡ ok p
      → (p.near_balance ≡ pool.near_balance + truncate_near_to_millis b.near_balance)
        × (p.near_balance + p.extra_venear_balance
            ≡ pool.near_balance
              + pool.extra_venear_balance
              + (b.near_balance + b.extra_venear_balance))
  unfolding pooled_add ◌>>=◌ require expect
  pooled_add-parts pool b p h = ground arith

  pub pooled_sub-parts :
      (pool b p : VenearBalance)
      → pooled_sub pool b ≡ ok p
      → (pool.near_balance ≡ p.near_balance + truncate_near_to_millis b.near_balance)
        × (pool.near_balance + pool.extra_venear_balance
            ≡ p.near_balance + p.extra_venear_balance + (b.near_balance + b.extra_venear_balance))
  unfolding pooled_sub ◌>>=◌ require expect
  pooled_sub-parts pool b p h = ground arith

  -- A balance that comes into a pool adds its worth.
  pub pooled_add-worth_of :
      (pool b p : VenearBalance) (s t : ℕ)
      → truncate_near_to_millis pool.near_balance ≡ pool.near_balance
      → pooled_add pool b ≡ ok p
      → worth_of rate p s t ≡ worth_of rate pool s t + worth_of rate b s t
  pooled_add-worth_of pool b p s t whole h =
      let (near, sum) = pooled_add-parts pool b p h in
      let growth =
        ap (exact_growth rate s t) near ∙ growth-with s t pool.near_balance b.near_balance whole in
      omega arith

  -- A balance that goes out of a pool takes its worth along.
  pub pooled_sub-worth_of :
      (pool b p : VenearBalance) (s t : ℕ)
      → truncate_near_to_millis pool.near_balance ≡ pool.near_balance
      → pooled_sub pool b ≡ ok p
      → worth_of rate pool s t ≡ worth_of rate p s t + worth_of rate b s t
  pooled_sub-worth_of pool b p s t whole h =
      let (near, sum) = pooled_sub-parts pool b p h in
      let rest : truncate_near_to_millis p.near_balance ≡ p.near_balance = omega arith in
      let growth =
        ap (exact_growth rate s t) near ∙ growth-with s t p.near_balance b.near_balance rest in
      omega arith

  -- The global state grown to now.
  pub record HasGrownPool (now : ℕ) (g h : GlobalState) : Type 0 where
    pub config : h.venear_growth_config ≡ g.venear_growth_config
    pub at : h.update_timestamp ≡ truncate_to_seconds now
    pub near : h.total_venear_balance.near_balance ≡ g.total_venear_balance.near_balance
    pub same_worth :
        (time : ℕ)
        → IsWhole time
        → truncate_to_seconds now ≤ time
        → worth_of rate h.total_venear_balance h.update_timestamp time
          ≡ worth_of rate g.total_venear_balance g.update_timestamp time

  update-order :
      (b c : VenearBalance) (s t : ℕ) → Balance.update b s t (fixed_rate rate) ≡ ok c → s ≤ t
  unfolding Balance.update calculate ◌>>=◌ require
  update-order b c s t h = elim (Bool-cases (leb s t)) [
    | inl e ↦ leb→le s t e
    | inr e ↦ ground arith
  ]

  global-parts :
      (g h : GlobalState) (now : ℕ)
      → g.venear_growth_config ≡ fixed_rate rate
      → GlobalState.update g now ≡ ok h
      → (h.venear_growth_config ≡ g.venear_growth_config)
        × (h.update_timestamp ≡ truncate_to_seconds now)
        × (g.update_timestamp ≤ truncate_to_seconds now)
        × (Balance.update g.total_venear_balance g.update_timestamp
              (truncate_to_seconds now)
              (fixed_rate rate)
            ≡ ok h.total_venear_balance)
  unfolding GlobalState.update ◌>>=◌ require
  global-parts g h now config e =
      elim (Result-cases (
        Balance.update g.total_venear_balance g.update_timestamp (truncate_to_seconds now)
          g.venear_growth_config)) [
            | inl (pool, f) ↦
                let by_rate =
                  ap
                    (Balance.update g.total_venear_balance g.update_timestamp
                      (truncate_to_seconds now))
                    (sym config)
                  ∙ f in
                let same : pool ≡ h.total_venear_balance = ground arith in
                (
                  ground arith,
                  ground arith,
                  update-order g.total_venear_balance pool g.update_timestamp
                      (truncate_to_seconds now) by_rate,
                  by_rate ∙ ap ok same,
                )
            | inr (p, f) ↦ ground arith
          ]

  pub update-HasGrownPool :
      rate.denominator ≡ fine_grain
      → (g h : GlobalState) (now : ℕ) → g.venear_growth_config ≡ fixed_rate rate
      → IsWhole g.update_timestamp
      → GlobalState.update g now ≡ ok h
      → HasGrownPool now g h
  update-HasGrownPool fine g h now config whole e =
      let (same, at, order, grows) = global-parts g h now config e in
      let there : IsWhole (truncate_to_seconds now) = omega arith in
      let (near, extra, _) =
        update-parts rate fine g.total_venear_balance h.total_venear_balance g.update_timestamp
          (truncate_to_seconds now) order whole there grows in
      record {
        config = same;
        at = at;
        near = near;
        same_worth = λ time w le.
            let split =
              exact_growth-add rate fine g.update_timestamp (truncate_to_seconds now) time
                g.total_venear_balance.near_balance order (omega arith) whole there w in
            rw (near, extra, at) (omega (arith, split));
      }
