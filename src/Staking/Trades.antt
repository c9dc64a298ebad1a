-- ===== src/Staking/Trades.antt =====
-- Nobody gains by trading in shares (staking-contract/src/validators.rs).
use house_of_stake_contracts.Base.{
  ltb→lt, Result, ok, ◌>>=◌, u128_max, Ensures, returns, Ensures-apply, Ensures-require,
  Ensures-bind, Ensures-then, Ensures-if, ℕ, ◌+◌, ◌*◌, ◌≤◌, ◌<◌, ◌≡◌, refl, sym, ap, subst, ◌∙◌,
  ◌⊎◌, inl, inr, not, Option, some, arith, u128_saturating_add, validator_not_found,
}
use house_of_stake_contracts.Common.Account.{AccountId}
use house_of_stake_contracts.Staking.Types.{
  Validator, Env, Contract, net_stake_yocto, gross_stake_yocto, pending_not_in_contract_yocto,
}
use house_of_stake_contracts.Staking.Validators.{internal_stake, internal_unstake}
use house_of_stake_contracts.Staking.Effects.{
  internal_stake-Staked, internal_unstake-Unstaked, staked, unstaked, expect-eq, checked-eq,
}
use house_of_stake_contracts.Staking.Solvency.Shares.{insert-here}
use house_of_stake_contracts.Staking.Price.{
  NoLoss, IsBounded, near_from_shares-bound, mint_shares-fair, staked-NoLoss, unstaked-NoLoss,
  net_stake-eq,
}
use house_of_stake_contracts.Staking.Shares.{mint_shares, near_from_shares}
use house_of_stake_contracts.Staking.Fractions.{round-trip}
use house_of_stake_contracts.Staking.Epoch.{on_deposit_and_stake, on_unstake}
use house_of_stake_contracts.Merkle.Tree.{insert}

same_validator :
    (o p : Option Validator) (v w : Validator) → o ≡ p → o ≡ some v → p ≡ some w → v ≡ w
same_validator o p v w same h k = cc

staked-net_bound :
    (v : Validator) (deposit s : ℕ)
    → net_stake_yocto (staked v deposit s) ≤ net_stake_yocto v + deposit
unfolding net_stake_yocto gross_stake_yocto pending_not_in_contract_yocto
staked-net_bound v deposit s = omega arith

traded :
    (v : Validator) (deposit s n : ℕ)
    → 0 < v.total_shares
    → (v.total_shares ≡ 0) ⊎ (0 < net_stake_yocto v)
    → v.total_shares + s ≤ u128_max
    → mint_shares v.total_shares (net_stake_yocto v) deposit ≡ ok s
    → near_from_shares s
        (net_stake_yocto (staked v deposit s))
        (u128_saturating_add v.total_shares s)
      ≡ ok n
    → n ≤ deposit
traded v deposit s n shares (inl empty) fits minted priced = absurd (omega (arith, shares, empty))
traded v deposit s n shares (inr backed) fits minted priced =
    let all : u128_saturating_add v.total_shares s ≡ v.total_shares + s = omega (arith, fits) in
    near_from_shares-bound s (net_stake_yocto (staked v deposit s)) (v.total_shares + s) n deposit
      (omega (arith, shares))
      (round-trip (net_stake_yocto v) v.total_shares deposit s
        (net_stake_yocto (staked v deposit s)) (staked-net_bound v deposit s)
        (mint_shares-fair v.total_shares (net_stake_yocto v) deposit s shares backed minted))
      (ap (near_from_shares s (net_stake_yocto (staked v deposit s))) (sym all) ∙ priced)

-- The NEAR for the shares that are bought with a deposit is at most the deposit, when they are sold at
-- once, at a validator that has shares already: what rounding takes stays with the others. The
-- shares issued have to fit their type.
pub internal_stake-internal_unstake :
    (env : Env) (c : Contract) (buyer id : AccountId) (deposit : ℕ) (v : Validator)
    (bought sold : Contract × ℕ)
    → c.validators id ≡ some v
    → 0 < v.total_shares
    → v.total_shares + bought.1 ≤ u128_max
    → internal_stake c buyer id deposit ≡ ok bought
    → internal_unstake env (bought.0) buyer id (bought.1) ≡ ok sold
    → sold.1 ≤ deposit
internal_stake-internal_unstake env c buyer id deposit v bought sold found shares fits buys sells =
    let s = Ensures-apply (internal_stake-Staked c buyer id deposit) buys in
    let u = Ensures-apply (internal_unstake-Unstaked env (bought.0) buyer id (bought.1)) sells in
    let first : s.before ≡ v = same_validator _ _ s.before v refl s.found found in
    let second : u.before ≡ staked s.before deposit (bought.1) =
      same_validator _ _ u.before (staked s.before deposit (bought.1))
        (ap (λ m. m id) s.validators_are) u.found
        (insert-here c.validators id (staked s.before deposit (bought.1))) in
    traded v deposit (bought.1) (sold.1) shares
      (subst (λ x. (x.total_shares ≡ 0) ⊎ (0 < net_stake_yocto x)) first s.backed) fits
      (ap (λ x. mint_shares x.total_shares (net_stake_yocto x) deposit) (sym first) ∙ s.minted)
      (ap
          (λ x.
            near_from_shares (bought.1) (net_stake_yocto (staked x deposit (bought.1)))
              (u128_saturating_add x.total_shares (bought.1)))
          (sym first)
        ∙ ap (λ x. near_from_shares (bought.1) (net_stake_yocto x) x.total_shares) (sym second)
        ∙ u.priced)

-- The calls that trade in shares, and the answers that settle the trades with the pool.
pub data Trade : Type 0 where
  buys : (buyer : AccountId) (deposit : ℕ) → Trade
  sells : (account : AccountId) (shares : ℕ) → Trade
  settles_stake settles_unstake : Trade

unfoldable pub trade : Env → Contract → AccountId → Trade → Result Contract
trade env c id (buys buyer deposit) = do ok ((← internal_stake c buyer id deposit).0)
trade env c id (sells account shares) = do ok ((← internal_unstake env c account id shares).0)
trade env c id settles_stake = on_deposit_and_stake env c id
trade env c id settles_unstake = on_unstake env c id

settled-NoLoss :
    (v w : Validator)
    → net_stake_yocto w ≡ net_stake_yocto v
    → w.total_shares ≡ v.total_shares
    → NoLoss v w
settled-NoLoss v w net shares =
    let same : net_stake_yocto v * w.total_shares ≡ net_stake_yocto w * v.total_shares =
      ap (λ n. net_stake_yocto v * n) shares ∙ ap (λ n. n * v.total_shares) (sym net) in
    omega (arith, same)

-- Nothing changes, or a validator with shares is written, and no holder loses.
abbrev Traded : Contract → AccountId → Contract → Type 0
Traded c id d =
    (d.validators ≡ c.validators)
    ⊎ ((x : Validator) × (y : Validator) × (c.validators id ≡ some x)
        × (d.validators ≡ insert c.validators id y)
        × (0 < x.total_shares → IsBounded x → IsBounded y → NoLoss x y))

trade-Traded :
    (env : Env) (c : Contract) (id : AccountId) (t : Trade)
    → Ensures (Traded c id) (trade env c id t)
unfolding trade on_deposit_and_stake on_unstake
trade-Traded env c id (buys buyer deposit) =
    Ensures-bind _ _ (internal_stake-Staked c buyer id deposit) λ r h s. returns _ (
      inr (
        s.before,
        staked s.before deposit (r.1),
        s.found,
        s.validators_are,
        λ shares fits fity. staked-NoLoss s.before deposit (r.1) fity shares s.backed s.minted,
      ))
trade-Traded env c id (sells account n) =
    Ensures-bind _ _ (internal_unstake-Unstaked env c account id n) λ r h u. returns _ (
      inr (
        u.before,
        unstaked u.before (r.1) n,
        u.found,
        u.validators_are,
        λ shares fits fity. unstaked-NoLoss u.before (r.1) n fity u.enough u.some_shares u.priced,
      ))
trade-Traded env c id settles_stake = Ensures-then _ _ λ _ h1.
    Ensures-if (not env.promise_succeeded) _ _ (λ e. returns _ (inl refl))
      λ e. Ensures-bind _ _ (expect-eq _ validator_not_found) λ v h2 found.
        Ensures-require _ _ _ λ h3. Ensures-then _ _ λ total h4. returns _ (
          inr (
            v,
            _,
            found,
            refl,
            λ shares fits fity.
                settled-NoLoss v _
                  (omega (
                    arith,
                    net_stake-eq v fits,
                    net_stake-eq _ fity,
                    ltb→lt _ _ h3,
                    checked-eq u128_max _ total h4,
                  ))
                  refl,
          ))
trade-Traded env c id settles_unstake = Ensures-then _ _ λ _ h1.
    Ensures-if (not env.promise_succeeded) _ _ (λ e. returns _ (inl refl))
      λ e. Ensures-bind _ _ (expect-eq _ validator_not_found) λ v h2 found.
        Ensures-require _ _ _ λ h3. returns _ (
          inr (
            v,
            _,
            found,
            refl,
            λ shares fits fity.
                settled-NoLoss v _
                  (omega (arith, net_stake-eq v fits, net_stake-eq _ fity, ltb→lt _ _ h3, fits.1))
                  refl,
          ))

-- No purchase and no sale of shares, by anyone, and no answer of the pool to the stake or unstake that
-- settles them makes the price of a share fall, where the validator has shares before: the holders
-- lose nothing by the rounding. The validator's amounts have to fit their types before and after.
pub trade-NoLoss :
    (env : Env) (c d : Contract) (id : AccountId) (t : Trade) (v w : Validator)
    → trade env c id t ≡ ok d
    → c.validators id ≡ some v
    → d.validators id ≡ some w
    → 0 < v.total_shares
    → IsBounded v
    → IsBounded w
    → NoLoss v w
trade-NoLoss env c d id t v w returned found after shares fits fitw =
    elim (Ensures-apply (trade-Traded env c id t) returned) [
      | inl same ↦
          let kept : v ≡ w = same_validator _ _ v w (sym (ap (λ m. m id) same)) found after in
          subst (NoLoss v) kept (omega arith)
      | inr (x, y, was, now, fair) ↦
          let first : x ≡ v = same_validator _ _ x v refl was found in
          let second : y ≡ w =
            same_validator _ _ y w refl (insert-here c.validators id y)
              (sym (ap (λ m. m id) now) ∙ after) in
          let at_first : 0 < v.total_shares → IsBounded v → IsBounded y → NoLoss v y =
            subst (λ z. 0 < z.total_shares → IsBounded z → IsBounded y → NoLoss z y) first fair in
          subst (NoLoss v) second (at_first shares fits (subst IsBounded (sym second) fitw))
    ]
