-- ===== src/Staking/Effects.antt =====
-- What staking and unstaking do when they return.
use house_of_stake_contracts.Base.{
  leb, ltb, ◌==◌, if◌then◌else◌, ltb→lt, leb→le, Panic, ok, expect, u128_max, checked, Ensures,
  returns, panics, Ensures-require, Ensures-bind, Ensures-then, ℕ, zero, suc, ◌+◌, ◌-◌, ◌≤◌, ◌<◌,
  ◌≡◌, refl, ap, ◌∙◌, ◌⊎◌, inl, inr, Bool, true, false, ◌&&◌, ◌||◌, Option, none, some, List, [],
  ◌∷◌, ◌++◌, arith, validator_not_found, u128_saturating_add,
}
use house_of_stake_contracts.Common.Account.{AccountId}
use house_of_stake_contracts.Staking.Types.{
  PendingUnstakeTranche, Contract, Validator, Env, net_stake_yocto, put,
}
use house_of_stake_contracts.Staking.Validators.{
  internal_unstake, set_user_pending_unstake_tranches, internal_stake,
  increment_pending_unstake_validator_count, shares_of, has_any,
  decrement_pending_unstake_validator_count, tranches_of, count_validators,
  pending_unstake_tranche_available_epoch_height,
}
use house_of_stake_contracts.Merkle.Tree.{insert}
use house_of_stake_contracts.Staking.Shares.{mint_shares, near_from_shares}

-- The validator after new shares are minted for a deposit.
abbrev pub staked : Validator → ℕ → ℕ → Validator
staked v deposit new_shares = record v {
  total_shares = u128_saturating_add v.total_shares new_shares;
  pending_to_stake = v.pending_to_stake + deposit;
}

-- The validator after shares are burnt for an amount of NEAR.
abbrev pub unstaked : Validator → ℕ → ℕ → Validator
unstaked v near shares = record v {
  total_shares = v.total_shares - shares;
  pending_to_unstake = v.pending_to_unstake + near;
}

pub record Staked (c : Contract) (buyer id : AccountId) (deposit : ℕ) (r : Contract × ℕ)
    : Type 0 where
  pub before : Validator
  pub found : c.validators id ≡ some before
  pub backed : (before.total_shares ≡ 0) ⊎ (0 < net_stake_yocto before)
  pub minted : mint_shares before.total_shares (net_stake_yocto before) deposit ≡ ok (r.1)
  pub validators_are : (r.0).validators ≡ insert c.validators id (staked before deposit (r.1))
  pub shares_are :
      (r.0).user_validator_shares
      ≡ put c.user_validator_shares buyer id
          (some (u128_saturating_add (shares_of c buyer id) (r.1)))
  pub tranches_are : (r.0).user_pending_unstake ≡ c.user_pending_unstake

pub record Unstaked (env : Env) (c : Contract) (account id : AccountId) (shares : ℕ)
    (r : Contract × ℕ) : Type 0 where
  pub before : Validator
  pub epoch : ℕ
  pub found : c.validators id ≡ some before
  pub some_shares : 0 < shares
  pub enough : shares ≤ before.total_shares
  pub held : shares ≤ shares_of c account id
  pub priced : near_from_shares shares (net_stake_yocto before) before.total_shares ≡ ok (r.1)
  pub validators_are : (r.0).validators ≡ insert c.validators id (unstaked before (r.1) shares)
  pub shares_are :
      (r.0).user_validator_shares
      ≡ put c.user_validator_shares account id (
          if shares_of c account id == shares then none else some (shares_of c account id - shares))
  pub tranches_are :
      (r.0).user_pending_unstake
      ≡ put c.user_pending_unstake account id (
          some (
            tranches_of c account id
            ++ record { amount = r.1; available_epoch_height = epoch } ∷ []))

pub expect-eq {ℓ} : {A : Type ℓ} (o : Option A) (e : Panic) → Ensures (λ a. o ≡ some a) (expect o e)
unfolding expect
expect-eq none e = panics e
expect-eq (some a) e = returns a refl

pub checked-eq : (bound n m : ℕ) → checked bound n ≡ ok m → m ≡ n
checked-eq bound n m h = ground arith

backed_by : (total net : ℕ) → (leb total 0 || ltb 0 net) ≡ true → (total ≡ 0) ⊎ (0 < net)
backed_by zero net h = inl refl
backed_by (suc n) net h = inr (ground arith)

pub internal_stake-Staked :
    (c : Contract) (buyer id : AccountId) (deposit : ℕ)
    → Ensures (Staked c buyer id deposit) (internal_stake c buyer id deposit)
unfolding internal_stake
internal_stake-Staked c buyer id deposit =
    Ensures-bind _ _ (expect-eq _ validator_not_found) λ v h1 found. Ensures-require _ _ _ λ h2.
      Ensures-then _ _ λ new h3. Ensures-then _ _ λ pending h4. returns _ (record {
        before = v;
        found = found;
        backed = backed_by v.total_shares (net_stake_yocto v) h2;
        minted = h3;
        validators_are =
            ap
              (λ p. insert c.validators id (record v {
                total_shares = u128_saturating_add v.total_shares new;
                pending_to_stake = p;
              }))
              (checked-eq u128_max _ pending h4);
        shares_are = refl;
        tranches_are = refl;
      })

append-some :
    (ts : List PendingUnstakeTranche) (t : PendingUnstakeTranche)
    → (if has_any (ts ++ t ∷ []) then some (ts ++ t ∷ []) else none) ≡ some (ts ++ t ∷ [])
append-some [] t = refl
append-some (x ∷ ts) t = refl

abbrev SameMaps : Contract → Contract → Type 0
SameMaps c d =
    (d.user_pending_unstake ≡ c.user_pending_unstake)
    × (d.user_validator_shares ≡ c.user_validator_shares)
    × (d.validators ≡ c.validators)

count_validators-SameMaps :
    (had has : Bool) (account : AccountId) (c : Contract)
    → Ensures (SameMaps c) (count_validators had has account c)
unfolding count_validators increment_pending_unstake_validator_count
    decrement_pending_unstake_validator_count
count_validators-SameMaps false true account c =
    Ensures-then _ _ λ next h. returns _ (refl, refl, refl)
count_validators-SameMaps true false account c = returns _ (refl, refl, refl)
count_validators-SameMaps true true account c = returns _ (refl, refl, refl)
count_validators-SameMaps false false account c = returns _ (refl, refl, refl)

-- What is set, and what is left as it was.
pub set_tranches-eq :
    (account id : AccountId) (ts : List PendingUnstakeTranche) (c : Contract)
    → Ensures
        (λ d.
          (d.user_pending_unstake
            ≡ put c.user_pending_unstake account id (if has_any ts then some ts else none))
          × (d.user_validator_shares ≡ c.user_validator_shares)
          × (d.validators ≡ c.validators))
        (set_user_pending_unstake_tranches account id ts c)
unfolding set_user_pending_unstake_tranches
set_tranches-eq account id ts c = count_validators-SameMaps _ _ account _

enough_shares : (total shares : ℕ) → (ltb 0 total && leb shares total) ≡ true → shares ≤ total
enough_shares total shares h = ground arith

pub internal_unstake-Unstaked :
    (env : Env) (c : Contract) (account id : AccountId) (shares : ℕ)
    → Ensures (Unstaked env c account id shares) (internal_unstake env c account id shares)
unfolding internal_unstake
internal_unstake-Unstaked env c account id shares = Ensures-require _ _ _ λ h1.
    Ensures-bind _ _ (expect-eq _ validator_not_found) λ v h2 found. Ensures-require _ _ _ λ h3.
      Ensures-require _ _ _ λ h4. Ensures-then _ _ λ near h5. Ensures-then _ _ λ pending h6.
        Ensures-require _ _ _ λ h7.
          Ensures-bind _ _ (set_tranches-eq account id _ _) λ d h8 (ts, ss, vs). returns _ (record {
            before = v;
            epoch =
                pending_unstake_tranche_available_epoch_height env c (record v {
                  total_shares = v.total_shares - shares;
                  pending_to_unstake = pending;
                });
            found = found;
            some_shares = ltb→lt _ _ h1;
            enough = enough_shares v.total_shares shares h3;
            held = leb→le _ _ h7;
            priced = h5;
            validators_are =
                ap
                  (λ m. insert m id (record v {
                    total_shares = v.total_shares - shares;
                    pending_to_unstake = pending;
                  }))
                  vs
                ∙ ap
                    (λ p.
                      insert c.validators id (record v {
                        total_shares = v.total_shares - shares;
                        pending_to_unstake = p;
                      }))
                    (checked-eq u128_max _ pending h6);
            shares_are = ss;
            tranches_are =
                ts
                ∙ ap (put c.user_pending_unstake account id)
                    (append-some (tranches_of c account id) _);
          })
