-- ===== src/Staking/Sums.antt =====
-- Sums over accounts, and what holds of them when the part of one account changes.
use house_of_stake_contracts.Base.{
  contains, ℕ, ◌+◌, ◌≤◌, ◌≡◌, refl, sym, ap, subst, ◌≢◌, ◌⊎◌, inl, inr, false, List, [], ◌∷◌, arith,
}
use native.Mathlib.Decide.{ℕ_discrete}
use house_of_stake_contracts.Common.Account.{AccountId}

abbrev pub sum_over : (AccountId → ℕ) → List AccountId → ℕ
sum_over f [] = 0
sum_over f (x ∷ xs) = f x + sum_over f xs

abbrev pub Distinct : List AccountId → Type 0
Distinct [] = Unit {0}
Distinct (x ∷ xs) = (contains xs x ≡ false) × Distinct xs

-- However many different accounts are summed up, the bound is not passed.
abbrev pub IsBoundOf : (AccountId → AccountId → ℕ) → (AccountId → ℕ) → Type 0
IsBoundOf part bound =
    (id : AccountId) (xs : List AccountId) → Distinct xs → sum_over (λ a. part a id) xs ≤ bound id

pub sum_over-same :
    (f g : AccountId → ℕ) (xs : List AccountId)
    → ((b : AccountId) → g b ≡ f b)
    → sum_over g xs ≡ sum_over f xs
sum_over-same f g [] h = refl
sum_over-same f g (x ∷ xs) h = omega (arith, h x, sum_over-same f g xs h)

-- An account that is not in a list with a head.
absent-apart : (x a : AccountId) (xs : List AccountId) → contains (x ∷ xs) a ≡ false → x ≢ a
absent-apart x a xs h same = absurd (ground arith)

absent-tail :
    (x a : AccountId) (xs : List AccountId) → contains (x ∷ xs) a ≡ false → contains xs a ≡ false
absent-tail x a xs h = ground arith

absent-cons :
    (x a : AccountId) (xs : List AccountId)
    → x ≢ a
    → contains xs a ≡ false
    → contains (x ∷ xs) a ≡ false
absent-cons x a xs apart h = ground arith

sum_over-absent :
    (f g : AccountId → ℕ) (a : AccountId) (xs : List AccountId)
    → contains xs a ≡ false
    → ((b : AccountId) → b ≢ a → g b ≡ f b)
    → sum_over g xs ≡ sum_over f xs
sum_over-absent f g a [] absent h = refl
sum_over-absent f g a (x ∷ xs) absent h = omega (
  arith,
  h x (absent-apart x a xs absent),
  sum_over-absent f g a xs (absent-tail x a xs absent) h,
)

-- The sum without the account is the same; with it, it changes by as much as the account's part.
sum_over-changed :
    (f g : AccountId → ℕ) (a : AccountId) (xs : List AccountId)
    → Distinct xs
    → ((b : AccountId) → b ≢ a → g b ≡ f b)
    → (contains xs a ≡ false) ⊎ (sum_over g xs + f a ≡ sum_over f xs + g a)
sum_over-changed f g a [] distinct h = inl refl
sum_over-changed f g a (x ∷ xs) (fresh, distinct) h = elim (ℕ_discrete x a) [
  | yes here ↦
      let rest = sum_over-absent f g a xs (subst (λ y. contains xs y ≡ false) here fresh) h in
      inr (omega (arith, rest, ap f here, ap g here))
  | no apart ↦ elim (sum_over-changed f g a xs distinct h) [
    | inl absent ↦ inl (absent-cons x a xs apart absent)
    | inr moved ↦ inr (omega (arith, moved, h x apart))
  ]
]

-- One account's part at one validator changes, by no more than the bound there.
pub IsBoundOf-changed :
    (part part' : AccountId → AccountId → ℕ) (bound bound' : AccountId → ℕ) (a id : AccountId)
    → IsBoundOf part bound
    → ((b i : AccountId) → i ≢ id → part' b i ≡ part b i)
    → ((b : AccountId) → b ≢ a → part' b id ≡ part b id)
    → ((i : AccountId) → i ≢ id → bound' i ≡ bound i)
    → part' a id + bound id ≤ part a id + bound' id
    → IsBoundOf part' bound'
IsBoundOf-changed part part' bound bound' a id h elsewhere others outside le i xs distinct =
    elim (ℕ_discrete i id) [
      | yes here ↦
          subst (λ v. sum_over (λ b. part' b v) xs ≤ bound' v) (sym here)
            (elim (sum_over-changed (λ b. part b id) (λ b. part' b id) a xs distinct others) [
              | inl absent ↦
                  let same =
                    sum_over-absent (λ b. part b id) (λ b. part' b id) a xs absent others in
                  let all : part a id + sum_over (λ b. part b id) xs ≤ bound id =
                    h id (a ∷ xs) (absent, distinct) in
                  omega (arith, same, all, le)
              | inr moved ↦
                  let all : sum_over (λ b. part b id) xs ≤ bound id = h id xs distinct in
                  omega (arith, moved, all, le)
            ])
      | no apart ↦
          let same = sum_over-same (λ b. part b i) (λ b. part' b i) xs λ b. elsewhere b i apart in
          let all : sum_over (λ b. part b i) xs ≤ bound i = h i xs distinct in
          omega (arith, same, all, outside i apart)
    ]
