-- ===== src/Merkle/Sums.antt =====
-- Sums over the leaves, and properties of all leaves, under writes.
use house_of_stake_contracts.Base.{
  ◌==◌, Bool-cases, Option-cases, checked_sub, Ensures, returns, Ensures-of, Ensures-apply,
  Ensures-bind, Ensures-then, ℕ, zero, suc, ◌+◌, ◌≤◌, ◌<◌, ◌≡◌, refl, sym, ap, subst, ◌∙◌, inl, inr,
  Option, none, some, arith,
}
use house_of_stake_contracts.Merkle.Tree.{
  insert, get, MerkleTree, set_value, claim_index, internal_post_update, internal_pre_update,
  Hashes, tree_height, set_global_state,
}
use house_of_stake_contracts.Merkle.{CryptoHash}
use native.Mathlib.Decide.{ℕ_discrete}
use house_of_stake_contracts.Common.Account.{AccountId}
use house_of_stake_contracts.Merkle.Invariant.{IsMerkle}
use house_of_stake_contracts.Merkle.Writes.{internal_pre_update-IsMerkle, claim_index-cases}

module _ {V : Type 0} (f : V → ℕ) where
  abbrev pub weight : Option V → ℕ
  weight none = 0
  weight (some v) = f v

  unfoldable pub sum_to : (ℕ → Option V) → ℕ → ℕ
  sum_to data_at zero = 0
  sum_to data_at (suc n) = sum_to data_at n + weight (data_at n)

  sum_to-beyond :
      (data_at : ℕ → Option V) (i n : ℕ) (v : V)
      → n ≤ i
      → sum_to (insert data_at i v) n ≡ sum_to data_at n
  unfolding sum_to
  sum_to-beyond data_at i zero v le = refl
  sum_to-beyond data_at i (suc n) v le = ground (arith, sum_to-beyond data_at i n v (omega arith))

  sum_to-insert :
      (data_at : ℕ → Option V) (i n : ℕ) (v : V)
      → i < n
      → sum_to (insert data_at i v) n + weight (data_at i) ≡ sum_to data_at n + f v
  unfolding sum_to
  sum_to-insert data_at i zero v lt = absurd (omega arith)
  sum_to-insert data_at i (suc n) v lt = elim (ℕ_discrete n i) [
    | yes same ↦ let below = sum_to-beyond data_at i n v (omega arith) in ground arith
    | no apart ↦ let below = sum_to-insert data_at i n v (omega arith) in ground arith
  ]

  -- The sum over all leaves.
  unfoldable pub sum_of : {G : Type 0} → MerkleTree V G → ℕ
  sum_of t = sum_to t.data_at t.leaves

module _ {V G : Type 0} where
  abbrev pub AllLeaves : (V → Type 0) → MerkleTree V G → Type 0
  AllLeaves P t = (i : ℕ) (v : V) → i < t.leaves → t.data_at i ≡ some v → P v

  -- What a write does to the leaves: it changes the account's, or appends one.
  data IsWritten (t : MerkleTree V G) (a : AccountId) (v : V) (u : MerkleTree V G) : Type 0 where
    changes :
        (i : ℕ)
        → t.accounts a ≡ some i
        → u.leaves ≡ t.leaves
        → u.data_at ≡ insert t.data_at i v
        → u.global_state ≡ t.global_state
        → IsWritten t a v u
    appends :
        t.accounts a ≡ none
        → u.leaves ≡ suc t.leaves
        → u.data_at ≡ insert t.data_at t.leaves v
        → u.global_state ≡ t.global_state
        → IsWritten t a v u

module _ {V G : Type 0} (hash_value : V → CryptoHash)
    (hash_pair : CryptoHash → CryptoHash → CryptoHash) where
  stored-IsWritten :
      (a : AccountId) (v : V) (t : MerkleTree V G)
      → IsMerkle hash_value hash_pair t
      → Ensures
          (λ r. IsWritten t a v (record (r.1) { data_at = insert (r.1).data_at r.0 v }))
          (claim_index a t)
  stored-IsWritten a v t m =
      claim_index-cases hash_value hash_pair t m a v _ (λ i e. changes i e refl refl refl)
        (λ e fits. appends e refl refl refl)

  hashed-IsWritten :
      (index : ℕ) (a : AccountId) (v : V) (t u : MerkleTree V G)
      → IsWritten t a v u
      → Ensures (IsWritten t a v) (internal_post_update hash_value hash_pair index u)
  unfolding internal_post_update
  hashed-IsWritten index a v t u w =
      Ensures-then (checked_sub (tree_height u.leaves) 1) _
        λ levels e. Ensures-then _ _ λ hs k. returns _ (rehashed w)
    where
      rehashed :
          {hs : Hashes} {h : CryptoHash}
          → IsWritten t a v u
          → IsWritten t a v (record u { hashes = hs; root = h })
      rehashed (changes i e n d g) = changes i e n d g
      rehashed (appends e n d g) = appends e n d g

  internal_pre_update-IsWritten :
      (block_height : ℕ) (a : AccountId) (v : V) (t u : MerkleTree V G)
      → IsWritten (internal_pre_update block_height t) a v u
      → IsWritten t a v u
  unfolding internal_pre_update
  internal_pre_update-IsWritten block_height a v t u w =
      elim (Bool-cases (t.last_block_height == block_height)) [
        | inl e ↦ rw e at w
        | inr e ↦ elim (rw e at w) [
          | changes i e n d g ↦ changes i e n d g
          | appends e n d g ↦ appends e n d g
        ]
      ]

  set_value-IsWritten :
      (block_height : ℕ) (a : AccountId) (v : V) (t : MerkleTree V G)
      → IsMerkle hash_value hash_pair t
      → Ensures (IsWritten t a v) (set_value hash_value hash_pair block_height a v t)
  unfolding set_value
  set_value-IsWritten block_height a v t m =
      Ensures-bind (claim_index a (internal_pre_update block_height t)) _
        (stored-IsWritten a v _
          (internal_pre_update-IsMerkle hash_value hash_pair block_height t m))
        λ r e w. hashed-IsWritten r.0 a v t _ (internal_pre_update-IsWritten block_height a v t _ w)

  written-sum_of :
      (f : V → ℕ) (a : AccountId) (v : V) (t u : MerkleTree V G)
      → IsMerkle hash_value hash_pair t
      → IsWritten t a v u
      → sum_of f u + weight f (get t a) ≡ sum_of f t + f v
  unfolding sum_of get sum_to
  written-sum_of f a v t u m (changes i e n d g) =
      let now : sum_to f u.data_at u.leaves ≡ sum_to f (insert t.data_at i v) t.leaves =
        ap (λ x. sum_to f x u.leaves) d ∙ ap (sum_to f (insert t.data_at i v)) n in
      let found : get t a ≡ t.data_at i = rw (e, get) refl in
      let before : weight f (get t a) ≡ weight f (t.data_at i) = ap (weight f) found in
      omega (arith, sum_to-insert f t.data_at i t.leaves v (m.claimed a i e))
  written-sum_of f a v t u m (appends e n d g) =
      let now : sum_to f u.data_at u.leaves
          ≡ sum_to f (insert t.data_at t.leaves v) (suc t.leaves) =
        ap (λ x. sum_to f x u.leaves) d ∙ ap (sum_to f (insert t.data_at t.leaves v)) n in
      let found : get t a ≡ none = rw (e, get) refl in
      let before : weight f (get t a) ≡ 0 = ap (weight f) found in
      let last : weight f (insert t.data_at t.leaves v t.leaves) ≡ f v = ground arith in
      omega (arith, sum_to-beyond f t.data_at t.leaves t.leaves v (omega arith))

  -- Writing an account's value replaces its part of the sum over all leaves.
  pub sum_of-set_value :
      (f : V → ℕ) (block_height : ℕ) (a : AccountId) (v : V) (t : MerkleTree V G)
      → IsMerkle hash_value hash_pair t
      → Ensures
          (λ u. sum_of f u + weight f (get t a) ≡ sum_of f t + f v)
          (set_value hash_value hash_pair block_height a v t)
  sum_of-set_value f block_height a v t m =
      Ensures-of _ λ u h.
        written-sum_of f a v t u m (Ensures-apply (set_value-IsWritten block_height a v t m) h)

  written-AllLeaves :
      (P : V → Type 0) (a : AccountId) (v : V) (t u : MerkleTree V G)
      → AllLeaves P t
      → P v
      → IsWritten t a v u
      → AllLeaves P u
  written-AllLeaves P a v t u all new (changes i e n d g) j w lt h = elim (ℕ_discrete j i) [
    | yes same ↦
        let here = sym (ap (λ x. x j) d) ∙ h in
        let whose : v ≡ w = ground arith in subst P whose new
    | no apart ↦ let here = sym (ap (λ x. x j) d) ∙ h in all j w (rw n at lt) (ground arith)
  ]
  written-AllLeaves P a v t u all new (appends e n d g) j w lt h = elim (ℕ_discrete j t.leaves) [
    | yes same ↦
        let here = sym (ap (λ x. x j) d) ∙ h in
        let whose : v ≡ w = ground arith in subst P whose new
    | no apart ↦ let here = sym (ap (λ x. x j) d) ∙ h in all j w (omega arith) (ground arith)
  ]

  -- What all leaves and the new value satisfy, all leaves satisfy after the write.
  pub set_value-AllLeaves :
      (P : V → Type 0) (block_height : ℕ) (a : AccountId) (v : V) (t : MerkleTree V G)
      → IsMerkle hash_value hash_pair t
      → AllLeaves P t
      → P v
      → Ensures (AllLeaves P) (set_value hash_value hash_pair block_height a v t)
  set_value-AllLeaves P block_height a v t m all new = Ensures-of _ λ u h.
      written-AllLeaves P a v t u all new
        (Ensures-apply (set_value-IsWritten block_height a v t m) h)

  pub get-AllLeaves :
      (P : V → Type 0) (a : AccountId) (v : V) (t : MerkleTree V G)
      → IsMerkle hash_value hash_pair t
      → AllLeaves P t
      → get t a ≡ some v
      → P v
  unfolding get
  get-AllLeaves P a v t m all e = elim (Option-cases (t.accounts a)) [
    | inl f ↦ ground arith
    | inr (i, f) ↦ all i v (m.claimed a i f) (ground arith)
  ]

  pub set_value-global_state :
      (block_height : ℕ) (a : AccountId) (v : V) (t : MerkleTree V G)
      → IsMerkle hash_value hash_pair t
      → Ensures
          (λ u. u.global_state ≡ t.global_state)
          (set_value hash_value hash_pair block_height a v t)
  set_value-global_state block_height a v t m = Ensures-of _ λ u h.
      elim (Ensures-apply (set_value-IsWritten block_height a v t m) h) [
        | changes i e n d g ↦ g
        | appends e n d g ↦ g
      ]

-- What is closed under sums holds of the sum.
module _ (P : ℕ → Type 0) (none_holds : P 0) (plus : (a b : ℕ) → P a → P b → P (a + b)) where
  sum_to-closed :
      {V : Type 0} (f : V → ℕ) (data_at : ℕ → Option V) (n : ℕ)
      → ((v : V) → P (f v))
      → P (sum_to f data_at n)
  unfolding sum_to
  sum_to-closed f data_at zero each = none_holds
  sum_to-closed f data_at (suc n) each =
      plus (sum_to f data_at n) (weight f (data_at n)) (sum_to-closed f data_at n each)
        (elim (Option-cases (data_at n)) [ inl e ↦ rw e none_holds | inr (v, e) ↦ rw e (each v) ])

  pub sum_of-closed :
      {V G : Type 0} (f : V → ℕ) (t : MerkleTree V G) → ((v : V) → P (f v)) → P (sum_of f t)
  unfolding sum_of
  sum_of-closed f t each = sum_to-closed f t.data_at t.leaves each

-- Setting the global state leaves the leaves as they are.
module _ {V G : Type 0} (block_height : ℕ) (g : G) (t : MerkleTree V G) where
  pub sum_of-set_global_state :
      (f : V → ℕ) → sum_of f (set_global_state block_height g t) ≡ sum_of f t
  unfolding sum_of set_global_state internal_pre_update
  sum_of-set_global_state f = elim (Bool-cases (t.last_block_height == block_height)) [
    | inl e ↦ rw e refl
    | inr e ↦ rw e refl
  ]

  pub set_global_state-AllLeaves :
      (P : V → Type 0) → AllLeaves P t → AllLeaves P (set_global_state block_height g t)
  unfolding set_global_state internal_pre_update
  set_global_state-AllLeaves P all = elim (Bool-cases (t.last_block_height == block_height)) [
    | inl e ↦ rw e all
    | inr e ↦ rw e all
  ]

  pub get-set_global_state : (a : AccountId) → get (set_global_state block_height g t) a ≡ get t a
  unfolding get set_global_state internal_pre_update
  get-set_global_state a = elim (Bool-cases (t.last_block_height == block_height)) [
    | inl e ↦ rw e refl
    | inr e ↦ rw e refl
  ]
