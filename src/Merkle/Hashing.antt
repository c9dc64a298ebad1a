-- ===== src/Merkle/Hashing.antt =====
-- Hashing a leaf's way up again mends every node above it and leaves the others alone.
use house_of_stake_contracts.Base.{
  ◌==◌, if◌then◌else◌, Bool-cases, ℕ, zero, suc, ◌+◌, ◌*◌, ◌/◌, ◌≤◌, ◌<◌, ◌≡◌, refl, ap, ◌∙◌, ◌≢◌,
  inl, inr, ◌&&◌, arith, ◌>>=◌, Ensures, returns, require, panic, ok, Ensures-require, overflow,
  le→leb, leb, leb→le,
}
use house_of_stake_contracts.Merkle.{CryptoHash}
use house_of_stake_contracts.Merkle.Height.{halve, leftmost}
use house_of_stake_contracts.Merkle.Tree.{Hashes, get_hash, set_hash, rehash}
use house_of_stake_contracts.Merkle.Invariant.{IsHashed}
use native.Mathlib.Decide.{dec_lt, ℕ_discrete}

pub get_hash-set_hash :
    (hs : Hashes) (height index : ℕ) (x : CryptoHash) (h i : ℕ)
    → get_hash (set_hash hs height index x) h i
      ≡ (if h == height && i == index then x else get_hash hs h i)
unfolding get_hash set_hash
get_hash-set_hash hs height index x h i = elim (Bool-cases (h == height && i == index)) [
  | inl here ↦ rw (get_hash, set_hash, here) refl
  | inr elsewhere ↦ rw (get_hash, set_hash, elsewhere) refl
]

module _ (hash_pair : CryptoHash → CryptoHash → CryptoHash) where
  -- The hashes that the loop over a node's parents leaves, if no shift panics.
  unfoldable pub mend : ℕ → ℕ → ℕ → Hashes → Hashes
  mend zero height index hs = hs
  mend (suc levels) height index hs = mend levels (suc height) (index / 2) (
      set_hash hs (suc height) (index / 2) (
        hash_pair (get_hash hs height (2 * (index / 2)))
          (get_hash hs height (2 * (index / 2) + 1))))

  pub rehash-mend :
      (levels height index : ℕ) (hs : Hashes)
      → Ensures (λ x. x ≡ mend levels height index hs) (rehash hash_pair levels height index hs)
  unfolding rehash mend
  rehash-mend zero height index hs = returns hs refl
  rehash-mend (suc levels) height index hs =
      Ensures-require _ _ _ λ low. rehash-mend levels (suc height) (index / 2) _

  -- Up to 31 levels above the leaves no shift panics, and one level more panics.
  pub rehash-returns :
      (levels height index : ℕ) (hs : Hashes)
      → height + levels ≤ 31
      → rehash hash_pair levels height index hs ≡ ok (mend levels height index hs)
  unfolding rehash mend ◌>>=◌ require
  rehash-returns zero height index hs low = refl
  rehash-returns (suc levels) height index hs low =
      let fits = le→leb (suc height) 31 (omega arith) in
      rw fits (rehash-returns levels (suc height) (index / 2) _ (omega arith))

  pub rehash-panics :
      (levels height index : ℕ) (hs : Hashes)
      → height ≤ 31
      → 32 ≤ height + levels
      → rehash hash_pair levels height index hs ≡ panic overflow
  unfolding rehash ◌>>=◌ require
  rehash-panics zero height index hs low high = absurd (omega arith)
  rehash-panics (suc levels) height index hs low high = elim (Bool-cases (leb (suc height) 31)) [
    | inl fits ↦
        rw fits (rehash-panics levels (suc height) (index / 2) _ (leb→le _ _ fits) (omega arith))
    | inr over ↦ rw over refl
  ]

  -- Only levels above the node's own are written.
  pub get_hash-mend :
      (levels height index : ℕ) (hs : Hashes) (h i : ℕ)
      → h ≤ height
      → get_hash (mend levels height index hs) h i ≡ get_hash hs h i
  unfolding mend
  get_hash-mend zero height index hs h i le = refl
  get_hash-mend (suc levels) height index hs h i le =
      get_hash-mend levels (suc height) (index / 2) _ h i (omega arith)
      ∙ get_hash-set_hash hs (suc height) (index / 2) _ h i
      ∙ ground arith

  -- A node that does not hang on a written one.
  pub IsHashed-set_hash :
      (hs : Hashes) (height index : ℕ) (x : CryptoHash) (h k : ℕ)
      → (suc h ≡ height → k ≢ index)
      → (h ≡ height → k ≢ index / 2)
      → IsHashed hash_pair hs h k
      → IsHashed hash_pair (set_hash hs height index x) h k
  IsHashed-set_hash hs height index x h k apart above e = ground (
    arith,
    get_hash-set_hash hs height index x (suc h) k,
    get_hash-set_hash hs height index x h (2 * k),
    get_hash-set_hash hs height index x h (2 * k + 1),
  )

  -- The node that is written from its children.
  IsHashed-joined :
      (hs : Hashes) (height index : ℕ)
      → IsHashed hash_pair
          (set_hash hs
            (suc height)
            index
            (hash_pair (get_hash hs height (2 * index)) (get_hash hs height (2 * index + 1))))
          height
          index
  IsHashed-joined hs height index =
      let x = hash_pair (get_hash hs height (2 * index)) (get_hash hs height (2 * index + 1)) in
      ground (
        arith,
        get_hash-set_hash hs (suc height) index x (suc height) index,
        get_hash-set_hash hs (suc height) index x height (2 * index),
        get_hash-set_hash hs (suc height) index x height (2 * index + 1),
      )

  module _ (top leaves : ℕ) where
    -- If every node is the hash of its children but for the ancestors of one node, then after the
    -- loop over those ancestors every node is.
    pub mend-IsHashed :
        (levels height index : ℕ) (hs : Hashes)
        → height + levels ≡ top
        → ((h k : ℕ) → suc h ≤ height → leftmost (suc h) k < leaves → IsHashed hash_pair hs h k)
        → ((h k up : ℕ)
            → h ≡ height + up
            → suc h ≤ top
            → k ≢ halve (suc up) index
            → leftmost (suc h) k < leaves
            → IsHashed hash_pair hs h k)
        → (h k : ℕ) → suc h ≤ top
        → leftmost (suc h) k < leaves
        → IsHashed hash_pair (mend levels height index hs) h k
    unfolding mend halve
    mend-IsHashed zero height index hs e below off h k le lt = below h k (omega arith) lt
    mend-IsHashed (suc levels) height index hs e below off h k le lt =
        mend-IsHashed levels (suc height) (index / 2) _ (omega arith)
          (λ l j le' lt'. mended l j le' lt' (dec_lt l height) (ℕ_discrete j (index / 2)))
          (λ l j up e' le' ne lt'.
            IsHashed-set_hash hs (suc height) (index / 2) _ l j (λ eq. absurd (omega arith))
              (λ eq same. ne (at_once {up = up} same (omega arith)))
              (off l j (suc up) (omega arith) le' ne lt'))
          h k le lt
      where
        at_once : {j up : ℕ} → j ≡ index / 2 / 2 → 0 ≡ up → j ≡ halve up (index / 2 / 2)
        at_once same none_up = same ∙ ap (λ u. halve u (index / 2 / 2)) none_up

        mended :
            (l j : ℕ)
            → suc l ≤ suc height
            → leftmost (suc l) j < leaves
            → Dec (l < height)
            → Dec (j ≡ index / 2)
            → IsHashed hash_pair
                (set_hash hs (suc height) (index / 2) (
                  hash_pair
                    (get_hash hs height (2 * (index / 2)))
                    (get_hash hs height (2 * (index / 2) + 1))))
                l
                j
        mended l j le' lt' (yes low) d =
            IsHashed-set_hash hs (suc height) (index / 2) _ l j (λ eq. absurd (omega arith))
              (λ eq. absurd (omega arith)) (below l j low lt')
        mended l j le' lt' (no high) (yes same) =
            let level : l ≡ height = omega arith in
            rw (level, same) (IsHashed-joined hs height (index / 2))
        mended l j le' lt' (no high) (no apart) =
            IsHashed-set_hash hs (suc height) (index / 2) _ l j (λ eq. apart)
              (λ eq. absurd (omega arith)) (off l j 0 (omega arith) (omega arith) apart lt')
