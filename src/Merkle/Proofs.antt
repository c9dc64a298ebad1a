-- ===== src/Merkle/Proofs.antt =====
-- The proofs that a tree gives are the valid ones: completeness and soundness of inclusion proofs.
use house_of_stake_contracts.Base.{
  ◌^◌, ◌≢◌, ◌⊎◌, [], ◌==◌, if◌then◌else◌, Bool-cases, length, ℕ, zero, suc, ◌+◌, ◌-◌, ◌*◌, ◌/◌, ◌%◌,
  ◌≤◌, ◌<◌, ◌≡◌, refl, sym, ap, inl, inr, arith, List, ◌∙◌, ◌∷◌, true, ◌↔◌, ==_iff, some, ◌>>=◌,
  expect, ok, subst,
}
use house_of_stake_contracts.Merkle.{
  CryptoHash, climb, is_valid, MerkleProof, height_of_leaves, bit_length, same_hash,
}
use house_of_stake_contracts.Merkle.Height.{halve, leftmost, leftmost-half}
use house_of_stake_contracts.Merkle.Tree.{
  Hashes, get_hash, sibling_index, siblings, MerkleTree, get, get_proof,
}
use house_of_stake_contracts.Merkle.Invariant.{
  levels-above, tree_height-levels_of, IsHashed, levels_of, IsMerkle,
}
use mathlib.Core.HLevel.{Discrete, ×_discrete}
use native.Mathlib.Decide.{Fin-discrete}
use native.Mathlib.Fin.{val_path}
use house_of_stake_contracts.Common.Account.{AccountId}

pub length-siblings : (hs : Hashes) (n h i : ℕ) → length (siblings hs n h i) ≡ n
unfolding siblings
length-siblings hs zero h i = refl
length-siblings hs (suc n) h i = ap suc (length-siblings hs n (suc h) (i / 2))

CryptoHash-discrete : Discrete CryptoHash
CryptoHash-discrete = Fin-discrete (2 ^ 256)

-- A node and its sibling, the left one first.
abbrev pub ordered : ℕ → CryptoHash → CryptoHash → CryptoHash × CryptoHash
ordered i own other = if i % 2 == 0 then (own, other) else (other, own)

-- Two lists have different pairs at one place, and the pairs hash to the same.
pub data Collides (hash_pair : CryptoHash → CryptoHash → CryptoHash)
    : List (CryptoHash × CryptoHash) → List (CryptoHash × CryptoHash) → Type 0 where
  collides :
      {p q : CryptoHash × CryptoHash} {ps qs : List (CryptoHash × CryptoHash)}
      → p ≢ q
      → hash_pair p.0 p.1 ≡ hash_pair q.0 q.1
      → Collides hash_pair (p ∷ ps) (q ∷ qs)
  beyond :
      {p q : CryptoHash × CryptoHash} {ps qs : List (CryptoHash × CryptoHash)}
      → Collides hash_pair ps qs
      → Collides hash_pair (p ∷ ps) (q ∷ qs)

module _ (hash_pair : CryptoHash → CryptoHash → CryptoHash) where
  -- The pairs that the loop of `is_valid` hashes, from a node and its siblings to the root.
  unfoldable pub hashed_pairs : ℕ → CryptoHash → List CryptoHash → List (CryptoHash × CryptoHash)
  hashed_pairs i own [] = []
  hashed_pairs i own (other ∷ path) =
      ordered i own other
      ∷ hashed_pairs (i / 2) (if i % 2 == 0 then hash_pair own other else hash_pair other own) path

module _ {V : Type 0} (hash_value : V → CryptoHash)
    (hash_pair : CryptoHash → CryptoHash → CryptoHash) where
  -- The hash that a node and its sibling are joined to.
  abbrev joined : ℕ → CryptoHash → CryptoHash → CryptoHash
  joined i own other = if i % 2 == 0 then hash_pair own other else hash_pair other own

  -- Two pairs that are joined to one hash are the same pair, or a collision.
  same_pair :
      (i : ℕ) (x y a b : CryptoHash)
      → joined i x y ≡ joined i a b
      → ((x ≡ a) × (y ≡ b))
        ⊎ ((ordered i x y ≢ ordered i a b)
            × (hash_pair (ordered i x y).0 (ordered i x y).1
                ≡ hash_pair (ordered i a b).0 (ordered i a b).1))
  same_pair i x y a b e = elim (Bool-cases (i % 2 == 0)) [
    | inl even ↦ elim (×_discrete CryptoHash-discrete CryptoHash-discrete (x, y) (a, b)) [
      | yes same ↦ inl (ap (λ p. p.0) same, ap (λ p. p.1) same)
      | no apart ↦ inr (rw even (apart, rw even at e))
    ]
    | inr odd ↦ elim (×_discrete CryptoHash-discrete CryptoHash-discrete (y, x) (b, a)) [
      | yes same ↦ inl (ap (λ p. p.1) same, ap (λ p. p.0) same)
      | no apart ↦ inr (rw odd (apart, rw odd at e))
    ]
  ]

  joined-parent :
      (hs : Hashes) (h i : ℕ)
      → IsHashed hash_pair hs h (i / 2)
      → joined i (get_hash hs h i) (get_hash hs h (sibling_index i)) ≡ get_hash hs (suc h) (i / 2)
  joined-parent hs h i e = elim (Bool-cases (i % 2 == 0)) [
    | inl even ↦ let own : 2 * (i / 2) ≡ i = ground arith in rw even (sym (rw own at e))
    | inr odd ↦
        let own : 2 * (i / 2) + 1 ≡ i = ground arith in
        let other : 2 * (i / 2) ≡ i - 1 = ground arith in rw odd (sym (rw (own, other) at e))
  ]

  module _ (hs : Hashes) (leaves top : ℕ)
      (node : (h k : ℕ)
        → suc h ≤ top
        → leftmost (suc h) k < leaves
        → IsHashed hash_pair hs h k) where
    climb-siblings :
        (n h i : ℕ)
        → h + n ≡ top
        → leftmost h i < leaves
        → climb hash_value hash_pair i (get_hash hs h i) (siblings hs n h i)
          ≡ get_hash hs top (halve n i)
    unfolding climb siblings halve
    climb-siblings zero h i e lt = ap (λ l. get_hash hs l i) (omega arith)
    climb-siblings (suc n) h i e lt =
        let up : leftmost (suc h) (i / 2) < leaves = omega (arith, leftmost-half h i) in
        ap (λ x. climb hash_value hash_pair (i / 2) x (siblings hs n (suc h) (i / 2)))
          (joined-parent hs h i (node h (i / 2) (omega arith) up))
        ∙ climb-siblings n (suc h) (i / 2) (omega arith) up

    -- Whoever climbs to the tree's own node started at the tree's own node, by the tree's siblings, or
    -- hashed another pair to the hash that the tree has of its pair.
    climb_unique :
        (n h i : ℕ) (x : CryptoHash) (path : List CryptoHash)
        → h + n ≡ top
        → leftmost h i < leaves
        → length path ≡ n
        → climb hash_value hash_pair i x path ≡ get_hash hs top (halve n i)
        → ((x ≡ get_hash hs h i) × (path ≡ siblings hs n h i))
          ⊎ Collides hash_pair
              (hashed_pairs hash_pair i x path)
              (hashed_pairs hash_pair i (get_hash hs h i) (siblings hs n h i))
    unfolding climb siblings halve hashed_pairs
    climb_unique zero h i x [] e lt len c = inl (c ∙ ap (λ l. get_hash hs l i) (omega arith), refl)
    climb_unique zero h i x (y ∷ path) e lt len c = absurd (omega arith)
    climb_unique (suc n) h i x [] e lt len c = absurd (omega arith)
    climb_unique (suc n) h i x (y ∷ path) e lt len c =
        let up : leftmost (suc h) (i / 2) < leaves = omega (arith, leftmost-half h i) in
        let own = get_hash hs h i in
        let other = get_hash hs h (sibling_index i) in
        let parent = joined-parent hs h i (node h (i / 2) (omega arith) up) in
        elim (climb_unique n (suc h) (i / 2) (joined i x y) path (omega arith) up (omega arith) c) [
          | inl (here, rest) ↦ elim (same_pair i x y own other (here ∙ sym parent)) [
            | inl (first, second) ↦ inl (first, cc)
            | inr (apart, equal) ↦ inr (collides apart equal)
          ]
          | inr above ↦ inr (
              beyond (
                subst
                  (λ z.
                    Collides hash_pair (hashed_pairs hash_pair (i / 2) (joined i x y) path)
                      (hashed_pairs hash_pair (i / 2) z (siblings hs n (suc h) (i / 2))))
                  (sym parent) above))
        ]

-- The proof that the tree itself would give for a leaf.
abbrev pub own_proof : {V G : Type 0} → MerkleTree V G → ℕ → MerkleProof
own_proof t index = record { index = index; path = siblings t.hashes (levels_of t.leaves) 0 index }

-- Equality of hashes is that of their numbers.
same_hash_iff : (x y : CryptoHash) → (same_hash x y ≡ true) ↔ (x ≡ y)
same_hash_iff x y =
    (λ e. val_path ((==_iff x.0 y.0).0 e), λ e. (==_iff x.0 y.0).1 (ap (λ z. z.0) e))

-- What `is_valid` checks.
is_valid_iff :
    {V : Type 0} (hash_value : V → CryptoHash) (hash_pair : CryptoHash → CryptoHash → CryptoHash)
    (proof : MerkleProof) (root : CryptoHash) (n : ℕ) (v : V)
    → (is_valid hash_value hash_pair proof root n v ≡ true) ↔ (
        (proof.index < n)
        × (length proof.path ≡ levels_of n)
        × (climb hash_value hash_pair proof.index (hash_value v) proof.path ≡ root))
unfolding is_valid levels_of height_of_leaves
is_valid_iff hash_value hash_pair proof root zero v = ground arith
is_valid_iff hash_value hash_pair proof root (suc n) v =
    let top = climb hash_value hash_pair proof.index (hash_value v) proof.path in
    ground (
      arith,
      ==_iff (length proof.path + 1) (suc (bit_length 32 (suc n - 1))),
      same_hash_iff top root,
    )

module _ {V G : Type 0} (hash_value : V → CryptoHash)
    (hash_pair : CryptoHash → CryptoHash → CryptoHash) (t : MerkleTree V G)
    (m : IsMerkle hash_value hash_pair t) where
  levels-top : (i : ℕ) → i < t.leaves → halve (levels_of t.leaves) i ≡ 0
  levels-top i lt = levels-above t.leaves i m.fits lt

  top-hash :
      (i : ℕ)
      → i < t.leaves
      → t.root ≡ get_hash t.hashes (levels_of t.leaves) (halve (levels_of t.leaves) i)
  top-hash i lt =
      m.top (omega arith) ∙ ap (get_hash t.hashes (levels_of t.leaves)) (sym (levels-top i lt))

  own_proof-climbs :
      (i : ℕ) (v : V)
      → i < t.leaves
      → t.data_at i ≡ some v
      → climb hash_value hash_pair i (hash_value v) (own_proof t i).path ≡ t.root
  unfolding leftmost
  own_proof-climbs i v lt stored =
      let (w, found, hashed) = m.leaf i lt in
      let same : hash_value v ≡ get_hash t.hashes 0 i = cc in
      ap (λ x. climb hash_value hash_pair i x (own_proof t i).path) same
      ∙ climb-siblings hash_value hash_pair t.hashes t.leaves (levels_of t.leaves) m.node
          (levels_of t.leaves) 0 i (omega arith) lt
      ∙ sym (top-hash i lt)

  -- In a tree that keeps its invariant every registered account has a value, `get_proof` returns that
  -- value with a proof, and `is_valid` accepts the proof against the tree's root and size.
  pub get_proof-is_valid :
      (a : AccountId) (index : ℕ)
      → t.accounts a ≡ some index
      → (v : V) × (get t a ≡ some v)
        × (get_proof t a ≡ ok (some (own_proof t index, v)))
        × (is_valid hash_value hash_pair (own_proof t index) t.root t.leaves v ≡ true)
  unfolding get get_proof ◌>>=◌ expect
  get_proof-is_valid a index e =
      let lt = m.claimed a index e in
      let (v, found, _) = m.leaf index lt in
      let height = tree_height-levels_of t.leaves (omega arith) in
      (
        v,
        rw (e, get) found,
        rw (e, get_proof) (rw (height, found) (ground arith)),
        (is_valid_iff hash_value hash_pair (own_proof t index) t.root t.leaves v).1 (
          lt,
          length-siblings t.hashes (levels_of t.leaves) 0 index,
          own_proof-climbs index v lt found,
        ),
      )

  -- In a tree that keeps its invariant, a leaf has a value at the index of every proof that `is_valid`
  -- accepts against the tree's root and size, and there are three cases: the proof is the tree's own
  -- and the value is the one stored; the value and another one, which is stored, have the same
  -- hash; or at one level, the check of the proof hashes another pair than the check of the
  -- tree's own proof, to the same hash.
  pub is_valid-stored :
      (proof : MerkleProof) (v : V)
      → Discrete V
      → is_valid hash_value hash_pair proof t.root t.leaves v ≡ true
      → (w : V) × (t.data_at proof.index ≡ some w)
        × (((w ≡ v) × (proof.path ≡ (own_proof t proof.index).path))
            ⊎ (((w ≢ v) × (hash_value w ≡ hash_value v))
                ⊎ Collides hash_pair
                    (hashed_pairs hash_pair proof.index (hash_value v) proof.path)
                    (hashed_pairs hash_pair proof.index
                      (hash_value w)
                      (own_proof t proof.index).path)))
  unfolding leftmost
  is_valid-stored proof v decides accepted =
      let (lt, len, climbed) =
        (is_valid_iff hash_value hash_pair proof t.root t.leaves v).0 accepted in
      let (w, found, hashed) = m.leaf proof.index lt in
      let told =
        climb_unique hash_value hash_pair t.hashes t.leaves (levels_of t.leaves) m.node
          (levels_of t.leaves) 0 proof.index (hash_value v) proof.path (omega arith) lt len
          (climbed ∙ top-hash proof.index lt) in
      (
        w,
        found,
        elim told [
          | inl (own, path) ↦ elim (decides w v) [
            | yes same ↦ inl (same, path)
            | no apart ↦ inr (inl (apart, sym (own ∙ hashed)))
          ]
          | inr collision ↦ inr (
              inr (
                subst
                  (λ z.
                    Collides hash_pair
                      (hashed_pairs hash_pair proof.index (hash_value v) proof.path)
                      (hashed_pairs hash_pair proof.index z (own_proof t proof.index).path))
                  hashed collision))
        ],
      )
