-- ===== src/Merkle/Updates.antt =====
-- Every write to the tree keeps its invariant.
use house_of_stake_contracts.Base.{
  refl, ◌==◌, if◌then◌else◌, u32_max, ℕ, suc, ◌+◌, ◌≤◌, ◌<◌, ◌≡◌, sym, ap, ◌∙◌, ◌≢◌, some, arith,
  ◌>>=◌, Ensures, returns, checked_sub, ok, Ensures-bind, subst,
}
use house_of_stake_contracts.Common.Account.{AccountId}
use house_of_stake_contracts.Merkle.{CryptoHash}
use house_of_stake_contracts.Merkle.Height.{halve, leftmost}
use house_of_stake_contracts.Merkle.Tree.{
  Hashes, MerkleTree, get_hash, set_hash, leaf_hash, internal_post_update,
}
use house_of_stake_contracts.Merkle.Invariant.{levels_of, IsHashed, IsMerkle, tree_height-levels_of}
use house_of_stake_contracts.Merkle.Hashing.{
  mend, rehash-mend, get_hash-set_hash, get_hash-mend, mend-IsHashed, IsHashed-set_hash,
}
use native.Mathlib.Decide.{ℕ_discrete}

checked_sub-one : (n : ℕ) → checked_sub (suc n) 1 ≡ ok n
checked_sub-one n = ground arith

module _ {V G : Type 0} (hash_value : V → CryptoHash)
    (hash_pair : CryptoHash → CryptoHash → CryptoHash) where
  -- All that the invariant says of a tree before the hashes above one leaf are mended: that leaf may
  -- lack its hash, and its ancestors may not be the hashes of their children.
  pub record IsPending (index : ℕ) (t : MerkleTree V G) : Type 0 where
    pub fits : t.leaves ≤ u32_max
    pub inside : index < t.leaves
    pub present : (v : V) × (t.data_at index ≡ some v)
    pub leaf :
        (i : ℕ)
        → i < t.leaves
        → i ≢ index
        → (v : V) × (t.data_at i ≡ some v) × (get_hash t.hashes 0 i ≡ hash_value v)
    pub node :
        (h k : ℕ)
        → suc h ≤ levels_of t.leaves
        → k ≢ halve (suc h) index
        → leftmost (suc h) k < t.leaves
        → IsHashed hash_pair t.hashes h k
    pub claimed : (a : AccountId) (i : ℕ) → t.accounts a ≡ some i → i < t.leaves
    pub apart : (a b : AccountId) (i : ℕ) → t.accounts a ≡ some i → t.accounts b ≡ some i → a ≡ b

  module _ (index : ℕ) (t : MerkleTree V G) (p : IsPending index t) where
    abbrev mended : Hashes
    mended =
        mend hash_pair (levels_of t.leaves) 0 index
          (set_hash t.hashes 0 index (leaf_hash hash_value (t.data_at index)))

    mended-low :
        (i : ℕ)
        → get_hash mended 0 i
          ≡ (if i == index then leaf_hash hash_value (t.data_at index) else get_hash t.hashes 0 i)
    mended-low i =
        get_hash-mend hash_pair (levels_of t.leaves) 0 index _ 0 i (omega arith)
        ∙ get_hash-set_hash t.hashes 0 index _ 0 i

    mended-leaf :
        (i : ℕ)
        → i < t.leaves
        → (v : V) × (t.data_at i ≡ some v) × (get_hash mended 0 i ≡ hash_value v)
    mended-leaf i lt = elim (ℕ_discrete i index) [
      | yes same ↦
          let (v, found) = p.present in (v, rw same found, rw (mended-low i) (ground arith))
      | no apart ↦
          let (v, found, hashed) = p.leaf i lt apart in (v, found, rw (mended-low i) (ground arith))
    ]

    mended-node :
        (h k : ℕ)
        → suc h ≤ levels_of t.leaves
        → leftmost (suc h) k < t.leaves
        → IsHashed hash_pair mended h k
    unfolding halve
    mended-node =
        mend-IsHashed hash_pair (levels_of t.leaves) t.leaves (levels_of t.leaves) 0 index _
          (omega arith) (λ h k le lt. absurd (omega arith))
          (λ h k up e le ne lt. off h k up e le ne lt)
      where
        off :
            (h k up : ℕ)
            → h ≡ 0 + up
            → suc h ≤ levels_of t.leaves
            → k ≢ halve (suc up) index
            → leftmost (suc h) k < t.leaves
            → IsHashed hash_pair
                (set_hash t.hashes 0 index (leaf_hash hash_value (t.data_at index)))
                h
                k
        off h k up e le ne lt =
            let level : up ≡ h = omega arith in
            let apart : k ≢ halve (suc h) index = rw level at ne in
            IsHashed-set_hash hash_pair t.hashes 0 index _ h k (λ none. absurd (omega arith))
              (λ leaf same. apart (same ∙ ap (λ u. halve (suc u) index) (sym leaf)))
              (p.node h k le apart lt)

    -- Mending the hashes above the leaf restores the invariant.
    pub mended-IsMerkle :
        IsMerkle hash_value hash_pair
          (record t { hashes = mended; root = get_hash mended (levels_of t.leaves) 0 })
    mended-IsMerkle = record {
      fits = p.fits;
      leaf = mended-leaf;
      node = mended-node;
      top = λ lt. refl;
      claimed = p.claimed;
      apart = p.apart;
    }

    pub internal_post_update-IsMerkle :
        Ensures (IsMerkle hash_value hash_pair) (internal_post_update hash_value hash_pair index t)
    unfolding internal_post_update ◌>>=◌
    internal_post_update-IsMerkle =
        let height = tree_height-levels_of t.leaves (omega (arith, p.inside)) in
        rw (height, checked_sub-one (levels_of t.leaves))
          (Ensures-bind _ _ (rehash-mend hash_pair (levels_of t.leaves) 0 index _) λ hs e same.
            returns _ (
              subst
                (λ x.
                  IsMerkle hash_value hash_pair
                    (record t { hashes = x; root = get_hash x (levels_of t.leaves) 0 }))
                (sym same) mended-IsMerkle))
