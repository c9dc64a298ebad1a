-- ===== src/Merkle/Invariant.antt =====
-- What a Merkle tree keeps: every leaf and every inner node above a leaf is hashed, and every account
-- has a leaf of its own.
use house_of_stake_contracts.Base.{u32_max, ℕ, zero, suc, ◌+◌, ◌*◌, ◌≤◌, ◌<◌, ◌≡◌, some, arith}
use house_of_stake_contracts.Common.Account.{AccountId}
use house_of_stake_contracts.Merkle.{CryptoHash, bit_length}
use house_of_stake_contracts.Merkle.Height.{
  leftmost, tree_height-suc, bit_length-zero, halve, bit_length-suc, halve-bit_length,
}
use house_of_stake_contracts.Merkle.Tree.{Hashes, MerkleTree, get_hash, new, tree_height}

-- The number of levels above the leaves.
unfoldable pub levels_of : ℕ → ℕ
levels_of zero = 0
levels_of (suc n) = bit_length 32 n

pub tree_height-levels_of : (n : ℕ) → 0 < n → tree_height n ≡ suc (levels_of n)
unfolding levels_of
tree_height-levels_of zero lt = absurd (omega arith)
tree_height-levels_of (suc n) lt = tree_height-suc n

-- The top level has one node.
pub levels-above : (n i : ℕ) → n ≤ u32_max → i < n → halve (levels_of n) i ≡ 0
unfolding levels_of
levels-above zero i fits lt = absurd (omega arith)
levels-above (suc n) i fits lt = halve-bit_length 32 n i (omega arith) (omega arith)

-- One more leaf adds one level at most.
pub levels_of-suc : (n : ℕ) → levels_of (suc n) ≤ levels_of n + 1
unfolding levels_of
levels_of-suc zero = omega (arith, bit_length-zero 32)
levels_of-suc (suc n) = bit_length-suc 32 n

module _ (hash_pair : CryptoHash → CryptoHash → CryptoHash) where
  -- A node is the hash of its two children.
  abbrev pub IsHashed : Hashes → ℕ → ℕ → Type 0
  IsHashed hs h k =
      get_hash hs (suc h) k ≡ hash_pair (get_hash hs h (2 * k)) (get_hash hs h (2 * k + 1))

module _ {V G : Type 0} (hash_value : V → CryptoHash)
    (hash_pair : CryptoHash → CryptoHash → CryptoHash) where
  pub record IsMerkle (t : MerkleTree V G) : Type 0 where
    pub fits : t.leaves ≤ u32_max
    pub leaf :
        (i : ℕ)
        → i < t.leaves
        → (v : V) × (t.data_at i ≡ some v) × (get_hash t.hashes 0 i ≡ hash_value v)
    pub node :
        (h k : ℕ)
        → suc h ≤ levels_of t.leaves
        → leftmost (suc h) k < t.leaves
        → IsHashed hash_pair t.hashes h k
    pub top : 0 < t.leaves → t.root ≡ get_hash t.hashes (levels_of t.leaves) 0
    pub claimed : (a : AccountId) (i : ℕ) → t.accounts a ≡ some i → i < t.leaves
    pub apart : (a b : AccountId) (i : ℕ) → t.accounts a ≡ some i → t.accounts b ≡ some i → a ≡ b

  pub new-IsMerkle : (block_height : ℕ) (g : G) → IsMerkle (new block_height g)
  unfolding new
  new-IsMerkle block_height g = record {
    fits = omega arith;
    leaf = λ i lt. absurd (omega arith);
    node = λ h k le lt. absurd (omega arith);
    top = λ lt. absurd (omega arith);
    claimed = λ a i e. cc;
    apart = λ a b i e f. cc;
  }
