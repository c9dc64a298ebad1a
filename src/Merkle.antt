-- ===== src/Merkle.antt =====
-- The Merkle tree's snapshots and proofs (merkle-tree/src/lib.rs). A hash, 32 bytes in the source, is
-- a number of 256 bits.
-- Serialising and hashing a value, and hashing two hashes, are the runtime's: parameters here.
pub mod Tree
pub mod Height
pub mod Least
pub mod Invariant
pub mod Proofs
pub mod Hashing
pub mod Updates
pub mod Writes
pub mod History
pub mod Sums
pub mod Returns
pub mod Examples
use house_of_stake_contracts.Base.{
  leb, ◌==◌, if◌then◌else◌, length, ℕ, zero, suc, ◌+◌, ◌-◌, ◌/◌, ◌%◌, Bool, false, not, List, [],
  ◌∷◌, ◌^◌, arith,
}
use Prim.Native.Nat.{Fin}

abbrev pub CryptoHash : Type 0
CryptoHash = Fin (2 ^ 256)

-- `CryptoHash::default()`: all bytes are 0.
abbrev pub zero_hash : CryptoHash
zero_hash = (0, omega arith)

-- Equality of hashes.
abbrev pub same_hash : CryptoHash → CryptoHash → Bool
same_hash x y = x.0 == y.0

-- The root hash of the tree, its number of leaves, and the block at which the snapshot was taken.
pub record MerkleTreeSnapshot : Type 0 where
  pub root : CryptoHash
  pub leaves : ℕ
  pub block_height : ℕ

-- The index of a leaf and the hashes of the siblings on its way to the root.
pub record MerkleProof : Type 0 where
  pub index : ℕ
  pub path : List CryptoHash

-- The number of binary digits of n, of which at most `bits` are looked at.
unfoldable pub bit_length : ℕ → ℕ → ℕ
bit_length zero n = 0
bit_length (suc bits) n = if n == 0 then 0 else suc (bit_length bits (n / 2))

-- `33 - (leaves - 1).leading_zeros()` on a 32-bit word, for a tree that is not empty.
unfoldable pub height_of_leaves : ℕ → ℕ
height_of_leaves leaves = suc (bit_length 32 (leaves - 1))

module _ {Value : Type 0} (hash_value : Value → CryptoHash)
    (hash_pair : CryptoHash → CryptoHash → CryptoHash) where
  -- The loop of `is_valid`: from the hash of a node and its siblings to the root. The index is
  -- halved from level to level.
  unfoldable pub climb : ℕ → CryptoHash → List CryptoHash → CryptoHash
  climb index hash [] = hash
  climb index hash (sibling ∷ path) =
      climb (index / 2) (if index % 2 == 0 then hash_pair hash sibling else hash_pair sibling hash)
        path

  -- `MerkleProof::is_valid`
  unfoldable pub is_valid : MerkleProof → CryptoHash → ℕ → Value → Bool
  is_valid proof root leaves value =
      if leb leaves proof.index
      then false
      else (if not (length proof.path + 1 == height_of_leaves leaves)
          then false
          else same_hash (climb proof.index (hash_value value) proof.path) root)
