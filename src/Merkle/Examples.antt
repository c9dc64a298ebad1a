-- ===== src/Merkle/Examples.antt =====
-- The theorems about the Merkle tree at concrete inputs.
use house_of_stake_contracts.Base.{
  ◌==◌, if◌then◌else◌, ok, panic, overflow, require, ◌%◌, ◌≢◌, ◌⊎◌, ◌>>=◌, Ensures, Ensures-apply,
  ℕ, ◌+◌, ◌-◌, ◌*◌, ◌<◌, ◌≡◌, refl, true, some, List, [], ◌∷◌, arith, ◌≤◌, ◌^◌,
}
use house_of_stake_contracts.Merkle.{CryptoHash, climb, is_valid, bit_length, height_of_leaves}
use house_of_stake_contracts.Merkle.Tree.{
  MerkleTree, new, set_value, set_global_state, get, get_proof, get_snapshot, internal_pre_update,
  claim_index, internal_post_update, rehash, set_hash, get_hash, tree_height, siblings,
}
use house_of_stake_contracts.Merkle.Invariant.{IsMerkle, new-IsMerkle, levels_of}
use house_of_stake_contracts.Merkle.Proofs.{
  Collides, hashed_pairs, own_proof, get_proof-is_valid, is_valid-stored,
}
use house_of_stake_contracts.Merkle.History.{
  Write, writes, writes_global, write_all, write_all-IsMerkle, get_snapshot-write_all, write,
}
use native.Mathlib.Decide.{ℕ_discrete}
use house_of_stake_contracts.Common.Account.{AccountId}
use house_of_stake_contracts.Merkle.Returns.{set_value-reads, set_value-panics, leaves_with}
use house_of_stake_contracts.Merkle.Least.{height_of_leaves-least}

-- Hash functions: a doubling, and a pairing of numbers, of which 256 bits are kept.
abbrev pub hash_of : ℕ → CryptoHash
hash_of n = (n % 2 ^ 256, omega arith)

abbrev sample_hash : ℕ → CryptoHash
sample_hash v = hash_of (2 * v + 1)

abbrev sample_pair : CryptoHash → CryptoHash → CryptoHash
sample_pair a b = hash_of ((a.0 + b.0) * (a.0 + b.0) + b.0)

abbrev empty_tree : MerkleTree ℕ ℕ
empty_tree = new 10 0

-- Three accounts, one of them written twice, in two blocks.
abbrev sample_writes : List (ℕ × Write ℕ ℕ)
sample_writes =
    (11, writes 1 100)
    ∷ (11, writes 2 200)
    ∷ (12, writes_global 5)
    ∷ (12, writes 3 300)
    ∷ (12, writes 1 101)
    ∷ []

unfoldable sample_tree : MerkleTree ℕ ℕ
sample_tree = elim (write_all sample_hash sample_pair sample_writes empty_tree) [
  | ok t ↦ t
  | panic e ↦ empty_tree
]

write_all-IsMerkle_example :
    Ensures
      (IsMerkle sample_hash sample_pair)
      (write_all sample_hash sample_pair sample_writes empty_tree)
write_all-IsMerkle_example =
    write_all-IsMerkle sample_hash sample_pair sample_writes empty_tree
      (new-IsMerkle sample_hash sample_pair 10 0)

sample_tree-written : write_all sample_hash sample_pair sample_writes empty_tree ≡ ok sample_tree
unfolding sample_tree write_all write set_value set_global_state internal_pre_update claim_index
    internal_post_update new ◌>>=◌ require rehash set_hash get_hash tree_height height_of_leaves
    bit_length
sample_tree-written = refl

sample_tree-account : sample_tree.accounts 1 ≡ some 0
unfolding sample_tree write_all write set_value set_global_state internal_pre_update claim_index
    internal_post_update new ◌>>=◌ require rehash tree_height height_of_leaves bit_length
sample_tree-account = refl

sample_tree-IsMerkle : IsMerkle sample_hash sample_pair sample_tree
sample_tree-IsMerkle = Ensures-apply write_all-IsMerkle_example sample_tree-written

sample_tree-room : leaves_with 1 sample_tree ≤ 2 ^ 31
unfolding sample_tree write_all write set_value set_global_state internal_pre_update claim_index
    internal_post_update new ◌>>=◌ require rehash tree_height height_of_leaves bit_length
sample_tree-room = omega arith

get_proof-is_valid_example :
    (v : ℕ) × (get sample_tree 1 ≡ some v)
    × (get_proof sample_tree 1 ≡ ok (some (own_proof sample_tree 0, v)))
    × (is_valid sample_hash sample_pair
          (own_proof sample_tree 0)
          sample_tree.root
          sample_tree.leaves
          v
        ≡ true)
get_proof-is_valid_example =
    get_proof-is_valid sample_hash sample_pair sample_tree sample_tree-IsMerkle 1 0
      sample_tree-account

sample_tree-accepts :
    is_valid sample_hash sample_pair
      (own_proof sample_tree 0)
      sample_tree.root
      sample_tree.leaves
      101
    ≡ true
unfolding sample_tree write_all write set_value set_global_state internal_pre_update claim_index
    internal_post_update new ◌>>=◌ require rehash set_hash get_hash tree_height height_of_leaves
    bit_length is_valid siblings climb levels_of
sample_tree-accepts = refl

is_valid-stored_example :
    (w : ℕ) × (sample_tree.data_at 0 ≡ some w)
    × (((w ≡ 101) × ((own_proof sample_tree 0).path ≡ (own_proof sample_tree 0).path))
        ⊎ (((w ≢ 101) × (sample_hash w ≡ sample_hash 101))
            ⊎ Collides sample_pair
                (hashed_pairs sample_pair 0 (sample_hash 101) (own_proof sample_tree 0).path)
                (hashed_pairs sample_pair 0 (sample_hash w) (own_proof sample_tree 0).path)))
is_valid-stored_example =
    is_valid-stored sample_hash sample_pair sample_tree sample_tree-IsMerkle
      (own_proof sample_tree 0) 101 ℕ_discrete sample_tree-accepts

set_value-reads_example :
    (u : MerkleTree ℕ ℕ) × (set_value sample_hash sample_pair 12 1 102 sample_tree ≡ ok u)
    × (IsMerkle sample_hash sample_pair u)
    × ((b : AccountId) → get u b ≡ (if b == 1 then some 102 else get sample_tree b))
set_value-reads_example =
    set_value-reads sample_hash sample_pair 12 1 102 sample_tree sample_tree-IsMerkle
      sample_tree-room

-- A tree with 2^31 leaves, in which no account is registered.
abbrev full_tree : MerkleTree ℕ ℕ
full_tree = record empty_tree { leaves = 2 ^ 31 }

full_tree-large : 2 ^ 31 < leaves_with 1 full_tree
unfolding new
full_tree-large = omega arith

set_value-panics_example : set_value sample_hash sample_pair 12 1 102 full_tree ≡ panic overflow
set_value-panics_example =
    set_value-panics sample_hash sample_pair 12 1 102 full_tree full_tree-large

get_snapshot-write_all_example :
    Ensures
      (λ u. get_snapshot 13 u ≡ get_snapshot 13 sample_tree)
      (write_all sample_hash sample_pair ((13, writes 1 103) ∷ (13, writes 4 400) ∷ []) sample_tree)
get_snapshot-write_all_example =
    get_snapshot-write_all sample_hash sample_pair 13 (writes 1 103 ∷ writes 4 400 ∷ []) sample_tree

-- Five leaves need three levels above them.
height_of_leaves-least_example : (5 ≤ 2 ^ (height_of_leaves 5 - 1)) × (height_of_leaves 5 ≤ 7 + 1)
height_of_leaves-least_example =
    height_of_leaves-least 5 7 (omega arith) (omega arith) (omega arith)
