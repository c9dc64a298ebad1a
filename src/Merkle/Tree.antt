-- ===== src/Merkle/Tree.antt =====
-- The Merkle tree itself (`MerkleTree` of merkle-tree/src/lib.rs). Its three lookup maps are
-- functions; a hash that is not stored reads as all zeros. The block height is the runtime's.
use house_of_stake_contracts.Base.{
  ◌==◌, if◌then◌else◌, Result, ok, ◌>>=◌, expect, u32_add, checked_sub, ℕ, zero, suc, ◌+◌, ◌-◌, ◌*◌,
  ◌/◌, ◌%◌, ◌&&◌, Option, none, some, List, [], ◌∷◌, unwrap_none, require, leb, overflow, ◌>>◌,
}
use house_of_stake_contracts.Common.Account.{AccountId}
use house_of_stake_contracts.Merkle.{
  CryptoHash, MerkleTreeSnapshot, MerkleProof, height_of_leaves, zero_hash,
}

-- The map from the height and the index of a node to its hash.
abbrev pub Hashes : Type 0
Hashes = ℕ → ℕ → Option CryptoHash

pub record MerkleTree (V G : Type 0) : Type 0 where
  pub root : CryptoHash
  pub leaves : ℕ
  pub hashes : Hashes
  pub data_at : ℕ → Option V
  pub accounts : AccountId → Option ℕ
  pub global_state : G
  pub previous_snapshot : Option (MerkleTreeSnapshot × G)
  pub last_block_height : ℕ

-- `internal_get_hash`
unfoldable pub get_hash : Hashes → ℕ → ℕ → CryptoHash
get_hash hs height index = elim (hs height index) [ none ↦ zero_hash | some h ↦ h ]

-- `internal_set_hash`
unfoldable pub set_hash : Hashes → ℕ → ℕ → CryptoHash → Hashes
set_hash hs height index hash h i = if h == height && i == index then some hash else hs h i

-- A map with one entry changed.
abbrev pub insert {ℓ} : {A : Type ℓ} → (ℕ → Option A) → ℕ → A → ℕ → Option A
insert m k a j = if j == k then some a else m j

-- `tree_height`
unfoldable pub tree_height : ℕ → ℕ
tree_height leaves = if leaves == 0 then 0 else height_of_leaves leaves

-- `height_index ^ 1`
abbrev pub sibling_index : ℕ → ℕ
sibling_index i = if i % 2 == 0 then i + 1 else i - 1

-- The hashes of the siblings on the way up, for a number of levels from a node on.
unfoldable pub siblings : Hashes → ℕ → ℕ → ℕ → List CryptoHash
siblings hs zero height index = []
siblings hs (suc levels) height index =
    get_hash hs height (sibling_index index) ∷ siblings hs levels (suc height) (index / 2)

module _ {V : Type 0} (hash_value : V → CryptoHash) where
  -- `internal_hash_value`
  abbrev pub leaf_hash : Option V → CryptoHash
  leaf_hash none = zero_hash
  leaf_hash (some v) = hash_value v

module _ (hash_pair : CryptoHash → CryptoHash → CryptoHash) where
  -- The loop of `internal_post_update`: the parents of a node, for a number of levels. The index is
  -- halved from level to level; `index >> height`, which the source computes of the leaf's index,
  -- panics when it shifts a 32-bit word by 32 places.
  unfoldable pub rehash : ℕ → ℕ → ℕ → Hashes → Result Hashes
  rehash zero height index hs = ok hs
  rehash (suc levels) height index hs =
      require (leb (suc height) 31) overflow
      >> rehash levels (suc height) (index / 2) (
          set_hash hs (suc height) (index / 2) (
            hash_pair (get_hash hs height (2 * (index / 2)))
              (get_hash hs height (2 * (index / 2) + 1))))

module _ {V G : Type 0} where
  unfoldable pub new : ℕ → G → MerkleTree V G
  new block_height g = record {
    root = zero_hash;
    leaves = 0;
    hashes = λ height index. none;
    data_at = λ index. none;
    accounts = λ a. none;
    global_state = g;
    previous_snapshot = none;
    last_block_height = block_height;
  }

  abbrev pub current_snapshot : MerkleTree V G → MerkleTreeSnapshot × G
  current_snapshot t = (
    record { root = t.root; leaves = t.leaves; block_height = t.last_block_height },
    t.global_state,
  )

  -- `internal_pre_update`
  unfoldable pub internal_pre_update : ℕ → MerkleTree V G → MerkleTree V G
  internal_pre_update block_height t = if t.last_block_height == block_height then t else record t {
    previous_snapshot = some (current_snapshot t);
    last_block_height = block_height;
  }

  unfoldable pub get_snapshot : ℕ → MerkleTree V G → Option (MerkleTreeSnapshot × G)
  get_snapshot block_height t =
      if t.last_block_height == block_height then t.previous_snapshot else some (current_snapshot t)

  unfoldable pub set_global_state : ℕ → G → MerkleTree V G → MerkleTree V G
  set_global_state block_height g t = record (internal_pre_update block_height t) {
    global_state = g;
  }

  unfoldable pub get : MerkleTree V G → AccountId → Option V
  get t a = elim (t.accounts a) [ none ↦ none | some index ↦ t.data_at index ]

  -- The index of an account, and the tree with room for it if it is new.
  unfoldable pub claim_index : AccountId → MerkleTree V G → Result (ℕ × MerkleTree V G)
  claim_index a t = elim (t.accounts a) [
    | some index ↦ ok (index, t)
    | none ↦ do
      leaves ← u32_add t.leaves 1
      ok (t.leaves, record t { leaves = leaves; accounts = insert t.accounts a t.leaves })
  ]

  -- The path of an account's leaf to the root, with its value.
  unfoldable pub get_proof : MerkleTree V G → AccountId → Result (Option (MerkleProof × V))
  get_proof t a = elim (t.accounts a) [
    | none ↦ ok none
    | some index ↦ do
      levels ← checked_sub (tree_height t.leaves) 1
      value ← expect (t.data_at index) unwrap_none
      ok (some (record { index = index; path = siblings t.hashes levels 0 index }, value))
  ]

  module _ (hash_value : V → CryptoHash) (hash_pair : CryptoHash → CryptoHash → CryptoHash) where
    unfoldable pub internal_post_update : ℕ → MerkleTree V G → Result (MerkleTree V G)
    internal_post_update index t = do
      levels ← checked_sub (tree_height t.leaves) 1
      hashes ←
          rehash hash_pair levels 0 index
            (set_hash t.hashes 0 index (leaf_hash hash_value (t.data_at index)))
      ok (record t { hashes = hashes; root = get_hash hashes levels 0 })

    -- `set`, without the old value that it returns.
    unfoldable pub set_value : ℕ → AccountId → V → MerkleTree V G → Result (MerkleTree V G)
    set_value block_height a v t = do
      (index, u) ← claim_index a (internal_pre_update block_height t)
      internal_post_update index (record u { data_at = insert u.data_at index v })
