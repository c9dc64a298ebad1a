-- ===== src/Merkle/Returns.antt =====
-- When `set` returns, and when it panics.
use house_of_stake_contracts.Base.{
  ◌==◌, if◌then◌else◌, Bool-cases, Option-cases, le→leb, ok, ◌>>=◌, u32_max, checked_sub,
  Ensures-apply, ℕ, none, zero, ◌^◌, suc, ◌≤◌, ◌<◌, ◌≡◌, refl, inl, inr, some, arith, panic,
  overflow, ◌⊎◌, leb,
}
use native.Mathlib.Numerals.{add-one}
use house_of_stake_contracts.Merkle.Tree.{
  get_hash, get, internal_post_update, internal_pre_update, set_value, claim_index, MerkleTree,
  insert, tree_height, set_hash, leaf_hash,
}
use house_of_stake_contracts.Merkle.{CryptoHash}
use house_of_stake_contracts.Common.Account.{AccountId}
use house_of_stake_contracts.Merkle.Invariant.{IsMerkle, tree_height-levels_of, levels_of}
use house_of_stake_contracts.Merkle.Writes.{
  internal_pre_update-IsMerkle, set_value-IsMerkle, get-set_value,
}
use house_of_stake_contracts.Merkle.Least.{bit_length-least, bit_length-most}
use house_of_stake_contracts.Merkle.Hashing.{mend, rehash-panics, rehash-returns}

-- The number of leaves that the tree has once an account is in it.
abbrev pub leaves_with : {V G : Type 0} → AccountId → MerkleTree V G → ℕ
leaves_with a t = elim (t.accounts a) [ none ↦ suc t.leaves | some index ↦ t.leaves ]

levels-few : (n : ℕ) → n ≤ 2 ^ 31 → levels_of n ≤ 31
unfolding levels_of
levels-few zero few = omega arith
levels-few (suc n) few = bit_length-least 32 n 31 (omega (arith, few))

levels-many : (n : ℕ) → 2 ^ 31 < n → 32 ≤ levels_of n
unfolding levels_of
levels-many zero many = absurd (omega (arith, many))
levels-many (suc n) many = bit_length-most 32 n 31 (omega arith) (omega (arith, many))

levels_checked : (n : ℕ) → 0 < n → checked_sub (tree_height n) 1 ≡ ok (levels_of n)
levels_checked n some_leaf =
    let height = tree_height-levels_of n some_leaf in
    let positive = le→leb 1 (tree_height n) (omega (arith, height)) in rw height (ground arith)

module _ {V G : Type 0} (hash_value : V → CryptoHash)
    (hash_pair : CryptoHash → CryptoHash → CryptoHash) where
  -- The index that an account gets, in a tree with room.
  claim_index-returns :
      (a : AccountId) (t : MerkleTree V G)
      → IsMerkle hash_value hash_pair t
      → leaves_with a t ≤ 2 ^ 31
      → (r : ℕ × MerkleTree V G) × (claim_index a t ≡ ok r)
        × (0 < (r.1).leaves)
        × ((r.1).leaves ≡ leaves_with a t)
  unfolding claim_index ◌>>=◌
  claim_index-returns a t m room = elim (Option-cases (t.accounts a)) [
    | inr (index, e) ↦
        let inside = m.claimed a index e in
        ((index, t), rw (e, claim_index) refl, omega arith, rw (e, leaves_with) refl)
    | inl e ↦
        let small : suc t.leaves ≤ 2 ^ 31 = rw (e, leaves_with) at room in
        let fits = le→leb (suc t.leaves) u32_max (omega (arith, small)) in
        (
          (t.leaves, record t { leaves = suc t.leaves; accounts = insert t.accounts a t.leaves }),
          rw (e, claim_index, add-one, fits) refl,
          omega arith,
          rw (e, leaves_with) refl,
        )
  ]

  -- An account gets an index, or there are too many for a 32-bit word.
  claim_index-leaves :
      (a : AccountId) (t : MerkleTree V G)
      → (claim_index a t ≡ panic overflow)
        ⊎ ((r : ℕ × MerkleTree V G) × (claim_index a t ≡ ok r) × ((r.1).leaves ≡ leaves_with a t))
  unfolding claim_index ◌>>=◌
  claim_index-leaves a t = elim (Option-cases (t.accounts a)) [
    | inr (index, e) ↦ inr ((index, t), rw (e, claim_index) refl, rw (e, leaves_with) refl)
    | inl e ↦ elim (Bool-cases (leb (suc t.leaves) u32_max)) [
      | inl fits ↦ inr (
        (t.leaves, record t { leaves = suc t.leaves; accounts = insert t.accounts a t.leaves }),
        rw (e, claim_index, add-one, fits) refl,
        rw (e, leaves_with) refl,
      )
      | inr over ↦ inl (rw (e, claim_index, add-one, over) refl)
    ]
  ]

  internal_post_update-returns :
      (index : ℕ) (t : MerkleTree V G)
      → 0 < t.leaves
      → t.leaves ≤ 2 ^ 31
      → (u : MerkleTree V G) × (internal_post_update hash_value hash_pair index t ≡ ok u)
  unfolding internal_post_update ◌>>=◌
  internal_post_update-returns index t some_leaf room =
      let with_leaf = set_hash t.hashes 0 index (leaf_hash hash_value (t.data_at index)) in
      let mended = mend hash_pair (levels_of t.leaves) 0 index with_leaf in
      let hashes =
        rehash-returns hash_pair (levels_of t.leaves) 0 index with_leaf
          (omega (arith, levels-few t.leaves room)) in
      (
        record t { hashes = mended; root = get_hash mended (levels_of t.leaves) 0 },
        rw (levels_checked t.leaves some_leaf, hashes) refl,
      )

  internal_post_update-panics :
      (index : ℕ) (t : MerkleTree V G)
      → 2 ^ 31 < t.leaves
      → internal_post_update hash_value hash_pair index t ≡ panic overflow
  unfolding internal_post_update ◌>>=◌
  internal_post_update-panics index t many =
      let hashes =
        rehash-panics hash_pair (levels_of t.leaves) 0 index
          (set_hash t.hashes 0 index (leaf_hash hash_value (t.data_at index))) (omega arith)
          (omega (arith, levels-many t.leaves many)) in
      rw (levels_checked t.leaves (omega (arith, many)), hashes) refl

  internal_pre_update-leaves :
      (block_height : ℕ) (a : AccountId) (t : MerkleTree V G)
      → leaves_with a (internal_pre_update block_height t) ≡ leaves_with a t
  unfolding internal_pre_update
  internal_pre_update-leaves block_height a t =
      elim (Bool-cases (t.last_block_height == block_height)) [
        | inl e ↦ rw e refl
        | inr e ↦ rw e refl
      ]

  set_value-total :
      (block_height : ℕ) (a : AccountId) (v : V) (t : MerkleTree V G)
      → IsMerkle hash_value hash_pair t
      → leaves_with a t ≤ 2 ^ 31
      → (u : MerkleTree V G) × (set_value hash_value hash_pair block_height a v t ≡ ok u)
  unfolding set_value ◌>>=◌
  set_value-total block_height a v t m room =
      let same = internal_pre_update-leaves block_height a t in
      let (r, claimed, inside, grown) =
        claim_index-returns a (internal_pre_update block_height t)
          (internal_pre_update-IsMerkle hash_value hash_pair block_height t m) (rw same room) in
      let (u, hashed) =
        internal_post_update-returns r.0 (record (r.1) { data_at = insert (r.1).data_at r.0 v })
          inside (omega (arith, room, grown, same)) in
      (u, rw claimed hashed)

  -- In a tree that keeps its invariant and that has at most 2^31 leaves with the account in it, `set`
  -- returns. The tree keeps its invariant, the account reads as the new value, and every other
  -- account as before.
  pub set_value-reads :
      (block_height : ℕ) (a : AccountId) (v : V) (t : MerkleTree V G)
      → IsMerkle hash_value hash_pair t
      → leaves_with a t ≤ 2 ^ 31
      → (u : MerkleTree V G) × (set_value hash_value hash_pair block_height a v t ≡ ok u)
        × (IsMerkle hash_value hash_pair u)
        × ((b : AccountId) → get u b ≡ (if b == a then some v else get t b))
  set_value-reads block_height a v t m room =
      let (u, e) = set_value-total block_height a v t m room in
      (
        u,
        e,
        Ensures-apply (set_value-IsMerkle hash_value hash_pair block_height a v t m) e,
        λ b. Ensures-apply (get-set_value hash_value hash_pair block_height a b v t m) e,
      )

  -- In every tree that has more than 2^31 leaves with the account in it, `set` panics with an
  -- overflow, whether or not the number of leaves still fits into u32.
  pub set_value-panics :
      (block_height : ℕ) (a : AccountId) (v : V) (t : MerkleTree V G)
      → 2 ^ 31 < leaves_with a t
      → set_value hash_value hash_pair block_height a v t ≡ panic overflow
  unfolding set_value ◌>>=◌
  set_value-panics block_height a v t many =
      let same = internal_pre_update-leaves block_height a t in
      elim (claim_index-leaves a (internal_pre_update block_height t)) [
        | inl over ↦ rw over refl
        | inr (r, claimed, grown) ↦ rw claimed (
            internal_post_update-panics r.0 (record (r.1) { data_at = insert (r.1).data_at r.0 v })
              (omega (arith, many, grown, same)))
      ]
