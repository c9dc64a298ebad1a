-- ===== src/Merkle/History.antt =====
-- Histories of writes to a Merkle tree, and the snapshots that are read between them.
use house_of_stake_contracts.Base.{
  ◌==◌, Bool-cases, Option-cases, Result, ok, ◌>>=◌, u32_add, checked_sub, Ensures, returns,
  Ensures-of, Ensures-apply, Ensures-bind, Ensures-then, ℕ, ◌≡◌, refl, ◌∙◌, inl, inr, List, [], ◌∷◌,
  arith,
}
use house_of_stake_contracts.Common.Account.{AccountId}
use house_of_stake_contracts.Merkle.{CryptoHash}
use house_of_stake_contracts.Merkle.Tree.{
  MerkleTree, get_snapshot, internal_pre_update, claim_index, internal_post_update, tree_height,
  set_value, set_global_state,
}
use house_of_stake_contracts.Merkle.Invariant.{IsMerkle}
use house_of_stake_contracts.Merkle.Writes.{internal_pre_update-IsMerkle, set_value-IsMerkle}

-- One write: of an account's value, or of the global state.
pub data Write (V G : Type 0) : Type 0 where
  writes : AccountId → V → Write V G
  writes_global : G → Write V G

module _ {V G : Type 0} (hash_value : V → CryptoHash)
    (hash_pair : CryptoHash → CryptoHash → CryptoHash) where
  unfoldable pub write : ℕ → Write V G → MerkleTree V G → Result (MerkleTree V G)
  write block_height (writes a v) t = set_value hash_value hash_pair block_height a v t
  write block_height (writes_global g) t = ok (set_global_state block_height g t)

  -- Writes one after the other, each in a block.
  unfoldable pub write_all : List (ℕ × Write V G) → MerkleTree V G → Result (MerkleTree V G)
  write_all [] t = ok t
  write_all ((block_height, w) ∷ rest) t = write block_height w t >>= write_all rest

  pub set_global_state-IsMerkle :
      (block_height : ℕ) (g : G) (t : MerkleTree V G)
      → IsMerkle hash_value hash_pair t
      → IsMerkle hash_value hash_pair (set_global_state block_height g t)
  unfolding set_global_state
  set_global_state-IsMerkle block_height g t m =
      let n = internal_pre_update-IsMerkle hash_value hash_pair block_height t m in
      record {
        fits = n.fits;
        leaf = n.leaf;
        node = n.node;
        top = n.top;
        claimed = n.claimed;
        apart = n.apart;
      }

  write-IsMerkle :
      (block_height : ℕ) (w : Write V G) (t : MerkleTree V G)
      → IsMerkle hash_value hash_pair t
      → Ensures (IsMerkle hash_value hash_pair) (write block_height w t)
  unfolding write
  write-IsMerkle block_height (writes a v) t m =
      set_value-IsMerkle hash_value hash_pair block_height a v t m
  write-IsMerkle block_height (writes_global g) t m =
      returns _ (set_global_state-IsMerkle block_height g t m)

  -- Every history of writes that returns keeps the invariant of the tree that it starts from: hashes
  -- of the leaves and of every node above one, the root, and an index of its own for each account.
  pub write_all-IsMerkle :
      (ws : List (ℕ × Write V G)) (t : MerkleTree V G)
      → IsMerkle hash_value hash_pair t
      → Ensures (IsMerkle hash_value hash_pair) (write_all ws t)
  unfolding write_all
  write_all-IsMerkle [] t m = returns t m
  write_all-IsMerkle ((block_height, w) ∷ rest) t m =
      Ensures-bind (write block_height w t) (write_all rest) (write-IsMerkle block_height w t m)
        λ u e n. write_all-IsMerkle rest u n

  -- The fields that a snapshot is read from in a block.
  abbrev Unread : ℕ → MerkleTree V G → MerkleTree V G → Type 0
  Unread block_height t u = get_snapshot block_height u ≡ get_snapshot block_height t

  abbrev HasSnapshotOf : MerkleTree V G → MerkleTree V G → Type 0
  HasSnapshotOf t u =
      (u.last_block_height ≡ t.last_block_height) × (u.previous_snapshot ≡ t.previous_snapshot)

  pre_update-Unread :
      (block_height : ℕ) (t u : MerkleTree V G)
      → HasSnapshotOf (internal_pre_update block_height t) u
      → Unread block_height t u
  unfolding internal_pre_update get_snapshot
  pre_update-Unread block_height t u h = elim (Bool-cases (t.last_block_height == block_height)) [
    | inl e ↦ ground arith
    | inr e ↦ ground arith
  ]

  claim_index-HasSnapshotOf :
      (a : AccountId) (t : MerkleTree V G) → Ensures (λ r. HasSnapshotOf t r.1) (claim_index a t)
  unfolding claim_index
  claim_index-HasSnapshotOf a t = elim (Option-cases (t.accounts a)) [
    | inr (index, e) ↦ rw (e, claim_index) (returns _ (refl, refl))
    | inl e ↦
        rw (e, claim_index) (Ensures-then (u32_add t.leaves 1) _ λ leaves f. returns _ (refl, refl))
  ]

  set_value-HasSnapshotOf :
      (block_height : ℕ) (a : AccountId) (v : V) (t : MerkleTree V G)
      → Ensures
          (HasSnapshotOf (internal_pre_update block_height t))
          (set_value hash_value hash_pair block_height a v t)
  unfolding set_value internal_post_update
  set_value-HasSnapshotOf block_height a v t =
      Ensures-bind (claim_index a (internal_pre_update block_height t)) _
        (claim_index-HasSnapshotOf a (internal_pre_update block_height t))
        λ r e h.
          Ensures-then (checked_sub (tree_height (r.1).leaves) 1) _
            λ levels f. Ensures-then _ _ λ hs k. returns _ h

  write-Unread :
      (block_height : ℕ) (w : Write V G) (t : MerkleTree V G)
      → Ensures (Unread block_height t) (write block_height w t)
  unfolding write set_global_state
  write-Unread block_height (writes a v) t = Ensures-of _ λ u e.
      pre_update-Unread block_height t u
        (Ensures-apply (set_value-HasSnapshotOf block_height a v t) e)
  write-Unread block_height (writes_global g) t =
      returns _ (pre_update-Unread block_height t _ (refl, refl))

  abbrev in_block : ℕ → List (Write V G) → List (ℕ × Write V G)
  in_block block_height [] = []
  in_block block_height (w ∷ ws) = (block_height, w) ∷ in_block block_height ws

  -- After any writes in one block, all returning, a snapshot read in that block is the one that was
  -- read before them.
  pub get_snapshot-write_all :
      (block_height : ℕ) (ws : List (Write V G)) (t : MerkleTree V G)
      → Ensures
          (λ u. get_snapshot block_height u ≡ get_snapshot block_height t)
          (write_all (in_block block_height ws) t)
  unfolding write_all
  get_snapshot-write_all block_height [] t = returns t refl
  get_snapshot-write_all block_height (w ∷ ws) t =
      Ensures-bind (write block_height w t) _ (write-Unread block_height w t) λ u e same.
        Ensures-of _ λ x h. Ensures-apply (get_snapshot-write_all block_height ws u) h ∙ same
