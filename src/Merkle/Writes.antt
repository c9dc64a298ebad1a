-- ===== src/Merkle/Writes.antt =====
-- `set` keeps the invariant, and writes one account's value alone.
use native.Mathlib.Numerals.{add-one}
use house_of_stake_contracts.Base.{
  leb, ◌==◌, if◌then◌else◌, Bool-cases, Option-cases, leb→le, ◌>>=◌, u32_max, checked_sub, Ensures,
  returns, panics, Ensures-of, Ensures-apply, Ensures-bind, Ensures-then, ℕ, suc, ◌≤◌, ◌<◌, ◌≡◌,
  refl, sym, ap, ◌∙◌, ◌≢◌, inl, inr, none, some, arith,
}
use house_of_stake_contracts.Common.Account.{AccountId}
use house_of_stake_contracts.Merkle.{CryptoHash}
use house_of_stake_contracts.Merkle.Height.{halve, leftmost, halve-leftmost, halve_mono}
use house_of_stake_contracts.Merkle.Tree.{
  MerkleTree, insert, get, internal_pre_update, claim_index, internal_post_update, set_value,
  tree_height,
}
use house_of_stake_contracts.Merkle.Invariant.{
  levels_of, levels_of-suc, levels-above, IsHashed, IsMerkle,
}
use house_of_stake_contracts.Merkle.Updates.{IsPending, internal_post_update-IsMerkle}
use native.Mathlib.Decide.{ℕ_discrete, dec_le}

module _ {V G : Type 0} (hash_value : V → CryptoHash)
    (hash_pair : CryptoHash → CryptoHash → CryptoHash) where
  pub internal_pre_update-IsMerkle :
      (block_height : ℕ) (t : MerkleTree V G)
      → IsMerkle hash_value hash_pair t
      → IsMerkle hash_value hash_pair (internal_pre_update block_height t)
  unfolding internal_pre_update
  internal_pre_update-IsMerkle block_height t m =
      elim (Bool-cases (t.last_block_height == block_height)) [
        | inl e ↦ rw e m
        | inr e ↦ rw e (record {
          fits = m.fits;
          leaf = m.leaf;
          node = m.node;
          top = m.top;
          claimed = m.claimed;
          apart = m.apart;
        })
      ]

  module _ (t : MerkleTree V G) (m : IsMerkle hash_value hash_pair t) (a : AccountId) (v : V) where
    -- A new value for an account that has a leaf.
    changed-IsPending :
        (index : ℕ)
        → t.accounts a ≡ some index
        → IsPending hash_value hash_pair index (record t { data_at = insert t.data_at index v })
    changed-IsPending index e = record {
      fits = m.fits;
      inside = m.claimed a index e;
      present = (v, ground arith);
      leaf = λ i lt ne. let (w, found, hashed) = m.leaf i lt in (w, ground arith, hashed);
      node = λ h k le ne lt. m.node h k le lt;
      claimed = m.claimed;
      apart = m.apart;
    }

    added-node :
        (h k : ℕ)
        → suc t.leaves ≤ u32_max
        → suc h ≤ levels_of (suc t.leaves)
        → k ≢ halve (suc h) t.leaves
        → leftmost (suc h) k < suc t.leaves
        → IsHashed hash_pair t.hashes h k
    added-node h k fits le ne lt = m.node h k level below
      where
        below : leftmost (suc h) k < t.leaves
        below = elim (ℕ_discrete (leftmost (suc h) k) t.leaves) [
          | yes same ↦ absurd (ne (sym (halve-leftmost (suc h) k) ∙ ap (halve (suc h)) same))
          | no apart ↦ omega arith
        ]

        -- At a new level there is one node, above the new leaf too.
        level : suc h ≤ levels_of t.leaves
        level = elim (dec_le (suc h) (levels_of t.leaves)) [
          | yes within ↦ within
          | no above ↦
              let at_top : levels_of (suc t.leaves) ≡ suc h =
                omega (arith, levels_of-suc t.leaves) in
              let root : halve (suc h) t.leaves ≡ 0 =
                rw at_top at (levels-above (suc t.leaves) t.leaves fits (omega arith)) in
              let left = halve_mono (suc h) (leftmost (suc h) k) t.leaves (omega arith) in
              absurd (ne (omega (arith, halve-leftmost (suc h) k)))
        ]

    added_tree : MerkleTree V G
    added_tree = record t {
      leaves = suc t.leaves;
      accounts = insert t.accounts a t.leaves;
      data_at = insert t.data_at t.leaves v;
    }

    -- A leaf for an account that has none.
    added-IsPending :
        t.accounts a ≡ none
        → suc t.leaves ≤ u32_max
        → IsPending hash_value hash_pair t.leaves added_tree
    unfolding added_tree
    added-IsPending e fits = record {
      fits = fits;
      inside = omega arith;
      present = (v, ground arith);
      leaf =
          λ i lt ne. let (w, found, hashed) = m.leaf i (omega arith) in (w, ground arith, hashed);
      node = λ h k. added-node h k fits;
      claimed = λ b i f. ground (arith, m.claimed b i);
      apart = λ b c i f g. ground (arith, m.claimed b i, m.claimed c i, m.apart b c i);
    }

    -- The tree that `set` has before it hashes: the account has an index, and its value is there.
    abbrev stored : ℕ × MerkleTree V G → MerkleTree V G
    stored r = record (r.1) { data_at = insert (r.1).data_at r.0 v }

    pub claim_index-cases {κ} :
        (Q : ℕ × MerkleTree V G → Type κ)
        → ((index : ℕ) → t.accounts a ≡ some index → Q (index, t))
        → (t.accounts a ≡ none
            → suc t.leaves ≤ u32_max
            → Q (
              t.leaves,
              record t { leaves = suc t.leaves; accounts = insert t.accounts a t.leaves },
            ))
        → Ensures Q (claim_index a t)
    unfolding claim_index ◌>>=◌
    claim_index-cases Q old fresh = elim (Option-cases (t.accounts a)) [
      | inr (index, e) ↦ rw (e, claim_index) (returns _ (old index e))
      | inl e ↦
          rw (e, claim_index, add-one)
            (elim (Bool-cases (leb (suc t.leaves) u32_max)) [
              | inl room ↦ rw room (returns _ (fresh e (leb→le _ _ room)))
              | inr full ↦ rw full (panics _)
            ])
    ]

    claim_index-IsPending :
        Ensures (λ r. IsPending hash_value hash_pair r.0 (stored r)) (claim_index a t)
    unfolding added_tree
    claim_index-IsPending =
        claim_index-cases _ (λ index e. changed-IsPending index e)
          (λ e fits. added-IsPending e fits)

    -- An account reads as its leaf does.
    get-at :
        (u : MerkleTree V G) (b : AccountId) (index : ℕ)
        → u.accounts b ≡ some index
        → get u b ≡ u.data_at index
    unfolding get
    get-at u b index e = rw (e, get)

    get-absent : (u : MerkleTree V G) (b : AccountId) → u.accounts b ≡ none → get u b ≡ none
    unfolding get
    get-absent u b e = rw (e, get)

    changed-get :
        (b : AccountId) (index : ℕ)
        → t.accounts a ≡ some index
        → get (record t { data_at = insert t.data_at index v }) b
          ≡ (if b == a then some v else get t b)
    changed-get b index e = elim (Option-cases (t.accounts b)) [
      | inl f ↦ ground (
        arith,
        get-absent (record t { data_at = insert t.data_at index v }) b f,
        get-absent t b f,
      )
      | inr (i, f) ↦ ground (
        arith,
        get-at (record t { data_at = insert t.data_at index v }) b i f,
        get-at t b i f,
        m.apart b a index,
      )
    ]

    added-get :
        (b : AccountId)
        → t.accounts a ≡ none
        → get added_tree b ≡ (if b == a then some v else get t b)
    unfolding added_tree
    added-get b e = elim (Bool-cases (b == a)) [
      | inl same ↦ rw same (get-at added_tree b t.leaves (rw same refl) ∙ ground arith)
      | inr other ↦ rw other (elim (Option-cases (t.accounts b)) [
        | inl f ↦ get-absent added_tree b (rw other f) ∙ sym (get-absent t b f)
        | inr (i, f) ↦
            let inside = m.claimed b i f in
            get-at added_tree b i (rw other f) ∙ ground (arith, get-at t b i f)
      ])
    ]

    -- Whoever has another account has another leaf.
    claim_index-get :
        (b : AccountId)
        → Ensures (λ r. get (stored r) b ≡ (if b == a then some v else get t b)) (claim_index a t)
    unfolding added_tree
    claim_index-get b =
        claim_index-cases _ (λ index e. changed-get b index e) (λ e fits. added-get b e)

  pub set_value-IsMerkle :
      (block_height : ℕ) (a : AccountId) (v : V) (t : MerkleTree V G)
      → IsMerkle hash_value hash_pair t
      → Ensures (IsMerkle hash_value hash_pair) (set_value hash_value hash_pair block_height a v t)
  unfolding set_value
  set_value-IsMerkle block_height a v t m =
      Ensures-bind
        {Q = λ r.
          IsPending hash_value hash_pair r.0
            (record (r.1) { data_at = insert (r.1).data_at r.0 v })}
        (claim_index a (internal_pre_update block_height t)) _
        (claim_index-IsPending _ (internal_pre_update-IsMerkle block_height t m) a v)
        λ r e p. internal_post_update-IsMerkle hash_value hash_pair r.0 _ p

  -- Hashing changes no value.
  internal_post_update-get :
      (index : ℕ) (t : MerkleTree V G) (b : AccountId)
      → Ensures (λ u. get u b ≡ get t b) (internal_post_update hash_value hash_pair index t)
  unfolding internal_post_update get
  internal_post_update-get index t b =
      Ensures-then (checked_sub (tree_height t.leaves) 1) _
        λ levels e. Ensures-then _ _ λ hs h. returns _ refl

  internal_pre_update-get :
      (block_height : ℕ) (t : MerkleTree V G) (b : AccountId)
      → get (internal_pre_update block_height t) b ≡ get t b
  unfolding internal_pre_update get
  internal_pre_update-get block_height t b =
      elim (Bool-cases (t.last_block_height == block_height)) [
        | inl e ↦ rw e refl
        | inr e ↦ rw e refl
      ]

  -- In a tree that keeps its invariant, after `set` the account reads as the new value, and every
  -- other account as before.
  pub get-set_value :
      (block_height : ℕ) (a b : AccountId) (v : V) (t : MerkleTree V G)
      → IsMerkle hash_value hash_pair t
      → Ensures
          (λ u. get u b ≡ (if b == a then some v else get t b))
          (set_value hash_value hash_pair block_height a v t)
  unfolding set_value
  get-set_value block_height a b v t m =
      let before = internal_pre_update-IsMerkle block_height t m in
      Ensures-bind (claim_index a (internal_pre_update block_height t)) _
        (claim_index-get _ before a v b)
        λ r e kept. Ensures-of _ λ u h.
          Ensures-apply (internal_post_update-get r.0 _ b) h
          ∙ rw (internal_pre_update-get block_height t b) at kept
