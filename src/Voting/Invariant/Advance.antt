-- ===== src/Voting/Invariant/Advance.antt =====
-- Advancing the queue keeps the store's invariant.
use house_of_stake_contracts.Base.{
  length, drop, u32_max, checked, Ensures, returns, Ensures-bind, Ensures-then, ℕ, ◌≡◌, refl, List,
  [], ◌∷◌,
}
use house_of_stake_contracts.Voting.Types.{Proposal}
use house_of_stake_contracts.Voting.Contract.{Contract, IterableSet, internal_set_proposal}
use house_of_stake_contracts.Voting.Queue.{compute_queue_advance, set_all, internal_advance_queue}
use house_of_stake_contracts.Voting.Invariant.{IsValid}
use house_of_stake_contracts.Voting.Invariant.Store.{internal_set_proposal-IsValid}

-- The invariant speaks of the proposals and of the active set only.
pub IsValid-same :
    (c d : Contract)
    → d.proposals ≡ c.proposals
    → d.active_proposals ≡ c.active_proposals
    → IsValid c
    → IsValid d
IsValid-same c d ps active v = record {
  distinct = rw active v.distinct;
  stored = λ i w h. rw active (v.stored i w (rw ps at h));
  absent = λ i h. rw active (v.absent i (rw ps at h));
}

module _ (set_of_ids : IterableSet) where
  pub set_all-IsValid :
      (ps : List Proposal) (c : Contract) → IsValid c → Ensures IsValid (set_all set_of_ids ps c)
  unfolding set_all
  set_all-IsValid [] c v = returns c v
  set_all-IsValid (p ∷ ps) c v =
      Ensures-bind (internal_set_proposal set_of_ids p c) (set_all set_of_ids ps)
        (internal_set_proposal-IsValid set_of_ids p c v) λ d e w. set_all-IsValid ps d w

  pub internal_advance_queue-IsValid :
      (c : Contract) (now : ℕ)
      → IsValid c
      → Ensures IsValid (internal_advance_queue set_of_ids c now)
  unfolding internal_advance_queue
  internal_advance_queue-IsValid c now v = Ensures-then (compute_queue_advance c now) _ λ outcome _.
      Ensures-then (checked u32_max (length outcome.queue_promotions)) _ λ promoted _.
        Ensures-bind
          (set_all set_of_ids outcome.queue_promotions
            (record c { pending_queue = drop promoted c.pending_queue }))
          (set_all set_of_ids outcome.active_updates)
          (set_all-IsValid outcome.queue_promotions _ (IsValid-same c _ refl refl v))
          λ d _ w. set_all-IsValid outcome.active_updates d w
