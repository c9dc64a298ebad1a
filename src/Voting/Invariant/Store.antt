-- ===== src/Voting/Invariant/Store.antt =====
-- Writing one proposal keeps the store's invariant.
use house_of_stake_contracts.Voting.Legacy.{VProposal, of_versioned}
use house_of_stake_contracts.Base.{
  ltb, ◌==◌, if◌then◌else◌, ltb→lt, Bool-cases, length, get_elem?, set, contains, get_elem?-set,
  get_elem?-append_one, get_elem?-beyond, out_of_bounds, Ensures, returns, Ensures-require, ℕ, ◌<◌,
  ◌≡◌, refl, sym, ◌∙◌, inl, inr, Bool, false, none, some, List, [], ◌∷◌, ◌++◌, arith,
}
use house_of_stake_contracts.Voting.Types.{
  ProposalId, is_active_status, Proposal, VProposalMetadata,
}
use house_of_stake_contracts.Voting.Contract.{
  Contract, Distinct, IterableSet, active_after, internal_set_proposal,
}
use house_of_stake_contracts.Voting.Invariant.{IsStored, IsValid}

module _ (set_of_ids : IterableSet) where
  active_after-Distinct :
      (ids : List ProposalId) (id : ProposalId) (active : Bool)
      → Distinct ids
      → Distinct (active_after set_of_ids ids id active)
  unfolding active_after
  active_after-Distinct ids id active h =
      ground (arith, set_of_ids.insert-Distinct ids id h, set_of_ids.remove-Distinct ids id h)

  -- After a write the set holds the proposal as its status says, and the others as before.
  pub contains-active_after :
      (ids : List ProposalId) (id j : ProposalId) (active : Bool)
      → Distinct ids
      → contains (active_after set_of_ids ids id active) j
        ≡ (if j == id then active else contains ids j)
  unfolding active_after
  contains-active_after ids id j active h =
      ground (arith, set_of_ids.contains-insert ids id j, set_of_ids.contains-remove ids id j h)

  -- The state that a write leaves.
  abbrev pub written : Proposal → Contract → Contract
  written p c = record c {
    active_proposals = active_after set_of_ids c.active_proposals p.id (is_active_status p.status);
    proposals = set c.proposals p.id (VProposal.current p);
  }

  pub internal_set_proposal-Ensures {κ} :
      {P : Contract → Type κ} (p : Proposal) (c : Contract)
      → (p.id < length c.proposals → P (written p c))
      → Ensures P (internal_set_proposal set_of_ids p c)
  unfolding internal_set_proposal
  internal_set_proposal-Ensures p c h =
      Ensures-require (ltb p.id (length c.proposals)) out_of_bounds _
        λ e. returns _ (h (ltb→lt _ _ e))

  written-IsStored :
      (p : Proposal) (c : Contract) (i : ℕ) (w : VProposal)
      → IsValid c
      → p.id < length c.proposals
      → (if i == p.id then some (VProposal.current p) else get_elem? c.proposals i) ≡ some w
      → IsStored i
          (if i == p.id then is_active_status p.status else contains c.active_proposals i)
          w
  unfolding of_versioned
  written-IsStored p c i w v room h = elim (Bool-cases (i == p.id)) [
    | inl same ↦
        let stored : VProposal.current p ≡ w = ground arith in
        rw (same, ← stored) (p, refl, ground arith, refl)
    | inr other ↦ rw other (v.stored i w (rw other at h))
  ]

  written-absent :
      (p : Proposal) (c : Contract) (i : ℕ)
      → IsValid c
      → (if i == p.id then some (VProposal.current p) else get_elem? c.proposals i) ≡ none
      → (if i == p.id then is_active_status p.status else contains c.active_proposals i) ≡ false
  written-absent p c i v h = ground (arith, v.absent i)

  written-IsValid :
      (p : Proposal) (c : Contract) → IsValid c → p.id < length c.proposals → IsValid (written p c)
  written-IsValid p c v room = record {
    distinct = active_after-Distinct c.active_proposals p.id (is_active_status p.status) v.distinct;
    stored = λ i w h.
        rw (contains-active_after c.active_proposals p.id i (is_active_status p.status) v.distinct)
          (written-IsStored p c i w v room
            (rw (get_elem?-set c.proposals p.id i (VProposal.current p) room) at h));
    absent = λ i h.
        rw (contains-active_after c.active_proposals p.id i (is_active_status p.status) v.distinct)
          (written-absent p c i v
            (rw (get_elem?-set c.proposals p.id i (VProposal.current p) room) at h));
  }

  -- Whatever is written, the invariant is kept.
  pub internal_set_proposal-IsValid :
      (p : Proposal) (c : Contract)
      → IsValid c
      → Ensures IsValid (internal_set_proposal set_of_ids p c)
  internal_set_proposal-IsValid p c v = internal_set_proposal-Ensures p c (written-IsValid p c v)

module _ (c : Contract) (p : Proposal) (v : IsValid c) where
  appended-IsStored :
      (i : ℕ) (w : VProposal)
      → p.id ≡ length c.proposals
      → is_active_status p.status ≡ false
      → (if i == length c.proposals then some (VProposal.current p) else get_elem? c.proposals i)
        ≡ some w
      → IsStored i (contains c.active_proposals i) w
  unfolding of_versioned
  appended-IsStored i w own inactive h = elim (Bool-cases (i == length c.proposals)) [
    | inl last ↦
        let stored : VProposal.current p ≡ w = ground arith in
        let beyond = v.absent i (get_elem?-beyond c.proposals i (ground arith)) in
        rw (← stored) (p, refl, ground arith, inactive ∙ sym beyond)
    | inr other ↦ v.stored i w (rw other at h)
  ]

  appended-absent :
      (i : ℕ)
      → (if i == length c.proposals then some (VProposal.current p) else get_elem? c.proposals i)
        ≡ none
      → contains c.active_proposals i ≡ false
  appended-absent i h = ground (arith, v.absent i)

  -- A new proposal joins at the next id, and is not active.
  pub appended-IsValid :
      (m : List VProposalMetadata)
      → p.id ≡ length c.proposals
      → is_active_status p.status ≡ false
      → IsValid
          (record c { proposals = c.proposals ++ VProposal.current p ∷ []; proposal_metadata = m })
  appended-IsValid m own inactive = record {
    distinct = v.distinct;
    stored = λ i w h.
        appended-IsStored i w own inactive
          (rw (get_elem?-append_one c.proposals i (VProposal.current p)) at h);
    absent = λ i h.
        appended-absent i (rw (get_elem?-append_one c.proposals i (VProposal.current p)) at h);
  }
