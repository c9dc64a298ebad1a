-- ===== src/Voting/Proposal/Clock.antt =====
-- Proposals and the clock: when FastTrack voting starts, and that the lazy update of a status does
-- not depend on how often it is made.
use house_of_stake_contracts.Base.{
  Option-cases, Panic, Result, ok, panic, ◌>>=◌, require, expect, Result-cases, >>=-congr,
  >>=-assoc, ℕ, ◌+◌, ◌*◌, ◌/◌, ◌%◌, ◌≤◌, ◌<◌, ◌≡◌, refl, sym, ap, ◌∙◌, ◌⊎◌, inl, inr, false, arith,
}
use house_of_stake_contracts.Voting.Types.{
  ProposalFlow, classic, fast_track, ProposalStatus, created, voting, timelock, succeeded, defeated,
  sandbox, scheduled, SnapshotAndState, Proposal,
}
use house_of_stake_contracts.Voting.Proposal.{
  ns_per_day, cet_offset_ns, next_voting_start_ns, has_actions, final_status_with,
  compute_final_status, classic_deadlines, after_voting, classic_voting_status, classic_status,
  sandbox_status, voting_window, fast_track_voting_status, fast_track_status, update,
}

-- FastTrack voting starts at 00:00 CET on a Monday, after the given time and at most a week after it.
-- (Day 0 of the epoch is a Thursday, so Mondays are the days with remainder 4 by 7.)
pub next_voting_start-IsMonday :
    (after_ns start : ℕ)
    → next_voting_start_ns false after_ns ≡ ok start
    → (after_ns < start)
      × (start ≤ after_ns + 7 * ns_per_day)
      × ((start + cet_offset_ns) % ns_per_day ≡ 0)
      × ((start + cet_offset_ns) / ns_per_day % 7 ≡ 4)
unfolding next_voting_start_ns ◌>>=◌ require expect
next_voting_start-IsMonday after_ns start h = ground arith

-- The status that a proposal carries does not matter to the functions that are told another.
classic_status-status :
    (st x : ProposalStatus) (p : Proposal) (t : ℕ)
    → classic_status st (record p { status = x }) t ≡ classic_status st p t
unfolding classic_status compute_final_status has_actions
classic_status-status created x p t = refl
classic_status-status voting x p t = refl
classic_status-status timelock x p t = refl
classic_status-status _ x p t = refl

fast_track_status-status :
    (st x : ProposalStatus) (p : Proposal) (t : ℕ)
    → fast_track_status st (record p { status = x }) t ≡ fast_track_status st p t
unfolding fast_track_status compute_final_status has_actions
fast_track_status-status created x p t = refl
fast_track_status-status sandbox x p t = refl
fast_track_status-status scheduled x p t = refl
fast_track_status-status voting x p t = refl
fast_track_status-status _ x p t = refl

-- A vote comes to one of two results, or its tally does not fit into u128.
final_status_with-cases :
    (p : Proposal) (snapshot : SnapshotAndState)
    → (final_status_with p snapshot ≡ ok succeeded)
      ⊎ (final_status_with p snapshot ≡ ok defeated)
      ⊎ ((e : Panic) × (final_status_with p snapshot ≡ panic e))
unfolding final_status_with ◌>>=◌ require expect
final_status_with-cases p snapshot = ground arith

pub compute_final_status-cases :
    (p : Proposal)
    → (compute_final_status p ≡ ok succeeded)
      ⊎ (compute_final_status p ≡ ok defeated)
      ⊎ ((e : Panic) × (compute_final_status p ≡ panic e))
unfolding compute_final_status
compute_final_status-cases p = elim (Option-cases p.snapshot_and_state) [
  | inl e ↦ inr (inl (rw (e, compute_final_status)))
  | inr (snapshot, e) ↦ rw (e, compute_final_status) (final_status_with-cases p snapshot)
]

module _ (p : Proposal) (s t : ℕ) (st : s ≤ t) where
  classic_voting_status-twice :
      (x : ProposalStatus)
      → (x ≡ voting) ⊎ (x ≡ timelock)
      → (classic_voting_status x p s >>= λ y. classic_status y p t) ≡ classic_voting_status x p t
  unfolding classic_status after_voting ◌>>=◌ require expect
  classic_voting_status-twice x h = elim (Result-cases (classic_deadlines p)) [
    | inr (e, refused) ↦ rw refused
    | inl (d, e) ↦ rw e (elim (compute_final_status-cases p) [
      | inl final ↦ ground arith
      | inr (inl final) ↦ ground arith
      | inr (inr (why, final)) ↦ ground arith
    ])
  ]

  classic_status-twice :
      (x : ProposalStatus)
      → (classic_status x p s >>= λ y. classic_status y p t) ≡ classic_status x p t
  unfolding classic_status ◌>>=◌ require expect
  classic_status-twice created = ground arith
  classic_status-twice voting = classic_voting_status-twice voting (inl refl)
  classic_status-twice timelock = classic_voting_status-twice timelock (inr refl)
  classic_status-twice _ = refl

  sandbox_status-twice : (sandbox_status p s >>= λ y. fast_track_status y p t) ≡ sandbox_status p t
  unfolding fast_track_status ◌>>=◌ require expect
  sandbox_status-twice = ground arith

  fast_track_voting_status-twice :
      (x : ProposalStatus)
      → (x ≡ scheduled) ⊎ (x ≡ voting)
      → (fast_track_voting_status x p s >>= λ y. fast_track_status y p t)
        ≡ fast_track_voting_status x p t
  unfolding fast_track_status ◌>>=◌ require expect
  fast_track_voting_status-twice x h = elim (Result-cases (voting_window p)) [
    | inr (e, refused) ↦ rw refused
    | inl (w, e) ↦ rw e (elim (compute_final_status-cases p) [
      | inl final ↦ ground arith
      | inr (inl final) ↦ ground arith
      | inr (inr (why, final)) ↦ ground arith
    ])
  ]

  fast_track_status-twice :
      (x : ProposalStatus)
      → (fast_track_status x p s >>= λ y. fast_track_status y p t) ≡ fast_track_status x p t
  unfolding fast_track_status ◌>>=◌ require expect
  fast_track_status-twice created = ground arith
  fast_track_status-twice sandbox = sandbox_status-twice
  fast_track_status-twice scheduled = fast_track_voting_status-twice scheduled (inl refl)
  fast_track_status-twice voting = fast_track_voting_status-twice voting (inr refl)
  fast_track_status-twice _ = refl

flow-cases : (f : ProposalFlow) → (f ≡ classic) ⊎ (f ≡ fast_track)
flow-cases classic = inl refl
flow-cases fast_track = inr refl

-- Storing the status that a rule computes, at each of two times.
store-twice :
    (rule : ProposalStatus → Proposal → ℕ → Result ProposalStatus) (p : Proposal) (s t : ℕ)
    → ((x : ProposalStatus) → rule x (record p { status = x }) t ≡ rule x p t)
    → ((x : ProposalStatus) → (rule x p s >>= λ y. rule y p t) ≡ rule x p t)
    → (rule p.status p s >>= λ x.
        rule x (record p { status = x }) t >>= λ y. ok (record p { status = y }))
      ≡ (rule p.status p t >>= λ y. ok (record p { status = y }))
store-twice rule p s t irrelevant twice =
    >>=-congr (rule p.status p s) _ _
      (λ x e. ap (λ m. m >>= λ y. ok (record p { status = y })) (irrelevant x))
    ∙ sym (>>=-assoc (rule p.status p s) (λ x. rule x p t) (λ y. ok (record p { status = y })))
    ∙ ap (λ m. m >>= λ y. ok (record p { status = y })) (twice p.status)

-- Updating a proposal at one time and again at a later one gives what updating it once at the later
-- time gives: the same proposal, or the same panic.
pub update-update : (p : Proposal) (s t : ℕ) → s ≤ t → (update p s >>= λ q. update q t) ≡ update p t
unfolding update ◌>>=◌ require expect
update-update p s t st = elim (flow-cases p.flow) [
  | inl e ↦ rw e (
      >>=-assoc (classic_status p.status (record p { flow = classic }) s) _ _
      ∙ store-twice classic_status (record p { flow = classic }) s t
          (λ x. classic_status-status x x (record p { flow = classic }) t)
          (classic_status-twice (record p { flow = classic }) s t st))
  | inr e ↦ rw e (
      >>=-assoc (fast_track_status p.status (record p { flow = fast_track }) s) _ _
      ∙ store-twice fast_track_status (record p { flow = fast_track }) s t
          (λ x. fast_track_status-status x x (record p { flow = fast_track }) t)
          (fast_track_status-twice (record p { flow = fast_track }) s t st))
]
