-- ===== src/Voting/Proposal.antt =====
-- The life of one proposal: activation, and the lazy update of its status by the clock
-- (`impl Proposal` of voting-contract/src/proposal.rs). The update changes the status alone.
pub mod Clock
use house_of_stake_contracts.Base.{
  ltb, leb, ◌==◌, if◌then◌else◌, get_elem?, unwrap_none, Result, ok, ◌>>=◌, ◌>>◌, expect, u64_max,
  checked, u64_add, u128_add, u128_mul, checked_sub, ℕ, ◌+◌, ◌-◌, ◌*◌, ◌/◌, ◌%◌, max, Bool, true,
  false, not, ◌&&◌, none, some, List, [], ◌∷◌,
}
use house_of_stake_contracts.Common.Token.{bps_mul}
use house_of_stake_contracts.Voting.Types.{
  classic, fast_track, ProposalStatus, created, voting, timelock, expired, succeeded, defeated,
  executable, sandbox, scheduled, has_status, SnapshotAndState, VoteStats, Proposal,
}

abbrev pub ns_per_day : ℕ
ns_per_day = 86_400_000_000_000

-- The fixed offset of CET from UTC, one hour.
abbrev pub cet_offset_ns : ℕ
cet_offset_ns = 3_600_000_000_000

-- `next_voting_start_ns`; `sandbox_build` is the build's feature of that name.
unfoldable pub next_voting_start_ns : Bool → ℕ → Result ℕ
next_voting_start_ns true after_ns = u64_add after_ns 120_000_000_000
next_voting_start_ns false after_ns = do
  shifted ← u64_add after_ns cet_offset_ns
  let days_since_epoch = shifted / ns_per_day
  let day_of_week = days_since_epoch % 7
  let days_until_monday = (10 - day_of_week) % 7 + 1
  start ← checked u64_max ((days_since_epoch + days_until_monday) * ns_per_day)
  checked_sub start cet_offset_ns

unfoldable pub has_actions : Proposal → Bool
has_actions p = elim p.actions [ none ↦ false | some [] ↦ false | some (a ∷ rest) ↦ true ]

-- `Proposal::activate`
unfoldable pub activate : Proposal → ℕ → Proposal
activate p start_time = elim p.flow [
  | classic ↦ record p { voting_start_time_ns = some start_time; status = voting }
  | fast_track ↦ record p { sandbox_start_time_ns = some start_time; status = sandbox }
]

-- The veNEAR behind one option; none if the option has no entry.
abbrev pub power : List VoteStats → ℕ → ℕ
power votes i = elim (get_elem? votes i) [ none ↦ 0 | some v ↦ v.total_venear ]

-- The cross-multiplied test of the approval threshold.
unfoldable pub approval_met : ℕ → ℕ → ℕ → Result Bool
approval_met for_power threshold denominator =
    if denominator == 0
    then ok false
    else do lhs ← u128_mul for_power 10_000; rhs ← u128_mul threshold denominator; ok (leb rhs lhs)

-- `compute_final_status`, once the snapshot is known.
unfoldable pub final_status_with : Proposal → SnapshotAndState → Result ProposalStatus
final_status_with p s = do
  bps_quorum ← bps_mul p.quorum_threshold_bps s.total_venear
  let quorum_met = leb (max bps_quorum p.quorum_floor) p.total_votes.total_venear
  denominator ← u128_add (power p.votes 0) (power p.votes 1)
  approved ← approval_met (power p.votes 0) p.approval_threshold_bps denominator
  ok (if quorum_met && approved then succeeded else defeated)

unfoldable pub compute_final_status : Proposal → Result ProposalStatus
unfolding final_status_with
compute_final_status p = elim p.snapshot_and_state [
  | none ↦ ok defeated
  | some s ↦ final_status_with p s
]

unfoldable pub sandbox_threshold_met : Proposal → Result Bool
sandbox_threshold_met p = elim p.snapshot_and_state [
  | none ↦ ok false
  | some s ↦ do ok (leb (← bps_mul p.sandbox_threshold_bps s.total_venear) (power p.votes 0))
]

-- `active_end_time_ns`
unfoldable pub active_end_time_ns : Proposal → Result ℕ
active_end_time_ns p = elim p.flow [
  | classic ↦ do
    start ← expect p.voting_start_time_ns unwrap_none
    voting_end ← u64_add start p.voting_duration_ns
    final ← compute_final_status p
    if has_status final succeeded then u64_add voting_end p.timelock_duration_ns else ok voting_end
  | fast_track ↦ elim p.voting_start_time_ns [
    | some start ↦ u64_add start p.voting_duration_ns
    | none ↦ do
      start ← expect p.sandbox_start_time_ns unwrap_none
      u64_add start p.sandbox_duration_ns
  ]
]

-- Where a vote that has ended leaves the proposal, once its waiting time is over.
abbrev pub passed_status : Proposal → ProposalStatus
passed_status p = if has_actions p then executable else succeeded

-- A created proposal expires, unless its expiration is 0.
unfoldable pub created_status : Proposal → ℕ → ProposalStatus
created_status p now = if ltb 0 p.expiration_ns && leb p.expiration_ns now then expired else created

-- When Classic voting and its timelock end.
unfoldable pub classic_deadlines : Proposal → Result (ℕ × ℕ)
classic_deadlines p = do
  start ← expect p.voting_start_time_ns unwrap_none
  voting_end ← u64_add start p.voting_duration_ns
  timelock_end ← u64_add voting_end p.timelock_duration_ns
  ok (voting_end, timelock_end)

-- What a vote that has ended by `now` comes to, given its final status and the timelock's end.
unfoldable pub after_voting : Proposal → ℕ → ℕ → ProposalStatus → ProposalStatus
after_voting p timelock_end now final =
    if not (has_status final succeeded)
    then final
    else (if ltb now timelock_end then timelock else passed_status p)

-- The arm of `update_classic` for Voting and Timelock; `old` is the status so far.
unfoldable pub classic_voting_status : ProposalStatus → Proposal → ℕ → Result ProposalStatus
unfolding classic_deadlines after_voting
classic_voting_status old p now = do
  deadlines ← classic_deadlines p
  if leb deadlines.0 now
      then (do ok (after_voting p deadlines.1 now (← compute_final_status p)))
      else ok old

-- `update_classic`
unfoldable pub classic_status : ProposalStatus → Proposal → ℕ → Result ProposalStatus
unfolding created_status classic_voting_status
classic_status created p now = ok (created_status p now)
classic_status voting p now = classic_voting_status voting p now
classic_status timelock p now = classic_voting_status timelock p now
classic_status other p now = ok other

-- The arm of `update_fast_track` for Sandbox.
unfoldable pub sandbox_status : Proposal → ℕ → Result ProposalStatus
sandbox_status p now = do
  start ← expect p.sandbox_start_time_ns unwrap_none
  sandbox_end ← u64_add start p.sandbox_duration_ns
  ok (if leb sandbox_end now then defeated else sandbox)

-- When FastTrack voting starts and ends.
unfoldable pub voting_window : Proposal → Result (ℕ × ℕ)
voting_window p = do
  start ← expect p.voting_start_time_ns unwrap_none
  voting_end ← u64_add start p.voting_duration_ns
  ok (start, voting_end)

-- The arm of `update_fast_track` for Scheduled and Voting; `old` is the status so far.
unfoldable pub fast_track_voting_status : ProposalStatus → Proposal → ℕ → Result ProposalStatus
unfolding voting_window
fast_track_voting_status old p now = do
  window ← voting_window p
  if leb window.1 now
      then (do
        final ← compute_final_status p
        ok (if not (has_status final succeeded) then final else passed_status p))
      else ok (if leb window.0 now then voting else old)

-- `update_fast_track`
unfoldable pub fast_track_status : ProposalStatus → Proposal → ℕ → Result ProposalStatus
unfolding created_status sandbox_status fast_track_voting_status
fast_track_status created p now = ok (created_status p now)
fast_track_status sandbox p now = sandbox_status p now
fast_track_status scheduled p now = fast_track_voting_status scheduled p now
fast_track_status voting p now = fast_track_voting_status voting p now
fast_track_status other p now = ok other

unfoldable pub updated_status : Proposal → ℕ → Result ProposalStatus
unfolding classic_status fast_track_status
updated_status p now = elim p.flow [
  | classic ↦ classic_status p.status p now
  | fast_track ↦ fast_track_status p.status p now
]

-- `Proposal::update`
unfoldable pub update : Proposal → ℕ → Result Proposal
unfolding updated_status
update p now = do ok (record p { status = (← updated_status p now) })
