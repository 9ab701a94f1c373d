-- ===== src/Mirror/Rounds.antt =====
-- How the kernel state moves between rounds and heights (kstate.go): the moves keep it synced and
-- shared, and only go forward.
use gordian.Prelude.{◌+◌, ◌≡◌, some, u32, arith}
use gordian.Consensus.VoteSummary.{sum_powers, set_available_power, new_vote_summary}
use gordian.Consensus.VoteSummary
use gordian.Consensus.RoundView.{
  VersionedRoundView, reset_versions, reset_view, reset_view_for_same_height,
}
use gordian.Consensus.RoundView
use gordian.Mirror.StateMachineView.{set_view, jump_to_round}
use gordian.Mirror.KState.{
  KState, mark_committing_view_updated, mark_voting_view_updated, mark_next_round_view_updated,
  increment_voting_round, advance_voting_round, jump_voting_round, bump,
}
use gordian.Mirror.Lookup.{IsSynced, IsShared, IsSharedBy, ViewMap, whole}

module _ {P : Type 0} where
  -- What every `Mark…Updated` leaves alone.
  pub mark_voting_lem :
      (s : KState P)
      → let t = mark_voting_view_updated s in
        (t.voting ≡ bump s.voting)
        × (t.committing ≡ s.committing)
        × (t.next_round ≡ s.next_round)
        × (t.gossip_view_manager.voting.vrv ≡ t.voting)
        × (t.gossip_view_manager.committing ≡ s.gossip_view_manager.committing)
        × (t.gossip_view_manager.nil_voted_round ≡ s.gossip_view_manager.nil_voted_round)
        × (t.state_machine_view_manager.round_entrance
            ≡ s.state_machine_view_manager.round_entrance)
        × (t.gossip_view_manager.next_round ≡ s.gossip_view_manager.next_round)
        × (t.prev_commit_proof_shared ≡ s.prev_commit_proof_shared)
  unfolding mark_voting_view_updated set_view
  mark_voting_lem s = ground arith

  pub mark_next_round_lem :
      (s : KState P)
      → let t = mark_next_round_view_updated s in
        (t.next_round ≡ bump s.next_round)
        × (t.committing ≡ s.committing)
        × (t.voting ≡ s.voting)
        × (t.gossip_view_manager.next_round.vrv ≡ t.next_round)
        × (t.gossip_view_manager.voting ≡ s.gossip_view_manager.voting)
        × (t.gossip_view_manager.committing ≡ s.gossip_view_manager.committing)
        × (t.gossip_view_manager.nil_voted_round ≡ s.gossip_view_manager.nil_voted_round)
        × (t.state_machine_view_manager ≡ s.state_machine_view_manager)
        × (t.prev_commit_proof_shared ≡ s.prev_commit_proof_shared)
  unfolding mark_next_round_view_updated
  mark_next_round_lem s = ground arith

  pub mark_committing_lem :
      (s : KState P)
      → let t = mark_committing_view_updated s in
        (t.committing ≡ bump s.committing)
        × (t.voting ≡ s.voting)
        × (t.next_round ≡ s.next_round)
        × (t.gossip_view_manager.committing.vrv ≡ t.committing)
        × (t.gossip_view_manager.voting ≡ s.gossip_view_manager.voting)
        × (t.gossip_view_manager.next_round ≡ s.gossip_view_manager.next_round)
        × (t.state_machine_view_manager.round_entrance
            ≡ s.state_machine_view_manager.round_entrance)
        × (t.prev_commit_proof_shared ≡ s.prev_commit_proof_shared)
  unfolding mark_committing_view_updated set_view jump_to_round
  mark_committing_lem s = ground arith

  -- The one step that both ways of leaving a round take.
  pub increment_lem :
      (s : KState P)
      → let t = increment_voting_round s in
        (t.voting ≡ bump s.next_round)
        × (t.committing ≡ s.committing)
        × (t.next_round.round ≡ u32 (s.next_round.round + 1))
        × (t.next_round.height ≡ s.voting.height)
        × (t.next_round.validator_set ≡ s.voting.validator_set)
        × (t.next_round.vote_summary.available_power ≡ s.voting.vote_summary.available_power)
        × (t.gossip_view_manager.nil_voted_round ≡ s.gossip_view_manager.nil_voted_round)
        × (t.state_machine_view_manager.round_entrance
            ≡ s.state_machine_view_manager.round_entrance)
        × (t.state_machine_view_manager.out ≡ s.state_machine_view_manager.out)
        × (t.state_machine_view_manager.force_send ≡ s.state_machine_view_manager.force_send)
        × (t.gossip_view_manager.out ≡ s.gossip_view_manager.out)
        × (t.prev_commit_proof_shared ≡ s.prev_commit_proof_shared)
  unfolding increment_voting_round mark_voting_view_updated mark_next_round_view_updated set_view
      RoundView.reset_for_same_height reset_versions reset_view_for_same_height
      VoteSummary.reset_for_same_height
  increment_lem s = ground arith

  increment-IsShared :
      (f : ViewMap P) → (s : KState P) → IsSharedBy f s → IsSharedBy f (increment_voting_round s)
  unfolding increment_voting_round mark_voting_view_updated mark_next_round_view_updated set_view
  increment-IsShared f s w = ground arith

  increment-IsSynced : (s : KState P) → IsSynced s → IsSynced (increment_voting_round s)
  increment-IsSynced s w = ground (arith, increment_lem s)

  pub jump_lem :
      (s : KState P)
      → let t = jump_voting_round s in
        let u = increment_voting_round s in
        (t.voting ≡ u.voting)
        × (t.committing ≡ u.committing)
        × (t.next_round ≡ u.next_round)
        × (t.gossip_view_manager ≡ u.gossip_view_manager)
        × (t.state_machine_view_manager.round_entrance
            ≡ u.state_machine_view_manager.round_entrance)
        × (t.prev_commit_proof_shared ≡ u.prev_commit_proof_shared)
  unfolding jump_voting_round jump_to_round
  jump_lem s = ground arith

  pub next_voting_round_by :
      (f : ViewMap P)
      → (s : KState P) → IsSynced s
      → IsSharedBy f s
      → let t = advance_voting_round s in
        let u = jump_voting_round s in
        IsSynced t
        × IsSharedBy f t
        × (t.voting ≡ bump s.next_round)
        × (t.voting.height ≡ s.voting.height)
        × (t.voting.round ≡ u32 (s.voting.round + 1))
        × (t.committing ≡ s.committing)
        × IsSynced u
        × IsSharedBy f u
        × (u.voting ≡ t.voting)
        × (u.committing ≡ s.committing)
  unfolding advance_voting_round
  next_voting_round_by f s w g =
      let a = record s {
        gossip_view_manager = record (s.gossip_view_manager) { nil_voted_round = some s.voting };
      } in
      let wa : IsSynced a = ground arith in
      let ga : IsSharedBy f a = ground arith in
      (
        increment-IsSynced a wa,
        increment-IsShared f a ga,
        ground (arith, increment_lem a),
        ground (arith, increment_lem a),
        ground (arith, increment_lem a),
        ground (arith, increment_lem a),
        ground (arith, increment_lem s, jump_lem s, increment-IsSynced s w),
        ground (arith, increment_lem s, jump_lem s, increment-IsShared f s g),
        ground (arith, increment_lem s, jump_lem s, increment_lem a),
        ground (arith, increment_lem s, jump_lem s),
      )

  -- Leaving a voting round, by a nil commit or by a jump, keeps a synced and shared state, no two
  -- views of which share a map, so. The voting view becomes the old next round at one version more,
  -- one round on and at the same height, and the committing view stays.
  pub next_voting_round :
      (s : KState P)
      → IsSynced s
      → IsShared s
      → let t = advance_voting_round s in
        let u = jump_voting_round s in
        IsSynced t
        × IsShared t
        × (t.voting ≡ bump s.next_round)
        × (t.voting.height ≡ s.voting.height)
        × (t.voting.round ≡ u32 (s.voting.round + 1))
        × (t.committing ≡ s.committing)
        × IsSynced u
        × IsShared u
        × (u.voting ≡ t.voting)
        × (u.committing ≡ s.committing)
  next_voting_round s w g = next_voting_round_by whole s w g
