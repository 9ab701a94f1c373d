-- ===== src/Mirror/Commit.antt =====
-- The shift of the voting view to the committing view (kstate.go).
use gordian.Prelude.{
  ◌+◌, ◌^◌, ◌<◌, ◌≡◌, ◌≢◌, refl, ◌∙◌, if◌then◌else◌, Bool, true, false, ◌==◌, ◌⊎◌, inl, some, List,
  u64, arith,
}
use gordian.Consensus.Types.{SparseSignature}
use gordian.Consensus.RoundView.{VersionedRoundView}
use gordian.Consensus.VoteSummary.{sum_powers, set_available_power}
use gordian.Mirror.StateMachineView.{Signal, no_signal, closed_signal}
use gordian.Mirror.KState.{
  KState, NextHeightDetails, clear_shared, mark_committing_view_updated, mark_voting_view_updated,
  mark_next_round_view_updated, close, close_signal, fresh_voting, fresh_next_round,
  shift_voting_to_committing, sparse_proofs, bump,
}
use gordian.Mirror.Lookup.{IsSynced, ViewMap, Separate, IsSharedBy, clear_shared-same}
use gordian.Mirror.Rounds.{mark_voting_lem, mark_committing_lem}

module _ {P : Type 0} (sparse : P → List SparseSignature) where
  -- The state before the signal to the state machine.
  shifted : KState P → NextHeightDetails → KState P
  shifted s nhd =
      let s1 = mark_committing_view_updated (record s { committing = s.voting }) in
      let v = fresh_voting sparse s1.committing (u64 (s1.voting.height + 1)) nhd.validator_set in
      let s2 = mark_voting_view_updated (record s1 { voting = v }) in
      let n = fresh_next_round sparse s2.next_round s2.voting nhd.validator_set in
      let s3 = mark_next_round_view_updated (record s2 { next_round = n }) in
      record s3 {
        committing = clear_shared s.prev_commit_proof_shared s3.committing;
        prev_commit_proof_shared = false;
        committing_header = nhd.voted_header;
      }

  pub clear_shared_lem :
      (b : Bool) (v : VersionedRoundView P)
      → ((clear_shared b v).height ≡ v.height)
        × ((clear_shared b v).vote_summary ≡ v.vote_summary)
        × ((clear_shared b v).proposed_headers ≡ v.proposed_headers)
  unfolding clear_shared
  clear_shared_lem true v = (refl, refl, refl)
  clear_shared_lem false v = (refl, refl, refl)

  shifted_lem :
      (s : KState P) (nhd : NextHeightDetails)
      → let t = shifted s nhd in
        (t.committing ≡ clear_shared s.prev_commit_proof_shared (bump s.voting))
        × (t.voting
            ≡ bump
                (fresh_voting sparse (bump s.voting) (u64 (s.voting.height + 1)) nhd.validator_set))
        × (t.next_round ≡ bump (fresh_next_round sparse s.next_round t.voting nhd.validator_set))
        × (t.committing_header ≡ nhd.voted_header)
        × (t.gossip_view_manager.committing.vrv ≡ bump s.voting)
        × (t.gossip_view_manager.voting.vrv ≡ t.voting)
        × (t.gossip_view_manager.next_round.vrv ≡ t.next_round)
        × (t.state_machine_view_manager.round_entrance
            ≡ s.state_machine_view_manager.round_entrance)
        × (t.prev_commit_proof_shared ≡ false)
        × (t.committing.height ≡ s.voting.height)
  unfolding shifted mark_committing_view_updated mark_voting_view_updated
      mark_next_round_view_updated
  shifted_lem s nhd =
      let a = record s { committing = s.voting } in
      let s1 = mark_committing_view_updated a in
      let b = record s1 {
        voting = fresh_voting sparse s1.committing (u64 (s1.voting.height + 1)) nhd.validator_set;
      } in
      (
        refl,
        refl,
        refl,
        refl,
        refl,
        refl,
        refl,
        (mark_voting_lem b).6 ∙ (mark_committing_lem a).6,
        refl,
        (clear_shared_lem s.prev_commit_proof_shared (bump s.voting)).0,
      )

  -- The shape of the two fresh views.
  fresh_lem :
      (s : KState P) (nhd : NextHeightDetails)
      → let t = shifted s nhd in
        (t.voting.height ≡ u64 (s.voting.height + 1))
        × (t.voting.round ≡ 0)
        × (t.voting.validator_set ≡ nhd.validator_set)
        × (t.voting.vote_summary.available_power ≡ sum_powers 0 nhd.validator_set.validators)
        × (t.next_round.height ≡ u64 (s.voting.height + 1))
        × (t.next_round.round ≡ 1)
        × (t.next_round.validator_set ≡ nhd.validator_set)
        × (t.next_round.vote_summary.available_power ≡ sum_powers 0 nhd.validator_set.validators)
        × (t.voting.prev_commit_proof.proofs ≡ sparse_proofs sparse s.voting.precommit_proofs)
        × (t.voting.prev_commit_proof.round ≡ s.voting.round)
        × (t.voting.prev_commit_proof.pub_key_hash ≡ s.voting.validator_set.pub_key_hash)
        × (t.next_round.prev_commit_proof ≡ t.voting.prev_commit_proof)
  unfolding shifted mark_committing_view_updated mark_voting_view_updated
      mark_next_round_view_updated fresh_voting fresh_next_round set_available_power
  fresh_lem s nhd = (refl, refl, refl, refl, refl, refl, refl, refl, refl, refl, refl, refl)

  -- Closing the signal, where it must be closed and is not closed yet.
  signalled : Bool → KState P → KState P
  signalled c s =
      let m = s.state_machine_view_manager in
      let re = m.round_entrance in
      let w : Signal = elim re.height_committed [ no_signal ↦ no_signal | _ ↦ closed_signal ] in
      if c
      then record s {
        state_machine_view_manager = record m {
          round_entrance = record re { height_committed = w };
        };
      }
      else s

  close_signal_lem :
      (c : Bool) (s : KState P)
      → (c ≡ true → s.state_machine_view_manager.round_entrance.height_committed ≢ closed_signal)
      → close_signal c s ≡ some (signalled c s)
  unfolding close_signal close signalled
  close_signal_lem c s h = ground arith

  signalled_lem :
      (c : Bool) (s : KState P)
      → let t = signalled c s in
        (t.voting ≡ s.voting)
        × (t.committing ≡ s.committing)
        × (t.next_round ≡ s.next_round)
        × (t.gossip_view_manager ≡ s.gossip_view_manager)
        × (t.committing_header ≡ s.committing_header)
        × (t.prev_commit_proof_shared ≡ s.prev_commit_proof_shared)
        × (t.state_machine_view_manager.round_entrance.h
            ≡ s.state_machine_view_manager.round_entrance.h)
        × (t.state_machine_view_manager.round_entrance.height_committed ≡ closed_signal
            → (c ≡ true)
              ⊎ (s.state_machine_view_manager.round_entrance.height_committed ≡ closed_signal))
  unfolding signalled
  signalled_lem true s = ground arith
  signalled_lem false s = ground arith

  pub shift_commits :
      (f : ViewMap P) (s : KState P) (nhd : NextHeightDetails)
      → IsSynced s
      → Separate f s
      → s.voting.height + 1 < 2 ^ 64
      → (t : KState P) × (shift_voting_to_committing sparse s nhd ≡ some t)
        × IsSynced t
        × IsSharedBy f t
        × (t.committing ≡ clear_shared s.prev_commit_proof_shared (bump s.voting))
        × (t.committing_header ≡ nhd.voted_header)
        × (t.voting.height ≡ s.voting.height + 1)
        × (t.voting.round ≡ 0)
        × (t.voting.validator_set ≡ nhd.validator_set)
        × (t.voting.prev_commit_proof.round ≡ s.voting.round)
        × (t.voting.prev_commit_proof.pub_key_hash ≡ s.voting.validator_set.pub_key_hash)
        × (t.voting.prev_commit_proof.proofs ≡ sparse_proofs sparse s.voting.precommit_proofs)
  unfolding shift_voting_to_committing
  shift_commits f s nhd w sep b =
      let c = s.state_machine_view_manager.round_entrance.h == s.committing.height in
      let u = shifted s nhd in
      let ul = shifted_lem s nhd in
      let fl = fresh_lem s nhd in
      let t = signalled c u in
      let tl = signalled_lem c u in
      let e : close_signal c u ≡ some t =
        close_signal_lem c u (λ h k. ground (arith, ul, w.closed_once)) in
      (
        t,
        unfold shifted in e,
        record {
          same_height = ground (arith, tl, fl);
          next_follows = ground (arith, tl, fl);
          above = ground (arith, tl, fl, ul);
          rounds_fit = ground (arith, tl, fl);
          heights_fit = ground (arith, tl, fl);
          same_validators = ground (arith, tl, fl);
          voting_power = ground (arith, tl, fl);
          next_power = ground (arith, tl, fl);
          closed_once = ground (arith, tl, ul, tl.7, w.closed_once, w.above);
        },
        record {
          committing_shared = ground (arith, tl, ul, clear_shared-same f s (bump s.voting) sep);
          voting_shared = ground (arith, tl, ul);
          next_round_shared = ground (arith, tl, ul);
          separate = inl (ground (arith, tl, ul));
        },
        ground (arith, tl, ul),
        ground (arith, tl, ul),
        ground (arith, tl, fl),
        ground (arith, tl, fl),
        ground (arith, tl, fl),
        ground (arith, tl, fl),
        ground (arith, tl, fl),
        ground (arith, tl, fl),
      )
