-- ===== src/Mirror/ReplayExamples.antt =====
-- A replay of a commit on a concrete state.
use gordian.Prelude.{ℕ, ◌≡◌, refl, Bool, List, [], arith}
use gordian.Consensus.VoteSummary.{VoteSummary, new_vote_summary, sum_powers, set_available_power}
use gordian.Consensus.RoundView.{VersionedRoundView, zero_view}
use gordian.Consensus.Math.{byzantine_majority, byzantine_minority}
use gordian.Consensus.VoteSummary.{
  add_votes, record_block, tally_block, tally_votes, set_prevote_powers, set_precommit_powers,
}
use gordian.Consensus.RoundView.{reset_view_for_same_height, reset_view, reset_versions}
use gordian.Mirror.KState.{
  close, sparse_proofs, find_view, mark_committing_view_updated, mark_voting_view_updated,
  mark_next_round_view_updated, mark_view_updated, increment_voting_round, jump_voting_round,
  close_signal, fresh_voting, fresh_next_round, shift_voting_to_committing,
}
use gordian.Mirror.StateMachineView.{set_view, jump_to_round}
use gordian.Mirror.Lag.{set_state}
use gordian.Mirror.Kernel.World.{collect_sparse, map_to_sparse_signature_collection}
use gordian.Mirror.Kernel.Fetch.{
  request_one, request_all, distribute, new_vote_distribution, missing_hashes, request_missing,
  check_missing_phs,
}
use gordian.Mirror.Kernel.Shift.{
  find_header, update_observers, jump, save_current_committing_header, commit_header, commit_hash,
  check_voting_precommit_view_shift, after_prevote_jump, check_prevote_view_shift,
}
use gordian.Mirror.Kernel.Votes.{
  apply_updates, with_prevotes, with_precommits, store_prevotes, store_precommits,
  shift_after_prevote, shift_after_precommit, add_prevote_to, add_precommit_to, add_prevote,
  add_precommit,
}
use gordian.Mirror.Kernel.Headers.{
  cancel_in_flight, backfill, store_backfill, merge_previous_commit, shift_after_header,
  after_header, finish_header, add_header_to, add_proposed_header,
}
use gordian.Mirror.Kernel.Trace.{handle, main_loop}
use gordian.Mirror.Kernel.Action.{
  existing_vote, updated_vote, own_prevote, own_precommit, own_vote, own_vote_in,
  handle_state_machine_action,
}
use gordian.Consensus.VoteSummary
use gordian.Consensus.RoundView
use gordian.Prelude.{lookup, insert, erase, bytes_eq, bytes_leb, bytes_key}
use gordian.Mirror.Fixtures.{bit_proofs, block, voting_on, no_failures, world_on, bit_scheme}
use gordian.Mirror.Fixtures.{replay_env, block_proof}
use gordian.Mirror.Kernel.Replay.{
  Replayed, replayed, rejected, replay_panic, write_proofs, fresh_proof, merge_into, merge_one,
  merge_replayed, store_replayed, replay_votes, replay_header, replay_merged, replay_in_round,
  replay_after, handle_replayed_header,
}
use gordian.Mirror.Kernel.ReplaySafety.{examined, Judged, Approved, handle_replayed_header-Judged}

-- The block was not seen before; one signature has three of the four votes.
abbrev outcome : Replayed (List Bool)
outcome =
    handle_replayed_header bit_proofs bit_scheme no_failures replay_env block.header block_proof
      (world_on [])

abbrev height_after : Replayed (List Bool) → ℕ
height_after (replayed w) = w.state.voting.height
height_after (rejected e w) = 0
height_after replay_panic = 0

outcome_height : height_after outcome ≡ 3
unfolding lookup insert erase bytes_eq bytes_leb sum_powers set_available_power new_vote_summary
    VoteSummary.reset VoteSummary.reset_for_same_height RoundView.reset
    RoundView.reset_for_same_height byzantine_majority byzantine_minority add_votes record_block
    tally_block tally_votes set_prevote_powers set_precommit_powers reset_view_for_same_height
    reset_view reset_versions close sparse_proofs find_view mark_committing_view_updated
    mark_voting_view_updated mark_next_round_view_updated mark_view_updated increment_voting_round
    jump_voting_round close_signal fresh_voting fresh_next_round shift_voting_to_committing set_view
    jump_to_round set_state collect_sparse map_to_sparse_signature_collection request_one
    request_all distribute new_vote_distribution missing_hashes request_missing check_missing_phs
    find_header update_observers jump save_current_committing_header commit_header commit_hash
    check_voting_precommit_view_shift after_prevote_jump check_prevote_view_shift apply_updates
    with_prevotes with_precommits store_prevotes store_precommits shift_after_prevote
    shift_after_precommit add_prevote_to add_precommit_to add_prevote add_precommit cancel_in_flight
    backfill store_backfill merge_previous_commit shift_after_header after_header finish_header
    add_header_to add_proposed_header handle main_loop existing_vote updated_vote own_prevote
    own_precommit own_vote own_vote_in handle_state_machine_action write_proofs fresh_proof
    merge_into merge_one merge_replayed store_replayed replay_votes replay_header replay_merged
    replay_in_round replay_after handle_replayed_header
outcome_height = refl

handle_replayed_header-Judged_example :
    Judged
      (Approved bit_proofs bit_scheme no_failures replay_env block.header
        (examined 0 (voting_on []))
        block_proof)
      (examined 0 (voting_on []))
      outcome
handle_replayed_header-Judged_example =
    handle_replayed_header-Judged bit_proofs bit_scheme no_failures replay_env block.header
      block_proof (world_on []) (omega arith)
