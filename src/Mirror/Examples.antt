-- ===== src/Mirror/Examples.antt =====
-- Runs of the mirror on concrete states.
use gordian.Prelude.{◌≡◌, refl, Bool, List, [], ◌∷◌, arith, inl}
use gordian.Consensus.VoteSummary.{VoteSummary, new_vote_summary, sum_powers, set_available_power}
use gordian.Consensus.RoundView.{VersionedRoundView, zero_view}
use gordian.Mirror.Kernel.World.{Env, World}
use gordian.Mirror.Kernel.VoteSafety.{add_prevote-Stays, add_precommit-Safe}
use gordian.Mirror.Kernel.HeaderSafety.{add_proposed_header-Safe}
use gordian.Mirror.Kernel.Kept.{Safe, SafeBy, Stays}
use gordian.Mirror.Lookup.{without_proofs}
use gordian.Mirror.Kernel.Trace.{Input, action, header, Grows, main_loop-Grows}
use gordian.Mirror.Kernel.Steps.{Ends}
use gordian.Consensus.Math.{byzantine_majority, byzantine_minority}
use gordian.Consensus.VoteSummary.{
  add_votes, record_block, tally_block, tally_votes, set_prevote_powers, set_precommit_powers,
}
use gordian.Consensus.RoundView.{reset_view_for_same_height, reset_view, reset_versions}
use gordian.Mirror.KState.{
  close, sparse_proofs, clear_shared, find_view, mark_committing_view_updated,
  mark_voting_view_updated, mark_next_round_view_updated, mark_view_updated, increment_voting_round,
  jump_voting_round, close_signal, fresh_voting, fresh_next_round, shift_voting_to_committing,
}
use gordian.Mirror.StateMachineView.{set_view, jump_to_round}
use gordian.Mirror.Lag.{set_state}
use gordian.Mirror.Kernel.World.{collect_sparse, map_to_sparse_signature_collection}
use gordian.Mirror.Kernel.Fetch.{
  request_one, request_all, distribute, new_vote_distribution, missing_hashes, request_missing,
  check_missing_phs,
}
use gordian.Mirror.Kernel.Shift.{
  find_header, update_observers, jump, save_current_committing_header, commit_header, commit_hash,
  check_voting_precommit_view_shift, after_prevote_jump, check_prevote_view_shift,
}
use gordian.Mirror.Kernel.Votes.{
  apply_updates, nil_maps, with_prevotes, with_precommits, store_prevotes, store_precommits,
  shift_after_prevote, shift_after_precommit, add_prevote_to, add_precommit_to, add_prevote,
  add_precommit,
}
use gordian.Mirror.Kernel.Headers.{
  cancel_in_flight, backfill, store_backfill, merge_previous_commit, shift_after_header,
  after_header, finish_header, add_header_to, add_proposed_header,
}
use gordian.Mirror.Kernel.Trace.{handle, main_loop}
use gordian.Mirror.Kernel.Action.{
  existing_vote, updated_vote, own_prevote, own_precommit, own_vote, own_vote_in,
  handle_state_machine_action,
}
use gordian.Mirror.Kernel.ActionSafety.{IsBounded, handle_state_machine_action-Safe}
use gordian.Consensus.VoteSummary
use gordian.Consensus.RoundView
use gordian.Prelude.{lookup, insert, erase, bytes_eq, bytes_leb, bytes_key}
use gordian.Prelude.{◌≢◌, inl}
use gordian.Mirror.Fixtures.{view_at}
use gordian.Mirror.Outgoing.{voting}
use gordian.Mirror.Kernel.Votes.{start_prevotes, start_precommits}
use gordian.Mirror.Kernel.Returns.{Returns, HasKeyHash}
use gordian.Mirror.Kernel.VoteReturns.{add_prevote-Returns, add_precommit-Returns}
use gordian.Mirror.Fixtures.{
  bit_proofs, block, voting_on, no_failures, world_on, voting_on-IsSynced, voting_on-IsShared,
  voting_on-IsSharedBy, vote_for, end_of, bit_scheme, own_precommit_action,
}

-- A prevote in the next round: with three of the four votes there the mirror jumps.
abbrev after_prevote : World (List Bool)
after_prevote =
    end_of (add_prevote bit_proofs no_failures (vote_for 1 []) (world_on [])) (world_on [])

after_prevote-Ends :
    Ends (add_prevote bit_proofs no_failures (vote_for 1 []) (world_on [])) after_prevote
unfolding lookup insert erase bytes_eq bytes_leb sum_powers set_available_power new_vote_summary
    VoteSummary.reset VoteSummary.reset_for_same_height RoundView.reset
    RoundView.reset_for_same_height byzantine_majority byzantine_minority add_votes record_block
    tally_block tally_votes set_prevote_powers set_precommit_powers reset_view_for_same_height
    reset_view reset_versions close sparse_proofs nil_maps clear_shared find_view
    mark_committing_view_updated mark_voting_view_updated mark_next_round_view_updated
    mark_view_updated increment_voting_round jump_voting_round close_signal fresh_voting
    fresh_next_round shift_voting_to_committing set_view jump_to_round set_state collect_sparse
    map_to_sparse_signature_collection request_one request_all distribute new_vote_distribution
    missing_hashes request_missing check_missing_phs find_header update_observers jump
    save_current_committing_header commit_header commit_hash check_voting_precommit_view_shift
    after_prevote_jump check_prevote_view_shift apply_updates with_prevotes with_precommits
    store_prevotes store_precommits shift_after_prevote shift_after_precommit add_prevote_to
    add_precommit_to add_prevote add_precommit cancel_in_flight backfill store_backfill
    merge_previous_commit shift_after_header after_header finish_header add_header_to
    add_proposed_header handle main_loop
after_prevote-Ends = inl refl

after_prevote_round : after_prevote.state.voting.round ≡ 1
unfolding lookup insert erase bytes_eq bytes_leb sum_powers set_available_power new_vote_summary
    VoteSummary.reset VoteSummary.reset_for_same_height RoundView.reset
    RoundView.reset_for_same_height byzantine_majority byzantine_minority add_votes record_block
    tally_block tally_votes set_prevote_powers set_precommit_powers reset_view_for_same_height
    reset_view reset_versions close sparse_proofs nil_maps clear_shared find_view
    mark_committing_view_updated mark_voting_view_updated mark_next_round_view_updated
    mark_view_updated increment_voting_round jump_voting_round close_signal fresh_voting
    fresh_next_round shift_voting_to_committing set_view jump_to_round set_state collect_sparse
    map_to_sparse_signature_collection request_one request_all distribute new_vote_distribution
    missing_hashes request_missing check_missing_phs find_header update_observers jump
    save_current_committing_header commit_header commit_hash check_voting_precommit_view_shift
    after_prevote_jump check_prevote_view_shift apply_updates with_prevotes with_precommits
    store_prevotes store_precommits shift_after_prevote shift_after_precommit add_prevote_to
    add_precommit_to add_prevote add_precommit cancel_in_flight backfill store_backfill
    merge_previous_commit shift_after_header after_header finish_header add_header_to
    add_proposed_header handle main_loop
after_prevote_round = refl

add_prevote-Stays_example : Stays (voting_on []) after_prevote.state
add_prevote-Stays_example =
    add_prevote-Stays bit_proofs no_failures (vote_for 1 []) (world_on []) after_prevote
      (voting_on-IsSynced []) (voting_on-IsShared []) after_prevote-Ends

-- A precommit of three of the four votes commits the block.
abbrev after_precommit : World (List Bool)
after_precommit =
    end_of (add_precommit bit_proofs no_failures (vote_for 0 (7 ∷ [])) (world_on (block ∷ [])))
      (world_on [])

after_precommit-Ends :
    Ends
      (add_precommit bit_proofs no_failures (vote_for 0 (7 ∷ [])) (world_on (block ∷ [])))
      after_precommit
unfolding lookup insert erase bytes_eq bytes_leb sum_powers set_available_power new_vote_summary
    VoteSummary.reset VoteSummary.reset_for_same_height RoundView.reset
    RoundView.reset_for_same_height byzantine_majority byzantine_minority add_votes record_block
    tally_block tally_votes set_prevote_powers set_precommit_powers reset_view_for_same_height
    reset_view reset_versions close sparse_proofs nil_maps clear_shared find_view
    mark_committing_view_updated mark_voting_view_updated mark_next_round_view_updated
    mark_view_updated increment_voting_round jump_voting_round close_signal fresh_voting
    fresh_next_round shift_voting_to_committing set_view jump_to_round set_state collect_sparse
    map_to_sparse_signature_collection request_one request_all distribute new_vote_distribution
    missing_hashes request_missing check_missing_phs find_header update_observers jump
    save_current_committing_header commit_header commit_hash check_voting_precommit_view_shift
    after_prevote_jump check_prevote_view_shift apply_updates with_prevotes with_precommits
    store_prevotes store_precommits shift_after_prevote shift_after_precommit add_prevote_to
    add_precommit_to add_prevote add_precommit cancel_in_flight backfill store_backfill
    merge_previous_commit shift_after_header after_header finish_header add_header_to
    add_proposed_header handle main_loop
after_precommit-Ends = inl refl

after_precommit_height : after_precommit.state.voting.height ≡ 3
unfolding lookup insert erase bytes_eq bytes_leb sum_powers set_available_power new_vote_summary
    VoteSummary.reset VoteSummary.reset_for_same_height RoundView.reset
    RoundView.reset_for_same_height byzantine_majority byzantine_minority add_votes record_block
    tally_block tally_votes set_prevote_powers set_precommit_powers reset_view_for_same_height
    reset_view reset_versions close sparse_proofs nil_maps clear_shared find_view
    mark_committing_view_updated mark_voting_view_updated mark_next_round_view_updated
    mark_view_updated increment_voting_round jump_voting_round close_signal fresh_voting
    fresh_next_round shift_voting_to_committing set_view jump_to_round set_state collect_sparse
    map_to_sparse_signature_collection request_one request_all distribute new_vote_distribution
    missing_hashes request_missing check_missing_phs find_header update_observers jump
    save_current_committing_header commit_header commit_hash check_voting_precommit_view_shift
    after_prevote_jump check_prevote_view_shift apply_updates with_prevotes with_precommits
    store_prevotes store_precommits shift_after_prevote shift_after_precommit add_prevote_to
    add_precommit_to add_prevote add_precommit cancel_in_flight backfill store_backfill
    merge_previous_commit shift_after_header after_header finish_header add_header_to
    add_proposed_header handle main_loop
after_precommit_height = refl

add_precommit-Safe_example : Safe (voting_on (block ∷ [])) after_precommit.state
add_precommit-Safe_example =
    add_precommit-Safe bit_proofs no_failures (vote_for 0 (7 ∷ [])) (world_on (block ∷ []))
      after_precommit (voting_on-IsSynced (block ∷ [])) (voting_on-IsShared (block ∷ []))
      (omega arith) (omega arith) after_precommit-Ends

abbrev after_header_block : World (List Bool)
after_header_block =
    end_of (add_proposed_header bit_proofs no_failures block (world_on [])) (world_on [])

after_header_block-Ends :
    Ends (add_proposed_header bit_proofs no_failures block (world_on [])) after_header_block
unfolding lookup insert erase bytes_eq bytes_leb sum_powers set_available_power new_vote_summary
    VoteSummary.reset VoteSummary.reset_for_same_height RoundView.reset
    RoundView.reset_for_same_height byzantine_majority byzantine_minority add_votes record_block
    tally_block tally_votes set_prevote_powers set_precommit_powers reset_view_for_same_height
    reset_view reset_versions close sparse_proofs nil_maps clear_shared find_view
    mark_committing_view_updated mark_voting_view_updated mark_next_round_view_updated
    mark_view_updated increment_voting_round jump_voting_round close_signal fresh_voting
    fresh_next_round shift_voting_to_committing set_view jump_to_round set_state collect_sparse
    map_to_sparse_signature_collection request_one request_all distribute new_vote_distribution
    missing_hashes request_missing check_missing_phs find_header update_observers jump
    save_current_committing_header commit_header commit_hash check_voting_precommit_view_shift
    after_prevote_jump check_prevote_view_shift apply_updates with_prevotes with_precommits
    store_prevotes store_precommits shift_after_prevote shift_after_precommit add_prevote_to
    add_precommit_to add_prevote add_precommit cancel_in_flight backfill store_backfill
    merge_previous_commit shift_after_header after_header finish_header add_header_to
    add_proposed_header handle main_loop
after_header_block-Ends = inl refl

add_proposed_header-Safe_example : SafeBy without_proofs (voting_on []) after_header_block.state
add_proposed_header-Safe_example =
    add_proposed_header-Safe bit_proofs no_failures block (world_on []) after_header_block
      (voting_on-IsSynced []) (voting_on-IsSharedBy []) (omega arith) (omega arith)
      after_header_block-Ends

-- The header comes first, then the own precommit for it.
abbrev inputs : List (Env × Input (List Bool))
inputs = (no_failures, header block) ∷ (no_failures, action own_precommit_action) ∷ []

abbrev after_inputs : World (List Bool)
after_inputs = end_of (main_loop bit_proofs bit_scheme inputs (world_on [])) (world_on [])

after_inputs-Ends : Ends (main_loop bit_proofs bit_scheme inputs (world_on [])) after_inputs
unfolding lookup insert erase bytes_eq bytes_leb sum_powers set_available_power new_vote_summary
    VoteSummary.reset VoteSummary.reset_for_same_height RoundView.reset
    RoundView.reset_for_same_height byzantine_majority byzantine_minority add_votes record_block
    tally_block tally_votes set_prevote_powers set_precommit_powers reset_view_for_same_height
    reset_view reset_versions close sparse_proofs nil_maps clear_shared find_view
    mark_committing_view_updated mark_voting_view_updated mark_next_round_view_updated
    mark_view_updated increment_voting_round jump_voting_round close_signal fresh_voting
    fresh_next_round shift_voting_to_committing set_view jump_to_round set_state collect_sparse
    map_to_sparse_signature_collection request_one request_all distribute new_vote_distribution
    missing_hashes request_missing check_missing_phs find_header update_observers jump
    save_current_committing_header commit_header commit_hash check_voting_precommit_view_shift
    after_prevote_jump check_prevote_view_shift apply_updates with_prevotes with_precommits
    store_prevotes store_precommits shift_after_prevote shift_after_precommit add_prevote_to
    add_precommit_to add_prevote add_precommit cancel_in_flight backfill store_backfill
    merge_previous_commit shift_after_header after_header finish_header add_header_to
    add_proposed_header handle main_loop existing_vote updated_vote own_prevote own_precommit
    own_vote own_vote_in handle_state_machine_action
after_inputs-Ends = inl refl

after_inputs_height : after_inputs.state.voting.height ≡ 3
unfolding lookup insert erase bytes_eq bytes_leb sum_powers set_available_power new_vote_summary
    VoteSummary.reset VoteSummary.reset_for_same_height RoundView.reset
    RoundView.reset_for_same_height byzantine_majority byzantine_minority add_votes record_block
    tally_block tally_votes set_prevote_powers set_precommit_powers reset_view_for_same_height
    reset_view reset_versions close sparse_proofs nil_maps clear_shared find_view
    mark_committing_view_updated mark_voting_view_updated mark_next_round_view_updated
    mark_view_updated increment_voting_round jump_voting_round close_signal fresh_voting
    fresh_next_round shift_voting_to_committing set_view jump_to_round set_state collect_sparse
    map_to_sparse_signature_collection request_one request_all distribute new_vote_distribution
    missing_hashes request_missing check_missing_phs find_header update_observers jump
    save_current_committing_header commit_header commit_hash check_voting_precommit_view_shift
    after_prevote_jump check_prevote_view_shift apply_updates with_prevotes with_precommits
    store_prevotes store_precommits shift_after_prevote shift_after_precommit add_prevote_to
    add_precommit_to add_prevote add_precommit cancel_in_flight backfill store_backfill
    merge_previous_commit shift_after_header after_header finish_header add_header_to
    add_proposed_header handle main_loop existing_vote updated_vote own_prevote own_precommit
    own_vote own_vote_in handle_state_machine_action
after_inputs_height = refl

main_loop-Grows_example : Grows bit_proofs bit_scheme 2 (voting_on []) after_inputs.state
main_loop-Grows_example =
    main_loop-Grows bit_proofs bit_scheme inputs (world_on []) after_inputs (voting_on-IsSynced [])
      (voting_on-IsSharedBy []) (omega arith) after_inputs-Ends

-- The own precommit alone, with the block at hand.
abbrev after_action : World (List Bool)
after_action =
    end_of
      (handle_state_machine_action bit_proofs bit_scheme no_failures own_precommit_action
        (world_on (block ∷ [])))
      (world_on [])

after_action-Ends :
    Ends
      (handle_state_machine_action bit_proofs bit_scheme no_failures own_precommit_action
        (world_on (block ∷ [])))
      after_action
unfolding lookup insert erase bytes_eq bytes_leb sum_powers set_available_power new_vote_summary
    VoteSummary.reset VoteSummary.reset_for_same_height RoundView.reset
    RoundView.reset_for_same_height byzantine_majority byzantine_minority add_votes record_block
    tally_block tally_votes set_prevote_powers set_precommit_powers reset_view_for_same_height
    reset_view reset_versions close sparse_proofs nil_maps clear_shared find_view
    mark_committing_view_updated mark_voting_view_updated mark_next_round_view_updated
    mark_view_updated increment_voting_round jump_voting_round close_signal fresh_voting
    fresh_next_round shift_voting_to_committing set_view jump_to_round set_state collect_sparse
    map_to_sparse_signature_collection request_one request_all distribute new_vote_distribution
    missing_hashes request_missing check_missing_phs find_header update_observers jump
    save_current_committing_header commit_header commit_hash check_voting_precommit_view_shift
    after_prevote_jump check_prevote_view_shift apply_updates with_prevotes with_precommits
    store_prevotes store_precommits shift_after_prevote shift_after_precommit add_prevote_to
    add_precommit_to add_prevote add_precommit cancel_in_flight backfill store_backfill
    merge_previous_commit shift_after_header after_header finish_header add_header_to
    add_proposed_header handle main_loop existing_vote updated_vote own_prevote own_precommit
    own_vote own_vote_in handle_state_machine_action
after_action-Ends = inl refl

after_action-IsBounded : IsBounded (world_on (block ∷ []))
after_action-IsBounded = record {
  synced = voting_on-IsSynced (block ∷ []);
  shared = voting_on-IsSharedBy (block ∷ []);
  below = omega arith;
  small = omega arith;
}

handle_state_machine_action-Safe_example :
    SafeBy without_proofs (voting_on (block ∷ [])) after_action.state
handle_state_machine_action-Safe_example =
    handle_state_machine_action-Safe (world_on (block ∷ [])) after_action after_action-IsBounded
      bit_proofs bit_scheme no_failures own_precommit_action after_action-Ends

-- The same two votes, and what the view then holds.
prevotes_for_nil :
    HasKeyHash bit_proofs []
      (apply_updates (vote_for 0 []).updates (start_prevotes (view_at 2 0 (block ∷ [])))).proofs
unfolding apply_updates insert lookup
prevotes_for_nil = (refl, tt)

prevotes_some :
    (apply_updates (vote_for 0 []).updates (start_prevotes (view_at 2 0 (block ∷ [])))).proofs ≢ []
unfolding apply_updates insert lookup
prevotes_some e = absurd (ground (arith, e))

add_prevote-Returns_example :
    Returns (add_prevote bit_proofs no_failures (vote_for 0 []) (world_on (block ∷ [])))
add_prevote-Returns_example =
    add_prevote-Returns bit_proofs no_failures (vote_for 0 []) (world_on (block ∷ [])) voting []
      (voting_on-IsSynced (block ∷ [])) (voting_on-IsShared (block ∷ [])) (omega arith) (inl refl)
      (refl, refl) (λ q. absurd (ground (arith, q))) prevotes_for_nil prevotes_some

precommits_for_block :
    HasKeyHash bit_proofs []
      (apply_updates
        (vote_for 0 (7 ∷ [])).updates
        (start_precommits (view_at 2 0 (block ∷ [])))).proofs
unfolding apply_updates insert lookup
precommits_for_block = (refl, tt)

precommits_some :
    (apply_updates
      (vote_for 0 (7 ∷ [])).updates
      (start_precommits (view_at 2 0 (block ∷ [])))).proofs
    ≢ []
unfolding apply_updates insert lookup
precommits_some e = absurd (ground (arith, e))

add_precommit-Returns_example :
    Returns (add_precommit bit_proofs no_failures (vote_for 0 (7 ∷ [])) (world_on (block ∷ [])))
add_precommit-Returns_example =
    add_precommit-Returns bit_proofs no_failures (vote_for 0 (7 ∷ [])) (world_on (block ∷ []))
      voting [] (voting_on-IsSynced (block ∷ [])) (voting_on-IsShared (block ∷ [])) (omega arith)
      (omega arith) (inl refl) (refl, refl) (λ q. absurd (ground (arith, q))) precommits_for_block
      precommits_some
