-- ===== src/StateMachine/Examples.antt =====
-- Runs of the state machine on concrete rounds.
use gordian.Prelude.{none, nat_eq}
use gordian.Prelude.{
  ℕ, ◌≢◌, ◌≡◌, ◌↔◌, ◌⊎◌, refl, inl, Bool, List, [], ◌∷◌, Bytes, some, arith, ◌&&◌, ◌||◌, not,
}
use gordian.Prelude.{lookup, insert, erase, bytes_eq, bytes_leb, bytes_key}
use gordian.Consensus.Types.{validators_to_pub_keys, validators_to_vote_powers, no_annotations}
use gordian.Consensus.Step.{commit_wait, awaiting_proposal}
use gordian.Mirror.Fixtures.{block, view_at, no_votes}
use gordian.StateMachine.Lifecycle.{Proposal, mark_new, seen, commit_wait_timer, proposal_timer}
use gordian.StateMachine.World.{World, with_rlc, ok, stopped, panic}
use gordian.StateMachine.Loop.{
  Event, finalization_in, timer_elapsed, prevote_hash_in, precommit_hash_in, proposal_in,
  live_event, live_loop,
}
use gordian.StateMachine.Heights.{Finalizes, live_loop-Finalizes}
use gordian.StateMachine.Outcomes.{Holds}
use gordian.StateMachine.SignsOnce.{IsHonest}
use gordian.StateMachine.SignEvents.{SignsOnce, live_loop-Honest, live_loop-SignsOnce}
use gordian.StateMachine.SignActions.{VotesSigned}
use gordian.StateMachine.Entering.{SplitPrevotes, SplitPrecommits, begin_round_live_panics_iff}
use gordian.StateMachine.Restart.{restart_after_round}
use gordian.StateMachine.Proposals.{
  AllOnce, hashes_of, mark_new_lem, Proposes, record_proposed_header-Proposes,
}
use gordian.StateMachine.Rounds.{begin_round_live}
use gordian.StateMachine.Start.{u64_sub, initialize}
use gordian.StateMachine.Actions.{record_proposed_header}
use gordian.StateMachine.Ready.{Ready}
use gordian.StateMachine.Stops.{Stops}
use gordian.StateMachine.Fixtures.{first_signer, config, quiet, world_at, finalized_block, end_of}
use gordian.StateMachine.Lifecycle.{
  reset, mark_catching_up, is_replaying, cycle_finalization, mark_reason_new_hashes,
}
use gordian.StateMachine.World.{send, timed_send}
use gordian.StateMachine.Rounds.{
  reject_mismatched_proposed_headers, is_participating, cancel_timer, request_decision,
  request_finalization, begin_commit, consider_initial, begin_at, save_height_round, to_next_round,
  to_next_height, catch_up, enter_live, announce, advance, advance_round, advance_height,
}
use gordian.StateMachine.Actions.{
  save_and_send, leave_proposal, finish_header, propose_with, sign_prevote, sign_precommit,
  record_prevote, record_precommit,
}
use gordian.StateMachine.Events.{
  new_validator_set, gather, updated_ids, store_finalization, handle_finalization, end_commit_wait,
  height_committed_at, handle_height_committed, proposal_elapsed, prevote_delay_elapsed,
  timer_elapsed_at, handle_timer_elapsed, consider_data, handle_block_data_arrival,
}
use gordian.StateMachine.Loop.{handle_event, is_possible, catchup_event, catchup_loop, kernel}
use gordian.Consensus.Math.{byzantine_majority, byzantine_minority}
use gordian.Consensus.Step.{step_at, get_step_from_vote_summary}
use gordian.Store.Finalizations.{save_finalization, load_finalization_by_height, save_finalizations}
use gordian.Store.Actions.{
  save_proposed_header_action, save_prevote_action, save_precommit_action, load_actions,
  save_action, save_actions,
}

-- In commit wait the finalization arrives, and then the timer elapses: height 3 begins.
abbrev finishing : List (Event (List Bool))
finishing = finalization_in finalized_block ∷ timer_elapsed ∷ []

abbrev committing : World (List Bool)
committing = world_at commit_wait (some (commit_wait_timer 2 0))

abbrev next_height : World (List Bool)
next_height = end_of (live_loop config quiet finishing committing) committing

finishing_ends : live_loop config quiet finishing committing ≡ ok next_height
unfolding lookup insert erase bytes_eq bytes_leb validators_to_pub_keys validators_to_vote_powers
    reset mark_catching_up is_replaying cycle_finalization mark_new mark_reason_new_hashes send
    timed_send reject_mismatched_proposed_headers is_participating cancel_timer request_decision
    request_finalization begin_commit consider_initial begin_at begin_round_live save_height_round
    to_next_round to_next_height catch_up enter_live announce advance advance_round advance_height
    save_and_send leave_proposal finish_header propose_with record_proposed_header sign_prevote
    sign_precommit record_prevote record_precommit new_validator_set gather updated_ids
    store_finalization handle_finalization end_commit_wait height_committed_at
    handle_height_committed proposal_elapsed prevote_delay_elapsed timer_elapsed_at
    handle_timer_elapsed consider_data handle_block_data_arrival handle_event is_possible
    catchup_event live_event live_loop catchup_loop kernel byzantine_majority byzantine_minority
    step_at get_step_from_vote_summary save_finalization load_finalization_by_height
    save_finalizations save_proposed_header_action save_prevote_action save_precommit_action
    load_actions save_action save_actions
finishing_ends = refl

next_height_is : (next_height.rlc.h ≡ 3) × (next_height.rlc.s ≡ awaiting_proposal)
unfolding lookup insert erase bytes_eq bytes_leb validators_to_pub_keys validators_to_vote_powers
    reset mark_catching_up is_replaying cycle_finalization mark_new mark_reason_new_hashes send
    timed_send reject_mismatched_proposed_headers is_participating cancel_timer request_decision
    request_finalization begin_commit consider_initial begin_at begin_round_live save_height_round
    to_next_round to_next_height catch_up enter_live announce advance advance_round advance_height
    save_and_send leave_proposal finish_header propose_with record_proposed_header sign_prevote
    sign_precommit record_prevote record_precommit new_validator_set gather updated_ids
    store_finalization handle_finalization end_commit_wait height_committed_at
    handle_height_committed proposal_elapsed prevote_delay_elapsed timer_elapsed_at
    handle_timer_elapsed consider_data handle_block_data_arrival handle_event is_possible
    catchup_event live_event live_loop catchup_loop kernel byzantine_majority byzantine_minority
    step_at get_step_from_vote_summary save_finalization load_finalization_by_height
    save_finalizations save_proposed_header_action save_prevote_action save_precommit_action
    load_actions save_action save_actions
next_height_is = (refl, refl)

live_loop-Finalizes_example : Finalizes config quiet 2 committing next_height
live_loop-Finalizes_example =
    live_loop-Finalizes config quiet finishing committing next_height (inl refl) (omega arith)
      finishing_ends

-- A round in which the state machine proposes, prevotes and precommits, and then prevotes again.
abbrev proposing : World (List Bool)
proposing = world_at awaiting_proposal (some (proposal_timer 2 0))

abbrev own_block : Proposal
own_block = record {
  data_id = 8 ∷ [];
  proposal_annotations = no_annotations;
  block_annotations = no_annotations;
}

abbrev voting : List (Event (List Bool))
voting =
    proposal_in own_block
    ∷ prevote_hash_in (some (7 ∷ []))
    ∷ precommit_hash_in (some (7 ∷ []))
    ∷ prevote_hash_in (some (9 ∷ []))
    ∷ []

config-VotesSigned : VotesSigned config
config-VotesSigned signer e = record {
  prevote_signed = λ vt signed q. ground (arith, e, q);
  precommit_signed = λ vt signed q. ground (arith, e, q);
}

live_loop-Honest_example : Holds IsHonest (live_loop config quiet voting proposing)
live_loop-Honest_example = live_loop-Honest config quiet config-VotesSigned voting proposing tt

live_loop-SignsOnce_example :
    Holds (SignsOnce config quiet) (live_loop config quiet voting proposing)
live_loop-SignsOnce_example =
    live_loop-SignsOnce config quiet config-VotesSigned voting proposing tt

begin_round_live_panics_iff_example :
    (begin_round_live quiet stopped (view_at 2 0 (block ∷ [])) proposing ≡ panic)
    ↔ (SplitPrevotes no_votes ⊎ SplitPrecommits no_votes)
begin_round_live_panics_iff_example =
    begin_round_live_panics_iff quiet stopped (view_at 2 0 (block ∷ [])) proposing (omega arith)
      (omega arith) (λ e. ground (arith, e))

-- The first height, left in round 0 and started again.
abbrev first_round : World (List Bool)
first_round = record proposing { rlc = record (proposing.rlc) { h = 1 } }

abbrev second_round : World (List Bool)
second_round = end_of (to_next_round quiet first_round) first_round

second_round_ok : to_next_round quiet first_round ≡ ok second_round
unfolding to_next_round save_height_round reset
second_round_ok = refl

nothing_stored :
    (k : ℕ)
    → k ≢ u64_sub config.genesis.initial_height 1
    → lookup k first_round.finalization_store ≡ none
unfolding lookup
nothing_stored k ne = refl

restart_after_round_example :
    initialize config quiet (with_rlc proposing.rlc second_round)
    ≡ stopped (with_rlc proposing.rlc second_round)
restart_after_round_example =
    restart_after_round config quiet quiet first_round second_round proposing.rlc
      (λ e. ground (arith, e)) (omega arith) refl (omega arith) nothing_stored second_round_ok

abbrev proposed : World (List Bool)
proposed = end_of (record_proposed_header config own_block proposing) proposing

proposed_ends : record_proposed_header config own_block proposing ≡ ok proposed
unfolding lookup insert erase bytes_eq bytes_leb validators_to_pub_keys validators_to_vote_powers
    reset mark_catching_up is_replaying cycle_finalization mark_new mark_reason_new_hashes send
    timed_send reject_mismatched_proposed_headers is_participating cancel_timer request_decision
    request_finalization begin_commit consider_initial begin_at begin_round_live save_height_round
    to_next_round to_next_height catch_up enter_live announce advance advance_round advance_height
    save_and_send leave_proposal finish_header propose_with record_proposed_header sign_prevote
    sign_precommit record_prevote record_precommit new_validator_set gather updated_ids
    store_finalization handle_finalization end_commit_wait height_committed_at
    handle_height_committed proposal_elapsed prevote_delay_elapsed timer_elapsed_at
    handle_timer_elapsed consider_data handle_block_data_arrival handle_event is_possible
    catchup_event live_event live_loop catchup_loop kernel byzantine_majority byzantine_minority
    step_at get_step_from_vote_summary save_finalization load_finalization_by_height
    save_finalizations save_proposed_header_action save_prevote_action save_precommit_action
    load_actions save_action save_actions
proposed_ends = refl

record_proposed_header-Proposes_example : Proposes config first_signer proposing proposed
record_proposed_header-Proposes_example =
    record_proposed_header-Proposes config first_signer own_block proposing proposed refl
      proposed_ends

mark_new_lem_example :
    let (new, all) = mark_new (block ∷ block ∷ []) ((9 ∷ []) ∷ []) in
    AllOnce new
    × ((x : Bytes)
        → seen x new ≡ (not (seen x ((9 ∷ []) ∷ [])) && seen x (hashes_of (block ∷ block ∷ []))))
    × ((x : Bytes)
        → seen x all ≡ (seen x ((9 ∷ []) ∷ []) || seen x (hashes_of (block ∷ block ∷ []))))
mark_new_lem_example = mark_new_lem (block ∷ block ∷ []) ((9 ∷ []) ∷ [])
