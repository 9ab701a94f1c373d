-- ===== src/StateMachine/Loop.antt =====
-- The main loop of the state machine (statemachine.go): `handleLiveEvent`, `handleCatchupEvent` and
-- `kernel`.
use gordian.Prelude.{Bool, true, false, List, [], ◌∷◌, none, some, if◌then◌else◌}
use gordian.Consensus.Step.{awaiting_finalization}
use gordian.Mirror.StateMachineView.{StateMachineRoundView}
use gordian.StateMachine.Lifecycle.{RoundLifecycle, is_replaying, Proposal, HashSelection}
use gordian.StateMachine.World.{Config, Env, World, Outcome, ok, stopped, ◌>>◌, with_rlc}
use gordian.StateMachine.Rounds.{with_step}
use gordian.StateMachine.Views.{handle_view_update}
use gordian.StateMachine.Actions.{record_proposed_header, record_prevote, record_precommit}
use gordian.StateMachine.Events.{
  FinalizeBlockResponse, BlockDataArrival, handle_finalization, handle_height_committed,
  handle_timer_elapsed, handle_block_data_arrival,
}

-- What the live loop receives. An arrival comes with those that its handler takes from the queue
-- along with it: none, where it returns early.
pub data Event (P : Type 0) : Type 0 where
  view_in : StateMachineRoundView P → Event P
  proposal_in : Proposal → Event P
  prevote_hash_in : HashSelection → Event P
  precommit_hash_in : HashSelection → Event P
  finalization_in : FinalizeBlockResponse → Event P
  timer_elapsed : Event P
  height_committed : Event P
  block_data_in : BlockDataArrival → List BlockDataArrival → Event P

module _ {P : Type 0} (cfg : Config) (env : Env P) where
  abbrev pub close_proposal : World P → Outcome P
  close_proposal w = ok (with_rlc (record w.rlc { proposal_ch = false }) w)

  abbrev pub close_prevote : World P → Outcome P
  close_prevote w = ok (with_rlc (record w.rlc { prevote_hash_ch = false }) w)

  abbrev pub close_precommit : World P → Outcome P
  close_precommit w = ok (with_rlc (record w.rlc { precommit_hash_ch = false }) w)

  -- The cases of the select. An error of the strategy stops the kernel.
  unfoldable pub handle_event : Event P → World P → Outcome P
  handle_event (view_in u) = handle_view_update cfg env u
  handle_event (proposal_in p) = record_proposed_header cfg p >> close_proposal
  handle_event (prevote_hash_in none) = stopped
  handle_event (prevote_hash_in (some hash)) = record_prevote cfg hash >> close_prevote
  handle_event (precommit_hash_in none) = stopped
  handle_event (precommit_hash_in (some hash)) = record_precommit cfg hash >> close_precommit
  handle_event (finalization_in resp) = handle_finalization cfg env resp
  handle_event timer_elapsed = handle_timer_elapsed cfg env
  handle_event height_committed = handle_height_committed cfg env
  handle_event (block_data_in a queued) = handle_block_data_arrival cfg env a queued

  -- A nil channel never delivers.
  unfoldable pub is_possible : Event P → RoundLifecycle P → Bool
  is_possible (view_in u) rlc = true
  is_possible (proposal_in p) rlc = rlc.proposal_ch
  is_possible (prevote_hash_in sel) rlc = rlc.prevote_hash_ch
  is_possible (precommit_hash_in sel) rlc = rlc.precommit_hash_ch
  is_possible (finalization_in resp) rlc = rlc.finalize_resp_ch
  is_possible timer_elapsed rlc = elim rlc.step_timer [ none ↦ false | some t ↦ true ]
  is_possible height_committed rlc = rlc.height_committed
  is_possible (block_data_in a queued) rlc = true

  -- In catch-up only a finalization is received; the step is set to awaiting it.
  unfoldable pub catchup_event : Event P → World P → Outcome P
  catchup_event (finalization_in resp) w =
      if w.rlc.finalize_resp_ch
      then handle_finalization cfg env resp (with_step awaiting_finalization w)
      else ok w
  catchup_event e w = ok w

  unfoldable pub live_event : Event P → World P → Outcome P
  live_event e w = if is_possible e w.rlc then handle_event e w else ok w

  -- `kernel`: live events. The catch-up loop never returns to the live one.
  unfoldable pub live_loop : List (Event P) → World P → Outcome P
  live_loop [] = ok
  live_loop (e ∷ es) = live_event e >> live_loop es

  unfoldable pub catchup_loop : List (Event P) → World P → Outcome P
  catchup_loop [] = ok
  catchup_loop (e ∷ es) = catchup_event e >> catchup_loop es

  unfoldable pub kernel : List (Event P) → World P → Outcome P
  kernel es w = if is_replaying w.rlc then catchup_loop es w else live_loop es w
