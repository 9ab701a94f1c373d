-- ===== src/StateMachine/StopCauses.antt =====
-- Every event of the main loop of the state machine (statemachine.go), and the causes for which its
-- handler reports false while nothing is cancelled.
use gordian.Prelude.{◌≡◌, subst, List, [], ◌∷◌, Bytes, none, some, not, ◌==◌, ◌&&◌, arith}
use gordian.Consensus.Types.{Validator, ProposedHeader}
use gordian.Consensus.Step.{
  Step, invalid, awaiting_proposal, awaiting_prevotes, prevote_delay, awaiting_precommits,
  precommit_delay, commit_wait, awaiting_finalization,
}
use gordian.StateMachine.World.{Config, Env, World, ok, panic, send, consider_proposed_blocks}
use gordian.StateMachine.Rounds.{
  cancel_timer, with_step, request_decision, advance_height, advance_round,
}
use gordian.StateMachine.Actions.{record_proposed_header, record_prevote, record_precommit}
use gordian.StateMachine.Events.{
  BlockDataArrival, handle_timer_elapsed, timer_elapsed_at, proposal_elapsed, prevote_delay_elapsed,
  end_commit_wait, mark_elapsed, height_committed_at, handle_height_committed,
  handle_block_data_arrival, consider_data, data_request, updated_ids,
}
use gordian.StateMachine.Loop.{
  Event, view_in, proposal_in, prevote_hash_in, precommit_hash_in, finalization_in, timer_elapsed,
  height_committed, block_data_in, handle_event, is_possible, live_event,
}
use gordian.StateMachine.Ready.{IsReliable}
use gordian.StateMachine.Stops.{
  Stops, ok-Stops, panic-Stops, stopped-Stops, >>-Stops, Stops-weaken, if-Stops, elim_option-Stops,
  cancel_timer-Stops,
}
use gordian.StateMachine.StopEvents.{
  Dead, send-Stops, request_decision-Stops, advance_round-Stops, advance_height-Stops,
}
use gordian.StateMachine.StopSigning.{
  Unproposed, Unprevoted, Unprecommitted, record_proposed_header-Stops, record_prevote-Stops,
  record_precommit-Stops,
}
use gordian.StateMachine.StopViews.{handle_view_update-Stops}
use gordian.StateMachine.StopFinalization.{Unfinalized, handle_finalization-Stops}

module _ {P : Type 0} (cfg : Config) (env : Env P) (rel : IsReliable env) where
  end_commit_wait-Stops : (w : World P) → Stops (Dead w.answers) (end_commit_wait cfg env w)
  unfolding end_commit_wait
  end_commit_wait-Stops w = go w.rlc.finalized_val_set.validators
    where
      go :
          (vals : List Validator)
          → Stops (Dead w.answers) (elim vals [
            | [] ↦ ok (with_step awaiting_finalization w)
            | val ∷ vals ↦ advance_height cfg env w
          ])
      go [] = ok-Stops (Dead w.answers) _
      go (val ∷ vals) = advance_height-Stops cfg env rel (Dead w.answers) w (λ d. d)

  height_committed-Stops :
      (s : Step) (w : World P) → Stops (Dead w.answers) (height_committed_at cfg env s w)
  unfolding height_committed_at
  height_committed-Stops awaiting_finalization w = ok-Stops (Dead w.answers) w
  height_committed-Stops commit_wait w = end_commit_wait-Stops w
  height_committed-Stops invalid w = panic-Stops (Dead w.answers)
  height_committed-Stops awaiting_proposal w = panic-Stops (Dead w.answers)
  height_committed-Stops awaiting_prevotes w = panic-Stops (Dead w.answers)
  height_committed-Stops prevote_delay w = panic-Stops (Dead w.answers)
  height_committed-Stops awaiting_precommits w = panic-Stops (Dead w.answers)
  height_committed-Stops precommit_delay w = panic-Stops (Dead w.answers)

  same_answers : (w u : World P) → cancel_timer w ≡ ok u → u.answers ≡ w.answers
  unfolding cancel_timer
  same_answers w u e = ground (arith, e)

  timer_elapsed-Stops :
      (s : Step) (w : World P) → Stops (Dead w.answers) (timer_elapsed_at cfg env s w)
  unfolding timer_elapsed_at proposal_elapsed prevote_delay_elapsed
  timer_elapsed-Stops awaiting_proposal w =
      let C = Dead w.answers in
      elim_option-Stops C w.rlc.vrv panic _ (λ q. panic-Stops C)
        (λ v q.
          >>-Stops C (send env _) _ w (send-Stops env rel C _ w) (λ u e. cancel_timer-Stops C _))
  timer_elapsed-Stops prevote_delay w =
      let C = Dead w.answers in
      elim_option-Stops C w.rlc.vrv panic _ (λ q. panic-Stops C)
        (λ v q.
          >>-Stops C (request_decision env v.vote_summary) _ w
            (request_decision-Stops env rel C v.vote_summary w) (λ u e. cancel_timer-Stops C _))
  timer_elapsed-Stops precommit_delay w =
      let C = Dead w.answers in
      >>-Stops C cancel_timer (advance_round cfg env) w (cancel_timer-Stops C w)
        (λ u e. advance_round-Stops cfg env rel C u (λ d. subst Dead (same_answers w u e) d))
  timer_elapsed-Stops commit_wait w =
      let C = Dead w.answers in
      >>-Stops C cancel_timer (end_commit_wait cfg env) (mark_elapsed cfg env w)
        (cancel_timer-Stops C (mark_elapsed cfg env w))
        (λ u e.
          Stops-weaken (Dead u.answers) C (end_commit_wait cfg env u)
            (λ d. subst Dead (same_answers (mark_elapsed cfg env w) u e) d)
            (end_commit_wait-Stops u))
  timer_elapsed-Stops invalid w = panic-Stops (Dead w.answers)
  timer_elapsed-Stops awaiting_prevotes w = panic-Stops (Dead w.answers)
  timer_elapsed-Stops awaiting_precommits w = panic-Stops (Dead w.answers)
  timer_elapsed-Stops awaiting_finalization w = panic-Stops (Dead w.answers)

  consider_data-Stops :
      (C : Type 0) (arrived : List Bytes) (phs : List ProposedHeader) (w : World P)
      → Stops C (consider_data cfg env arrived phs w)
  unfolding consider_data
  consider_data-Stops C arrived phs w = go (updated_ids arrived phs)
    where
      go :
          (ids : List Bytes)
          → Stops C (elim ids [
            | [] ↦ ok w
            | id ∷ ids ↦
                send env (consider_proposed_blocks (data_request cfg env (id ∷ ids) phs w)) w
          ])
      go [] = ok-Stops C w
      go (id ∷ ids) = send-Stops env rel C _ w

  block_data-Stops :
      (C : Type 0) (a : BlockDataArrival) (queued : List BlockDataArrival) (w : World P)
      → Stops C (handle_block_data_arrival cfg env a queued w)
  unfolding handle_block_data_arrival
  block_data-Stops C a queued w =
      if-Stops C (not w.rlc.prevote_hash_ch) (ok w) _ (λ q. ok-Stops C w)
        (λ q.
          if-Stops C (not (a.height == w.rlc.h && a.round == w.rlc.r)) (ok w) _ (λ q. ok-Stops C w)
            (λ q.
              elim_option-Stops C w.rlc.vrv panic _ (λ q. panic-Stops C)
                (λ v q. consider_data-Stops C _ _ w)))

  -- Why the handler of an event reports false: the strategy reported an error, the own proposal, vote
  -- or finalization was not accepted, or the mirror's answers leave no round. An update of a view and
  -- an arrival of data give no cause.
  abbrev pub Cause : Event P → World P → Type 0
  Cause (view_in u) w = ⊥
  Cause (proposal_in p) w = Unproposed cfg p w
  Cause (prevote_hash_in none) w = Unit
  Cause (prevote_hash_in (some hash)) w = Unprevoted cfg hash w
  Cause (precommit_hash_in none) w = Unit
  Cause (precommit_hash_in (some hash)) w = Unprecommitted cfg hash w
  Cause (finalization_in resp) w = Unfinalized cfg env rel resp w
  Cause timer_elapsed w = Dead w.answers
  Cause height_committed w = Dead w.answers
  Cause (block_data_in a queued) w = ⊥

  handle_event-Stops : (e : Event P) (w : World P) → Stops (Cause e w) (handle_event cfg env e w)
  unfolding handle_event handle_timer_elapsed handle_height_committed
  handle_event-Stops (view_in u) w = handle_view_update-Stops cfg env ⊥ u w
  handle_event-Stops (proposal_in p) w =
      >>-Stops (Unproposed cfg p w) (record_proposed_header cfg p) _ w
        (record_proposed_header-Stops cfg p w) (λ u e. ok-Stops (Unproposed cfg p w) _)
  handle_event-Stops (prevote_hash_in none) w = stopped-Stops Unit w tt
  handle_event-Stops (prevote_hash_in (some hash)) w =
      >>-Stops (Unprevoted cfg hash w) (record_prevote cfg hash) _ w
        (record_prevote-Stops cfg hash w) (λ u e. ok-Stops (Unprevoted cfg hash w) _)
  handle_event-Stops (precommit_hash_in none) w = stopped-Stops Unit w tt
  handle_event-Stops (precommit_hash_in (some hash)) w =
      >>-Stops (Unprecommitted cfg hash w) (record_precommit cfg hash) _ w
        (record_precommit-Stops cfg hash w) (λ u e. ok-Stops (Unprecommitted cfg hash w) _)
  handle_event-Stops (finalization_in resp) w = handle_finalization-Stops cfg env rel resp w
  handle_event-Stops timer_elapsed w = timer_elapsed-Stops w.rlc.s w
  handle_event-Stops height_committed w = height_committed-Stops w.rlc.s _
  handle_event-Stops (block_data_in a queued) w = block_data-Stops ⊥ a queued w

  pub live_event-Stops : (e : Event P) (w : World P) → Stops (Cause e w) (live_event cfg env e w)
  unfolding live_event
  live_event-Stops e w =
      if-Stops (Cause e w) (is_possible cfg env e w.rlc) (handle_event cfg env e w) (ok w)
        (λ q. handle_event-Stops e w) (λ q. ok-Stops (Cause e w) w)
