-- ===== src/StateMachine/HeightTimers.antt =====
-- Timers, committed heights and block data (statemachine.go): a height is left once it is finalized.
use gordian.Prelude.{◌≡◌, ◌⊎◌, true, false, List, [], ◌∷◌, none, nat_eq, arith}
use gordian.Consensus.Step.{
  Step, invalid, awaiting_proposal, awaiting_prevotes, prevote_delay, awaiting_precommits,
  precommit_delay, commit_wait, awaiting_finalization,
}
use gordian.StateMachine.Lifecycle.{reset, cycle_finalization}
use gordian.StateMachine.World.{
  Config, Call, choose_proposed_block, decide_precommit, Env, World, ok, panic, ◌>>◌, send,
}
use gordian.StateMachine.Rounds.{
  reject_mismatched_proposed_headers, with_step, save_height_round, to_next_height, advance,
  advance_height, cancel_timer, request_decision, advance_round,
}
use gordian.StateMachine.Views.{clear_considered}
use gordian.StateMachine.Events.{
  end_commit_wait, handle_height_committed, height_committed_at, proposal_elapsed,
  prevote_delay_elapsed, timer_elapsed_at, consider_data, handle_block_data_arrival, mark_elapsed,
}
use gordian.StateMachine.Frame.{
  Holds-Frame, Frame, Frame-refl, >>-Frame, send-Frame, advance-Frame, advance_round-Frame,
}
use gordian.StateMachine.Outcomes.{Holds, >>-Holds, Holds-weaken, elim_option-Holds}
use gordian.StateMachine.StepFrame.{cancel_timer-Frame}
use gordian.StateMachine.Grows.{
  finalized, IsRecorded, Grows, SameHeight, SameHeight-Grows, from_Frame, from_same, Left,
  Left-Grows, same_then,
}

module _ {P : Type 0} (cfg : Config) (env : Env P) where
  pub to_next_height-Left : (w : World P) → Holds (Left w) (to_next_height env w)
  unfolding to_next_height save_height_round reset cycle_finalization
  to_next_height-Left w = ground arith

  pub advance_height-Grows :
      (w : World P) → finalized w.rlc.h w ≡ true → Holds (Grows w) (advance_height cfg env w)
  unfolding advance_height
  advance_height-Grows w y =
      >>-Holds (Left w) (Grows w) (to_next_height env) (advance cfg env w.answers) w
        (to_next_height-Left w) (λ v l. Left-Grows w v v y l (Frame-refl v))
        (λ v l.
          Holds-weaken (Frame v) (Grows w) (advance cfg env w.answers v)
            (λ u f. Left-Grows w v u y l f) (advance-Frame cfg env w.answers v))

  pub end_commit_wait-Grows :
      (w : World P) → IsRecorded w → Holds (Grows w) (end_commit_wait cfg env w)
  unfolding end_commit_wait
  end_commit_wait-Grows w y =
      elim w.rlc.finalized_val_set.validators
          as (λ vs.
            ((vs ≡ []) ⊎ (finalized w.rlc.h w ≡ true))
            → Holds (Grows w) (elim vs [
              | [] ↦ ok (with_step awaiting_finalization w)
              | val ∷ vals ↦ advance_height cfg env w
            ])) [
              | [] ↦ λ q. SameHeight-Grows w (with_step awaiting_finalization w) y (ground arith)
              | val ∷ vals ↦ λ q. advance_height-Grows w (ground (arith, q))
            ]
        y

  -- The commit wait ends in a lifecycle that differs in its timers only.
  pub after_same :
      (w v : World P) → IsRecorded w → SameHeight w v → Holds (Grows w) (end_commit_wait cfg env v)
  after_same w v y f =
      Holds-weaken (Grows v) (Grows w) (end_commit_wait cfg env v) (λ u g. same_then w v u f g)
        (end_commit_wait-Grows v (ground (arith, y, f)))

  pub height_committed-Grows :
      (w : World P) → IsRecorded w → Holds (Grows w) (handle_height_committed cfg env w)
  unfolding handle_height_committed height_committed_at
  height_committed-Grows w y = go w.rlc.s
    where
      v : World P
      v = record w {
        rlc = record w.rlc {
          height_committed = false;
          commit_wait_elapsed = true;
          step_timer = none;
        };
      }

      go : (s : Step) → Holds (Grows w) (height_committed_at cfg env s v)
      go awaiting_finalization = SameHeight-Grows w v y (ground arith)
      go commit_wait = after_same w v y (ground arith)
      go invalid = tt
      go awaiting_proposal = tt
      go awaiting_prevotes = tt
      go prevote_delay = tt
      go awaiting_precommits = tt
      go precommit_delay = tt

  -- A call, and then the end of the timer under another step.
  pub send_then_cancel :
      (c : Call P) (f : World P → World P) (w : World P)
      → ((v : World P) → Frame v (f v))
      → Holds (Frame w) ((send env c >> λ v. cancel_timer (f v)) w)
  send_then_cancel c f w k =
      >>-Frame (send env c) (λ v. cancel_timer (f v)) w (send-Frame env c w)
        (λ v. Holds-Frame v (f v) (cancel_timer (f v)) (k v) (cancel_timer-Frame (f v)))

  pub proposal_elapsed-Frame : (w : World P) → Holds (Frame w) (proposal_elapsed cfg env w)
  unfolding proposal_elapsed
  proposal_elapsed-Frame w = elim_option-Holds (Frame w) w.rlc.vrv panic _ tt (λ v.
      send_then_cancel
        (choose_proposed_block (reject_mismatched_proposed_headers w.rlc v.proposed_headers)
          w.rlc.prevote_hash_ch)
        (λ u. with_step awaiting_prevotes (clear_considered u)) w (λ u. ground arith))

  pub prevote_delay_elapsed-Frame :
      (w : World P) → Holds (Frame w) (prevote_delay_elapsed cfg env w)
  unfolding prevote_delay_elapsed request_decision
  prevote_delay_elapsed-Frame w = elim_option-Holds (Frame w) w.rlc.vrv panic _ tt (λ v.
      send_then_cancel (decide_precommit v.vote_summary w.rlc.precommit_hash_ch)
        (with_step awaiting_precommits) w (λ u. ground arith))

  pub timer_elapsed_at-Grows :
      (s : Step) (w : World P) → IsRecorded w → Holds (Grows w) (timer_elapsed_at cfg env s w)
  unfolding timer_elapsed_at
  timer_elapsed_at-Grows awaiting_proposal w y =
      from_Frame w (proposal_elapsed cfg env w) y (proposal_elapsed-Frame w)
  timer_elapsed_at-Grows prevote_delay w y =
      from_Frame w (prevote_delay_elapsed cfg env w) y (prevote_delay_elapsed-Frame w)
  timer_elapsed_at-Grows precommit_delay w y =
      from_Frame w ((cancel_timer >> advance_round cfg env) w) y (
        >>-Frame cancel_timer (advance_round cfg env) w (cancel_timer-Frame w)
          (advance_round-Frame cfg env))
  timer_elapsed_at-Grows commit_wait w y =
      >>-Holds (SameHeight w) (Grows w) cancel_timer (end_commit_wait cfg env)
        (mark_elapsed cfg env w) (unfold cancel_timer in ground arith)
        (λ v f. SameHeight-Grows w v y f) (λ v f. after_same w v y f)
  timer_elapsed_at-Grows invalid w y = tt
  timer_elapsed_at-Grows awaiting_prevotes w y = tt
  timer_elapsed_at-Grows awaiting_precommits w y = tt
  timer_elapsed_at-Grows awaiting_finalization w y = tt

  pub block_data-Grows :
      (a : _) (queued : List _) (w : World P)
      → IsRecorded w
      → Holds (Grows w) (handle_block_data_arrival cfg env a queued w)
  unfolding handle_block_data_arrival consider_data send
  block_data-Grows a queued w y =
      from_same w (handle_block_data_arrival cfg env a queued w) y (ground arith)
