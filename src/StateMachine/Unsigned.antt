-- ===== src/StateMachine/Unsigned.antt =====
-- Only a hash or a proposal of the consensus strategy makes the state machine sign
-- (statemachine.go): every other event leaves the action store and what was sent alone.
use gordian.Prelude.{
  ◌≡◌, true, false, List, [], ◌∷◌, none, some, not, ◌==◌, ◌&&◌, if◌then◌else◌, arith,
}
use gordian.Consensus.Types.{Validator, ValidatorSet, empty_validator_set}
use gordian.Consensus.Step.{
  Step, invalid, awaiting_proposal, awaiting_prevotes, prevote_delay, awaiting_precommits,
  precommit_delay, commit_wait, awaiting_finalization,
}
use gordian.Store.Finalizations.{save_finalization}
use gordian.StateMachine.Lifecycle.{reset, cycle_finalization}
use gordian.StateMachine.World.{
  Config, with_rlc, Env, World, Outcome, ok, stopped, panic, ◌>>◌, send,
}
use gordian.StateMachine.Rounds.{
  with_step, save_height_round, to_next_height, advance, advance_height, cancel_timer,
  advance_round,
}
use gordian.StateMachine.Events.{
  BlockDataArrival, FinalizeBlockResponse, store_finalization, handle_finalization,
  advance_if_waiting, with_finalization, new_validator_set, end_commit_wait,
  handle_height_committed, height_committed_at, proposal_elapsed, prevote_delay_elapsed,
  timer_elapsed_at, consider_data, handle_block_data_arrival, mark_elapsed,
}
use gordian.StateMachine.Frame.{Frame, >>-Frame, advance-Frame, advance_round-Frame}
use gordian.StateMachine.Outcomes.{Holds, >>-Holds, Holds-weaken, elim_option-Holds}
use gordian.StateMachine.StepFrame.{cancel_timer-Frame}
use gordian.StateMachine.HeightTimers.{proposal_elapsed-Frame, prevote_delay_elapsed-Frame}

module _ {P : Type 0} where
  pub record SameSigned (w w' : World P) : Type 0 where
    pub same_actions : w'.action_store ≡ w.action_store
    pub same_outgoing : w'.outgoing_actions ≡ w.outgoing_actions

  pub Frame-SameSigned : (w v : World P) → Frame w v → SameSigned w v
  Frame-SameSigned w v f = ground arith

  pub from_Frame : (w : World P) (o : Outcome P) → Holds (Frame w) o → Holds (SameSigned w) o
  from_Frame w o h = Holds-weaken (Frame w) (SameSigned w) o (Frame-SameSigned w) h

  then_unsigned :
      (f g : World P → Outcome P) (w : World P)
      → Holds (SameSigned w) (f w)
      → ((v : World P) → Holds (SameSigned v) (g v))
      → Holds (SameSigned w) ((f >> g) w)
  then_unsigned f g w h k =
      >>-Holds (SameSigned w) (SameSigned w) f g w h (λ v q. q)
        (λ v q.
          Holds-weaken (SameSigned v) (SameSigned w) (g v) (λ u r. ground (arith, q, r)) (k v))

module _ {P : Type 0} (cfg : Config) (env : Env P) where
  to_next_height-Unsigned : (w : World P) → Holds (SameSigned w) (to_next_height env w)
  unfolding to_next_height save_height_round reset cycle_finalization
  to_next_height-Unsigned w = ground arith

  advance_height-Unsigned : (w : World P) → Holds (SameSigned w) (advance_height cfg env w)
  unfolding advance_height
  advance_height-Unsigned w =
      then_unsigned (to_next_height env) (advance cfg env w.answers) w (to_next_height-Unsigned w)
        (λ v. from_Frame v (advance cfg env w.answers v) (advance-Frame cfg env w.answers v))

  end_commit_wait-Unsigned : (w : World P) → Holds (SameSigned w) (end_commit_wait cfg env w)
  unfolding end_commit_wait
  end_commit_wait-Unsigned w =
      elim w.rlc.finalized_val_set.validators
        as (λ vs. Holds (SameSigned w) (elim vs [
          | [] ↦ ok (with_step awaiting_finalization w)
          | val ∷ vals ↦ advance_height cfg env w
        ])) [ [] ↦ ground arith | val ∷ vals ↦ advance_height-Unsigned w ]

  pub height_committed-Unsigned :
      (w : World P) → Holds (SameSigned w) (handle_height_committed cfg env w)
  unfolding handle_height_committed height_committed_at
  height_committed-Unsigned w = go w.rlc.s
    where
      v : World P
      v = record w {
        rlc = record w.rlc {
          height_committed = false;
          commit_wait_elapsed = true;
          step_timer = none;
        };
      }

      go : (s : Step) → Holds (SameSigned w) (height_committed_at cfg env s v)
      go awaiting_finalization = ground arith
      go commit_wait =
          Holds-weaken (SameSigned v) (SameSigned w) (end_commit_wait cfg env v)
            (λ u r. ground (arith, r)) (end_commit_wait-Unsigned v)
      go invalid = tt
      go awaiting_proposal = tt
      go awaiting_prevotes = tt
      go prevote_delay = tt
      go awaiting_precommits = tt
      go precommit_delay = tt

  pub timer_elapsed_at-Unsigned :
      (s : Step) (w : World P) → Holds (SameSigned w) (timer_elapsed_at cfg env s w)
  unfolding timer_elapsed_at
  timer_elapsed_at-Unsigned awaiting_proposal w =
      from_Frame w (proposal_elapsed cfg env w) (proposal_elapsed-Frame cfg env w)
  timer_elapsed_at-Unsigned prevote_delay w =
      from_Frame w (prevote_delay_elapsed cfg env w) (prevote_delay_elapsed-Frame cfg env w)
  timer_elapsed_at-Unsigned precommit_delay w =
      from_Frame w ((cancel_timer >> advance_round cfg env) w) (
        >>-Frame cancel_timer (advance_round cfg env) w (cancel_timer-Frame w)
          (advance_round-Frame cfg env))
  timer_elapsed_at-Unsigned commit_wait w =
      Holds-weaken (SameSigned (mark_elapsed cfg env w)) (SameSigned w)
        ((cancel_timer >> end_commit_wait cfg env) (mark_elapsed cfg env w))
        (λ u r. ground (arith, r))
        (then_unsigned cancel_timer (end_commit_wait cfg env) (mark_elapsed cfg env w)
          (from_Frame (mark_elapsed cfg env w) (cancel_timer (mark_elapsed cfg env w))
            (cancel_timer-Frame (mark_elapsed cfg env w)))
          end_commit_wait-Unsigned)
  timer_elapsed_at-Unsigned invalid w = tt
  timer_elapsed_at-Unsigned awaiting_prevotes w = tt
  timer_elapsed_at-Unsigned awaiting_precommits w = tt
  timer_elapsed_at-Unsigned awaiting_finalization w = tt

  pub block_data-Unsigned :
      (a : BlockDataArrival) (queued : List BlockDataArrival) (w : World P)
      → Holds (SameSigned w) (handle_block_data_arrival cfg env a queued w)
  unfolding handle_block_data_arrival consider_data send
  block_data-Unsigned a queued w = ground arith

  store_finalization-Unsigned :
      (set : ValidatorSet) (resp : FinalizeBlockResponse) (w : World P)
      → Holds (SameSigned w) (store_finalization cfg env set resp w)
  unfolding store_finalization
  store_finalization-Unsigned set resp w =
      elim_option-Holds (SameSigned w) (save_finalization _ w.finalization_store) (stopped w) _
        (ground arith) (λ store. ground arith)

  advance_if-Unsigned :
      (s : Step) (w : World P) → Holds (SameSigned w) (advance_if_waiting cfg env s w)
  advance_if-Unsigned awaiting_finalization w = advance_height-Unsigned w
  advance_if-Unsigned s w = ground arith

  finish-Unsigned :
      (set : ValidatorSet) (resp : FinalizeBlockResponse) (w v : World P)
      → SameSigned w v
      → Holds
          (SameSigned w)
          ((store_finalization cfg env set resp >> λ u. advance_if_waiting cfg env u.rlc.s u) v)
  finish-Unsigned set resp w v f =
      Holds-weaken (SameSigned v) (SameSigned w)
        ((store_finalization cfg env set resp >> λ u. advance_if_waiting cfg env u.rlc.s u) v)
        (λ u r. ground (arith, f, r))
        (then_unsigned (store_finalization cfg env set resp) _ v
          (store_finalization-Unsigned set resp v) (λ u. advance_if-Unsigned u.rlc.s u))

  pub handle_finalization-Unsigned :
      (resp : FinalizeBlockResponse) (w : World P)
      → Holds (SameSigned w) (handle_finalization cfg env resp w)
  unfolding handle_finalization
  handle_finalization-Unsigned resp w = go resp.validators
    where
      go :
          (vals : List Validator)
          → Holds (SameSigned w) (elim vals [
            | [] ↦ panic
            | val ∷ vals ↦ elim (new_validator_set cfg.hash_scheme (val ∷ vals)) [
              | none ↦
                  stopped (with_rlc (record w.rlc { finalized_val_set = empty_validator_set }) w)
              | some set ↦
                  if not (resp.height == w.rlc.h && resp.round == w.rlc.r)
                  then panic
                  else (store_finalization cfg env set resp >> λ u.
                        advance_if_waiting cfg env u.rlc.s u)
                      (with_finalization cfg env set resp w)
            ]
          ])
      go [] = tt
      go (val ∷ vals) =
          elim_option-Holds (SameSigned w) (new_validator_set cfg.hash_scheme (val ∷ vals))
            (stopped (with_rlc (record w.rlc { finalized_val_set = empty_validator_set }) w)) _
            (ground arith)
            (λ set. ground (
              arith,
              finish-Unsigned set resp w (with_finalization cfg env set resp w) (ground arith),
            ))
