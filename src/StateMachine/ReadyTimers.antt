-- ===== src/StateMachine/ReadyTimers.antt =====
-- Elapsed timers and committed heights (statemachine.go), handled without a panic.
use gordian.Prelude.{◌≡◌, refl, sym, subst, ◌⊎◌, true, false, List, [], ◌∷◌, arith}
use gordian.Consensus.Types.{Validator}
use gordian.Consensus.Step.{
  Step, invalid, awaiting_proposal, awaiting_prevotes, prevote_delay, awaiting_precommits,
  precommit_delay, commit_wait, awaiting_finalization,
}
use gordian.StateMachine.World.{Config, Call, Env, World, ok, panic, ◌>>◌, send}
use gordian.StateMachine.Rounds.{
  with_step, cancel_timer, request_decision, advance_round, advance_height,
}
use gordian.StateMachine.Events.{
  timer_elapsed_at, proposal_elapsed, prevote_delay_elapsed, end_commit_wait, mark_elapsed,
  height_committed_at,
}
use gordian.StateMachine.Outcomes.{Fine, Goes-then, elim_option-Fine}
use gordian.StateMachine.Ready.{
  IsReliable, is_set, Fits, Live, Ready, Idle, Loose, Loose-Ready, Idle-Loose,
}
use gordian.StateMachine.ReadyRounds.{send-Sent, advance_round-Ready, advance_height-Ready}
use gordian.StateMachine.ReadyViews.{cancel_timer-Idle}

module _ {P : Type 0} (cfg : Config) (env : Env P) (rel : IsReliable env) where
  pub end_commit_wait-Ready :
      (rest : _) (w : World P)
      → Loose rest w
      → is_set w.rlc.step_timer ≡ false
      → Fine Ready (end_commit_wait cfg env w)
  unfolding end_commit_wait
  end_commit_wait-Ready rest w l t = go w.rlc.finalized_val_set.validators
    where
      go :
          (vals : List Validator)
          → Fine Ready (elim vals [
            | [] ↦ ok (with_step awaiting_finalization w)
            | val ∷ vals ↦ advance_height cfg env w
          ])
      go [] = Loose-Ready rest (with_step awaiting_finalization w) (ground (arith, l)) t
      go (val ∷ vals) = advance_height-Ready cfg env rel rest w l

  pub height_committed_at-Ready :
      (s : Step) (w : World P)
      → Loose w.answers w
      → is_set w.rlc.step_timer ≡ false
      → w.rlc.s ≡ s
      → (s ≡ commit_wait) ⊎ (s ≡ awaiting_finalization)
      → Fine Ready (height_committed_at cfg env s w)
  unfolding height_committed_at
  height_committed_at-Ready awaiting_finalization w l t e q =
      Loose-Ready w.answers w l (subst (λ s. Fits s w.rlc.step_timer) (sym e) t)
  height_committed_at-Ready commit_wait w l t e q = end_commit_wait-Ready w.answers w l t
  height_committed_at-Ready invalid w l t e q = ground (arith, q)
  height_committed_at-Ready awaiting_proposal w l t e q = ground (arith, q)
  height_committed_at-Ready awaiting_prevotes w l t e q = ground (arith, q)
  height_committed_at-Ready prevote_delay w l t e q = ground (arith, q)
  height_committed_at-Ready awaiting_precommits w l t e q = ground (arith, q)
  height_committed_at-Ready precommit_delay w l t e q = ground (arith, q)

  -- A call, and then the end of the timer under a step that needs none.
  pub send_then_cancel :
      (c : Call P) (f : World P → World P) (s : Step) (w : World P)
      → Live w
      → is_set w.rlc.step_timer ≡ true
      → ((u : World P) → Loose w.answers u → u.rlc ≡ w.rlc → Fine Ready (cancel_timer (f u)))
      → Fine Ready ((send env c >> λ u. cancel_timer (f u)) w)
  send_then_cancel c f s w l t k =
      Goes-then (λ u. Loose w.answers u × (u.rlc ≡ w.rlc)) Ready (send env c)
        (λ u. cancel_timer (f u)) w
        (send-Sent env rel (λ u. Loose w.answers u × (u.rlc ≡ w.rlc)) c w (ground (arith, l), refl))
        (λ u q. k u q.0 q.1)

  pub timer_elapsed_at-Ready :
      (s : Step) (w : World P)
      → Live w
      → w.rlc.s ≡ s
      → is_set w.rlc.step_timer ≡ true
      → Fine Ready (timer_elapsed_at cfg env s w)
  unfolding timer_elapsed_at proposal_elapsed prevote_delay_elapsed request_decision
  timer_elapsed_at-Ready awaiting_proposal w l e t =
      elim_option-Fine Ready w.rlc.vrv panic _ (λ q. ground (arith, q, l.viewed))
        (λ v.
          send_then_cancel _ _ awaiting_prevotes w l t
            (λ u k same. unfold cancel_timer in ground (arith, k, same, t)))
  timer_elapsed_at-Ready prevote_delay w l e t =
      elim_option-Fine Ready w.rlc.vrv panic _ (λ q. ground (arith, q, l.viewed))
        (λ v.
          send_then_cancel _ _ awaiting_precommits w l t
            (λ u k same. unfold cancel_timer in ground (arith, k, same, t)))
  timer_elapsed_at-Ready precommit_delay w l e t =
      Goes-then (Idle w.answers) Ready cancel_timer (advance_round cfg env) w
        (cancel_timer-Idle w l t)
        (λ u i. advance_round-Ready cfg env rel w.answers u (Idle-Loose w.answers u i))
  timer_elapsed_at-Ready commit_wait w l e t =
      Goes-then (Idle w.answers) Ready cancel_timer (end_commit_wait cfg env)
        (mark_elapsed cfg env w) (cancel_timer-Idle (mark_elapsed cfg env w) (ground (arith, l)) t)
        (λ u i. end_commit_wait-Ready w.answers u (Idle-Loose w.answers u i) i.stopped_timer)
  timer_elapsed_at-Ready invalid w l e t = subst (λ s. Fits s w.rlc.step_timer) e l.fits
  timer_elapsed_at-Ready awaiting_prevotes w l e t =
      ground (arith, t, subst (λ s. Fits s w.rlc.step_timer) e l.fits)
  timer_elapsed_at-Ready awaiting_precommits w l e t =
      ground (arith, t, subst (λ s. Fits s w.rlc.step_timer) e l.fits)
  timer_elapsed_at-Ready awaiting_finalization w l e t =
      ground (arith, t, subst (λ s. Fits s w.rlc.step_timer) e l.fits)
