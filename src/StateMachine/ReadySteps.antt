-- ===== src/StateMachine/ReadySteps.antt =====
-- A view in each step of a round (statemachine.go), handled without a panic.
use gordian.Prelude.{
  ℕ, ◌≡◌, refl, subst, ◌⊎◌, inl, inr, true, false, List, leb, length, arith, if◌then◌else◌,
}
use gordian.Consensus.Types.{ProposedHeader}
use gordian.Consensus.RoundView.{VersionedRoundView}
use gordian.Consensus.Step.{
  awaiting_proposal, awaiting_prevotes, prevote_delay, awaiting_precommits, precommit_delay,
}
use gordian.StateMachine.Lifecycle.{mark_reason_new_hashes}
use gordian.StateMachine.World.{
  Config, consider_proposed_blocks, with_rlc, Env, World, ok, panic, ignore, timed_send,
}
use gordian.StateMachine.Rounds.{
  reject_mismatched_proposed_headers, with_step, cancel_timer, request_decision, begin_commit,
}
use gordian.StateMachine.Views.{
  cancel_timer_at, start_prevote_delay, start_precommit_delay, majority_precommits,
  majority_prevotes, consider_incoming, new_proposals, proposal_view_at, prevote_view_at,
  settle_precommits, precommit_view_at,
}
use gordian.StateMachine.Outcomes.{Fine, Goes, Goes-then, elim_option-Fine}
use gordian.StateMachine.Ready.{
  IsReliable, Fits, Live, Ready, Idle, Loose-Ready, Idle-Loose, Live-Loose, Live-Ready,
}
use gordian.StateMachine.ReadyViews.{
  cancel_timer-Idle, cancel_timer_at-Idle, ignored_round, ignored_commit, decide-Ready,
  majority_precommits-Ready, timed-Ready, majority_prevotes-Ready,
}

module _ {P : Type 0} (cfg : Config) (env : Env P) (rel : IsReliable env) where
  consider_incoming-Ready :
      (v : VersionedRoundView P) (have : List ProposedHeader) (w : World P)
      → Live w
      → Fine Ready (consider_incoming cfg env v have w)
  unfolding consider_incoming mark_reason_new_hashes
  consider_incoming-Ready v have w l =
      elim (leb (length (reject_mismatched_proposed_headers w.rlc v.proposed_headers))
          (length (reject_mismatched_proposed_headers w.rlc have)))
        as (λ b. Fine Ready (
          if b
          then ok w
          else let (req, rlc) =
              mark_reason_new_hashes (reject_mismatched_proposed_headers w.rlc v.proposed_headers)
                false w.rlc in
            timed_send env (consider_proposed_blocks req) (with_rlc rlc w))) [
              | true ↦ Live-Ready w l
              | false ↦ timed-Ready cfg env rel w.answers _ _ (ground (arith, l)) l.fits
            ]

  new_proposals-Ready :
      (v : VersionedRoundView P) (w : World P) → Live w → Fine Ready (new_proposals cfg env v w)
  unfolding new_proposals
  new_proposals-Ready v w l =
      elim_option-Fine Ready w.rlc.vrv panic _ (λ q. ground (arith, q, l.viewed))
        (λ have.
          ground (arith, consider_incoming-Ready v have.proposed_headers w l, Live-Ready w l))

  pub proposal_view_at-Ready :
      (min maj : ℕ) (v : VersionedRoundView P) (w : World P)
      → Live w
      → w.rlc.s ≡ awaiting_proposal
      → Fine Ready (proposal_view_at cfg env min maj v w)
  unfolding proposal_view_at
  proposal_view_at-Ready min maj v w l s =
      let c = cancel_timer-Idle w l (subst (λ s. Fits s w.rlc.step_timer) s l.fits) in
      ground (
        arith,
        Goes-then (Idle w.answers) Ready cancel_timer (majority_precommits cfg env maj v) w c
            (λ u i.
              majority_precommits-Ready cfg env rel w.answers maj v u (Idle-Loose w.answers u i)),
        Goes-then (Idle w.answers) Ready cancel_timer
            (λ u. ignore (request_decision env v.vote_summary (with_step awaiting_precommits u))) w
            c
            (λ u i.
              decide-Ready cfg env rel w.answers v.vote_summary (with_step awaiting_precommits u)
                (ground (arith, i)) i.stopped_timer),
        Goes-then (Idle w.answers) Ready cancel_timer (majority_prevotes cfg env maj v) w c
            (majority_prevotes-Ready cfg env rel w.answers maj v),
        new_proposals-Ready v w l,
      )

  -- The prevote steps: the timer runs exactly in the delay.
  in_prevotes :
      (w : World P)
      → Live w
      → (w.rlc.s ≡ awaiting_prevotes) ⊎ (w.rlc.s ≡ prevote_delay)
      → Goes (Idle w.answers) (cancel_timer_at prevote_delay w)
  in_prevotes w l (inl s) =
      cancel_timer_at-Idle prevote_delay w l
        (inr (rw s refl, subst (λ s. Fits s w.rlc.step_timer) s l.fits))
  in_prevotes w l (inr s) =
      cancel_timer_at-Idle prevote_delay w l
        (inl (rw s refl, subst (λ s. Fits s w.rlc.step_timer) s l.fits))

  pub prevote_view_at-Ready :
      (maj : ℕ) (v : VersionedRoundView P) (w : World P)
      → Live w
      → (w.rlc.s ≡ awaiting_prevotes) ⊎ (w.rlc.s ≡ prevote_delay)
      → Fine Ready (prevote_view_at cfg env maj v w)
  unfolding prevote_view_at
  prevote_view_at-Ready maj v w l s = ground (
    arith,
    Goes-then (Idle w.answers) Ready (cancel_timer_at prevote_delay)
        (majority_precommits cfg env maj v) w (in_prevotes w l s)
        (λ u i. majority_precommits-Ready cfg env rel w.answers maj v u (Idle-Loose w.answers u i)),
    Goes-then (Idle w.answers) Ready (cancel_timer_at prevote_delay)
        (λ u. ignore (request_decision env v.vote_summary (with_step awaiting_precommits u))) w
        (in_prevotes w l s)
        (λ u i.
          decide-Ready cfg env rel w.answers v.vote_summary (with_step awaiting_precommits u)
            (ground (arith, i)) i.stopped_timer),
    Live-Ready w l,
    Loose-Ready w.answers (start_prevote_delay w) (ground (arith, l)) refl,
  )

  in_precommits :
      (w : World P)
      → Live w
      → (w.rlc.s ≡ awaiting_precommits) ⊎ (w.rlc.s ≡ precommit_delay)
      → Goes (Idle w.answers) (cancel_timer_at precommit_delay w)
  in_precommits w l (inl s) =
      cancel_timer_at-Idle precommit_delay w l
        (inr (rw s refl, subst (λ s. Fits s w.rlc.step_timer) s l.fits))
  in_precommits w l (inr s) =
      cancel_timer_at-Idle precommit_delay w l
        (inl (rw s refl, subst (λ s. Fits s w.rlc.step_timer) s l.fits))

  pub precommit_view_at-Ready :
      (maj : ℕ) (v : VersionedRoundView P) (w : World P)
      → Live w
      → (w.rlc.s ≡ awaiting_precommits) ⊎ (w.rlc.s ≡ precommit_delay)
      → Fine Ready (precommit_view_at cfg env maj v w)
  unfolding precommit_view_at settle_precommits
  precommit_view_at-Ready maj v w l s = ground (
    arith,
    ignored_round cfg env rel w.answers w (Live-Loose w l),
    Goes-then (Idle w.answers) Ready (cancel_timer_at precommit_delay)
        (λ u. ignore (begin_commit env v u)) w (in_precommits w l s)
        (λ u i. ignored_commit cfg env rel w.answers v u (Idle-Loose w.answers u i)),
    Live-Ready w l,
    Loose-Ready w.answers (start_precommit_delay w) (ground (arith, l)) refl,
  )
