-- ===== src/StateMachine/ReadyUpdates.antt =====
-- `handleViewUpdate` (statemachine.go) as a whole: no panic on a view or a jump that the mirror may
-- send.
use gordian.Prelude.{◌<◌, ◌≡◌, ◌≢◌, refl, sym, subst, ◌⊎◌, inl, inr, Option, none, some, not, arith}
use gordian.Consensus.Math.{byzantine_majority, byzantine_minority, byzantine_defined}
use gordian.Consensus.Types.{Header}
use gordian.Consensus.RoundView.{VersionedRoundView}
use gordian.Consensus.Step.{
  Step, invalid, awaiting_proposal, awaiting_prevotes, prevote_delay, awaiting_precommits,
  precommit_delay, commit_wait, awaiting_finalization,
}
use gordian.Mirror.StateMachineView.{StateMachineRoundView}
use gordian.StateMachine.World.{
  Config, terminate, finalize_block, Env, World, ok, panic, ◌>>◌, called, send,
}
use gordian.StateMachine.Rounds.{request_finalization}
use gordian.StateMachine.Views.{
  handle_proposal_view_update, handle_prevote_view_update, handle_precommit_view_update,
  committing_header, finalize_late, handle_commit_wait_view_update, view_update_at, keep_view,
  handle_jump_ahead, jump_if_told, update_current, handle_view_update,
}
use gordian.StateMachine.Outcomes.{Fine, >>-Fine, Goes-Fine, ignore-Fine, if-Fine, elim_option-Fine}
use gordian.StateMachine.Ready.{IsReliable, Fits, Live, Ready, Loose-Ready, Live-Loose, Live-Ready}
use gordian.StateMachine.ReadyRounds.{send-Sent}
use gordian.StateMachine.ReadyViews.{ignored_round}
use gordian.StateMachine.ReadySteps.{
  proposal_view_at-Ready, prevote_view_at-Ready, precommit_view_at-Ready,
}

module _ {P : Type 0} (cfg : Config) (env : Env P) (rel : IsReliable env) where
  proposal_view-Ready :
      (v : VersionedRoundView P) (w : World P)
      → 0 < v.vote_summary.available_power
      → Live w
      → w.rlc.s ≡ awaiting_proposal
      → Fine Ready (handle_proposal_view_update cfg env v w)
  unfolding handle_proposal_view_update
  proposal_view-Ready v w pos l s =
      let d = byzantine_defined v.vote_summary.available_power in
      elim_option-Fine Ready (byzantine_minority v.vote_summary.available_power) panic _
        (λ q. ground (arith, pos, d.1, q))
        (λ min.
          elim_option-Fine Ready (byzantine_majority v.vote_summary.available_power) panic _
            (λ q. ground (arith, pos, d.0, q))
            (λ maj. proposal_view_at-Ready cfg env rel min maj v w l s))

  prevote_view-Ready :
      (v : VersionedRoundView P) (w : World P)
      → 0 < v.vote_summary.available_power
      → Live w
      → (w.rlc.s ≡ awaiting_prevotes) ⊎ (w.rlc.s ≡ prevote_delay)
      → Fine Ready (handle_prevote_view_update cfg env v w)
  unfolding handle_prevote_view_update
  prevote_view-Ready v w pos l s =
      elim_option-Fine Ready (byzantine_majority v.vote_summary.available_power) panic _
        (λ q. ground (arith, pos, byzantine_defined v.vote_summary.available_power, q))
        (λ maj. prevote_view_at-Ready cfg env rel maj v w l s)

  precommit_view-Ready :
      (v : VersionedRoundView P) (w : World P)
      → 0 < v.vote_summary.available_power
      → Live w
      → (w.rlc.s ≡ awaiting_precommits) ⊎ (w.rlc.s ≡ precommit_delay)
      → Fine Ready (handle_precommit_view_update cfg env v w)
  unfolding handle_precommit_view_update
  precommit_view-Ready v w pos l s =
      elim_option-Fine Ready (byzantine_majority v.vote_summary.available_power) panic _
        (λ q. ground (arith, pos, byzantine_defined v.vote_summary.available_power, q))
        (λ maj. precommit_view_at-Ready cfg env rel maj v w l s)

  finalize_late-Ready :
      (v : VersionedRoundView P) (w : World P) → Live w → Fine Ready (finalize_late cfg env v w)
  unfolding finalize_late request_finalization
  finalize_late-Ready v w l =
      elim_option-Fine Ready (committing_header cfg env v) (ok w) _ (λ q. Live-Ready w l)
        (λ header.
          let c = finalize_block header v.round w.rlc.finalize_resp_ch in
          ignore-Fine Ready (send env c w) (
            Goes-Fine Ready Ready (send env c w) (λ u q. q)
              (send-Sent env rel Ready c w
                (Loose-Ready w.answers (called c w) (ground (arith, l)) l.fits))))

  commit_wait-Ready :
      (v : VersionedRoundView P) (w : World P)
      → Live w
      → Fine Ready (handle_commit_wait_view_update cfg env v w)
  unfolding handle_commit_wait_view_update
  commit_wait-Ready v w l =
      if-Fine Ready (not w.rlc.finalize_resp_ch) (ok w) _ (λ q. Live-Ready w l)
        (λ q.
          elim_option-Fine Ready w.rlc.vrv panic _ (λ n. ground (arith, n, l.viewed))
            (λ have. go (committing_header cfg env have)))
    where
      go :
          (o : Option Header)
          → Fine Ready (elim o [ none ↦ finalize_late cfg env v w | some header ↦ ok w ])
      go none = finalize_late-Ready v w l
      go (some header) = Live-Ready w l

  view_update_at-Ready :
      (s : Step) (v : VersionedRoundView P) (w : World P)
      → 0 < v.vote_summary.available_power
      → Live w
      → w.rlc.s ≡ s
      → Fine Ready (view_update_at cfg env s v w)
  unfolding view_update_at
  view_update_at-Ready awaiting_proposal v w pos l s = proposal_view-Ready v w pos l s
  view_update_at-Ready awaiting_prevotes v w pos l s = prevote_view-Ready v w pos l (inl s)
  view_update_at-Ready prevote_delay v w pos l s = prevote_view-Ready v w pos l (inr s)
  view_update_at-Ready awaiting_precommits v w pos l s = precommit_view-Ready v w pos l (inl s)
  view_update_at-Ready precommit_delay v w pos l s = precommit_view-Ready v w pos l (inr s)
  view_update_at-Ready commit_wait v w pos l s = commit_wait-Ready v w l
  view_update_at-Ready awaiting_finalization v w pos l s = commit_wait-Ready v w l
  view_update_at-Ready invalid v w pos l s = subst (λ s. Fits s w.rlc.step_timer) s l.fits

  keep_view-Ready :
      (v : VersionedRoundView P) (w : World P) → Ready w → Fine Ready (keep_view cfg env v w)
  unfolding keep_view
  keep_view-Ready v w r =
      elim_option-Fine Ready w.rlc.vrv panic _ (λ q. ground (arith, q, r.viewed))
        (λ have. ground (arith, r))

  jump-Ready :
      (j : VersionedRoundView P) (w : World P)
      → Live w
      → j.height ≡ w.rlc.h
      → w.rlc.r < j.round
      → Fine Ready (handle_jump_ahead cfg env j w)
  unfolding handle_jump_ahead
  jump-Ready j w l same later =
      ground (arith, same, later, ignored_round cfg env rel w.answers w (Live-Loose w l))

  -- A view with votes and no jump, or a jump to a later round of the height.
  abbrev pub Sendable : StateMachineRoundView P → World P → Type 0
  Sendable u w =
      ((0 < u.vrv.vote_summary.available_power)
        × (u.vrv.height ≢ 0)
        × (u.jump_ahead_round_view ≡ none))
      ⊎ ((u.vrv.height ≡ 0)
          × ((j : VersionedRoundView P) × (u.jump_ahead_round_view ≡ some j)
              × (j.height ≡ w.rlc.h)
              × (w.rlc.r < j.round)))

  update_current-Ready :
      (u : StateMachineRoundView P) (w : World P)
      → 0 < u.vrv.vote_summary.available_power
      → u.jump_ahead_round_view ≡ none
      → Live w
      → Fine Ready (update_current cfg env u w)
  unfolding update_current jump_if_told
  update_current-Ready u w pos no_jump l =
      elim_option-Fine Ready w.rlc.vrv panic _ (λ q. ground (arith, q, l.viewed))
        (λ have. ground (
          arith,
          Loose-Ready w.answers (called terminate w) (ground (arith, l)) l.fits,
          subst
              (λ j. Fine Ready (
                (view_update_at cfg env w.rlc.s u.vrv
                    >> keep_view cfg env u.vrv
                    >> jump_if_told cfg env j)
                  w))
              (sym no_jump) kept,
        ))
    where
      kept : Fine Ready (
          (view_update_at cfg env w.rlc.s u.vrv
              >> keep_view cfg env u.vrv
              >> jump_if_told cfg env none)
            w)
      kept =
          >>-Fine Ready Ready (view_update_at cfg env w.rlc.s u.vrv >> keep_view cfg env u.vrv)
            (jump_if_told cfg env none) w
            (>>-Fine Ready Ready (view_update_at cfg env w.rlc.s u.vrv) (keep_view cfg env u.vrv) w
              (view_update_at-Ready w.rlc.s u.vrv w pos l refl) (λ v r. r) (keep_view-Ready u.vrv))
            (λ v r. r) (λ v r. r)

  pub handle_view_update-Ready :
      (u : StateMachineRoundView P) (w : World P)
      → Sendable u w
      → Live w
      → Fine Ready (handle_view_update cfg env u w)
  unfolding handle_view_update
  handle_view_update-Ready u w (inl (pos, ne, no_jump)) l =
      ground (arith, ne, update_current-Ready u w pos no_jump l, Live-Ready w l)
  handle_view_update-Ready u w (inr (z, (j, q, same, later))) l =
      ground (arith, z, q, jump-Ready j w l same later)
