-- ===== src/StateMachine/ViewFrame.antt =====
-- What a view from the mirror (statemachine.go) leaves alone.
use gordian.Prelude.{Option, none, some, ◌==◌, ◌&&◌, arith, if◌then◌else◌}
use gordian.Consensus.Step.{
  Step, invalid, awaiting_proposal, awaiting_prevotes, prevote_delay, awaiting_precommits,
  precommit_delay, commit_wait, awaiting_finalization,
}
use gordian.Consensus.RoundView.{VersionedRoundView}
use gordian.Mirror.StateMachineView.{StateMachineRoundView}
use gordian.StateMachine.World.{Config, Env, World, ok, panic, ◌>>◌}
use gordian.StateMachine.Views.{
  view_update_at, keep_view, handle_jump_ahead, jump_if_told, update_current, handle_view_update,
}
use gordian.StateMachine.Frame.{Frame, Frame-refl, >>-Frame}
use gordian.StateMachine.Outcomes.{Holds}
use gordian.StateMachine.StepFrame.{
  keep_view-Frame, ignored_round, commit_wait-Frame, proposal_view-Frame, prevote_view-Frame,
  precommit_view-Frame,
}

module _ {P : Type 0} (cfg : Config) (env : Env P) where
  view_update_at-Frame :
      (s : Step) (v : VersionedRoundView P) (w : World P)
      → Holds (Frame w) (view_update_at cfg env s v w)
  unfolding view_update_at
  view_update_at-Frame awaiting_proposal v w = proposal_view-Frame cfg env v w
  view_update_at-Frame awaiting_prevotes v w = prevote_view-Frame cfg env v w
  view_update_at-Frame prevote_delay v w = prevote_view-Frame cfg env v w
  view_update_at-Frame awaiting_precommits v w = precommit_view-Frame cfg env v w
  view_update_at-Frame precommit_delay v w = precommit_view-Frame cfg env v w
  view_update_at-Frame commit_wait v w = commit_wait-Frame cfg env v w
  view_update_at-Frame awaiting_finalization v w = commit_wait-Frame cfg env v w
  view_update_at-Frame invalid v w = tt

  handle_jump_ahead-Frame :
      (v : VersionedRoundView P) (w : World P) → Holds (Frame w) (handle_jump_ahead cfg env v w)
  unfolding handle_jump_ahead
  handle_jump_ahead-Frame v w = ground (arith, ignored_round cfg env w)

  jump_if_told-Frame :
      (j : Option (VersionedRoundView P)) (w : World P) → Holds (Frame w) (jump_if_told cfg env j w)
  unfolding jump_if_told
  jump_if_told-Frame none w = Frame-refl w
  jump_if_told-Frame (some j) w = handle_jump_ahead-Frame j w

  update_current-Frame :
      (u : StateMachineRoundView P) (w : World P) → Holds (Frame w) (update_current cfg env u w)
  unfolding update_current
  update_current-Frame u w = ground (
    arith,
    >>-Frame (view_update_at cfg env w.rlc.s u.vrv >> keep_view cfg env u.vrv)
        (jump_if_told cfg env u.jump_ahead_round_view) w
        (>>-Frame (view_update_at cfg env w.rlc.s u.vrv) (keep_view cfg env u.vrv) w
          (view_update_at-Frame w.rlc.s u.vrv w) (keep_view-Frame cfg env u.vrv))
        (jump_if_told-Frame u.jump_ahead_round_view),
  )

  -- A view keeps the height, its finalization, the stores of both and what was signed.
  pub handle_view_update-Frame :
      (u : StateMachineRoundView P) (w : World P) → Holds (Frame w) (handle_view_update cfg env u w)
  unfolding handle_view_update
  handle_view_update-Frame u w = go u.jump_ahead_round_view
    where
      go :
          (o : Option (VersionedRoundView P))
          → Holds (Frame w) (
              if u.vrv.height == 0
              then elim o [ none ↦ panic | some j ↦ handle_jump_ahead cfg env j w ]
              else if u.vrv.height == w.rlc.h && u.vrv.round == w.rlc.r
              then update_current cfg env u w
              else ok w)
      go none = ground (arith, update_current-Frame u w)
      go (some j) = ground (arith, update_current-Frame u w, handle_jump_ahead-Frame j w)
