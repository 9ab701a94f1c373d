-- ===== src/StateMachine/StopViews.antt =====
-- The updates of a view (statemachine.go) never make the kernel of the state machine quit.
use gordian.Prelude.{true, List, [], ◌∷◌, Option, none, some, not, ◌==◌, ◌&&◌, ℕ}
use gordian.Consensus.Types.{ProposedHeader, Header}
use gordian.Consensus.RoundView.{VersionedRoundView}
use gordian.Consensus.Math.{byzantine_majority, byzantine_minority}
use gordian.Consensus.Step.{
  Step, invalid, awaiting_proposal, awaiting_prevotes, prevote_delay, awaiting_precommits,
  precommit_delay, commit_wait, awaiting_finalization,
}
use gordian.Mirror.StateMachineView.{StateMachineRoundView}
use gordian.StateMachine.World.{
  Config, Env, World, ok, panic, timed_send, with_rlc, consider_proposed_blocks,
}
use gordian.StateMachine.Lifecycle.{mark_reason_new_hashes}
use gordian.StateMachine.Rounds.{reject_mismatched_proposed_headers}
use gordian.StateMachine.Views.{
  settle, majority_precommits, consider_after_prevotes, majority_prevotes, consider_incoming,
  new_proposals, proposal_view_at, handle_proposal_view_update, prevote_view_at,
  handle_prevote_view_update, settle_precommits, precommit_view_at, handle_precommit_view_update,
  committing_header, finalize_late, handle_commit_wait_view_update, view_update_at, keep_view,
  handle_jump_ahead, jump_if_told, update_current, handle_view_update,
}
use gordian.StateMachine.Stops.{
  Stops, ok-Stops, panic-Stops, >>-Stops, ignore-Stops, if-Stops, elim_option-Stops,
  cancel_timer-Stops, cancel_timer_at-Stops, timed_send-Stops,
}

module _ {P : Type 0} (cfg : Config) (env : Env P) (C : Type 0) where
  keep_view-Stops : (v : VersionedRoundView P) (w : World P) → Stops C (keep_view cfg env v w)
  unfolding keep_view
  keep_view-Stops v w =
      elim_option-Stops C w.rlc.vrv panic _ (λ q. panic-Stops C) (λ t q. ok-Stops C _)

  settle-Stops : (v : VersionedRoundView P) (w : World P) → Stops C (settle cfg env v w)
  unfolding settle
  settle-Stops v w = search (if-Stops, ignore-Stops)

  majority_precommits-Stops :
      (maj : ℕ) (v : VersionedRoundView P) (w : World P)
      → Stops C (majority_precommits cfg env maj v w)
  unfolding majority_precommits
  majority_precommits-Stops maj v w = search (if-Stops, ignore-Stops, settle-Stops)

  consider_after_prevotes-Stops :
      (v : VersionedRoundView P) (w : World P) → Stops C (consider_after_prevotes cfg env v w)
  unfolding consider_after_prevotes
  consider_after_prevotes-Stops v w =
      go (reject_mismatched_proposed_headers w.rlc v.proposed_headers)
    where
      go :
          (phs : List ProposedHeader)
          → Stops C (elim phs [
            | [] ↦ ok w
            | ph ∷ phs ↦
                let (req, rlc) = mark_reason_new_hashes (ph ∷ phs) true w.rlc in
                timed_send env (consider_proposed_blocks req) (with_rlc rlc w)
          ])
      go [] = ok-Stops C w
      go (ph ∷ phs) = timed_send-Stops C env _ _

  majority_prevotes-Stops :
      (maj : ℕ) (v : VersionedRoundView P) (w : World P)
      → Stops C (majority_prevotes cfg env maj v w)
  unfolding majority_prevotes
  majority_prevotes-Stops maj v w =
      search (if-Stops, >>-Stops, ok-Stops, timed_send-Stops, consider_after_prevotes-Stops)

  new_proposals-Stops :
      (v : VersionedRoundView P) (w : World P) → Stops C (new_proposals cfg env v w)
  unfolding new_proposals consider_incoming
  new_proposals-Stops v w =
      elim_option-Stops C w.rlc.vrv panic _ (λ q. panic-Stops C)
        (λ have q. search (if-Stops, ok-Stops, timed_send-Stops))

  proposal_view-Stops :
      (v : VersionedRoundView P) (w : World P) → Stops C (handle_proposal_view_update cfg env v w)
  unfolding handle_proposal_view_update proposal_view_at
  proposal_view-Stops v w =
      elim_option-Stops C (byzantine_minority v.vote_summary.available_power) panic _
        (λ q. panic-Stops C)
        (λ min q.
          elim_option-Stops C (byzantine_majority v.vote_summary.available_power) panic _
            (λ q. panic-Stops C)
            (λ maj q.
              search
                (
                  if-Stops, >>-Stops, ignore-Stops, cancel_timer-Stops, majority_precommits-Stops,
                  majority_prevotes-Stops, new_proposals-Stops,
                )
                depth 9))

  prevote_view-Stops :
      (v : VersionedRoundView P) (w : World P) → Stops C (handle_prevote_view_update cfg env v w)
  unfolding handle_prevote_view_update prevote_view_at
  prevote_view-Stops v w =
      elim_option-Stops C (byzantine_majority v.vote_summary.available_power) panic _
        (λ q. panic-Stops C)
        (λ maj q.
          search
            (
              if-Stops, >>-Stops, ignore-Stops, ok-Stops, cancel_timer_at-Stops,
              majority_precommits-Stops,
            )
            depth 9)

  precommit_view-Stops :
      (v : VersionedRoundView P) (w : World P) → Stops C (handle_precommit_view_update cfg env v w)
  unfolding handle_precommit_view_update precommit_view_at settle_precommits
  precommit_view-Stops v w =
      elim_option-Stops C (byzantine_majority v.vote_summary.available_power) panic _
        (λ q. panic-Stops C)
        (λ maj q.
          search (if-Stops, >>-Stops, ignore-Stops, ok-Stops, cancel_timer_at-Stops) depth 9)

  commit_wait_view-Stops :
      (v : VersionedRoundView P) (w : World P)
      → Stops C (handle_commit_wait_view_update cfg env v w)
  unfolding handle_commit_wait_view_update
  commit_wait_view-Stops v w =
      if-Stops C (not w.rlc.finalize_resp_ch) (ok w) _ (λ q. ok-Stops C w)
        (λ q.
          elim_option-Stops C w.rlc.vrv panic _ (λ q. panic-Stops C)
            (λ have q. late (committing_header cfg env have)))
    where
      late :
          (o : Option Header)
          → Stops C (elim o [ some header ↦ ok w | none ↦ finalize_late cfg env v w ])
      late (some header) = ok-Stops C w
      late none =
          unfold finalize_late in
          elim_option-Stops C (committing_header cfg env v) (ok w) _ (λ q. ok-Stops C w)
            (λ header q. ignore-Stops C _)

  view_at-Stops :
      (s : Step) (v : VersionedRoundView P) (w : World P) → Stops C (view_update_at cfg env s v w)
  unfolding view_update_at
  view_at-Stops awaiting_proposal v w = proposal_view-Stops v w
  view_at-Stops awaiting_prevotes v w = prevote_view-Stops v w
  view_at-Stops prevote_delay v w = prevote_view-Stops v w
  view_at-Stops awaiting_precommits v w = precommit_view-Stops v w
  view_at-Stops precommit_delay v w = precommit_view-Stops v w
  view_at-Stops commit_wait v w = commit_wait_view-Stops v w
  view_at-Stops awaiting_finalization v w = commit_wait_view-Stops v w
  view_at-Stops invalid v w = panic-Stops C

  jump-Stops : (v : VersionedRoundView P) (w : World P) → Stops C (handle_jump_ahead cfg env v w)
  unfolding handle_jump_ahead
  jump-Stops v w = search (if-Stops, ignore-Stops, panic-Stops)

  told-Stops :
      (j : Option (VersionedRoundView P)) (w : World P) → Stops C (jump_if_told cfg env j w)
  unfolding jump_if_told
  told-Stops none w = ok-Stops C w
  told-Stops (some j) w = jump-Stops j w

  current-Stops : (u : StateMachineRoundView P) (w : World P) → Stops C (update_current cfg env u w)
  unfolding update_current
  current-Stops u w =
      elim_option-Stops C w.rlc.vrv panic _ (λ q. panic-Stops C)
        (λ have q.
          search (if-Stops, >>-Stops, ok-Stops, view_at-Stops, keep_view-Stops, told-Stops))

  -- A view update never reports false, whatever fails.
  pub handle_view_update-Stops :
      (u : StateMachineRoundView P) (w : World P) → Stops C (handle_view_update cfg env u w)
  unfolding handle_view_update
  handle_view_update-Stops u w =
      if-Stops C (u.vrv.height == 0) _ _
        (λ q.
          elim_option-Stops C u.jump_ahead_round_view panic _ (λ q. panic-Stops C)
            (λ j q. jump-Stops j w))
        (λ q.
          if-Stops C (u.vrv.height == w.rlc.h && u.vrv.round == w.rlc.r) _ (ok w)
            (λ q. current-Stops u w) (λ q. ok-Stops C w))
