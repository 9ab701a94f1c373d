-- ===== src/StateMachine/StepFrame.antt =====
-- What a view in each step of a round (statemachine.go) leaves alone.
use gordian.Prelude.{ℕ, Option, none, some, arith}
use gordian.Consensus.Math.{byzantine_majority, byzantine_minority}
use gordian.Consensus.Step.{Step, prevote_delay, awaiting_precommits, precommit_delay}
use gordian.Consensus.RoundView.{VersionedRoundView}
use gordian.StateMachine.Lifecycle.{mark_reason_new_hashes}
use gordian.StateMachine.World.{
  Config, Call, choose_proposed_block, Env, World, Outcome, ok, panic, ignore, send, timed_send,
}
use gordian.StateMachine.Rounds.{
  reject_mismatched_proposed_headers, with_step, cancel_timer, request_decision,
  request_finalization, begin_commit, advance_round,
}
use gordian.StateMachine.Views.{
  cancel_timer_at, clear_considered, start_prevote_delay, start_precommit_delay, settle,
  majority_precommits, consider_after_prevotes, majority_prevotes, consider_incoming, new_proposals,
  proposal_view_at, handle_proposal_view_update, prevote_view_at, handle_prevote_view_update,
  settle_precommits, precommit_view_at, handle_precommit_view_update, finalize_late,
  handle_commit_wait_view_update, keep_view,
}
use gordian.StateMachine.Frame.{
  Frame, Holds-Frame, ignore-Frame, >>-Frame, timed_send-Frame, begin_commit-Frame,
  request_decision-Frame, advance_round-Frame,
}
use gordian.StateMachine.Outcomes.{Holds}

pub cancel_timer-Frame : {P : Type 0} (w : World P) → Holds (Frame w) (cancel_timer w)
unfolding cancel_timer
cancel_timer-Frame w = ground arith

cancel_timer_at-Frame :
    {P : Type 0} (s : Step) (w : World P) → Holds (Frame w) (cancel_timer_at s w)
unfolding cancel_timer_at
cancel_timer_at-Frame s w = ground (arith, cancel_timer-Frame w)

module _ {P : Type 0} (cfg : Config) (env : Env P) where
  pub keep_view-Frame :
      (v : VersionedRoundView P) (w : World P) → Holds (Frame w) (keep_view cfg env v w)
  unfolding keep_view
  keep_view-Frame v w = ground arith

  pub ignored_round : (w : World P) → Holds (Frame w) (ignore (advance_round cfg env w))
  ignored_round w = ignore-Frame w (advance_round cfg env w) (advance_round-Frame cfg env w)

  settle-Frame : (v : VersionedRoundView P) (w : World P) → Holds (Frame w) (settle cfg env v w)
  unfolding settle
  settle-Frame v w =
      ground
        (arith, ignored_round w, ignore-Frame w (begin_commit env v w) (begin_commit-Frame env v w))

  decide-Frame :
      (vs : _) (w u : World P) → Frame w u → Holds (Frame w) (ignore (request_decision env vs u))
  decide-Frame vs w u f =
      Holds-Frame w u (ignore (request_decision env vs u)) f
        (ignore-Frame u (request_decision env vs u) (request_decision-Frame env vs u))

  majority_precommits-Frame :
      (maj : ℕ) (v : VersionedRoundView P) (w : World P)
      → Holds (Frame w) (majority_precommits cfg env maj v w)
  unfolding majority_precommits
  majority_precommits-Frame maj v w = ground (
    arith,
    settle-Frame v w,
    decide-Frame v.vote_summary w (start_precommit_delay w) (ground arith),
  )

  consider_after-Frame :
      (v : VersionedRoundView P) (w : World P)
      → Holds (Frame w) (consider_after_prevotes cfg env v w)
  unfolding consider_after_prevotes mark_reason_new_hashes timed_send
  consider_after-Frame v w = ground arith

  majority_prevotes-Frame :
      (maj : ℕ) (v : VersionedRoundView P) (w : World P)
      → Holds (Frame w) (majority_prevotes cfg env maj v w)
  unfolding majority_prevotes
  majority_prevotes-Frame maj v w =
      let t = with_step awaiting_precommits w in
      let c : Call P =
        choose_proposed_block (reject_mismatched_proposed_headers w.rlc v.proposed_headers)
          w.rlc.prevote_hash_ch in
      ground (
        arith,
        >>-Frame (timed_send env c) (λ u. ok (clear_considered u)) t (timed_send-Frame env c t)
            (λ u. ground arith),
        Holds-Frame w (start_prevote_delay w)
            (consider_after_prevotes cfg env v (start_prevote_delay w)) (ground arith)
            (consider_after-Frame v (start_prevote_delay w)),
      )

  new_proposals-Frame :
      (v : VersionedRoundView P) (w : World P) → Holds (Frame w) (new_proposals cfg env v w)
  unfolding new_proposals consider_incoming mark_reason_new_hashes timed_send
  new_proposals-Frame v w = ground arith

  proposal_view_at-Frame :
      (min maj : ℕ) (v : VersionedRoundView P) (w : World P)
      → Holds (Frame w) (proposal_view_at cfg env min maj v w)
  unfolding proposal_view_at
  proposal_view_at-Frame min maj v w = ground (
    arith,
    >>-Frame cancel_timer (majority_precommits cfg env maj v) w (cancel_timer-Frame w)
        (majority_precommits-Frame maj v),
    >>-Frame cancel_timer
        (λ u. ignore (request_decision env v.vote_summary (with_step awaiting_precommits u))) w
        (cancel_timer-Frame w)
        (λ u. decide-Frame v.vote_summary u (with_step awaiting_precommits u) (ground arith)),
    >>-Frame cancel_timer (majority_prevotes cfg env maj v) w (cancel_timer-Frame w)
        (majority_prevotes-Frame maj v),
    new_proposals-Frame v w,
  )

  prevote_view_at-Frame :
      (maj : ℕ) (v : VersionedRoundView P) (w : World P)
      → Holds (Frame w) (prevote_view_at cfg env maj v w)
  unfolding prevote_view_at
  prevote_view_at-Frame maj v w = ground (
    arith,
    >>-Frame (cancel_timer_at prevote_delay) (majority_precommits cfg env maj v) w
        (cancel_timer_at-Frame prevote_delay w) (majority_precommits-Frame maj v),
    >>-Frame (cancel_timer_at prevote_delay)
        (λ u. ignore (request_decision env v.vote_summary (with_step awaiting_precommits u))) w
        (cancel_timer_at-Frame prevote_delay w)
        (λ u. decide-Frame v.vote_summary u (with_step awaiting_precommits u) (ground arith)),
  )

  settle_precommits-Frame :
      (v : VersionedRoundView P) (w : World P) → Holds (Frame w) (settle_precommits cfg env v w)
  unfolding settle_precommits
  settle_precommits-Frame v w = ground (
    arith,
    ignored_round w,
    >>-Frame (cancel_timer_at precommit_delay) (λ u. ignore (begin_commit env v u)) w
        (cancel_timer_at-Frame precommit_delay w)
        (λ u. ignore-Frame u (begin_commit env v u) (begin_commit-Frame env v u)),
  )

  precommit_view_at-Frame :
      (maj : ℕ) (v : VersionedRoundView P) (w : World P)
      → Holds (Frame w) (precommit_view_at cfg env maj v w)
  unfolding precommit_view_at
  precommit_view_at-Frame maj v w = ground (arith, settle_precommits-Frame v w, ignored_round w)

  pub commit_wait-Frame :
      (v : VersionedRoundView P) (w : World P)
      → Holds (Frame w) (handle_commit_wait_view_update cfg env v w)
  unfolding handle_commit_wait_view_update finalize_late request_finalization send
  commit_wait-Frame v w = ground arith

  pub proposal_view-Frame :
      (v : VersionedRoundView P) (w : World P)
      → Holds (Frame w) (handle_proposal_view_update cfg env v w)
  unfolding handle_proposal_view_update
  proposal_view-Frame v w =
      go (byzantine_minority v.vote_summary.available_power)
        (byzantine_majority v.vote_summary.available_power)
    where
      go :
          (a b : Option ℕ)
          → Holds (Frame w) (elim a [
            | none ↦ panic
            | some min ↦ elim b [ none ↦ panic | some maj ↦ proposal_view_at cfg env min maj v w ]
          ])
      go none b = tt
      go (some min) none = tt
      go (some min) (some maj) = proposal_view_at-Frame min maj v w

  if_majority-Frame :
      (o : Option ℕ) (w : World P) (f : ℕ → Outcome P)
      → ((maj : ℕ) → Holds (Frame w) (f maj))
      → Holds (Frame w) (elim o [ none ↦ panic | some maj ↦ f maj ])
  if_majority-Frame none w f h = tt
  if_majority-Frame (some maj) w f h = h maj

  pub prevote_view-Frame :
      (v : VersionedRoundView P) (w : World P)
      → Holds (Frame w) (handle_prevote_view_update cfg env v w)
  unfolding handle_prevote_view_update
  prevote_view-Frame v w =
      if_majority-Frame (byzantine_majority v.vote_summary.available_power) w
        (λ maj. prevote_view_at cfg env maj v w) (λ maj. prevote_view_at-Frame maj v w)

  pub precommit_view-Frame :
      (v : VersionedRoundView P) (w : World P)
      → Holds (Frame w) (handle_precommit_view_update cfg env v w)
  unfolding handle_precommit_view_update
  precommit_view-Frame v w =
      if_majority-Frame (byzantine_majority v.vote_summary.available_power) w
        (λ maj. precommit_view_at cfg env maj v w) (λ maj. precommit_view_at-Frame maj v w)
