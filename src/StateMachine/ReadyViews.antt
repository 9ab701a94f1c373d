-- ===== src/StateMachine/ReadyViews.antt =====
-- Votes seen in a view (statemachine.go): each decision is reached without a panic.
use gordian.Prelude.{ℕ, ◌≡◌, refl, sym, subst, ◌⊎◌, inl, inr, true, false, List, [], ◌∷◌, arith}
use gordian.Consensus.Types.{ProposedHeader}
use gordian.Consensus.VoteSummary.{VoteSummary}
use gordian.Consensus.RoundView.{VersionedRoundView}
use gordian.Consensus.Step.{Step, awaiting_precommits}
use gordian.Mirror.Kernel.Entrance.{RoundEntranceResponse}
use gordian.StateMachine.Lifecycle.{mark_reason_new_hashes}
use gordian.StateMachine.World.{
  Config, Call, choose_proposed_block, consider_proposed_blocks, decide_precommit, with_rlc, Env,
  World, ok, ◌>>◌, ignore, called, send, timed_send,
}
use gordian.StateMachine.Rounds.{
  reject_mismatched_proposed_headers, with_step, cancel_timer, request_decision, begin_commit,
  advance_round,
}
use gordian.StateMachine.Views.{
  cancel_timer_at, clear_considered, start_prevote_delay, start_precommit_delay, settle,
  majority_precommits, consider_after_prevotes, majority_prevotes, step_is,
}
use gordian.StateMachine.Outcomes.{Fine, Goes, Goes-then, Goes-Fine, ignore-Fine}
use gordian.StateMachine.Ready.{IsReliable, is_set, Fits, Live, Ready, Idle, Loose, Loose-Ready}
use gordian.StateMachine.ReadyRounds.{
  send-Sent, timed_send-Sent, begin_commit-Ready, advance_round-Ready,
}

module _ {P : Type 0} where
  -- A running timer can be cancelled.
  pub cancel_timer-Idle :
      (w : World P)
      → Live w
      → is_set w.rlc.step_timer ≡ true
      → Goes (Idle w.answers) (cancel_timer w)
  unfolding cancel_timer
  cancel_timer-Idle w l r = ground (arith, l, r)

  pub cancel_timer_at-Idle :
      (s : Step) (w : World P)
      → Live w
      → ((step_is w.rlc.s s ≡ true) × (is_set w.rlc.step_timer ≡ true))
        ⊎ ((step_is w.rlc.s s ≡ false) × (is_set w.rlc.step_timer ≡ false))
      → Goes (Idle w.answers) (cancel_timer_at s w)
  unfolding cancel_timer_at
  cancel_timer_at-Idle s w l (inl q) = rw (q.0, Goes) (cancel_timer-Idle w l q.1)
  cancel_timer_at-Idle s w l (inr q) = rw (q.0, Goes) (ground (arith, l, q))

module _ {P : Type 0} (cfg : Config) (env : Env P) (rel : IsReliable env) where
  pub ignored_round :
      (rest : List (RoundEntranceResponse P)) (w : World P)
      → Loose rest w
      → Fine Ready (ignore (advance_round cfg env w))
  ignored_round rest w l =
      ignore-Fine Ready (advance_round cfg env w) (advance_round-Ready cfg env rel rest w l)

  pub ignored_commit :
      (rest : List (RoundEntranceResponse P)) (v : VersionedRoundView P) (w : World P)
      → Loose rest w
      → Fine Ready (ignore (begin_commit env v w))
  ignored_commit rest v w l =
      ignore-Fine Ready (begin_commit env v w) (begin_commit-Ready env rel rest v w l)

  pub settle-Ready :
      (rest : List (RoundEntranceResponse P)) (v : VersionedRoundView P) (w : World P)
      → Loose rest w
      → Fine Ready (settle cfg env v w)
  unfolding settle
  settle-Ready rest v w l = ground (arith, ignored_round rest w l, ignored_commit rest v w l)

  pub decide-Ready :
      (rest : List (RoundEntranceResponse P)) (vs : VoteSummary) (w : World P)
      → Loose rest w
      → Fits w.rlc.s w.rlc.step_timer
      → Fine Ready (ignore (request_decision env vs w))
  unfolding request_decision
  decide-Ready rest vs w l f =
      ignore-Fine Ready (send env (decide_precommit vs w.rlc.precommit_hash_ch) w) (
        Goes-Fine Ready Ready (send env (decide_precommit vs w.rlc.precommit_hash_ch) w) (λ u q. q)
          (send-Sent env rel Ready (decide_precommit vs w.rlc.precommit_hash_ch) w (
            Loose-Ready rest (called (decide_precommit vs w.rlc.precommit_hash_ch) w)
              (ground (arith, l)) f)))

  pub majority_precommits-Ready :
      (rest : List (RoundEntranceResponse P)) (maj : ℕ) (v : VersionedRoundView P) (w : World P)
      → Loose rest w
      → Fine Ready (majority_precommits cfg env maj v w)
  unfolding majority_precommits
  majority_precommits-Ready rest maj v w l = ground (
    arith,
    settle-Ready rest v w l,
    decide-Ready rest v.vote_summary (start_precommit_delay w) (ground (arith, l)) refl,
  )

  pub timed-Ready :
      (rest : List (RoundEntranceResponse P)) (c : Call P) (w : World P)
      → Loose rest w
      → Fits w.rlc.s w.rlc.step_timer
      → Fine Ready (timed_send env c w)
  timed-Ready rest c w l f =
      Goes-Fine Ready Ready (timed_send env c w) (λ u q. q)
        (timed_send-Sent env rel Ready c w (Loose-Ready rest (called c w) (ground (arith, l)) f))

  pub consider_after-Ready :
      (rest : List (RoundEntranceResponse P)) (v : VersionedRoundView P) (w : World P)
      → Loose rest w
      → Fits w.rlc.s w.rlc.step_timer
      → Fine Ready (consider_after_prevotes cfg env v w)
  unfolding consider_after_prevotes mark_reason_new_hashes
  consider_after-Ready rest v w l f =
      go (reject_mismatched_proposed_headers w.rlc v.proposed_headers)
    where
      go :
          (phs : List ProposedHeader)
          → Fine Ready (elim phs [
            | [] ↦ ok w
            | ph ∷ phs ↦
                let (req, rlc) = mark_reason_new_hashes (ph ∷ phs) true w.rlc in
                timed_send env (consider_proposed_blocks req) (with_rlc rlc w)
          ])
      go [] = Loose-Ready rest w l f
      go (ph ∷ phs) = timed-Ready rest _ _ (ground (arith, l)) f

  pub choose-Ready :
      (rest : List (RoundEntranceResponse P)) (c : Call P) (w : World P)
      → Idle rest w
      → Fine Ready
          ((timed_send env c >> λ u. ok (clear_considered u)) (with_step awaiting_precommits w))
  choose-Ready rest c w i =
      Goes-then (λ u. Idle rest u × (u.rlc.s ≡ awaiting_precommits)) Ready (timed_send env c)
        (λ u. ok (clear_considered u)) (with_step awaiting_precommits w)
        (timed_send-Sent env rel (λ u. Idle rest u × (u.rlc.s ≡ awaiting_precommits)) c
          (with_step awaiting_precommits w) (ground (arith, i), refl))
        (λ u j.
          Loose-Ready rest (clear_considered u) (ground (arith, j.0))
            (subst (λ s. Fits s u.rlc.step_timer) (sym j.1) j.0.stopped_timer))

  pub majority_prevotes-Ready :
      (rest : List (RoundEntranceResponse P)) (maj : ℕ) (v : VersionedRoundView P) (w : World P)
      → Idle rest w
      → Fine Ready (majority_prevotes cfg env maj v w)
  unfolding majority_prevotes
  majority_prevotes-Ready rest maj v w i =
      let c : Call P =
        choose_proposed_block (reject_mismatched_proposed_headers w.rlc v.proposed_headers)
          w.rlc.prevote_hash_ch in
      ground (
        arith,
        choose-Ready rest c w i,
        consider_after-Ready rest v (start_prevote_delay w) (ground (arith, i)) refl,
      )
