-- ===== src/StateMachine/ReadyRounds.antt =====
-- When entering a round comes to an end without a panic (statemachine.go).
use gordian.Prelude.{
  ◌+◌, refl, sym, subst, inl, inr, false, List, [], ◌∷◌, bytes_eq, some, All, u32, u64, arith,
  Bool-cases,
}
use gordian.Consensus.Types.{ProposedHeader}
use gordian.Consensus.RoundView.{VersionedRoundView}
use gordian.Consensus.Step.{awaiting_proposal, awaiting_precommits, commit_wait}
use gordian.Mirror.Kernel.Entrance.{RoundEntranceResponse, view, committed}
use gordian.Mirror.Kernel.Shift.{find_header}
use gordian.StateMachine.Lifecycle.{
  commit_wait_timer, proposal_timer, reset, cycle_finalization, mark_reason_new_hashes,
}
use gordian.StateMachine.World.{
  Config, with_rlc, Call, set_height_round, decide_precommit, consider_proposed_blocks,
  finalize_block, enter_round, Env, World, Outcome, ok, stopped, ◌>>◌, called, send, timed_send,
}
use gordian.StateMachine.Rounds.{
  reject_mismatched_proposed_headers, consider_initial, request_decision, request_finalization,
  begin_commit, begin_at, begin_round_live, save_height_round, to_next_round, to_next_height,
  enter_live, announce, advance, advance_round, advance_height, entrance, wait_for_proposal,
  wait_for_precommits, with_view, with_step, with_timer,
}
use gordian.StateMachine.Outcomes.{
  Fine, >>-Fine, Goes, Goes-then, >>-Goes, Goes-Fine, elim_option-Fine,
}
use gordian.StateMachine.Ready.{
  IsReliable, Enterable, IsLive, Ready, Idle, Loose, Loose-Ready, Idle-Loose,
}

module _ {P : Type 0} (env : Env P) (rel : IsReliable env) where
  pub send-Sent :
      (Q : World P → Type 0) (c : Call P) (w : World P) → Q (called c w) → Goes Q (send env c w)
  unfolding send
  send-Sent Q c w q = rw (rel.sent w.calls c, Goes) q

  pub timed_send-Sent :
      (Q : World P → Type 0) (c : Call P) (w : World P)
      → Q (called c w)
      → Goes Q (timed_send env c w)
  unfolding timed_send
  timed_send-Sent Q c w q = rw (rel.unblocked w.calls c, Goes) q

  pub begin_commit-Ready :
      (rest : List (RoundEntranceResponse P)) (v : VersionedRoundView P) (w : World P)
      → Loose rest w
      → Fine Ready (begin_commit env v w)
  unfolding begin_commit request_finalization
  begin_commit-Ready rest v w l =
      let w' = with_timer (some (commit_wait_timer w.rlc.h w.rlc.r)) (with_step commit_wait w) in
      elim_option-Fine Ready
        (find_header v.vote_summary.most_voted_precommit_hash v.proposed_headers) (stopped w') _
        (λ q. Loose-Ready rest w' (ground (arith, l)) tt)
        (λ header.
          let c = finalize_block header v.round w'.rlc.finalize_resp_ch in
          Goes-Fine Ready Ready (send env c w') (λ u q. q)
            (send-Sent Ready c w' (Loose-Ready rest (called c w') (ground (arith, l)) tt)))

  consider_initial-Loose :
      (rest : List (RoundEntranceResponse P)) (v : VersionedRoundView P) (w : World P)
      → Loose rest w
      → Goes (Loose rest) (consider_initial env v w)
  unfolding consider_initial mark_reason_new_hashes
  consider_initial-Loose rest v w l =
      go (reject_mismatched_proposed_headers w.rlc v.proposed_headers)
    where
      go :
          (phs : List ProposedHeader)
          → Goes (Loose rest) (elim phs [
            | [] ↦ ok w
            | ph ∷ phs ↦
                let (req, rlc) = mark_reason_new_hashes (ph ∷ phs) false w.rlc in
                send env (consider_proposed_blocks req) (with_rlc rlc w)
          ])
      go [] = l
      go (ph ∷ phs) = send-Sent (Loose rest) _ _ (ground (arith, l))

  pub to_next_round-Idle :
      (rest : List (RoundEntranceResponse P)) (w : World P)
      → Loose rest w
      → Goes (Idle rest) (to_next_round env w)
  unfolding to_next_round save_height_round reset
  to_next_round-Idle rest w l =
      ground (arith, l, rel.sent w.calls (set_height_round w.rlc.h (u32 (w.rlc.r + 1))))

  pub to_next_height-Idle :
      (rest : List (RoundEntranceResponse P)) (w : World P)
      → Loose rest w
      → Goes (Idle rest) (to_next_height env w)
  unfolding to_next_height save_height_round reset cycle_finalization
  to_next_height-Idle rest w l =
      ground (arith, l, rel.sent w.calls (set_height_round (u64 (w.rlc.h + 1)) 0))

  begin_at-Ready :
      (rest : List (RoundEntranceResponse P)) (next : World P → Outcome P)
      (v : VersionedRoundView P) (w : World P)
      → ((u : World P) → Idle rest u → Fine Ready (next u))
      → Idle rest w
      → Fine Ready (begin_at env next v awaiting_proposal w)
        × Fine Ready (begin_at env next v awaiting_precommits w)
        × Fine Ready (begin_at env next v commit_wait w)
  unfolding begin_at request_decision
  begin_at-Ready rest next v w k i = (
    Goes-then (Loose rest) Ready (consider_initial env v) (wait_for_proposal env v) w
        (consider_initial-Loose rest v w (Idle-Loose rest w i))
        (λ u l. Loose-Ready rest (waiting u) (ground (arith, l)) refl),
    Goes-then (Idle rest) Ready (request_decision env v.vote_summary) (wait_for_precommits env v) w
        (send-Sent (Idle rest) (decide_precommit v.vote_summary w.rlc.precommit_hash_ch) w
          (ground (arith, i)))
        (λ u j.
          Loose-Ready rest (with_view v (with_step awaiting_precommits u)) (ground (arith, j))
            j.stopped_timer),
    elim (Bool-cases (bytes_eq v.vote_summary.most_voted_precommit_hash [])) [
      | inl q ↦ rw q (k w i)
      | inr q ↦ rw q (
          >>-Fine Ready Ready (begin_commit env v) (λ u. ok (with_view v u)) w
            (begin_commit-Ready rest v w (Idle-Loose rest w i)) (λ u r. r)
            (λ u r. ground (arith, r)))
    ],
  )
    where
      waiting : World P → World P
      waiting u =
          with_timer (some (proposal_timer u.rlc.h u.rlc.r))
            (with_view v (with_step awaiting_proposal u))

  begin_round_live-Ready :
      (rest : List (RoundEntranceResponse P)) (next : World P → Outcome P)
      (v : VersionedRoundView P) (w : World P)
      → ((u : World P) → Idle rest u → Fine Ready (next u))
      → Enterable v.vote_summary
      → Idle rest w
      → Fine Ready (begin_round_live env next v w)
  unfolding begin_round_live
  begin_round_live-Ready rest next v w k (inl q) i =
      rw (q, Fine) (begin_at-Ready rest next v w k i).0
  begin_round_live-Ready rest next v w k (inr (inl q)) i =
      rw (q, Fine) (begin_at-Ready rest next v w k i).1
  begin_round_live-Ready rest next v w k (inr (inr q)) i =
      rw (q, Fine) (begin_at-Ready rest next v w k i).2

  enter_live-Idle :
      (rest : List (RoundEntranceResponse P)) (v : VersionedRoundView P) (w : World P)
      → Idle rest w
      → Goes (Idle rest) (enter_live env v w)
  unfolding enter_live
  enter_live-Idle rest v w i =
      >>-Goes (Idle rest) (Idle rest) (send env (enter_round v.round_view w.rlc.proposal_ch)) _ w
        (send-Sent (Idle rest) (enter_round v.round_view w.rlc.proposal_ch) w (ground (arith, i)))
        (λ u j. rw (rel.entered v.round_view) j)

module _ {P : Type 0} (cfg : Config) (env : Env P) (rel : IsReliable env) where
  announce-Idle :
      (a : RoundEntranceResponse P) (rest : List (RoundEntranceResponse P)) (w : World P)
      → Idle (a ∷ rest) w
      → Goes (Idle rest) (announce cfg env rest w)
  unfolding announce
  announce-Idle a rest w i =
      >>-Goes (Idle (a ∷ rest)) (Idle rest) (send env (entrance cfg env w.rlc)) _ w
        (send-Sent env rel (Idle (a ∷ rest)) (entrance cfg env w.rlc) w (ground (arith, i)))
        (λ u j. ground (arith, j))

  pub advance-Ready :
      (answers : List (RoundEntranceResponse P)) (w : World P)
      → Idle answers w
      → Fine Ready (advance cfg env answers w)
  unfolding advance
  advance-Ready [] w i =
      Goes-then (Idle []) Ready (send env (entrance cfg env w.rlc)) stopped w
        (send-Sent env rel (Idle []) (entrance cfg env w.rlc) w (ground (arith, i)))
        (λ u j. record {
          viewed = j.viewed;
          answers_live = subst (All IsLive) (sym j.same_rest) tt;
          settled = inl j.same_rest;
        })
  advance-Ready (committed ch ∷ rest) w i = absurd i.rest_live.0
  advance-Ready (view v ∷ rest) w i =
      Goes-then (Idle rest) Ready (announce cfg env rest >> enter_live env v)
        (begin_round_live env (to_next_round env >> advance cfg env rest) v) w
        (>>-Goes (Idle rest) (Idle rest) (announce cfg env rest) (enter_live env v) w
          (announce-Idle (view v) rest w i) (enter_live-Idle env rel rest v))
        (λ u j.
          begin_round_live-Ready env rel rest (to_next_round env >> advance cfg env rest) v u
            (λ t l.
              Goes-then (Idle rest) Ready (to_next_round env) (advance cfg env rest) t
                (to_next_round-Idle env rel rest t (Idle-Loose rest t l)) (advance-Ready rest))
            i.rest_live.0 j)

  pub advance_round-Ready :
      (rest : List (RoundEntranceResponse P)) (w : World P)
      → Loose rest w
      → Fine Ready (advance_round cfg env w)
  unfolding advance_round
  advance_round-Ready rest w l =
      subst (λ answers. Fine Ready ((to_next_round env >> advance cfg env answers) w))
        (sym l.same_rest)
        (Goes-then (Idle rest) Ready (to_next_round env) (advance cfg env rest) w
          (to_next_round-Idle env rel rest w l) (advance-Ready rest))

  pub advance_height-Ready :
      (rest : List (RoundEntranceResponse P)) (w : World P)
      → Loose rest w
      → Fine Ready (advance_height cfg env w)
  unfolding advance_height
  advance_height-Ready rest w l =
      subst (λ answers. Fine Ready ((to_next_height env >> advance cfg env answers) w))
        (sym l.same_rest)
        (Goes-then (Idle rest) Ready (to_next_height env) (advance cfg env rest) w
          (to_next_height-Idle env rel rest w l) (advance-Ready rest))
