-- ===== src/StateMachine/StopEvents.antt =====
-- For which causes the main loop of the state machine (statemachine.go) comes to its end while
-- nothing is cancelled.
use gordian.Prelude.{
  ◌≡◌, refl, ◌⊎◌, inl, inr, true, false, List, [], ◌∷◌, bytes_eq, none, some, arith, Bool-cases,
}
use gordian.Consensus.Types.{ProposedHeader}
use gordian.Consensus.RoundView.{VersionedRoundView}
use gordian.Consensus.Step.{
  Step, invalid, awaiting_proposal, awaiting_prevotes, prevote_delay, awaiting_precommits,
  precommit_delay, commit_wait, awaiting_finalization, get_step_from_vote_summary,
}
use gordian.Mirror.Kernel.Entrance.{RoundEntranceResponse, view, committed}
use gordian.Mirror.Kernel.Shift.{find_header}
use gordian.StateMachine.Lifecycle.{mark_reason_new_hashes}
use gordian.StateMachine.World.{
  Config, Call, Env, World, Outcome, ok, stopped, panic, ◌>>◌, send, called, set_height_round,
  with_rlc, consider_proposed_blocks, enter_round,
}
use gordian.StateMachine.Rounds.{
  reject_mismatched_proposed_headers, request_decision, request_finalization, begin_commit,
  consider_initial, begin_at, begin_round_live, save_height_round, to_next_round, to_next_height,
  catch_up, enter_live, announce, advance, advance_round, advance_height, entrance, with_view,
}
use gordian.StateMachine.Ready.{IsReliable}
use gordian.StateMachine.Stops.{
  Stops, ok-Stops, panic-Stops, stopped-Stops, >>-Stops, if-Stops, elim_option-Stops,
}

module _ {P : Type 0} where
  -- The answers of the mirror that leave the state machine without a round: there is none, or the
  -- first is a view that commits a block whose header it lacks, or a view that commits nil, and so
  -- on.
  abbrev pub Dead : List (RoundEntranceResponse P) → Type 0
  Dead [] = Unit
  Dead (committed ch ∷ rest) = ⊥
  Dead (view v ∷ rest) =
      (get_step_from_vote_summary v.vote_summary ≡ some commit_wait)
      × (((bytes_eq v.vote_summary.most_voted_precommit_hash [] ≡ false)
            × (find_header v.vote_summary.most_voted_precommit_hash v.proposed_headers ≡ none))
          ⊎ ((bytes_eq v.vote_summary.most_voted_precommit_hash [] ≡ true) × Dead rest))

module _ {P : Type 0} (env : Env P) (rel : IsReliable env) (C : Type 0) where
  pub send-Stops : (c : Call P) (w : World P) → Stops C (send env c w)
  unfolding send
  send-Stops c w = rw (rel.sent w.calls c) (ok-Stops C (called c w))

  save-Stops : (w : World P) → Stops C (save_height_round env w)
  unfolding save_height_round
  save-Stops w = rw (rel.sent w.calls (set_height_round w.rlc.h w.rlc.r)) (ok-Stops C _)

  pub to_next_round-Stops : (w : World P) → Stops C (to_next_round env w)
  unfolding to_next_round
  to_next_round-Stops w = save-Stops _

  pub to_next_height-Stops : (w : World P) → Stops C (to_next_height env w)
  unfolding to_next_height
  to_next_height-Stops w = save-Stops _

  pub request_decision-Stops : (vs : _) (w : World P) → Stops C (request_decision env vs w)
  unfolding request_decision
  request_decision-Stops vs w = send-Stops _ w

  begin_commit-Stops :
      (v : VersionedRoundView P) (w : World P)
      → (find_header v.vote_summary.most_voted_precommit_hash v.proposed_headers ≡ none → C)
      → Stops C (begin_commit env v w)
  unfolding begin_commit request_finalization
  begin_commit-Stops v w k =
      elim_option-Stops C (find_header v.vote_summary.most_voted_precommit_hash v.proposed_headers)
        _ _ (λ q. stopped-Stops C _ (k q)) (λ header q. send-Stops _ _)

  consider_initial-Stops :
      (v : VersionedRoundView P) (w : World P) → Stops C (consider_initial env v w)
  unfolding consider_initial
  consider_initial-Stops v w = go (reject_mismatched_proposed_headers w.rlc v.proposed_headers)
    where
      go :
          (phs : List ProposedHeader)
          → Stops C (elim phs [
            | [] ↦ ok w
            | ph ∷ phs ↦
                let (req, rlc) = mark_reason_new_hashes (ph ∷ phs) false w.rlc in
                send env (consider_proposed_blocks req) (with_rlc rlc w)
          ])
      go [] = ok-Stops C w
      go (ph ∷ phs) = send-Stops _ _

  begin_at-Stops :
      (next : World P → Outcome P) (v : VersionedRoundView P) (s : Step) (w : World P)
      → (s ≡ commit_wait
          → (bytes_eq v.vote_summary.most_voted_precommit_hash [] ≡ true)
          → (u : World P) → Stops C (next u))
      → (s ≡ commit_wait
          → (bytes_eq v.vote_summary.most_voted_precommit_hash [] ≡ false)
          → find_header v.vote_summary.most_voted_precommit_hash v.proposed_headers ≡ none
          → C)
      → Stops C (begin_at env next v s w)
  unfolding begin_at
  begin_at-Stops next v awaiting_proposal w k c =
      >>-Stops C (consider_initial env v) _ w (consider_initial-Stops v w) (λ u e. ok-Stops C _)
  begin_at-Stops next v awaiting_precommits w k c =
      >>-Stops C (request_decision env v.vote_summary) _ w (request_decision-Stops _ w)
        (λ u e. ok-Stops C _)
  begin_at-Stops next v commit_wait w k c =
      elim (Bool-cases (bytes_eq v.vote_summary.most_voted_precommit_hash [])) [
        | inl q ↦ rw q (k refl q w)
        | inr q ↦ rw q (
            >>-Stops C (begin_commit env v) (λ u. ok (with_view v u)) w
              (begin_commit-Stops v w (c refl q)) (λ u e. ok-Stops C _))
      ]
  begin_at-Stops next v invalid w k c = panic-Stops C
  begin_at-Stops next v awaiting_prevotes w k c = panic-Stops C
  begin_at-Stops next v prevote_delay w k c = panic-Stops C
  begin_at-Stops next v precommit_delay w k c = panic-Stops C
  begin_at-Stops next v awaiting_finalization w k c = panic-Stops C

  enter_live-Stops : (v : VersionedRoundView P) (w : World P) → Stops C (enter_live env v w)
  unfolding enter_live
  enter_live-Stops v w =
      >>-Stops C (send env (enter_round v.round_view w.rlc.proposal_ch)) _ w (send-Stops _ w)
        (λ u e.
          if-Stops C (env.enter_round_fails v.round_view) panic (ok u) (λ q. panic-Stops C)
            (λ q. ok-Stops C u))

module _ {P : Type 0} (cfg : Config) (env : Env P) (rel : IsReliable env) where
  -- Entering rounds stops only where the answers leave none.
  advance-Stops :
      (C : Type 0) (answers : List (RoundEntranceResponse P)) (w : World P)
      → (Dead answers → C)
      → Stops C (advance cfg env answers w)
  unfolding advance begin_round_live announce catch_up request_finalization
  advance-Stops C [] w k =
      >>-Stops C (send env (entrance cfg env w.rlc)) stopped w (send-Stops env rel C _ w)
        (λ u e. stopped-Stops C u (k tt))
  advance-Stops C (committed ch ∷ rest) w k =
      >>-Stops C (send env (entrance cfg env w.rlc)) _ w (send-Stops env rel C _ w)
        (λ u e. send-Stops env rel C _ _)
  advance-Stops C (view v ∷ rest) w k =
      >>-Stops C (announce cfg env rest >> enter_live env v) _ w
        (>>-Stops C (announce cfg env rest) (enter_live env v) w
          (>>-Stops C (send env (entrance cfg env w.rlc)) _ w (send-Stops env rel C _ w)
            (λ u e. ok-Stops C _))
          (λ u e. enter_live-Stops env rel C v u))
        (λ u e.
          elim_option-Stops C (get_step_from_vote_summary v.vote_summary) panic _
            (λ q. panic-Stops C)
            (λ s q.
              begin_at-Stops env rel C (to_next_round env >> advance cfg env rest) v s u
                (λ same nil t.
                  >>-Stops C (to_next_round env) (advance cfg env rest) t
                    (to_next_round-Stops env rel C t)
                    (λ x e.
                      advance-Stops C rest x (λ d. k (ground (arith, q, same), inr (nil, d)))))
                (λ same some_hash lacks. k (ground (arith, q, same), inl (some_hash, lacks)))))

  pub advance_round-Stops :
      (C : Type 0) (w : World P) → (Dead w.answers → C) → Stops C (advance_round cfg env w)
  unfolding advance_round
  advance_round-Stops C w k =
      >>-Stops C (to_next_round env) (advance cfg env w.answers) w (to_next_round-Stops env rel C w)
        (λ u e. advance-Stops C w.answers u k)

  pub advance_height-Stops :
      (C : Type 0) (w : World P) → (Dead w.answers → C) → Stops C (advance_height cfg env w)
  unfolding advance_height
  advance_height-Stops C w k =
      >>-Stops C (to_next_height env) (advance cfg env w.answers) w
        (to_next_height-Stops env rel C w) (λ u e. advance-Stops C w.answers u k)
