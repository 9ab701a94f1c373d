-- ===== src/StateMachine/Frame.antt =====
-- What entering a round leaves alone (statemachine.go).
use gordian.Prelude.{
  ℕ, ◌+◌, ◌≡◌, bytes_eq, List, [], ◌∷◌, none, some, arith, Bool-cases, inl, inr, u32,
}
use gordian.Consensus.Types.{CommittedHeader}
use gordian.Consensus.Step.{
  Step, invalid, awaiting_proposal, awaiting_prevotes, prevote_delay, awaiting_precommits,
  precommit_delay, commit_wait, awaiting_finalization, get_step_from_vote_summary,
}
use gordian.Consensus.RoundView.{VersionedRoundView}
use gordian.Mirror.Kernel.Entrance.{RoundEntranceResponse, view, committed}
use gordian.StateMachine.Lifecycle.{reset, mark_catching_up, mark_reason_new_hashes}
use gordian.StateMachine.World.{
  Config, Call, Env, World, Outcome, ok, stopped, panic, hung, ◌>>◌, ignore, send, timed_send,
}
use gordian.StateMachine.Rounds.{
  consider_initial, request_decision, request_finalization, begin_commit, begin_at,
  begin_round_live, save_height_round, to_next_round, catch_up, enter_live, announce, answered,
  advance, advance_round, entrance, reset_world,
}
use gordian.StateMachine.Outcomes.{Holds, >>-Holds}

module _ {P : Type 0} where
  -- The height, its finalization, what is stored of both and what was signed.
  pub record Frame (w w' : World P) : Type 0 where
    pub same_h : w'.rlc.h ≡ w.rlc.h
    pub same_finalized : w'.rlc.finalized_val_set ≡ w.rlc.finalized_val_set
    pub same_finalizations : w'.finalization_store ≡ w.finalization_store
    pub same_actions : w'.action_store ≡ w.action_store
    pub same_outgoing : w'.outgoing_actions ≡ w.outgoing_actions

  pub Frame-refl : (w : World P) → Frame w w
  Frame-refl w = ground arith

  pub Frame-trans : (u v w : World P) → Frame u v → Frame v w → Frame u w
  Frame-trans u v w f g = ground arith

  pub Holds-Frame :
      (u v : World P) (o : Outcome P) → Frame u v → Holds (Frame v) o → Holds (Frame u) o
  Holds-Frame u v (ok w) f h = Frame-trans u v w f h
  Holds-Frame u v (stopped w) f h = Frame-trans u v w f h
  Holds-Frame u v panic f h = tt
  Holds-Frame u v hung f h = tt

  pub ignore-Frame : (w : World P) (o : Outcome P) → Holds (Frame w) o → Holds (Frame w) (ignore o)
  ignore-Frame w (ok v) h = h
  ignore-Frame w (stopped v) h = h
  ignore-Frame w panic h = tt
  ignore-Frame w hung h = tt

  pub >>-Frame :
      (f g : World P → Outcome P) (w : World P)
      → Holds (Frame w) (f w)
      → ((v : World P) → Holds (Frame v) (g v))
      → Holds (Frame w) ((f >> g) w)
  >>-Frame f g w h k =
      >>-Holds (Frame w) (Frame w) f g w h (λ v q. q) (λ v q. Holds-Frame w v (g v) q (k v))

module _ {P : Type 0} (env : Env P) where
  pub send-Frame : (c : Call P) (w : World P) → Holds (Frame w) (send env c w)
  unfolding send
  send-Frame c w = ground arith

  pub timed_send-Frame : (c : Call P) (w : World P) → Holds (Frame w) (timed_send env c w)
  unfolding timed_send
  timed_send-Frame c w = ground arith

  pub request_decision-Frame : (vs : _) (w : World P) → Holds (Frame w) (request_decision env vs w)
  unfolding request_decision
  request_decision-Frame vs w = send-Frame _ w

  pub request_finalization-Frame :
      (header : _) (round : ℕ) (w : World P)
      → Holds (Frame w) (request_finalization env header round w)
  unfolding request_finalization
  request_finalization-Frame header round w = send-Frame _ w

  pub begin_commit-Frame :
      (v : VersionedRoundView P) (w : World P) → Holds (Frame w) (begin_commit env v w)
  unfolding begin_commit request_finalization send
  begin_commit-Frame v w = ground arith

  consider_initial-Frame :
      (v : VersionedRoundView P) (w : World P) → Holds (Frame w) (consider_initial env v w)
  unfolding consider_initial mark_reason_new_hashes send
  consider_initial-Frame v w = ground arith

  save_height_round-Frame : (w : World P) → Holds (Frame w) (save_height_round env w)
  unfolding save_height_round
  save_height_round-Frame w = ground arith

  pub to_next_round-Frame : (w : World P) → Holds (Frame w) (to_next_round env w)
  unfolding to_next_round reset
  to_next_round-Frame w =
      Holds-Frame w _ _ (ground arith)
        (save_height_round-Frame (reset_world env w.rlc.h (u32 (w.rlc.r + 1)) w))

  begin_at-Frame :
      (next : World P → Outcome P) (v : VersionedRoundView P) (s : Step) (w : World P)
      → ((u : World P) → Holds (Frame u) (next u))
      → Holds (Frame w) (begin_at env next v s w)
  unfolding begin_at
  begin_at-Frame next v awaiting_proposal w k =
      >>-Frame (consider_initial env v) _ w (consider_initial-Frame v w) (λ u. ground arith)
  begin_at-Frame next v awaiting_precommits w k =
      >>-Frame (request_decision env v.vote_summary) _ w (request_decision-Frame v.vote_summary w)
        (λ u. ground arith)
  begin_at-Frame next v commit_wait w k =
      elim (Bool-cases (bytes_eq v.vote_summary.most_voted_precommit_hash [])) [
        | inl q ↦ rw q (k w)
        | inr q ↦
            rw q (>>-Frame (begin_commit env v) _ w (begin_commit-Frame v w) (λ u. ground arith))
      ]
  begin_at-Frame next v invalid w k = tt
  begin_at-Frame next v awaiting_prevotes w k = tt
  begin_at-Frame next v prevote_delay w k = tt
  begin_at-Frame next v precommit_delay w k = tt
  begin_at-Frame next v awaiting_finalization w k = tt

  pub begin_round_live-Frame :
      (next : World P → Outcome P) (v : VersionedRoundView P) (w : World P)
      → ((u : World P) → Holds (Frame u) (next u))
      → Holds (Frame w) (begin_round_live env next v w)
  unfolding begin_round_live
  begin_round_live-Frame next v w k =
      elim (get_step_from_vote_summary v.vote_summary)
        as (λ o. Holds (Frame w) (elim o [ none ↦ panic | some s ↦ begin_at env next v s w ])) [
          | none ↦ tt
          | some s ↦ begin_at-Frame next v s w k
        ]

  catch_up-Frame : (ch : CommittedHeader) (w : World P) → Holds (Frame w) (catch_up env ch w)
  unfolding catch_up request_finalization send mark_catching_up
  catch_up-Frame ch w = ground arith

  enter_live-Frame : (v : VersionedRoundView P) (w : World P) → Holds (Frame w) (enter_live env v w)
  unfolding enter_live send
  enter_live-Frame v w = ground arith

module _ {P : Type 0} (cfg : Config) (env : Env P) where
  announce-Frame :
      (rest : List (RoundEntranceResponse P)) (w : World P)
      → Holds (Frame w) (announce cfg env rest w)
  unfolding announce send
  announce-Frame rest w = ground arith

  pub advance-Frame :
      (answers : List (RoundEntranceResponse P)) (w : World P)
      → Holds (Frame w) (advance cfg env answers w)
  unfolding advance
  advance-Frame [] w =
      >>-Frame (send env (entrance cfg env w.rlc)) stopped w (send-Frame env _ w)
        (λ u. Frame-refl u)
  advance-Frame (committed ch ∷ rest) w =
      >>-Frame (send env (entrance cfg env w.rlc)) _ w (send-Frame env _ w)
        (λ u. Holds-Frame u _ _ (ground arith) (catch_up-Frame env ch (answered cfg env rest u)))
  advance-Frame (view v ∷ rest) w =
      >>-Frame (announce cfg env rest >> enter_live env v)
        (begin_round_live env (to_next_round env >> advance cfg env rest) v) w
        (>>-Frame (announce cfg env rest) (enter_live env v) w (announce-Frame rest w)
          (enter_live-Frame env v))
        (λ u. begin_round_live-Frame env (to_next_round env >> advance cfg env rest) v u (λ t.
          >>-Frame (to_next_round env) (advance cfg env rest) t (to_next_round-Frame env t)
            (advance-Frame rest)))

  pub advance_round-Frame : (w : World P) → Holds (Frame w) (advance_round cfg env w)
  unfolding advance_round
  advance_round-Frame w =
      >>-Frame (to_next_round env) _ w (to_next_round-Frame env w) (advance-Frame w.answers)
