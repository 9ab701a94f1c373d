-- ===== src/StateMachine/HeightActions.antt =====
-- Signing leaves the height and the finalizations alone (statemachine.go).
use gordian.Prelude.{Bytes, nat_eq, arith}
use gordian.Consensus.Step.{Step, awaiting_proposal}
use gordian.StateMachine.Lifecycle.{Proposal}
use gordian.StateMachine.World.{
  Signer, Config, RoundAction, propose, Env, World, Outcome, ok, stopped, panic, ◌>>◌,
}
use gordian.StateMachine.Rounds.{cancel_timer}
use gordian.Consensus.RoundView.{VersionedRoundView}
use gordian.Store.Actions.{SaveResult, saved, refused}
use gordian.StateMachine.Actions.{
  target_of, draft, if_participating, save_and_send, leave_proposal, finish_header, propose_with,
  record_proposed_header, sign_prevote, sign_precommit, record_prevote, record_precommit,
}
use gordian.StateMachine.Loop.{close_proposal, close_prevote, close_precommit}
use gordian.StateMachine.Outcomes.{Holds, >>-Holds, Holds-weaken, elim_option-Holds}
use gordian.StateMachine.Grows.{SameHeight}

module _ {P : Type 0} (cfg : Config) (env : Env P) where
  pub save_and_send-Same :
      (action : RoundAction) (result : SaveResult) (w : World P)
      → Holds (SameHeight w) (save_and_send action result w)
  unfolding save_and_send
  save_and_send-Same action (refused e) w = ground arith
  save_and_send-Same action (saved store) w = ground arith

  pub closed-Same :
      (f : World P → Outcome P) (g : World P → World P) (w : World P)
      → Holds (SameHeight w) (f w)
      → ((v : World P) → SameHeight v (g v))
      → Holds (SameHeight w) ((f >> λ v. ok (g v)) w)
  closed-Same f g w h k =
      >>-Holds (SameHeight w) (SameHeight w) f (λ v. ok (g v)) w h (λ v q. q)
        (λ v q. ground (arith, q, k v))

  pub propose_with-Same :
      (signer : Signer) (v : VersionedRoundView P) (p : Proposal) (w : World P)
      → Holds (SameHeight w) (propose_with cfg signer v p w)
  unfolding propose_with
  propose_with-Same signer v p w =
      elim_option-Holds (SameHeight w) (finish_header cfg signer (draft signer w.rlc v p))
        (stopped w) _ (ground arith) (λ ph. save_and_send-Same (propose ph) _ w)

  pub proposal-Same :
      (p : Proposal) (w : World P)
      → Holds (SameHeight w) ((record_proposed_header cfg p >> close_proposal cfg env) w)
  unfolding record_proposed_header
  proposal-Same p w =
      closed-Same (record_proposed_header cfg p) _ w
        (elim_option-Holds (SameHeight w) w.rlc.vrv panic _ tt (λ v.
          elim_option-Holds (SameHeight w) cfg.signer panic _ tt
            (λ signer. propose_with-Same signer v p w)))
        (λ v. ground arith)

  pub sign_prevote-Same :
      (signer : Signer) (hash : Bytes) (w : World P)
      → Holds (SameHeight w) (sign_prevote cfg signer hash w)
  unfolding sign_prevote
  sign_prevote-Same signer hash w =
      elim_option-Holds (SameHeight w) (signer.sign_prevote (target_of w.rlc hash)) (stopped w) _
        (ground arith) (λ signed. save_and_send-Same _ _ w)

  pub sign_precommit-Same :
      (signer : Signer) (hash : Bytes) (w : World P)
      → Holds (SameHeight w) (sign_precommit cfg signer hash w)
  unfolding sign_precommit
  sign_precommit-Same signer hash w =
      elim_option-Holds (SameHeight w) (signer.sign_precommit (target_of w.rlc hash)) (stopped w) _
        (ground arith) (λ signed. save_and_send-Same _ _ w)

  pub participating-Same :
      (act : Signer → World P → Outcome P) (w : World P)
      → ((signer : Signer) → Holds (SameHeight w) (act signer w))
      → Holds (SameHeight w) (if_participating cfg act w)
  participating-Same act w k =
      elim_option-Holds (SameHeight w) cfg.signer (ok w) _ (ground arith)
        (λ signer. ground (arith, k signer))

  pub leave_proposal-Same : (s : Step) (w : World P) → Holds (SameHeight w) (leave_proposal s w)
  unfolding leave_proposal cancel_timer
  leave_proposal-Same awaiting_proposal w = ground arith
  leave_proposal-Same s w = ground arith

  pub prevote-Same :
      (hash : Bytes) (w : World P)
      → Holds (SameHeight w) ((record_prevote cfg hash >> close_prevote cfg env) w)
  unfolding record_prevote
  prevote-Same hash w =
      closed-Same (record_prevote cfg hash) _ w
        (>>-Holds (SameHeight w) (SameHeight w)
          (if_participating cfg (λ signer. sign_prevote cfg signer hash))
          (λ v. leave_proposal v.rlc.s v) w
          (participating-Same (λ signer. sign_prevote cfg signer hash) w
            (λ signer. sign_prevote-Same signer hash w))
          (λ v q. q)
          (λ v q.
            Holds-weaken (SameHeight v) (SameHeight w) (leave_proposal v.rlc.s v)
              (λ u f. ground (arith, q, f)) (leave_proposal-Same v.rlc.s v)))
        (λ v. ground arith)

  pub precommit-Same :
      (hash : Bytes) (w : World P)
      → Holds (SameHeight w) ((record_precommit cfg hash >> close_precommit cfg env) w)
  unfolding record_precommit
  precommit-Same hash w =
      closed-Same (record_precommit cfg hash) _ w
        (participating-Same (λ signer. sign_precommit cfg signer hash) w
          (λ signer. sign_precommit-Same signer hash w))
        (λ v. ground arith)
