-- ===== src/StateMachine/ReadySigning.antt =====
-- When the state machine signs (statemachine.go) without a panic and without a hang.
use gordian.Prelude.{◌≡◌, ◌≢◌, refl, subst, ◌⊎◌, true, false, Bytes, none, arith, if◌then◌else◌}
use gordian.Consensus.Step.{Step, awaiting_proposal}
use gordian.Store.Actions.{SaveResult, saved, refused}
use gordian.StateMachine.Lifecycle.{Proposal}
use gordian.StateMachine.World.{
  Signer, Config, RoundAction, propose, World, Outcome, ok, stopped, panic, hung,
}
use gordian.StateMachine.Rounds.{is_participating, cancel_timer}
use gordian.StateMachine.Actions.{
  save_and_send, leave_proposal, draft, finish_header, propose_with, record_proposed_header,
  sign_prevote, sign_precommit, record_prevote, record_precommit, target_of, if_participating,
}
use gordian.StateMachine.Outcomes.{Fine, >>-Fine, Fine-weaken, if-Fine, elim_option-Fine}
use gordian.StateMachine.Ready.{Fits, Live, Ready, Live-Ready}

module _ {P : Type 0} where
  pub save_and_send-Live :
      (a : RoundAction) (r : SaveResult) (w : World P)
      → Live w
      → w.rlc.outgoing_actions_ch ≡ true
      → Fine (λ u. Live u × (u.rlc ≡ w.rlc)) (save_and_send a r w)
  unfolding save_and_send
  save_and_send-Live a (refused e) w l o = (l, refl)
  save_and_send-Live a (saved t) w l o =
      if-Fine (λ u. Live u × (u.rlc ≡ w.rlc)) w.rlc.outgoing_actions_ch _ hung
        (λ q. (ground (arith, l), refl)) (λ q. ground (arith, q, o))

  pub leave_proposal-Ready :
      (s : Step) (w : World P) → Live w → w.rlc.s ≡ s → Fine Ready (leave_proposal s w)
  unfolding leave_proposal
  leave_proposal-Ready awaiting_proposal w l s =
      unfold cancel_timer in ground (arith, l, subst (λ s. Fits s w.rlc.step_timer) s l.fits)
  leave_proposal-Ready s w l e = Live-Ready w l

module _ {P : Type 0} (cfg : Config) where
  pub record_proposed_header-Live :
      (p : Proposal) (w : World P)
      → Live w
      → cfg.signer ≢ none
      → w.rlc.outgoing_actions_ch ≡ true
      → Fine Live (record_proposed_header cfg p w)
  unfolding record_proposed_header propose_with
  record_proposed_header-Live p w l ne o =
      elim_option-Fine Live w.rlc.vrv panic _ (λ q. ground (arith, q, l.viewed))
        (λ v. elim_option-Fine Live cfg.signer panic _ ne (λ signer.
          elim_option-Fine Live (finish_header cfg signer (draft signer w.rlc v p)) (stopped w) _
            (λ q. l)
            (λ ph.
              Fine-weaken (λ u. Live u × (u.rlc ≡ w.rlc)) Live (save_and_send (propose ph) _ w)
                (λ u q. q.0) (save_and_send-Live (propose ph) _ w l o))))

  pub sign_prevote-Live :
      (signer : Signer) (hash : Bytes) (w : World P)
      → Live w
      → w.rlc.outgoing_actions_ch ≡ true
      → Fine (λ u. Live u × (u.rlc ≡ w.rlc)) (sign_prevote cfg signer hash w)
  unfolding sign_prevote
  sign_prevote-Live signer hash w l o =
      elim_option-Fine (λ u. Live u × (u.rlc ≡ w.rlc)) (signer.sign_prevote (target_of w.rlc hash))
        (stopped w) _ (λ q. (l, refl)) (λ signed. save_and_send-Live _ _ w l o)

  pub sign_precommit-Live :
      (signer : Signer) (hash : Bytes) (w : World P)
      → Live w
      → w.rlc.outgoing_actions_ch ≡ true
      → Fine (λ u. Live u × (u.rlc ≡ w.rlc)) (sign_precommit cfg signer hash w)
  unfolding sign_precommit
  sign_precommit-Live signer hash w l o =
      elim_option-Fine (λ u. Live u × (u.rlc ≡ w.rlc))
        (signer.sign_precommit (target_of w.rlc hash)) (stopped w) _ (λ q. (l, refl))
        (λ signed. save_and_send-Live _ _ w l o)

  -- The channel for actions is set while the own validator takes part.
  abbrev pub CanSend : World P → Type 0
  CanSend w = (is_participating cfg w.rlc ≡ false) ⊎ (w.rlc.outgoing_actions_ch ≡ true)

  pub participating-Live :
      (act : Signer → World P → Outcome P) (w : World P)
      → Live w
      → CanSend w
      → ((signer : Signer)
          → w.rlc.outgoing_actions_ch ≡ true
          → Fine (λ u. Live u × (u.rlc ≡ w.rlc)) (act signer w))
      → Fine (λ u. Live u × (u.rlc ≡ w.rlc)) (if_participating cfg act w)
  participating-Live act w l c k =
      elim_option-Fine (λ u. Live u × (u.rlc ≡ w.rlc)) cfg.signer (ok w) _ (λ q. (l, refl)) go
    where
      go :
          (signer : Signer)
          → Fine
              (λ u. Live u × (u.rlc ≡ w.rlc))
              (if is_participating cfg w.rlc then act signer w else ok w)
      go signer =
          if-Fine (λ u. Live u × (u.rlc ≡ w.rlc)) (is_participating cfg w.rlc) (act signer w) (ok w)
            (λ e. k signer (ground (arith, c, e))) (λ e. (l, refl))

  pub record_prevote-Ready :
      (hash : Bytes) (w : World P) → Live w → CanSend w → Fine Ready (record_prevote cfg hash w)
  unfolding record_prevote
  record_prevote-Ready hash w l c =
      >>-Fine (λ u. Live u × (u.rlc ≡ w.rlc)) Ready
        (if_participating cfg (λ signer. sign_prevote cfg signer hash))
        (λ u. leave_proposal u.rlc.s u) w
        (participating-Live (λ signer. sign_prevote cfg signer hash) w l c
          (λ signer o. sign_prevote-Live signer hash w l o))
        (λ u q. Live-Ready u q.0) (λ u q. leave_proposal-Ready u.rlc.s u q.0 refl)

  pub record_precommit-Ready :
      (hash : Bytes) (w : World P) → Live w → CanSend w → Fine Ready (record_precommit cfg hash w)
  unfolding record_precommit
  record_precommit-Ready hash w l c =
      Fine-weaken (λ u. Live u × (u.rlc ≡ w.rlc)) Ready
        (if_participating cfg (λ signer. sign_precommit cfg signer hash) w)
        (λ u q. Live-Ready u q.0)
        (participating-Live (λ signer. sign_precommit cfg signer hash) w l c
          (λ signer o. sign_precommit-Live signer hash w l o))
