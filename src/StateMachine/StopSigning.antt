-- ===== src/StateMachine/StopSigning.antt =====
-- When the signing of a proposal or a vote (statemachine.go) reports false.
use gordian.Prelude.{◌≡◌, ◌⊎◌, inl, inr, Bytes, none, some}
use gordian.Consensus.Types.{ProposedHeader}
use gordian.Consensus.Step.{Step, awaiting_proposal}
use gordian.Store.Actions.{
  SaveResult, saved, refused, save_proposed_header_action, save_prevote_action,
  save_precommit_action,
}
use gordian.StateMachine.Lifecycle.{Proposal}
use gordian.StateMachine.World.{
  Signer, Config, RoundAction, propose, World, Outcome, ok, stopped, panic, hung,
}
use gordian.StateMachine.Rounds.{is_participating}
use gordian.StateMachine.Actions.{
  save_and_send, leave_proposal, draft, finish_header, propose_with, record_proposed_header,
  sign_prevote, sign_precommit, record_prevote, record_precommit, target_of, if_participating,
}
use gordian.StateMachine.Stops.{
  Stops, ok-Stops, panic-Stops, hung-Stops, stopped-Stops, >>-Stops, if-Stops, elim_option-Stops,
  cancel_timer-Stops,
}

-- The store of the own actions did not take an action.
abbrev pub IsRefused : SaveResult → Type 0
IsRefused (saved t) = ⊥
IsRefused (refused e) = Unit

module _ {P : Type 0} where
  save_and_send-Stops :
      (C : Type 0) (a : RoundAction) (r : SaveResult) (w : World P)
      → (IsRefused r → C)
      → Stops C (save_and_send a r w)
  unfolding save_and_send
  save_and_send-Stops C a (refused e) w k = stopped-Stops C w (k tt)
  save_and_send-Stops C a (saved t) w k =
      if-Stops C w.rlc.outgoing_actions_ch _ hung (λ q. ok-Stops C _) (λ q. hung-Stops C)

  leave_proposal-Stops : (C : Type 0) (s : Step) (w : World P) → Stops C (leave_proposal s w)
  unfolding leave_proposal
  leave_proposal-Stops C awaiting_proposal w = cancel_timer-Stops C _
  leave_proposal-Stops C s w = ok-Stops C w

module _ {P : Type 0} (cfg : Config) where
  -- The header could not be hashed or signed, or was not taken by the store.
  abbrev pub Unproposed : Proposal → World P → Type 0
  Unproposed p w =
      (signer : Signer) × (v : _) × (cfg.signer ≡ some signer)
      × (w.rlc.vrv ≡ some v)
      × ((finish_header cfg signer (draft signer w.rlc v p) ≡ none)
          ⊎ ((ph : ProposedHeader) × (finish_header cfg signer (draft signer w.rlc v p) ≡ some ph)
              × IsRefused (save_proposed_header_action ph w.action_store)))

  -- The vote could not be signed, or was not taken by the store.
  abbrev pub Unprevoted : Bytes → World P → Type 0
  Unprevoted hash w =
      let vt = target_of w.rlc hash in
      (signer : Signer) × (cfg.signer ≡ some signer)
      × ((signer.sign_prevote vt ≡ none)
          ⊎ ((x : Bytes × Bytes) × (signer.sign_prevote vt ≡ some x)
              × IsRefused (save_prevote_action signer.pub_key vt x.1 w.action_store)))

  abbrev pub Unprecommitted : Bytes → World P → Type 0
  Unprecommitted hash w =
      let vt = target_of w.rlc hash in
      (signer : Signer) × (cfg.signer ≡ some signer)
      × ((signer.sign_precommit vt ≡ none)
          ⊎ ((x : Bytes × Bytes) × (signer.sign_precommit vt ≡ some x)
              × IsRefused (save_precommit_action signer.pub_key vt x.1 w.action_store)))

  pub record_proposed_header-Stops :
      (p : Proposal) (w : World P) → Stops (Unproposed p w) (record_proposed_header cfg p w)
  unfolding record_proposed_header propose_with
  record_proposed_header-Stops p w =
      let C = Unproposed p w in
      elim_option-Stops C w.rlc.vrv panic _ (λ q. panic-Stops C)
        (λ v seen.
          elim_option-Stops C cfg.signer panic _ (λ q. panic-Stops C)
            (λ signer own.
              elim_option-Stops C (finish_header cfg signer (draft signer w.rlc v p)) (stopped w) _
                (λ q. stopped-Stops C w (signer, v, own, seen, inl q))
                (λ ph q.
                  save_and_send-Stops C (propose ph) _ w
                    (λ r. (signer, v, own, seen, inr (ph, q, r))))))

  if_participating-Stops :
      (C : Type 0) (act : Signer → World P → Outcome P) (w : World P)
      → ((signer : Signer) → cfg.signer ≡ some signer → Stops C (act signer w))
      → Stops C (if_participating cfg act w)
  if_participating-Stops C act w k =
      elim_option-Stops C cfg.signer (ok w) _ (λ q. ok-Stops C w)
        (λ signer own.
          if-Stops C (is_participating cfg w.rlc) (act signer w) (ok w) (λ q. k signer own)
            (λ q. ok-Stops C w))

  pub record_prevote-Stops :
      (hash : Bytes) (w : World P) → Stops (Unprevoted hash w) (record_prevote cfg hash w)
  unfolding record_prevote sign_prevote
  record_prevote-Stops hash w =
      let C = Unprevoted hash w in
      >>-Stops C (if_participating cfg (λ signer. sign_prevote cfg signer hash))
        (λ u. leave_proposal u.rlc.s u) w
        (if_participating-Stops C (λ signer. sign_prevote cfg signer hash) w
          (λ signer own.
            elim_option-Stops C (signer.sign_prevote (target_of w.rlc hash)) (stopped w) _
              (λ q. stopped-Stops C w (signer, own, inl q))
              (λ x q. save_and_send-Stops C _ _ w (λ r. (signer, own, inr (x, q, r))))))
        (λ u e. leave_proposal-Stops C u.rlc.s u)

  pub record_precommit-Stops :
      (hash : Bytes) (w : World P) → Stops (Unprecommitted hash w) (record_precommit cfg hash w)
  unfolding record_precommit sign_precommit
  record_precommit-Stops hash w =
      let C = Unprecommitted hash w in
      if_participating-Stops C (λ signer. sign_precommit cfg signer hash) w
        (λ signer own.
          elim_option-Stops C (signer.sign_precommit (target_of w.rlc hash)) (stopped w) _
            (λ q. stopped-Stops C w (signer, own, inl q))
            (λ x q. save_and_send-Stops C _ _ w (λ r. (signer, own, inr (x, q, r)))))
