-- ===== src/StateMachine/SignActions.antt =====
-- What the record functions of the state machine (statemachine.go) send stands in the action store.
use gordian.Prelude.{
  ◌≡◌, refl, sym, subst, inl, inr, Bytes, Option, none, some, All, arith, if◌then◌else◌, Bool-cases,
}
use gordian.Consensus.Step.{Step, awaiting_proposal}
use gordian.Consensus.RoundView.{VersionedRoundView}
use gordian.Store.Actions.{save_action, save_prevote_action, save_precommit_action}
use gordian.StateMachine.Lifecycle.{Proposal}
use gordian.StateMachine.World.{
  Signer, Config, propose, prevote, precommit, World, Outcome, ok, stopped, panic, ◌>>◌,
}
use gordian.StateMachine.Rounds.{is_participating, cancel_timer}
use gordian.StateMachine.Actions.{
  save_and_send, leave_proposal, draft, finish_header, propose_with, record_proposed_header,
  sign_prevote, sign_precommit, record_prevote, record_precommit, target_of, if_participating,
}
use gordian.StateMachine.Outcomes.{Holds, >>-Holds, Holds-weaken, elim_option-Holds}
use gordian.StateMachine.Unsigned.{SameSigned}
use gordian.StateMachine.SignsOnce.{IsStored, IsHonest, save_and_send-Honest}
use gordian.StateMachine.Agreement.{SignsVotes}

-- The configured signer, if there is one, signs its votes.
abbrev pub VotesSigned : Config → Type 0
VotesSigned cfg = (signer : Signer) → cfg.signer ≡ some signer → SignsVotes signer

module _ {P : Type 0} where
  pub then-IsHonest :
      (f g : World P → Outcome P) (w : World P)
      → Holds IsHonest (f w)
      → ((v : World P) → IsHonest v → Holds IsHonest (g v))
      → Holds IsHonest ((f >> g) w)
  then-IsHonest f g w h k = >>-Holds IsHonest IsHonest f g w h (λ v q. q) k

  -- What neither saves nor sends an action keeps all that was sent in the store.
  pub SameSigned-Honest : (w v : World P) → IsHonest w → SameSigned w v → IsHonest v
  SameSigned-Honest w v y f =
      subst (λ l. All (IsStored v.action_store) l) (sym f.same_outgoing)
        (subst (λ s. All (IsStored s) w.outgoing_actions) (sym f.same_actions) y)

  pub unsigned :
      (w : World P) (o : Outcome P) → IsHonest w → Holds (SameSigned w) o → Holds IsHonest o
  unsigned w o y h = Holds-weaken (SameSigned w) IsHonest o (λ v f. SameSigned-Honest w v y f) h

  leave_proposal-Honest :
      (s : Step) (w : World P) → IsHonest w → Holds IsHonest (leave_proposal s w)
  leave_proposal-Honest s w y = unsigned w (leave_proposal s w) y (same s)
    where
      same : (s : Step) → Holds (SameSigned w) (leave_proposal s w)
      same awaiting_proposal = unfold leave_proposal in unfold cancel_timer in ground arith
      same s = unfold leave_proposal in ground arith

module _ {P : Type 0} (cfg : Config) where
  propose_with-Honest :
      (signer : Signer) (v : VersionedRoundView P) (p : Proposal) (w : World P)
      → IsHonest w
      → Holds IsHonest (propose_with cfg signer v p w)
  unfolding propose_with save_action
  propose_with-Honest signer v p w y =
      elim_option-Holds IsHonest (finish_header cfg signer (draft signer w.rlc v p)) (stopped w) _ y
        (λ ph. save_and_send-Honest signer.pub_key (propose ph) w tt y)

  pub record_proposed_header-Honest :
      (p : Proposal) (w : World P) → IsHonest w → Holds IsHonest (record_proposed_header cfg p w)
  unfolding record_proposed_header
  record_proposed_header-Honest p w y = elim_option-Holds IsHonest w.rlc.vrv panic _ tt (λ v.
      elim_option-Holds IsHonest cfg.signer panic _ tt
        (λ signer. propose_with-Honest signer v p w y))

  sign_prevote-Honest :
      (signer : Signer) (hash : Bytes) (w : World P)
      → SignsVotes signer
      → IsHonest w
      → Holds IsHonest (sign_prevote cfg signer hash w)
  unfolding sign_prevote save_action
  sign_prevote-Honest signer hash w s y = go (signer.sign_prevote (target_of w.rlc hash)) refl
    where
      go :
          (o : Option (Bytes × Bytes))
          → signer.sign_prevote (target_of w.rlc hash) ≡ o
          → Holds IsHonest (elim o [
            | none ↦ stopped w
            | some (content, sig) ↦
                save_and_send
                  (prevote (target_of w.rlc hash) content sig)
                  (save_prevote_action signer.pub_key (target_of w.rlc hash) sig w.action_store)
                  w
          ])
      go none q = y
      go (some (content, sig)) q =
          save_and_send-Honest signer.pub_key (prevote (target_of w.rlc hash) content sig) w
            (s.prevote_signed (target_of w.rlc hash) (content, sig) q) y

  sign_precommit-Honest :
      (signer : Signer) (hash : Bytes) (w : World P)
      → SignsVotes signer
      → IsHonest w
      → Holds IsHonest (sign_precommit cfg signer hash w)
  unfolding sign_precommit save_action
  sign_precommit-Honest signer hash w s y = go (signer.sign_precommit (target_of w.rlc hash)) refl
    where
      go :
          (o : Option (Bytes × Bytes))
          → signer.sign_precommit (target_of w.rlc hash) ≡ o
          → Holds IsHonest (elim o [
            | none ↦ stopped w
            | some (content, sig) ↦
                save_and_send
                  (precommit (target_of w.rlc hash) content sig)
                  (save_precommit_action signer.pub_key (target_of w.rlc hash) sig w.action_store)
                  w
          ])
      go none q = y
      go (some (content, sig)) q =
          save_and_send-Honest signer.pub_key (precommit (target_of w.rlc hash) content sig) w
            (s.precommit_signed (target_of w.rlc hash) (content, sig) q) y

  participating-Honest :
      (act : Signer → World P → Outcome P) (w : World P)
      → IsHonest w
      → ((signer : Signer) → cfg.signer ≡ some signer → Holds IsHonest (act signer w))
      → Holds IsHonest (if_participating cfg act w)
  participating-Honest act w y k = go cfg.signer refl
    where
      go :
          (o : Option Signer)
          → cfg.signer ≡ o
          → Holds IsHonest (elim o [
            | none ↦ ok w
            | some signer ↦ if is_participating cfg w.rlc then act signer w else ok w
          ])
      go none q = y
      go (some signer) q = elim (Bool-cases (is_participating cfg w.rlc)) [
        | inl e ↦ rw (e, Holds) (k signer q)
        | inr e ↦ rw (e, Holds) y
      ]

  pub record_prevote-Honest :
      VotesSigned cfg
      → (hash : Bytes) (w : World P) → IsHonest w
      → Holds IsHonest (record_prevote cfg hash w)
  unfolding record_prevote
  record_prevote-Honest s hash w y =
      then-IsHonest (if_participating cfg (λ signer. sign_prevote cfg signer hash))
        (λ v. leave_proposal v.rlc.s v) w
        (participating-Honest (λ signer. sign_prevote cfg signer hash) w y
          (λ signer q. sign_prevote-Honest signer hash w (s signer q) y))
        (λ v. leave_proposal-Honest v.rlc.s v)

  pub record_precommit-Honest :
      VotesSigned cfg
      → (hash : Bytes) (w : World P) → IsHonest w
      → Holds IsHonest (record_precommit cfg hash w)
  unfolding record_precommit
  record_precommit-Honest s hash w y =
      participating-Honest (λ signer. sign_precommit cfg signer hash) w y
        (λ signer q. sign_precommit-Honest signer hash w (s signer q) y)
