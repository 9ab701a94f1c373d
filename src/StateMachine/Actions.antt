-- ===== src/StateMachine/Actions.antt =====
-- What the state machine signs (statemachine.go): `recordProposedHeader`, `recordPrevote` and
-- `recordPrecommit`. An action is stored before it is sent. The outgoing channel holds three, so that
-- a send never blocks while it is set; on a nil channel it hangs.
use gordian.Prelude.{[], ◌∷◌, ◌++◌, Bytes, Option, none, some, if◌then◌else◌}
use gordian.Consensus.Types.{ProposedHeader, VoteTarget}
use gordian.Consensus.RoundView.{VersionedRoundView}
use gordian.Consensus.Step.{Step, awaiting_proposal, awaiting_prevotes}
use gordian.Store.Actions.{
  SaveResult, saved, refused, save_proposed_header_action, save_prevote_action,
  save_precommit_action,
}
use gordian.StateMachine.Lifecycle.{RoundLifecycle, Proposal}
use gordian.StateMachine.World.{
  Signer, Config, RoundAction, propose, prevote, precommit, World, Outcome, ok, stopped, panic,
  hung, ◌>>◌,
}
use gordian.StateMachine.Rounds.{is_participating, with_step, cancel_timer}

module _ {P : Type 0} where
  abbrev pub target_of : RoundLifecycle P → Bytes → VoteTarget
  target_of rlc hash = record { height = rlc.h; round = rlc.r; block_hash = hash }

  -- The save, and then the send; an error of the store stops the kernel.
  unfoldable pub save_and_send : RoundAction → SaveResult → World P → Outcome P
  save_and_send action (refused e) w = stopped w
  save_and_send action (saved store) w =
      let w' = record w { action_store = store } in
      if w.rlc.outgoing_actions_ch
      then ok (record w' { outgoing_actions = w.outgoing_actions ++ action ∷ [] })
      else hung

  -- The own prevote moves the state machine on from awaiting a proposal.
  unfoldable pub leave_proposal : Step → World P → Outcome P
  leave_proposal awaiting_proposal w = cancel_timer (with_step awaiting_prevotes w)
  leave_proposal other w = ok w

  -- The header for a proposal, before its hash and its signature.
  abbrev pub draft : Signer → RoundLifecycle P → VersionedRoundView P → Proposal → ProposedHeader
  draft signer rlc v p = record {
    header = record {
      hash = [];
      prev_block_hash = rlc.prev_block_hash;
      height = rlc.h;
      prev_commit_proof = v.prev_commit_proof;
      validator_set = rlc.cur_val_set;
      next_validator_set = rlc.prev_fin_next_val_set;
      data_id = p.data_id;
      prev_app_state_hash = rlc.prev_fin_app_state_hash;
      annotations = p.block_annotations;
    };
    round = rlc.r;
    proposer_pub_key = signer.pub_key;
    annotations = p.proposal_annotations;
    signature = [];
  }

module _ (cfg : Config) where
  -- The hash and the signature; `none` is an error of either.
  unfoldable pub finish_header : Signer → ProposedHeader → Option ProposedHeader
  finish_header signer ph = elim (cfg.hash_block ph.header) [
    | none ↦ none
    | some hash ↦
        let ph' = record ph { header = record ph.header { hash = hash } } in
        elim (signer.sign_proposed_header ph') [
          | none ↦ none
          | some sig ↦ some (record ph' { signature = sig })
        ]
  ]

module _ {P : Type 0} (cfg : Config) where
  unfoldable pub propose_with : Signer → VersionedRoundView P → Proposal → World P → Outcome P
  propose_with signer v p w = elim (finish_header cfg signer (draft signer w.rlc v p)) [
    | none ↦ stopped w
    | some ph ↦ save_and_send (propose ph) (save_proposed_header_action ph w.action_store) w
  ]

  -- A nil view or a nil signer is a nil dereference.
  unfoldable pub record_proposed_header : Proposal → World P → Outcome P
  record_proposed_header p w = elim w.rlc.vrv [
    | none ↦ panic
    | some v ↦ elim cfg.signer [ none ↦ panic | some signer ↦ propose_with signer v p w ]
  ]

  unfoldable pub sign_prevote : Signer → Bytes → World P → Outcome P
  sign_prevote signer hash w =
      let vt = target_of w.rlc hash in
      elim (signer.sign_prevote vt) [
        | none ↦ stopped w
        | some (content, sig) ↦
            save_and_send (prevote vt content sig)
              (save_prevote_action signer.pub_key vt sig w.action_store) w
      ]

  unfoldable pub sign_precommit : Signer → Bytes → World P → Outcome P
  sign_precommit signer hash w =
      let vt = target_of w.rlc hash in
      elim (signer.sign_precommit vt) [
        | none ↦ stopped w
        | some (content, sig) ↦
            save_and_send (precommit vt content sig)
              (save_precommit_action signer.pub_key vt sig w.action_store) w
      ]

  -- The signer, if it is in the current validator set.
  abbrev pub if_participating : (Signer → World P → Outcome P) → World P → Outcome P
  if_participating act w = elim cfg.signer [
    | none ↦ ok w
    | some signer ↦ if is_participating cfg w.rlc then act signer w else ok w
  ]

  unfoldable pub record_prevote : Bytes → World P → Outcome P
  record_prevote hash =
      if_participating (λ signer. sign_prevote signer hash) >> λ w. leave_proposal w.rlc.s w

  unfoldable pub record_precommit : Bytes → World P → Outcome P
  record_precommit hash = if_participating (λ signer. sign_precommit signer hash)
