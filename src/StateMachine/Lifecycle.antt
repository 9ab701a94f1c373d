-- ===== src/StateMachine/Lifecycle.antt =====
-- tm/tmengine/internal/tmstate/internal/tsi/roundlifecycle.go and consensusmanager.go: what the
-- state machine keeps for one round. A channel is a Boolean, false where it is nil: each round makes
-- its own, so what arrives for an earlier round is never read. The fields StepTimer and CancelTimer
-- are set and cleared together, and are one field here. The debug assertions are left out.
use gordian.Prelude.{
  ℕ, Bool, true, false, List, [], ◌∷◌, Bytes, bytes_eq, contains_func, Option, none, some,
  if◌then◌else◌,
}
use gordian.Consensus.Types.{ValidatorSet, empty_validator_set, ProposedHeader, Annotations}
use gordian.Consensus.RoundView.{VersionedRoundView}
use gordian.Consensus.Step.{Step}

-- A running timer, with the height and the round that it was started for.
pub data Timer : Type 0 where
  proposal_timer prevote_delay_timer precommit_delay_timer commit_wait_timer : ℕ → ℕ → Timer

pub record RoundLifecycle (P : Type 0) : Type 0 where
  pub h : ℕ  -- uint64
  pub r : ℕ  -- uint32
  pub s : Step
  pub step_timer : Option Timer
  pub height_committed : Bool
  pub cur_val_set : ValidatorSet
  pub prev_val_set : ValidatorSet
  pub vrv : Option (VersionedRoundView P)
  pub prev_block_hash : Bytes
  pub prev_fin_next_val_set : ValidatorSet
  pub prev_fin_app_state_hash : Bytes
  pub prev_considered_hashes : List Bytes
  pub outgoing_actions_ch : Bool
  pub proposal_ch : Bool
  pub prevote_hash_ch : Bool
  pub precommit_hash_ch : Bool
  pub finalize_resp_ch : Bool
  pub finalized_val_set : ValidatorSet
  pub finalized_app_state_hash : Bytes
  pub finalized_block_hash : Bytes
  pub commit_wait_elapsed : Bool

module _ {P : Type 0} where
  unfoldable pub reset : ℕ → ℕ → RoundLifecycle P → RoundLifecycle P
  reset h r rlc = record rlc {
    h = h;
    r = r;
    step_timer = none;
    proposal_ch = true;
    prevote_hash_ch = true;
    precommit_hash_ch = true;
    finalize_resp_ch = true;
    height_committed = true;
    commit_wait_elapsed = false;
    prev_considered_hashes = [];
  }

  unfoldable pub mark_catching_up : RoundLifecycle P → RoundLifecycle P
  mark_catching_up rlc = record rlc {
    proposal_ch = false;
    prevote_hash_ch = false;
    precommit_hash_ch = false;
    commit_wait_elapsed = true;
  }

  unfoldable pub is_replaying : RoundLifecycle P → Bool
  is_replaying rlc = elim rlc.vrv [ none ↦ true | some v ↦ false ]

  unfoldable pub cycle_finalization : RoundLifecycle P → RoundLifecycle P
  cycle_finalization rlc = record rlc {
    prev_fin_next_val_set = rlc.finalized_val_set;
    prev_val_set = rlc.cur_val_set;
    cur_val_set = rlc.prev_fin_next_val_set;
    finalized_val_set = empty_validator_set;
    prev_fin_app_state_hash = rlc.finalized_app_state_hash;
    finalized_app_state_hash = [];
    prev_block_hash = rlc.finalized_block_hash;
    finalized_block_hash = [];
  }

-- tmconsensus.ConsiderProposedBlocksReason.
pub record Reason : Type 0 where
  pub new_proposed_blocks : List Bytes
  pub updated_block_data_ids : List Bytes
  pub majority_voting_power_present : Bool

-- `result` is the prevote channel, which the answer goes to.
pub record ConsiderProposedBlocksRequest : Type 0 where
  pub phs : List ProposedHeader
  pub reason : Reason
  pub result : Bool

-- tmconsensus.Proposal.
pub record Proposal : Type 0 where
  pub data_id : Bytes
  pub proposal_annotations : Annotations
  pub block_annotations : Annotations

-- HashSelection: `none` is an error of the strategy.
abbrev pub HashSelection : Type 0
HashSelection = Option Bytes

abbrev pub seen : Bytes → List Bytes → Bool
seen hash = contains_func (bytes_eq hash)

-- The loop of `MarkReasonNewHashes`: the hashes that are new, and all that were considered.
unfoldable pub mark_new : List ProposedHeader → List Bytes → List Bytes × List Bytes
mark_new [] prev = ([], prev)
mark_new (ph ∷ phs) prev =
    let hash = ph.header.hash in
    let known = seen hash prev in
    let (new, all) = mark_new phs (if known then prev else hash ∷ prev) in
    (if known then new else hash ∷ new, all)

module _ {P : Type 0} where
  -- The request for the headers, its new hashes marked in it and in the lifecycle.
  unfoldable pub mark_reason_new_hashes :
      List ProposedHeader
      → Bool
      → RoundLifecycle P
      → ConsiderProposedBlocksRequest × RoundLifecycle P
  mark_reason_new_hashes phs majority rlc =
      let (new, all) = mark_new phs rlc.prev_considered_hashes in
      (
        record {
          phs = phs;
          reason = record {
            new_proposed_blocks = new;
            updated_block_data_ids = [];
            majority_voting_power_present = majority;
          };
          result = rlc.prevote_hash_ch;
        },
        record rlc { prev_considered_hashes = all },
      )
