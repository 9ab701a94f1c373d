-- ===== src/Consensus/RoundView.antt =====
-- tm/tmconsensus/roundview.go: the observed state of one round. `P` is the type of the full
-- signature proofs (gcrypto.CommonMessageSignatureProof). Values are immutable here, so a `Clone`
-- of the source is the value itself, and a nil map is the empty one.
use gordian.Prelude.{ℕ, List, [], Bytes, Map}
use gordian.Consensus.Types.{
  ValidatorSet, empty_validator_set, CommitProof, empty_commit_proof, ProposedHeader,
}
use gordian.Consensus.VoteSummary.{VoteSummary, new_vote_summary}
use gordian.Consensus.VoteSummary

pub record RoundView (P : Type 0) : Type 0 where
  pub height : ℕ  -- uint64
  pub round : ℕ  -- uint32
  pub validator_set : ValidatorSet
  pub prev_commit_proof : CommitProof
  pub proposed_headers : List ProposedHeader
  pub prevote_proofs : Map Bytes P
  pub precommit_proofs : Map Bytes P
  pub vote_summary : VoteSummary

pub record VersionedRoundView (P : Type 0) : Type 0 where
  pub round_view : RoundView P
  pub open round_view use *
  pub version : ℕ  -- uint32
  pub prevote_version : ℕ  -- uint32
  pub precommit_version : ℕ  -- uint32
  pub prevote_block_versions : Map Bytes ℕ
  pub precommit_block_versions : Map Bytes ℕ

module _ {P : Type 0} where
  unfoldable pub reset_view_for_same_height : RoundView P → RoundView P
  reset_view_for_same_height v = record v {
    round = 0;
    proposed_headers = [];
    prevote_proofs = [];
    precommit_proofs = [];
    vote_summary = VoteSummary.reset_for_same_height v.vote_summary;
  }

  unfoldable pub reset_view : RoundView P → RoundView P
  reset_view v =
      let v' = reset_view_for_same_height (record v {
        height = 0;
        prev_commit_proof = empty_commit_proof;
        validator_set = empty_validator_set;
      }) in
      record v' { vote_summary = VoteSummary.reset v'.vote_summary }

  unfoldable pub reset_versions : VersionedRoundView P → VersionedRoundView P
  reset_versions v = record v {
    version = 0;
    prevote_version = 0;
    precommit_version = 0;
    prevote_block_versions = [];
    precommit_block_versions = [];
  }

  -- `(*VersionedRoundView).Reset` and `(*VersionedRoundView).ResetForSameHeight`.
  unfoldable pub reset : VersionedRoundView P → VersionedRoundView P
  reset v = reset_versions (record v { round_view = reset_view v.round_view })

  unfoldable pub reset_for_same_height : VersionedRoundView P → VersionedRoundView P
  reset_for_same_height v =
      reset_versions (record v { round_view = reset_view_for_same_height v.round_view })

  -- The zero value.
  abbrev pub zero_round_view : RoundView P
  unfolding new_vote_summary
  zero_round_view = record {
    height = 0;
    round = 0;
    validator_set = empty_validator_set;
    prev_commit_proof = empty_commit_proof;
    proposed_headers = [];
    prevote_proofs = [];
    precommit_proofs = [];
    vote_summary = new_vote_summary;
  }

  abbrev pub zero_view : VersionedRoundView P
  unfolding zero_round_view
  zero_view = record {
    round_view = zero_round_view;
    version = 0;
    prevote_version = 0;
    precommit_version = 0;
    prevote_block_versions = [];
    precommit_block_versions = [];
  }
