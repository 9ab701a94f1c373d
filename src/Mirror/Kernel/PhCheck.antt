-- ===== src/Mirror/Kernel/PhCheck.antt =====
-- The kernel's check of a proposed header before the mirror adds it: `sendPHCheckResponse` and
-- `setPHCheckStatus` in kernel.go, and phcheck.go.
use gordian.Prelude.{
  ℕ, ◌+◌, Bool, false, ◌==◌, ◌||◌, List, [], ◌∷◌, Bytes, bytes_eq, Option, none, some,
  if◌then◌else◌, ltb, contains_func, u32, u64,
}
use gordian.Consensus.Types.{Validator, ValidatorSet, empty_validator_set, PubKey, ProposedHeader}
use gordian.Consensus.RoundView.{RoundView, VersionedRoundView}
use gordian.Mirror.Outgoing.{ViewId, voting, committing, next_round}
use gordian.Mirror.KState.{KState}

pub data PhCheckStatus : Type 0 where
  invalid acceptable check_next_height already_have_signature signer_unrecognized : PhCheckStatus
  round_too_old round_too_far_in_future : PhCheckStatus

unfoldable pub is_validator : PubKey → List Validator → Bool
is_validator key [] = false
is_validator key (v ∷ vs) = bytes_eq key v.pub_key || is_validator key vs

pub record PhCheckResponse (P : Type 0) : Type 0 where
  pub status : PhCheckStatus
  pub proposer_pub_key : Option PubKey
  pub prev_block_hash : Bytes
  pub prev_validator_set : ValidatorSet
  pub voting_round_view : Option (RoundView P)

module _ {P : Type 0} where
  abbrev pub status_only : PhCheckStatus → PhCheckResponse P
  status_only st = record {
    status = st;
    proposer_pub_key = none;
    prev_block_hash = [];
    prev_validator_set = empty_validator_set;
    voting_round_view = none;
  }

  -- The previous block, as the view of the header knows it.
  unfoldable pub prev_block : KState P → ViewId → Bytes × ValidatorSet
  prev_block s committing = (s.committing_header.prev_block_hash, empty_validator_set)
  prev_block s _ = (s.committing_header.hash, s.committing_header.validator_set)

  -- The answer once the proposer is among the validators.
  unfoldable pub known_proposer : ℕ → KState P → ProposedHeader → ViewId → PhCheckResponse P
  known_proposer initial_height s ph id =
      let (hash, vals) =
        if ph.header.height == initial_height then ([], empty_validator_set) else prev_block s id in
      record {
        status = acceptable;
        proposer_pub_key = some ph.proposer_pub_key;
        prev_block_hash = hash;
        prev_validator_set = vals;
        voting_round_view = none;
      }

  -- `setPHCheckStatus`, called for the three views of the state.
  unfoldable pub set_ph_check_status :
      ℕ → KState P → ProposedHeader → VersionedRoundView P → ViewId → PhCheckResponse P
  set_ph_check_status initial_height s ph v id =
      if contains_func (λ have. bytes_eq have.signature ph.signature) v.proposed_headers
      then status_only already_have_signature
      else if is_validator ph.proposer_pub_key v.validator_set.validators
      then known_proposer initial_height s ph id
      else status_only signer_unrecognized

  -- The branch of the voting height.
  unfoldable pub check_voting_height : ℕ → KState P → ProposedHeader → Option (PhCheckResponse P)
  check_voting_height initial_height s ph =
      let vr = s.voting.round in
      if ltb ph.round vr
      then some (status_only round_too_old)
      else if ph.round == vr
      then some (set_ph_check_status initial_height s ph s.voting voting)
      else if ph.round == u32 (vr + 1)
      then some (set_ph_check_status initial_height s ph s.next_round next_round)
      else none

  -- `sendPHCheckResponse`: `none` is the panic on a round beyond the known ones.
  unfoldable pub send_ph_check_response : ℕ → KState P → ProposedHeader → Option (PhCheckResponse P)
  send_ph_check_response initial_height s ph =
      let h = ph.header.height in
      let r = ph.round in
      let ch = s.committing.height in
      let cr = s.committing.round in
      let vh = s.voting.height in
      if ltb h ch
      then some (status_only round_too_old)
      else if h == ch
      then if ltb r cr
        then some (status_only round_too_old)
        else if r == cr
        then some (set_ph_check_status initial_height s ph s.committing committing)
        else none
      else if h == vh
      then check_voting_height initial_height s ph
      else if h == u64 (vh + 1)
      then some
          (record (status_only check_next_height) { voting_round_view = some s.voting.round_view })
      else some (status_only round_too_far_in_future)
