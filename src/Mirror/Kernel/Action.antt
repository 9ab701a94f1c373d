-- ===== src/Mirror/Kernel/Action.antt =====
-- The own actions arriving at the kernel: `handleStateMachineAction` in kernel.go. The scheme that
-- makes a signature proof and adds a signature to one is a parameter.
use gordian.Prelude.{
  ℕ, Bool, false, [], ◌∷◌, List, Bytes, bytes_eq, bytes_key, Map, lookup, get_or, Option, none,
  some, ◌||◌, not, if◌then◌else◌,
}
use gordian.Consensus.Types.{PubKey, ProposedHeader, validators_to_pub_keys}
use gordian.Mirror.Outgoing.{ViewId, voting, committing}
use gordian.Mirror.KState.{KState, ViewLookupStatus, find_view}
use gordian.Mirror.Kernel.World.{SignatureProofs, Env, World, Outcome, done, panic}
use gordian.Mirror.Kernel.Votes.{AddVoteRequest, read_view, add_prevote, add_precommit}
use gordian.Mirror.Kernel.Headers.{add_proposed_header}

-- tmeil.ScopedSignature: its height and round are those of the state machine's entrance.
pub record ScopedSignature : Type 0 where
  pub target_hash : Bytes
  pub sign_content : Bytes
  pub sig : Bytes

pub record StateMachineRoundAction : Type 0 where
  pub ph : ProposedHeader
  pub prevote : ScopedSignature
  pub precommit : ScopedSignature

-- gcrypto.CommonMessageSignatureProofScheme.New and AddSignature; `none` is an error.
pub record ProofScheme (P : Type 0) : Type 0 where
  pub new_proof : Bytes → List PubKey → Bytes → Option P
  pub add_signature : P → Bytes → PubKey → Option P

abbrev pub is_present : Bytes → Bool
is_present b = not (bytes_eq b [])

module _ {P : Type 0} (scheme : ProofScheme P) where
  -- The proof for the hash that is there, or an empty one for the validators of the voting view.
  unfoldable pub existing_vote : KState P → Map Bytes P → ScopedSignature → Option P
  existing_vote s votes act = elim (lookup act.target_hash votes) [
    | none ↦
        scheme.new_proof act.sign_content (validators_to_pub_keys s.voting.validator_set.validators)
          s.voting.validator_set.pub_key_hash
    | some p ↦ some p
  ]

  -- The proof with the own signature; `none` is an error, which is logged.
  unfoldable pub updated_vote : KState P → Map Bytes P → ScopedSignature → Option P
  updated_vote s votes act = elim (existing_vote s votes act) [
    | none ↦ none
    | some p ↦ scheme.add_signature p act.sig s.state_machine_view_manager.round_entrance.pub_key
  ]

  -- The request for one vote, on the current version of its block.
  abbrev pub own_request : KState P → Map Bytes ℕ → Bytes → P → AddVoteRequest P
  own_request s versions hash p =
      let re = s.state_machine_view_manager.round_entrance in
      record {
        h = re.h;
        r = re.r;
        updates = (hash, record { proof = p; prev_version = get_or versions hash 0 }) ∷ [];
        responds = false;
      }

module _ {P : Type 0} (proofs_of : SignatureProofs P) (scheme : ProofScheme P) (env : Env) where
  unfoldable pub own_prevote : ViewId → ScopedSignature → World P → Outcome P
  own_prevote id act w =
      let v = read_view w.state id in
      elim (updated_vote scheme w.state v.prevote_proofs act) [
        | none ↦ done w
        | some p ↦
            add_prevote proofs_of env
              (own_request scheme w.state v.prevote_block_versions act.target_hash p) w
      ]

  unfoldable pub own_precommit : ViewId → ScopedSignature → World P → Outcome P
  own_precommit id act w =
      let v = read_view w.state id in
      elim (updated_vote scheme w.state v.precommit_proofs act) [
        | none ↦ done w
        | some p ↦
            add_precommit proofs_of env
              (own_request scheme w.state v.precommit_block_versions act.target_hash p) w
      ]

  -- The vote, once its view is known. Two votes in one action are a panic.
  unfoldable pub own_vote : ViewId → StateMachineRoundAction → World P → Outcome P
  own_vote id act w =
      if is_present act.prevote.sig
      then if is_present act.precommit.sig then panic else own_prevote id act.prevote w
      else own_precommit id act.precommit w

  -- A vote for another view than the voting and the committing one is dropped.
  unfoldable pub own_vote_in :
      Option (ViewId × ViewLookupStatus) → StateMachineRoundAction → World P → Outcome P
  own_vote_in none act w = panic
  own_vote_in (some (voting, st)) act w = own_vote voting act w
  own_vote_in (some (committing, st)) act w = own_vote committing act w
  own_vote_in (some (id, st)) act w = done w

  unfoldable pub handle_state_machine_action : StateMachineRoundAction → World P → Outcome P
  handle_state_machine_action act w =
      let has_vote = is_present act.prevote.sig || is_present act.precommit.sig in
      let re = w.state.state_machine_view_manager.round_entrance in
      if is_present act.ph.header.hash
      then if has_vote then panic else add_proposed_header proofs_of env act.ph w
      else if has_vote
      then own_vote_in (find_view w.state re.h re.r) act w
      else panic
