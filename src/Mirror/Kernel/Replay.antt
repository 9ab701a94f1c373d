-- ===== src/Mirror/Kernel/Replay.antt =====
-- A replayed header: `handleReplayedHeader` in kernel.go, and tm/tmengine/tmelink/replayedheader.go.
use gordian.Prelude.{
  ℕ, ◌==◌, not, List, [], ◌∷◌, ◌++◌, Bytes, bytes_eq, bytes_key, contains_func, Map, lookup, insert,
  Option, none, some, if◌then◌else◌, ltb, Bool,
}
use gordian.Consensus.Types.{
  Header, ProposedHeader, CommitProof, SparseSignature, VoteTarget, Validator,
  validators_to_pub_keys, no_annotations,
}
use gordian.Consensus.Math.{byzantine_majority}
use gordian.Consensus.VoteSummary.{add_votes, set_precommit_powers}
use gordian.Mirror.KState.{KState}
use gordian.Mirror.Kernel.World.{
  SignatureProofs, save_round_replayed_header, overwrite_round_precommit_proofs, Env, World,
  Outcome, done, failed, panic, call, with_state, map_to_sparse_signature_collection,
}
use gordian.Mirror.Kernel.Shift.{jump, check_voting_precommit_view_shift}
use gordian.Mirror.Kernel.Action.{ProofScheme}

-- What the kernel is given for replays: HashScheme.Block, PrecommitSignBytes of the signature scheme,
-- and MergeSparse's AllValidSignatures; `none` is an error. Also which saves of the round store fail.
pub record ReplayEnv (P : Type 0) : Type 0 where
  pub hash_block : Header → Option Bytes
  pub precommit_sign_bytes : VoteTarget → Option Bytes
  pub all_valid_signatures : P → Bytes → List SparseSignature → Bool
  pub save_round_replayed_header_fails : Bool
  pub overwrite_round_precommit_proofs_fails : Bool

-- ReplayedHeaderOutOfSyncError, ReplayedHeaderValidationError, ReplayedHeaderInternalError.
pub data ReplayError : Type 0 where
  out_of_sync : ℕ → ℕ → ReplayError
  validation : ReplayError
  internal : ReplayError

pub data Replayed (P : Type 0) : Type 0 where
  replayed : World P → Replayed P
  rejected : ReplayError → World P → Replayed P
  replay_panic : Replayed P

-- The temporary proofs, or why there are none.
pub data Merged (P : Type 0) : Type 0 where
  merged : Map Bytes P → Merged P
  refused : ReplayError → Merged P
  no_validators : Merged P

-- A replayed header as a proposed header: without proposer, annotations and signature.
abbrev pub fake_ph : Header → ℕ → ProposedHeader
fake_ph header round = record {
  header = header;
  round = round;
  proposer_pub_key = [];
  annotations = no_annotations;
  signature = [];
}

-- The power of the set bits.
abbrev pub power_of : List Validator → List Bool → ℕ
power_of vals bits = (add_votes vals bits (0, 0)).1

module _ {P : Type 0} where
  -- The loop that writes the proofs back.
  unfoldable pub write_proofs : Map Bytes P → Map Bytes P → Map Bytes P
  write_proofs [] m = m
  write_proofs ((h, p) ∷ ps) m = write_proofs ps (insert h p m)

  abbrev pub with_voting_headers : List ProposedHeader → World P → World P
  with_voting_headers phs w = with_state w (record w.state {
    voting = record w.state.voting {
      round_view = record w.state.voting.round_view { proposed_headers = phs };
    };
  })

module _ {P : Type 0} (proofs_of : SignatureProofs P) (scheme : ProofScheme P) (env : Env)
    (replay : ReplayEnv P) where
  -- An empty proof for the header's validators.
  unfoldable pub fresh_proof : Header → ℕ → Bytes → Merged P
  fresh_proof header round hash =
      elim (replay.precommit_sign_bytes
        (record { height = header.height; round = round; block_hash = hash })) [
          | none ↦ refused internal
          | some content ↦ elim header.validator_set.validators [
            | [] ↦ no_validators
            | v ∷ vs ↦
                elim (scheme.new_proof content (validators_to_pub_keys (v ∷ vs))
                  header.validator_set.pub_key_hash) [
                    | none ↦ refused internal
                    | some p ↦ merged ((hash, p) ∷ [])
                  ]
          ]
        ]

  -- The signatures for one hash, merged into what is there.
  unfoldable pub merge_into : Header → Bytes → List SparseSignature → P → Merged P
  merge_into header hash sigs p =
      let key_hash = header.validator_set.pub_key_hash in
      if replay.all_valid_signatures p key_hash sigs
      then merged ((hash, (proofs_of.merge_sparse p key_hash sigs).0) ∷ [])
      else refused validation

  unfoldable pub merge_one : KState P → Header → ℕ → Bytes → List SparseSignature → Merged P
  merge_one s header round hash sigs = elim (lookup hash s.voting.precommit_proofs) [
    | some p ↦ merge_into header hash sigs p
    | none ↦ elim (fresh_proof header round hash) [
      | merged [] ↦ merged []
      | merged ((h, p) ∷ m) ↦ merge_into header hash sigs p
      | refused e ↦ refused e
      | no_validators ↦ no_validators
    ]
  ]

  -- The loop over the proofs, which ends at the first that fails.
  unfoldable pub merge_replayed :
      KState P → Header → ℕ → Map Bytes (List SparseSignature) → Merged P
  merge_replayed s header round [] = merged []
  merge_replayed s header round ((hash, sigs) ∷ proofs) =
      let rest = merge_replayed s header round proofs in
      elim (merge_one s header round hash sigs) [
        | merged one ↦ elim rest [
          | merged m ↦ merged (one ++ m)
          | refused e ↦ refused e
          | no_validators ↦ no_validators
        ]
        | refused e ↦ refused e
        | no_validators ↦ no_validators
      ]

  abbrev pub with_replayed : Map Bytes P → KState P → KState P
  with_replayed temp s =
      let proofs = write_proofs temp s.voting.precommit_proofs in
      record s {
        voting = record s.voting {
          round_view = record s.voting.round_view {
            precommit_proofs = proofs;
            vote_summary =
                set_precommit_powers proofs_of.bits s.voting.vote_summary
                  s.voting.validator_set.validators proofs;
          };
        };
      }

  abbrev pub shifted : Outcome P → Replayed P
  shifted (done w) = replayed w
  shifted (failed w) = rejected internal w
  shifted panic = replay_panic

  -- The proofs are written to the view and to the store, and the view is shifted.
  unfoldable pub store_replayed : Header → ℕ → Map Bytes P → World P → Replayed P
  store_replayed header round temp w =
      let s = with_replayed temp w.state in
      elim (map_to_sparse_signature_collection proofs_of s.voting.precommit_proofs) [
        | none ↦ replay_panic
        | some c ↦
            let w' =
              call (overwrite_round_precommit_proofs header.height round c) (with_state w s) in
            if replay.overwrite_round_precommit_proofs_fails
            then rejected internal w'
            else shifted (check_voting_precommit_view_shift proofs_of env w')
      ]

  -- The header's own signatures need the majority; without any the proof is nil.
  unfoldable pub replay_votes : Header → ℕ → Map Bytes P → World P → Replayed P
  replay_votes header round temp w = elim (lookup header.hash temp) [
    | none ↦ replay_panic
    | some p ↦ elim (byzantine_majority w.state.voting.vote_summary.available_power) [
      | none ↦ replay_panic
      | some maj ↦
          if ltb (power_of header.validator_set.validators (proofs_of.bits p)) maj
          then rejected validation w
          else store_replayed header round temp w
    ]
  ]

  -- The header is kept once.
  unfoldable pub replay_header : Header → ℕ → Map Bytes P → World P → Replayed P
  replay_header header round temp w =
      let phs = w.state.voting.proposed_headers in
      if contains_func (λ ph. bytes_eq ph.header.hash header.hash) phs
      then replay_votes header round temp w
      else let w' = call (save_round_replayed_header header) w in
        if replay.save_round_replayed_header_fails
        then rejected internal w'
        else replay_votes header round temp
            (with_voting_headers (phs ++ fake_ph header round ∷ []) w')

  unfoldable pub replay_merged : Header → ℕ → Merged P → World P → Replayed P
  replay_merged header round (merged temp) w = replay_header header round temp w
  replay_merged header round (refused e) w = rejected e w
  replay_merged header round no_validators w = replay_panic

  -- After the jump, if any.
  unfoldable pub replay_in_round : Header → CommitProof → World P → Replayed P
  replay_in_round header proof w = elim (replay.hash_block header) [
    | none ↦ rejected validation w
    | some hash ↦
        if not (bytes_eq hash header.hash)
        then rejected validation w
        else replay_merged header proof.round
            (merge_replayed w.state header proof.round proof.proofs) w
  ]

  unfoldable pub replay_after : Header → CommitProof → Outcome P → Replayed P
  replay_after header proof (done w) = replay_in_round header proof w
  replay_after header proof (failed w) = rejected internal w
  replay_after header proof panic = replay_panic

  unfoldable pub handle_replayed_header : Header → CommitProof → World P → Replayed P
  handle_replayed_header header proof w =
      let v = w.state.voting in
      if not (header.height == v.height)
      then rejected (out_of_sync v.height header.height) w
      else if ltb proof.round v.round
      then replay_panic
      else replay_after header proof (if ltb v.round proof.round then jump env w else done w)
