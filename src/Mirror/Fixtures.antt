-- ===== src/Mirror/Fixtures.antt =====
-- Concrete states and requests of the mirror, for the runs in the examples.
use gordian.Prelude.{ℕ, refl, Bool, true, false, List, [], ◌∷◌, none, some, arith, inl, Bytes}
use gordian.Consensus.Types.{
  ValidatorSet, SparseSignature, CommitProof, ProposedHeader, zero_header, zero_proposed_header,
  empty_commit_proof,
}
use gordian.Consensus.VoteSummary.{VoteSummary, sum_powers}
use gordian.Consensus.RoundView.{VersionedRoundView}
use gordian.Mirror.Outgoing.{OutgoingView}
use gordian.Mirror.StateMachineView.{open_signal}
use gordian.Mirror.Lag.{zero_lag_state}
use gordian.Mirror.KState.{KState}
use gordian.Mirror.Lookup.{IsSynced, IsShared, IsSharedBy, without_proofs}
use gordian.Mirror.Kernel.World.{SignatureProofs, Env, World, Outcome, done, failed, panic}
use gordian.Mirror.Kernel.Votes.{AddVoteRequest}
use gordian.Mirror.Kernel.Action.{ScopedSignature, StateMachineRoundAction, ProofScheme}
use gordian.Mirror.Kernel.Replay.{ReplayEnv}
use gordian.Prelude.{bytes_key}

-- A proof is the list of its bits; every sparse signature sets one bit more.
abbrev pub merge_bits : List Bool → List SparseSignature → List Bool × Bool
merge_bits p [] = (p, false)
merge_bits p (s ∷ ss) = (true ∷ p, true)

abbrev pub bit_proofs : SignatureProofs (List Bool)
bit_proofs = record {
  bits = λ p. p;
  sparse = λ p. [];
  pub_key_hash = λ p. [];
  merge_sparse = λ p k sigs. merge_bits p sigs;
}

-- The own validator is the first.
abbrev pub bit_scheme : ProofScheme (List Bool)
bit_scheme = record {
  new_proof = λ msg keys key_hash. some (false ∷ false ∷ []);
  add_signature = λ p sig key. some (true ∷ p);
}

abbrev pub two_validators : ValidatorSet
two_validators = record {
  validators = record { pub_key = 1 ∷ []; power = 3 } ∷ record { pub_key = 2 ∷ []; power = 1 } ∷ [];
  pub_key_hash = 5 ∷ [];
  vote_power_hash = 6 ∷ [];
}

abbrev pub block : ProposedHeader
block = record zero_proposed_header {
  header = record zero_header {
    hash = 7 ∷ [];
    height = 2;
    validator_set = two_validators;
    next_validator_set = two_validators;
  };
  signature = 8 ∷ [];
}

abbrev pub no_votes : VoteSummary
no_votes = record {
  available_power = 4;
  total_prevote_power = 0;
  total_precommit_power = 0;
  prevote_block_power = [];
  precommit_block_power = [];
  most_voted_prevote_hash = [];
  most_voted_precommit_hash = [];
}

abbrev pub view_at : ℕ → ℕ → List ProposedHeader → VersionedRoundView (List Bool)
view_at h r phs = record {
  round_view = record {
    height = h;
    round = r;
    validator_set = two_validators;
    prev_commit_proof = empty_commit_proof;
    proposed_headers = phs;
    prevote_proofs = [];
    precommit_proofs = [];
    vote_summary = no_votes;
  };
  version = 1;
  prevote_version = 1;
  precommit_version = 1;
  prevote_block_versions = [];
  precommit_block_versions = [];
}

abbrev pub unsent : VersionedRoundView (List Bool) → OutgoingView (List Bool)
unsent v = record { sent_h = 0; sent_r = 0; sent_v = 0; vrv = v }

-- Height 1 is committing, height 2 voting in round 0, with the proposed headers given.
abbrev pub voting_on : List ProposedHeader → KState (List Bool)
voting_on phs = record {
  committing = view_at 1 0 [];
  voting = view_at 2 0 phs;
  next_round = view_at 2 1 [];
  in_flight_fetch_phs = [];
  committing_header = zero_header;
  prev_commit_proof_shared = false;
  state_machine_view_manager = record {
    out = true;
    round_entrance = record { h = 2; r = 0; pub_key = 1 ∷ []; height_committed = open_signal };
    last_sent_version = 1;
    force_send = none;
    jump_ahead = none;
    outgoing_view = view_at 2 0 phs;
  };
  gossip_view_manager = record {
    out = true;
    nil_voted_round = none;
    committing = unsent (view_at 1 0 []);
    voting = unsent (view_at 2 0 phs);
    next_round = unsent (view_at 2 1 []);
  };
  lag_manager = record { out = true; state = zero_lag_state; sent = false };
}

abbrev pub no_failures : Env
no_failures = record {
  save_committed_header_fails = false;
  set_network_height_round_fails = false;
  fetch_blocked = λ h. false;
}

abbrev pub world_on : List ProposedHeader → World (List Bool)
world_on phs = record { state = voting_on phs; effects = [] }

pub voting_on-IsSynced : (phs : List ProposedHeader) → IsSynced (voting_on phs)
unfolding sum_powers
voting_on-IsSynced phs = record {
  same_height = refl;
  next_follows = refl;
  above = omega arith;
  rounds_fit = omega arith;
  heights_fit = omega arith;
  same_validators = refl;
  voting_power = refl;
  next_power = refl;
  closed_once = inl (λ e. absurd (ground (arith, e)));
}

pub voting_on-IsShared : (phs : List ProposedHeader) → IsShared (voting_on phs)
voting_on-IsShared phs = record {
  committing_shared = refl;
  voting_shared = refl;
  next_round_shared = refl;
  separate = inl refl;
}

pub voting_on-IsSharedBy : (phs : List ProposedHeader) → IsSharedBy without_proofs (voting_on phs)
voting_on-IsSharedBy phs = record {
  committing_shared = refl;
  voting_shared = refl;
  next_round_shared = refl;
  separate = inl refl;
}

-- The first validator votes for the block, or for nil.
abbrev pub vote_for : ℕ → Bytes → AddVoteRequest (List Bool)
vote_for round hash = record {
  h = 2;
  r = round;
  updates = (hash, record { proof = true ∷ false ∷ []; prev_version = 0 }) ∷ [];
  responds = true;
}

abbrev pub no_signature : ScopedSignature
no_signature = record { target_hash = []; sign_content = []; sig = [] }

-- The own precommit for the block.
abbrev pub own_precommit_action : StateMachineRoundAction
own_precommit_action = record {
  ph = zero_proposed_header;
  prevote = no_signature;
  precommit = record { target_hash = 7 ∷ []; sign_content = 9 ∷ []; sig = 22 ∷ [] };
}

abbrev pub replay_env : ReplayEnv (List Bool)
replay_env = record {
  hash_block = λ header. some (7 ∷ []);
  precommit_sign_bytes = λ vt. some (9 ∷ []);
  all_valid_signatures = λ p key_hash sigs. true;
  save_round_replayed_header_fails = false;
  overwrite_round_precommit_proofs_fails = false;
}

-- A commit of the block by the first validator.
abbrev pub block_proof : CommitProof
block_proof = record {
  round = 0;
  pub_key_hash = 5 ∷ [];
  proofs = (7 ∷ [], record { key_id = 1 ∷ []; sig = 22 ∷ [] } ∷ []) ∷ [];
}

-- Where a handler ends.
abbrev pub end_of : Outcome (List Bool) → World (List Bool) → World (List Bool)
end_of (done w) v = w
end_of (failed w) v = w
end_of panic v = v
