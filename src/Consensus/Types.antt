-- ===== src/Consensus/Types.antt =====
-- tm/tmconsensus/header.go, validator.go and prevote.go: headers, validators, commit proofs.
use gordian.Prelude.{ℕ, Bool, Bytes, List, [], ◌∷◌, Map, map, bytes_eq, ◌==◌, ◌&&◌, false, true}

-- gcrypto.PubKey: a key is its bytes, and `Equal` compares them.
abbrev pub PubKey : Type 0
PubKey = Bytes

pub record Validator : Type 0 where
  pub pub_key : PubKey
  pub power : ℕ  -- uint64

pub record ValidatorSet : Type 0 where
  pub validators : List Validator
  pub pub_key_hash : Bytes
  pub vote_power_hash : Bytes

abbrev pub empty_validator_set : ValidatorSet
empty_validator_set = record { validators = []; pub_key_hash = []; vote_power_hash = [] }

unfoldable pub validators_to_pub_keys : List Validator → List PubKey
validators_to_pub_keys = map (λ v. v.pub_key)

unfoldable pub validators_to_vote_powers : List Validator → List ℕ
validators_to_vote_powers = map (λ v. v.power)

-- `slices.EqualFunc` over power and key.
unfoldable pub validator_slices_equal : List Validator → List Validator → Bool
validator_slices_equal [] [] = true
validator_slices_equal [] (w ∷ ws) = false
validator_slices_equal (v ∷ vs) [] = false
validator_slices_equal (v ∷ vs) (w ∷ ws) =
    (v.power == w.power && bytes_eq v.pub_key w.pub_key) && validator_slices_equal vs ws

unfoldable pub ValidatorSet_equal : ValidatorSet → ValidatorSet → Bool
ValidatorSet_equal v other =
    bytes_eq v.pub_key_hash other.pub_key_hash
    && (bytes_eq v.vote_power_hash other.vote_power_hash
        && validator_slices_equal v.validators other.validators)

-- gcrypto.SparseSignature.
pub record SparseSignature : Type 0 where
  pub key_id : Bytes
  pub sig : Bytes

pub record CommitProof : Type 0 where
  pub round : ℕ  -- uint32
  pub pub_key_hash : Bytes
  pub proofs : Map Bytes (List SparseSignature)

abbrev pub empty_commit_proof : CommitProof
empty_commit_proof = record { round = 0; pub_key_hash = []; proofs = [] }

pub record Annotations : Type 0 where
  pub user : Bytes
  pub driver : Bytes

pub record Header : Type 0 where
  pub hash : Bytes
  pub prev_block_hash : Bytes
  pub height : ℕ  -- uint64
  pub prev_commit_proof : CommitProof
  pub validator_set : ValidatorSet
  pub next_validator_set : ValidatorSet
  pub data_id : Bytes
  pub prev_app_state_hash : Bytes
  pub annotations : Annotations

pub record ProposedHeader : Type 0 where
  pub header : Header
  pub round : ℕ  -- uint32
  pub proposer_pub_key : PubKey
  pub annotations : Annotations
  pub signature : Bytes

pub record CommittedHeader : Type 0 where
  pub header : Header
  pub proof : CommitProof

pub record VoteTarget : Type 0 where
  pub height : ℕ  -- uint64
  pub round : ℕ  -- uint32
  pub block_hash : Bytes

-- Go's zero values.
abbrev pub no_annotations : Annotations
no_annotations = record { user = []; driver = [] }

abbrev pub zero_header : Header
zero_header = record {
  hash = [];
  prev_block_hash = [];
  height = 0;
  prev_commit_proof = empty_commit_proof;
  validator_set = empty_validator_set;
  next_validator_set = empty_validator_set;
  data_id = [];
  prev_app_state_hash = [];
  annotations = no_annotations;
}

abbrev pub zero_proposed_header : ProposedHeader
zero_proposed_header = record {
  header = zero_header;
  round = 0;
  proposer_pub_key = [];
  annotations = no_annotations;
  signature = [];
}
