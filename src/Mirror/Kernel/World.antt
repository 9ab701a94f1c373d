-- ===== src/Mirror/Kernel/World.antt =====
-- What a kernel handler works on: the state and the calls made so far. The stores, the fetcher and
-- the response channels are the environment; of it a handler sees only which calls fail.
use gordian.Prelude.{
  ℕ, Bool, List, [], ◌∷◌, ◌++◌, Bytes, Map, Option, none, some, if◌then◌else◌, bytes_eq,
}
use gordian.Consensus.Types.{SparseSignature, Header, ProposedHeader, CommittedHeader}
use gordian.Mirror.KState.{KState}

-- gcrypto.CommonMessageSignatureProof, as far as the kernel uses it. `merge_sparse` gives the
-- merged proof and whether the signatures increased.
pub record SignatureProofs (P : Type 0) : Type 0 where
  pub bits : P → List Bool
  pub sparse : P → List SparseSignature
  pub pub_key_hash : P → Bytes
  pub merge_sparse : P → Bytes → List SparseSignature → P × Bool

-- tmconsensus.SparseSignatureCollection.
pub record SparseSignatureCollection : Type 0 where
  pub pub_key_hash : Bytes
  pub block_signatures : Map Bytes (List SparseSignature)

pub data AddVoteResult : Type 0 where
  accepted conflict out_of_date : AddVoteResult

-- The calls that a handler makes.
pub data Effect : Type 0 where
  cancel_fetch : Bytes → Effect
  fetch_request : ℕ → Bytes → Effect
  save_round_proposed_header : ProposedHeader → Effect
  save_round_replayed_header : Header → Effect
  overwrite_round_prevote_proofs : ℕ → ℕ → SparseSignatureCollection → Effect
  overwrite_round_precommit_proofs : ℕ → ℕ → SparseSignatureCollection → Effect
  save_committed_header : CommittedHeader → Effect
  set_network_height_round : ℕ → ℕ → ℕ → ℕ → Effect
  respond : AddVoteResult → Effect

-- Which calls fail. The others' errors are logged and change nothing.
pub record Env : Type 0 where
  pub save_committed_header_fails : Bool
  pub set_network_height_round_fails : Bool
  pub fetch_blocked : Bytes → Bool

pub record World (P : Type 0) : Type 0 where
  pub state : KState P
  pub effects : List Effect

-- A handler is done, or returns an error with what it did so far, or panics.
pub data Outcome (P : Type 0) : Type 0 where
  done : World P → Outcome P
  failed : World P → Outcome P
  panic : Outcome P

module _ {P : Type 0} where
  infixl 5 ◌>>◌
  abbrev pub ◌>>◌ : (World P → Outcome P) → (World P → Outcome P) → World P → Outcome P
  ◌>>◌ first second w = elim (first w) [
    | done w' ↦ second w'
    | failed w' ↦ failed w'
    | panic ↦ panic
  ]

  -- The caller logs the error and goes on.
  abbrev pub log_error : Outcome P → Outcome P
  log_error (done w) = done w
  log_error (failed w) = done w
  log_error panic = panic

  abbrev pub call : Effect → World P → World P
  call e w = record w { effects = w.effects ++ e ∷ [] }

  abbrev pub with_state : World P → KState P → World P
  with_state w s = record w { state = s }

module _ {P : Type 0} (proofs_of : SignatureProofs P) where
  -- The loop of `mapToSparseSignatureCollection` after its first entry: `none` is the panic on
  -- differing public key hashes.
  unfoldable pub collect_sparse : Bytes → Map Bytes P → Option (Map Bytes (List SparseSignature))
  collect_sparse key_hash [] = some []
  collect_sparse key_hash ((h, p) ∷ m) =
      let rest = collect_sparse key_hash m in
      if bytes_eq key_hash (proofs_of.pub_key_hash p)
      then elim rest [ none ↦ none | some r ↦ some ((h, proofs_of.sparse p) ∷ r) ]
      else none

  unfoldable pub map_to_sparse_signature_collection : Map Bytes P → Option SparseSignatureCollection
  map_to_sparse_signature_collection [] = some (record { pub_key_hash = []; block_signatures = [] })
  map_to_sparse_signature_collection ((h, p) ∷ m) =
      elim (collect_sparse (proofs_of.pub_key_hash p) m) [
        | none ↦ none
        | some r ↦ some (record {
          pub_key_hash = proofs_of.pub_key_hash p;
          block_signatures = (h, proofs_of.sparse p) ∷ r;
        })
      ]
