-- ===== src/Gcrypto/SimpleProof.antt =====
-- gcrypto/simplecommonmessagesignatureproof.go and signatureproofmergeresult.go. The bit set is a
-- third-party package and a key's `Verify` rests on one: both are parameters.
use gordian.Prelude.{
  ℕ, suc, ◌+◌, ◌*◌, Bool, true, false, ◌||◌, ◌&&◌, not, ltb, List, [], ◌∷◌, Bytes, bytes_eq,
  bytes_key, Map, lookup, insert, Option, none, some, if◌then◌else◌, length, get_elem?,
}
use gordian.Consensus.Types.{PubKey, SparseSignature}

-- What the proof uses of bitset.BitSet; `new` is given the number of bits.
pub record BitSets (B : Type 0) : Type 0 where
  pub new : ℕ → B
  pub set : B → ℕ → B
  pub test : B → ℕ → Bool
  pub count : B → ℕ
  pub none_set : B → Bool
  pub is_strict_super_set : B → B → Bool

pub record SimpleProof (B : Type 0) : Type 0 where
  pub msg : Bytes
  pub sigs : Map Bytes PubKey
  pub keys : List PubKey
  pub key_idxs : Map Bytes ℕ
  pub key_hash : Bytes
  pub bits : B

-- SparseSignatureProof.
pub record SparseProof : Type 0 where
  pub pub_key_hash : Bytes
  pub signatures : List SparseSignature

pub record SignatureProofMergeResult : Type 0 where
  pub all_valid_signatures : Bool
  pub increased_signatures : Bool
  pub was_strict_superset : Bool

abbrev pub zero_result : SignatureProofMergeResult
zero_result = record {
  all_valid_signatures = false;
  increased_signatures = false;
  was_strict_superset = false;
}

unfoldable pub combine :
    SignatureProofMergeResult → SignatureProofMergeResult → SignatureProofMergeResult
combine r other = record {
  all_valid_signatures = r.all_valid_signatures && other.all_valid_signatures;
  increased_signatures = r.increased_signatures || other.increased_signatures;
  was_strict_superset = r.was_strict_superset && other.was_strict_superset;
}

-- The loop of the constructor: a repeated key keeps its last index.
unfoldable pub index_keys : List PubKey → ℕ → Map Bytes ℕ → Map Bytes ℕ
index_keys [] i m = m
index_keys (k ∷ ks) i m = index_keys ks (suc i) (insert k i m)

-- `binary.BigEndian.Uint16`; `none` is the panic on fewer than two bytes.
unfoldable pub big_endian_uint16 : Bytes → Option ℕ
big_endian_uint16 [] = none
big_endian_uint16 (a ∷ []) = none
big_endian_uint16 (a ∷ b ∷ rest) = some (a * 256 + b)

unfoldable pub keys_equal : List PubKey → List PubKey → Bool
keys_equal [] [] = true
keys_equal [] (y ∷ ys) = false
keys_equal (x ∷ xs) [] = false
keys_equal (x ∷ xs) (y ∷ ys) = bytes_eq x y && keys_equal xs ys

pub data AddError : Type 0 where
  unknown_key invalid_signature : AddError

-- The proof with the signature, or the error.
pub data Added (B : Type 0) : Type 0 where
  added : SimpleProof B → Added B
  not_added : AddError → Added B

-- The variables of the loops of `Merge` and `MergeSparse`.
pub record Merging (B : Type 0) : Type 0 where
  pub proof : SimpleProof B
  pub all_valid : Bool
  pub increased : Bool
  pub added_bits : B

module _ {B : Type 0} (bit_sets : BitSets B) (verify : PubKey → Bytes → Bytes → Bool) where
  unfoldable pub new_simple_proof : Bytes → List PubKey → Bytes → SimpleProof B
  new_simple_proof msg candidate_keys pub_key_hash = record {
    msg = msg;
    sigs = [];
    keys = candidate_keys;
    key_idxs = index_keys candidate_keys 0 [];
    key_hash = pub_key_hash;
    bits = bit_sets.new (length candidate_keys);
  }

  unfoldable pub add_signature : Bytes → PubKey → SimpleProof B → Added B
  add_signature sig key p = elim (lookup key p.key_idxs) [
    | none ↦ not_added unknown_key
    | some i ↦
        if not (verify key p.msg sig)
        then not_added invalid_signature
        else added (record p { sigs = insert sig key p.sigs; bits = bit_sets.set p.bits i })
  ]

  unfoldable pub matches : SimpleProof B → SimpleProof B → Bool
  matches p o = bytes_eq p.msg o.msg && (bytes_eq p.key_hash o.key_hash && keys_equal p.keys o.keys)

  -- The loop over the other proof's signatures.
  unfoldable pub merge_loop : Map Bytes PubKey → Merging B → Merging B
  merge_loop [] g = g
  merge_loop ((sig, key) ∷ rest) g = merge_loop rest (elim (lookup sig g.proof.sigs) [
    | none ↦ elim (add_signature sig key g.proof) [
      | added p ↦ record g { proof = p; increased = true }
      | not_added err ↦ record g { all_valid = false }
    ]
    | some cur ↦ if bytes_eq cur key then g else record g { all_valid = false }
  ])

  unfoldable pub merge : SimpleProof B → SimpleProof B → SimpleProof B × SignatureProofMergeResult
  merge p o =
      let looks_like_superset =
        (bit_sets.none_set o.bits && bit_sets.none_set p.bits)
        || bit_sets.is_strict_super_set o.bits p.bits in
      let g =
        merge_loop o.sigs
          (record { proof = p; all_valid = true; increased = false; added_bits = p.bits }) in
      if matches p o
      then (
        g.proof,
        record {
          all_valid_signatures = g.all_valid;
          increased_signatures = g.increased;
          was_strict_superset = looks_like_superset && g.all_valid;
        },
      )
      else (p, zero_result)

  -- The body of the loop of `MergeSparse`, once the index is read from the key ID.
  unfoldable pub merge_at : ℕ → Bytes → Merging B → Merging B
  merge_at n sig g = elim (get_elem? g.proof.keys n) [
    | none ↦ record g { all_valid = false }
    | some key ↦ elim (add_signature sig key g.proof) [
      | added p ↦ record g { proof = p; added_bits = bit_sets.set g.added_bits n }
      | not_added err ↦ record g { all_valid = false }
    ]
  ]

  unfoldable pub merge_sparse_loop : List SparseSignature → Merging B → Option (Merging B)
  merge_sparse_loop [] g = some g
  merge_sparse_loop (s ∷ ss) g = elim (big_endian_uint16 s.key_id) [
    | none ↦ none
    | some n ↦ merge_sparse_loop ss (merge_at n s.sig g)
  ]

  abbrev pub start_sparse : SimpleProof B → Merging B
  start_sparse p = record {
    proof = p;
    all_valid = true;
    increased = false;
    added_bits = bit_sets.new (length p.keys);
  }

  -- The result, from the bits before and after.
  abbrev pub sparse_result : SimpleProof B → Merging B → SignatureProofMergeResult
  sparse_result p g = record {
    all_valid_signatures = g.all_valid;
    increased_signatures = ltb (bit_sets.count p.bits) (bit_sets.count g.proof.bits);
    was_strict_superset = bit_sets.is_strict_super_set g.added_bits p.bits;
  }

  unfoldable pub merge_sparse :
      SimpleProof B → SparseProof → Option (SimpleProof B × SignatureProofMergeResult)
  merge_sparse p s =
      if not (bytes_eq p.key_hash s.pub_key_hash)
      then some (p, zero_result)
      else elim (merge_sparse_loop s.signatures (start_sparse p)) [
        | none ↦ none
        | some g ↦ some (g.proof, sparse_result p g)
      ]

  -- Whether the key is held, and whether the key ID is valid.
  unfoldable pub has_sparse_key_id : SimpleProof B → Bytes → Bool × Bool
  has_sparse_key_id p (a ∷ b ∷ []) =
      let i = a * 256 + b in
      if ltb i (length p.keys) then (bit_sets.test p.bits i, true) else (false, false)
  has_sparse_key_id p key_id = (false, false)

  unfoldable pub derive : SimpleProof B → SimpleProof B
  derive p = record p { sigs = []; bits = bit_sets.new (length p.keys) }
