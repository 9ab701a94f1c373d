-- ===== src/Gcrypto/Examples.antt =====
-- Merging signatures of two keys, with bit sets as lists and a signature that repeats its key.
use gordian.Prelude.{
  ℕ, ◌≡◌, refl, inl, Bool, true, false, ◌==◌, ltb, List, [], ◌∷◌, ◌++◌, Bytes, bytes_eq, bytes_key,
  lookup, insert, contains_func, length, some,
}
use gordian.Consensus.Types.{PubKey}
use gordian.Gcrypto.SimpleProof.{
  BitSets, SimpleProof, SparseProof, SignatureProofMergeResult, index_keys, big_endian_uint16,
  new_simple_proof, add_signature, merge, merge_at, merge_sparse_loop, merge_sparse,
}
use gordian.Gcrypto.Verified.{
  SetsBit, IsVerified, Extends, merge_sparse-IsVerified, merge-IsVerified,
}

-- A set of bits by the list of its members.
abbrev member : List ℕ → ℕ → Bool
member s i = contains_func (λ j. j == i) s

abbrev list_sets : BitSets (List ℕ)
list_sets = record {
  new = λ n. [];
  set = λ s i. i ∷ s;
  test = member;
  count = length;
  none_set = λ s. length s == 0;
  is_strict_super_set = λ s t. ltb (length t) (length s);
}

abbrev key_signs : PubKey → Bytes → Bytes → Bool
key_signs key msg sig = bytes_eq sig (key ++ msg)

list_sets-SetsBit : SetsBit list_sets key_signs
list_sets-SetsBit b i j = refl

abbrev empty_proof : SimpleProof (List ℕ)
empty_proof = record {
  msg = 7 ∷ [];
  sigs = [];
  keys = (1 ∷ []) ∷ (2 ∷ []) ∷ [];
  key_idxs = (1 ∷ [], 0) ∷ (2 ∷ [], 1) ∷ [];
  key_hash = 5 ∷ [];
  bits = [];
}

empty_proof-new :
    new_simple_proof list_sets key_signs (7 ∷ []) ((1 ∷ []) ∷ (2 ∷ []) ∷ []) (5 ∷ []) ≡ empty_proof
unfolding new_simple_proof index_keys insert bytes_eq
empty_proof-new = refl

empty_proof-IsVerified : IsVerified list_sets key_signs empty_proof
empty_proof-IsVerified i = inl refl

abbrev one_bit : SimpleProof (List ℕ)
one_bit = record empty_proof { sigs = (2 ∷ 7 ∷ [], 2 ∷ []) ∷ []; bits = 1 ∷ [] }

-- The second key signs; a signature under the first key is wrong, and the third index is too large.
abbrev sparse : SparseProof
sparse = record {
  pub_key_hash = 5 ∷ [];
  signatures =
      record { key_id = 0 ∷ 1 ∷ []; sig = 2 ∷ 7 ∷ [] }
      ∷ record { key_id = 0 ∷ 0 ∷ []; sig = 9 ∷ [] }
      ∷ record { key_id = 0 ∷ 2 ∷ []; sig = 9 ∷ [] }
      ∷ [];
}

abbrev result : SignatureProofMergeResult
result = record {
  all_valid_signatures = false;
  increased_signatures = true;
  was_strict_superset = true;
}

sparse_merged : merge_sparse list_sets key_signs empty_proof sparse ≡ some (one_bit, result)
unfolding merge_sparse merge_sparse_loop merge_at add_signature big_endian_uint16 lookup insert
    bytes_eq
sparse_merged = refl

merge_sparse-IsVerified_example :
    IsVerified list_sets key_signs one_bit × Extends list_sets key_signs empty_proof one_bit
merge_sparse-IsVerified_example =
    merge_sparse-IsVerified list_sets key_signs list_sets-SetsBit empty_proof one_bit sparse result
      empty_proof-IsVerified sparse_merged

merge-IsVerified_example :
    let p' = (merge list_sets key_signs empty_proof one_bit).0 in
    IsVerified list_sets key_signs p' × Extends list_sets key_signs empty_proof p'
merge-IsVerified_example =
    merge-IsVerified list_sets key_signs list_sets-SetsBit empty_proof one_bit
      empty_proof-IsVerified
