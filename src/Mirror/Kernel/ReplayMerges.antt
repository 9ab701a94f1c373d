-- ===== src/Mirror/Kernel/ReplayMerges.antt =====
-- What the loop over a replayed header's proofs has checked when it comes to its end
-- (`handleReplayedHeader` in kernel.go).
use gordian.Prelude.{
  ℕ, ◌≡◌, refl, ◌⊎◌, inl, inr, true, List, [], ◌∷◌, Bytes, bytes_key, Map, lookup, none, some,
  arith, Bool-cases, Option-cases, subst, ◌++◌,
}
use gordian.Consensus.Types.{Header, SparseSignature, Validator, validators_to_pub_keys}
use gordian.Mirror.KState.{KState}
use gordian.Mirror.Kernel.World.{SignatureProofs, Env}
use gordian.Mirror.Kernel.Action.{ProofScheme}
use gordian.Mirror.Kernel.Replay.{
  ReplayEnv, Merged, merged, refused, internal, no_validators, fresh_proof, merge_into, merge_one,
  merge_replayed,
}

module _ {P : Type 0} (proofs_of : SignatureProofs P) (scheme : ProofScheme P) (env : Env)
    (replay : ReplayEnv P) (s : KState P) (header : Header) (round : ℕ) where
  -- A fresh proof of a hash: over the bytes that a precommit of it signs, with the keys of the
  -- header's validators.
  abbrev pub Fresh : Bytes → P → Type 0
  Fresh hash p =
      (content : Bytes) × (replay.precommit_sign_bytes
          (record { height = header.height; round = round; block_hash = hash })
        ≡ some content)
      × (scheme.new_proof content (validators_to_pub_keys header.validator_set.validators)
            header.validator_set.pub_key_hash
          ≡ some p)

  -- The proof that is extended: the one of the voting view, or a fresh one.
  abbrev pub Base : Bytes → P → Type 0
  Base hash p =
      (lookup hash s.voting.precommit_proofs ≡ some p)
      ⊎ ((lookup hash s.voting.precommit_proofs ≡ none) × Fresh hash p)

  -- `q` is such a proof after a merge of signatures that are all valid for it.
  abbrev pub ValidMerge : Bytes → List SparseSignature → P → Type 0
  ValidMerge hash sigs q =
      (p : P) × Base hash p
      × (replay.all_valid_signatures p header.validator_set.pub_key_hash sigs ≡ true)
      × (q ≡ (proofs_of.merge_sparse p header.validator_set.pub_key_hash sigs).0)

  -- One valid merge for each hash of the commit proof, in its order.
  abbrev pub ValidMerges : Map Bytes (List SparseSignature) → Map Bytes P → Type 0
  ValidMerges [] [] = Unit
  ValidMerges ((hash, sigs) ∷ proofs) ((h, q) ∷ m) =
      (h ≡ hash) × ValidMerge hash sigs q × ValidMerges proofs m
  ValidMerges _ _ = ⊥

  fresh_lem :
      (hash : Bytes) (m : Map Bytes P)
      → fresh_proof proofs_of scheme env replay header round hash ≡ merged m
      → (p : P) × (m ≡ (hash, p) ∷ []) × Fresh hash p
  unfolding fresh_proof
  fresh_lem hash m e =
      elim (Option-cases (
        replay.precommit_sign_bytes
          (record { height = header.height; round = round; block_hash = hash }))) [
            | inl c ↦ absurd (ground (arith, c, e))
            | inr (content, c) ↦
                made content c header.validator_set.validators refl (rw (c, fresh_proof) at e)
          ]
    where
      made :
          (content : Bytes)
          → replay.precommit_sign_bytes
              (record { height = header.height; round = round; block_hash = hash })
            ≡ some content
          → (vals : List Validator) → header.validator_set.validators ≡ vals
          → elim vals [
            | [] ↦ no_validators
            | v ∷ vs ↦
                elim (scheme.new_proof content
                  (validators_to_pub_keys (v ∷ vs))
                  header.validator_set.pub_key_hash) [
                    | none ↦ refused internal
                    | some p ↦ merged ((hash, p) ∷ [])
                  ]
          ]
            ≡ merged m
          → (p : P) × (m ≡ (hash, p) ∷ []) × Fresh hash p
      made content c [] q k = absurd (ground (arith, k))
      made content c (v ∷ vs) q k =
          elim (Option-cases (
            scheme.new_proof content (validators_to_pub_keys (v ∷ vs))
              header.validator_set.pub_key_hash)) [
                | inl n ↦ absurd (ground (arith, n, k))
                | inr (p, n) ↦ (p, ground (arith, n, k), (content, c, ground (arith, q, n)))
              ]

  into_lem :
      (hash : Bytes) (sigs : List SparseSignature) (p : P) (m : Map Bytes P)
      → merge_into proofs_of scheme env replay header hash sigs p ≡ merged m
      → (replay.all_valid_signatures p header.validator_set.pub_key_hash sigs ≡ true)
        × (m ≡ (hash, (proofs_of.merge_sparse p header.validator_set.pub_key_hash sigs).0) ∷ [])
  unfolding merge_into
  into_lem hash sigs p m e =
      elim (Bool-cases (replay.all_valid_signatures p header.validator_set.pub_key_hash sigs)) [
        | inl v ↦ (v, ground (arith, v, e))
        | inr v ↦ absurd (ground (arith, v, e))
      ]

  one_lem :
      (hash : Bytes) (sigs : List SparseSignature) (m : Map Bytes P)
      → merge_one proofs_of scheme env replay s header round hash sigs ≡ merged m
      → (q : P) × (m ≡ (hash, q) ∷ []) × ValidMerge hash sigs q
  unfolding merge_one
  one_lem hash sigs m e = elim (Option-cases (lookup hash s.voting.precommit_proofs)) [
    | inl n ↦
        fresh n (fresh_proof proofs_of scheme env replay header round hash) refl
          (rw (n, merge_one) at e)
    | inr (p, h) ↦
        let i = into_lem hash sigs p m (rw (h, merge_one) at e) in (_, i.1, (p, inl h, i.0, refl))
  ]
    where
      fresh :
          lookup hash s.voting.precommit_proofs ≡ none
          → (o : Merged P) → fresh_proof proofs_of scheme env replay header round hash ≡ o
          → elim o [
            | merged [] ↦ merged []
            | merged ((h, p) ∷ m) ↦ merge_into proofs_of scheme env replay header hash sigs p
            | refused e ↦ refused e
            | no_validators ↦ no_validators
          ]
            ≡ merged m
          → (q : P) × (m ≡ (hash, q) ∷ []) × ValidMerge hash sigs q
      fresh n (merged []) f k =
          let (p, same, made) = fresh_lem hash [] f in absurd (ground (arith, same))
      fresh n (merged ((h, p') ∷ m')) f k =
          let (p, same, made) = fresh_lem hash ((h, p') ∷ m') f in
          let i = into_lem hash sigs p' m k in
          (_, i.1, (p', inr (n, (made.0, made.1, ground (arith, same, made.2))), i.0, refl))
      fresh n (refused e) f k = absurd (ground (arith, k))
      fresh n no_validators f k = absurd (ground (arith, k))

  -- The loop ends with a valid merge for each hash.
  pub merge_replayed_lem :
      (proofs : Map Bytes (List SparseSignature)) (m : Map Bytes P)
      → merge_replayed proofs_of scheme env replay s header round proofs ≡ merged m
      → ValidMerges proofs m
  unfolding merge_replayed
  merge_replayed_lem [] [] e = tt
  merge_replayed_lem [] (x ∷ m) e = absurd (ground (arith, e))
  merge_replayed_lem ((hash, sigs) ∷ proofs) m e =
      go (merge_replayed_lem proofs)
        (merge_one proofs_of scheme env replay s header round hash sigs)
        (merge_replayed proofs_of scheme env replay s header round proofs) refl refl e
    where
      go :
          ((t : Map Bytes P)
            → merge_replayed proofs_of scheme env replay s header round proofs ≡ merged t
            → ValidMerges proofs t)
          → (o r : Merged P) → merge_one proofs_of scheme env replay s header round hash sigs ≡ o
          → merge_replayed proofs_of scheme env replay s header round proofs ≡ r
          → elim o [
            | merged one ↦ elim r [
              | merged m ↦ merged (one ++ m)
              | refused e ↦ refused e
              | no_validators ↦ no_validators
            ]
            | refused e ↦ refused e
            | no_validators ↦ no_validators
          ]
            ≡ merged m
          → ValidMerges ((hash, sigs) ∷ proofs) m
      go all (merged one) (merged rest) f g k =
          let (q, same, valid) = one_lem hash sigs one f in
          subst (ValidMerges ((hash, sigs) ∷ proofs)) {x = (hash, q) ∷ rest}
            (ground (arith, same, k)) (refl, valid, all rest g)
      go all (merged one) (refused e) f g k = absurd (ground (arith, k))
      go all (merged one) no_validators f g k = absurd (ground (arith, k))
      go all (refused e) r f g k = absurd (ground (arith, k))
      go all no_validators r f g k = absurd (ground (arith, k))
