-- ===== src/Gcrypto/Verified.antt =====
-- No bit without a signature (gcrypto/simplecommonmessagesignatureproof.go).
use gordian.Prelude.{
  ℕ, ◌≡◌, refl, ap, subst, ◌∙◌, ◌⊎◌, inl, inr, Bool, true, false, ◌||◌, ◌==◌, List, [], ◌∷◌, Bytes,
  bytes_eq, bytes_key, Map, lookup, insert, get_elem?, Option, none, some, if◌then◌else◌, arith,
  Option-cases, Bool-cases,
}
use gordian.Consensus.Types.{PubKey, SparseSignature}
use gordian.Gcrypto.SimpleProof.{
  BitSets, SimpleProof, SparseProof, SignatureProofMergeResult, Added, added, not_added, Merging,
  add_signature, matches, merge_loop, merge, big_endian_uint16, merge_at, merge_sparse_loop,
  start_sparse, merge_sparse,
}

module _ {B : Type 0} (bit_sets : BitSets B) (verify : PubKey → Bytes → Bytes → Bool) where
  -- `Set` sets one bit and leaves the others.
  abbrev pub SetsBit : Type 0
  SetsBit = (b : B) (i j : ℕ) → bit_sets.test (bit_sets.set b i) j ≡ (i == j || bit_sets.test b j)

  -- Every bit is backed by a signature that a candidate key of its index verifies for the message.
  abbrev pub IsVerified : SimpleProof B → Type 0
  IsVerified p =
      (i : ℕ)
      → (bit_sets.test p.bits i ≡ false)
        ⊎ ((key : PubKey) × (sig : Bytes) × (lookup key p.key_idxs ≡ some i)
            × (verify key p.msg sig ≡ true))

  -- What a merge leaves: the message, the keys, and every bit that was set.
  abbrev pub Extends : SimpleProof B → SimpleProof B → Type 0
  Extends p q =
      (q.msg ≡ p.msg)
      × (q.keys ≡ p.keys)
      × (q.key_idxs ≡ p.key_idxs)
      × (q.key_hash ≡ p.key_hash)
      × ((i : ℕ) → (bit_sets.test p.bits i ≡ false) ⊎ (bit_sets.test q.bits i ≡ true))

  abbrev pub Grown : SimpleProof B → SimpleProof B → Type 0
  Grown p q = IsVerified q × Extends p q

  Grown-refl : (p : SimpleProof B) → IsVerified p → Grown p p
  Grown-refl p v = (v, (refl, refl, refl, refl, λ i. ground arith))

  Grown-trans : (p q r : SimpleProof B) → Grown p q → Grown q r → Grown p r
  Grown-trans p q r g h = (
    h.0,
    (
      h.1.0 ∙ g.1.0,
      h.1.1 ∙ g.1.1,
      h.1.2 ∙ g.1.2,
      h.1.3 ∙ g.1.3,
      λ i. ground (arith, g.1.4 i, h.1.4 i),
    ),
  )

  some_inj : (g h : Merging B) → some g ≡ some h → g ≡ h
  some_inj g h e = ground (arith, e)

  with_bit :
      SetsBit
      → (sig : Bytes) (key : PubKey) (i : ℕ) (p : SimpleProof B) → IsVerified p
      → lookup key p.key_idxs ≡ some i
      → verify key p.msg sig ≡ true
      → Grown p (record p { sigs = insert sig key p.sigs; bits = bit_sets.set p.bits i })
  with_bit sets sig key i p v n t = (
    λ j. elim (Bool-cases (i == j)) [
      | inl q ↦ inr (key, sig, ground (arith, n, q), t)
      | inr q ↦ elim (v j) [ inl f ↦ inl (ground (arith, sets p.bits i j, q, f)) | inr x ↦ inr x ]
    ],
    (refl, refl, refl, refl, λ j. ground (arith, sets p.bits i j)),
  )

  add_signature-Grown :
      SetsBit
      → (sig : Bytes) (key : PubKey) (p q : SimpleProof B) → IsVerified p
      → add_signature bit_sets verify sig key p ≡ added q
      → Grown p q
  unfolding add_signature
  add_signature-Grown sets sig key p q v e = elim (Option-cases (lookup key p.key_idxs)) [
    | inl n ↦ absurd (ground (arith, n, e))
    | inr (i, n) ↦ elim (Bool-cases (verify key p.msg sig)) [
      | inr f ↦ absurd (ground (arith, n, f, e))
      | inl t ↦
          let r : SimpleProof B = record p {
            sigs = insert sig key p.sigs;
            bits = bit_sets.set p.bits i;
          } in
          let same : r ≡ q = ground (arith, n, t, e) in
          subst (Grown p) same (with_bit sets sig key i p v n t)
    ]
  ]

  -- The loop of `Merge`.
  merge_loop-Grown :
      SetsBit
      → (sigs : Map Bytes PubKey) (g : Merging B) → IsVerified g.proof
      → Grown g.proof (merge_loop bit_sets verify sigs g).proof
  unfolding merge_loop
  merge_loop-Grown sets [] g v = Grown-refl g.proof v
  merge_loop-Grown sets ((sig, key) ∷ rest) g v =
      let k = held (lookup sig g.proof.sigs) (add_signature bit_sets verify sig key g.proof) refl in
      Grown-trans g.proof
        (step (lookup sig g.proof.sigs) (add_signature bit_sets verify sig key g.proof)).proof
        (merge_loop bit_sets verify rest
          (step (lookup sig g.proof.sigs) (add_signature bit_sets verify sig key g.proof))).proof
        k
        (merge_loop-Grown sets rest
          (step (lookup sig g.proof.sigs) (add_signature bit_sets verify sig key g.proof)) k.0)
    where
      step : Option PubKey → Added B → Merging B
      step o a = elim o [
        | none ↦ elim a [
          | added p ↦ record g { proof = p; increased = true }
          | not_added err ↦ record g { all_valid = false }
        ]
        | some cur ↦ if bytes_eq cur key then g else record g { all_valid = false }
      ]

      kept : (b : Bool) → Grown g.proof (if b then g else record g { all_valid = false }).proof
      kept true = Grown-refl g.proof v
      kept false = Grown-refl g.proof v

      held :
          (o : Option PubKey) (a : Added B)
          → add_signature bit_sets verify sig key g.proof ≡ a
          → Grown g.proof (step o a).proof
      held none (added q) e = add_signature-Grown sets sig key g.proof q v e
      held none (not_added err) e = Grown-refl g.proof v
      held (some cur) a e = kept (bytes_eq cur key)

  merge_at-Grown :
      SetsBit
      → (n : ℕ) (sig : Bytes) (g : Merging B) → IsVerified g.proof
      → Grown g.proof (merge_at bit_sets verify n sig g).proof
  unfolding merge_at
  merge_at-Grown sets n sig g v = at_key (get_elem? g.proof.keys n)
    where
      added_to : (key : PubKey) → Added B → Merging B
      added_to key a = elim a [
        | added p ↦ record g { proof = p; added_bits = bit_sets.set g.added_bits n }
        | not_added err ↦ record g { all_valid = false }
      ]

      held :
          (key : PubKey) (a : Added B)
          → add_signature bit_sets verify sig key g.proof ≡ a
          → Grown g.proof (added_to key a).proof
      held key (added q) e = add_signature-Grown sets sig key g.proof q v e
      held key (not_added err) e = Grown-refl g.proof v

      at_key :
          (o : Option PubKey)
          → Grown g.proof
              (elim o as (λ _. Merging B) [
                | none ↦ record g { all_valid = false }
                | some key ↦ elim (add_signature bit_sets verify sig key g.proof) [
                  | added p ↦ record g { proof = p; added_bits = bit_sets.set g.added_bits n }
                  | not_added err ↦ record g { all_valid = false }
                ]
              ]).proof
      at_key none = Grown-refl g.proof v
      at_key (some key) = held key (add_signature bit_sets verify sig key g.proof) refl

  merge_sparse_loop-Grown :
      SetsBit
      → (ss : List SparseSignature) (g g' : Merging B) → IsVerified g.proof
      → merge_sparse_loop bit_sets verify ss g ≡ some g'
      → Grown g.proof g'.proof
  unfolding merge_sparse_loop
  merge_sparse_loop-Grown sets [] g g' v e =
      subst (Grown g.proof) (ap (λ (h : Merging B). h.proof) (some_inj g g' e))
        (Grown-refl g.proof v)
  merge_sparse_loop-Grown sets (s ∷ ss) g g' v e =
      elim (Option-cases (big_endian_uint16 s.key_id)) [
        | inl q ↦ absurd (ground (arith, q, e))
        | inr (n, q) ↦
            let h = merge_at bit_sets verify n s.sig g in
            let k = merge_at-Grown sets n s.sig g v in
            Grown-trans g.proof h.proof g'.proof k
              (merge_sparse_loop-Grown sets ss h g' k.0 (rw (q, merge_sparse_loop) at e))
      ]

  -- When setting a bit sets that bit alone: a proof each of whose bits is backed by a signature that
  -- verifies for its message under the key of the bit, stays such a proof when a sparse proof is
  -- merged into it, whatever the sparse proof holds; its message and keys stay, and no bit is lost.
  pub merge_sparse-IsVerified :
      SetsBit
      → (p p' : SimpleProof B) (s : SparseProof) (res : SignatureProofMergeResult) → IsVerified p
      → merge_sparse bit_sets verify p s ≡ some (p', res)
      → IsVerified p' × Extends p p'
  unfolding merge_sparse
  merge_sparse-IsVerified sets p p' s res v e =
      elim (Bool-cases (bytes_eq p.key_hash s.pub_key_hash)) [
        | inr b ↦ let same : p ≡ p' = ground (arith, b, e) in subst (Grown p) same (Grown-refl p v)
        | inl b ↦
            elim (Option-cases
              (merge_sparse_loop bit_sets verify s.signatures (start_sparse bit_sets verify p))) [
                | inl q ↦ absurd (ground (arith, b, q, e))
                | inr (g, q) ↦
                    let same : g.proof ≡ p' = ground (arith, b, q, e) in
                    subst (Grown p) same (
                      merge_sparse_loop-Grown sets s.signatures (start_sparse bit_sets verify p) g v
                        q)
              ]
      ]

  -- When setting a bit sets that bit alone: merging another full proof keeps every bit backed by a
  -- signature that verifies, even if the other proof is not such a proof itself; the message and the
  -- keys stay, and no bit is lost.
  pub merge-IsVerified :
      SetsBit
      → (p o : SimpleProof B) → IsVerified p
      → let p' = (merge bit_sets verify p o).0 in IsVerified p' × Extends p p'
  unfolding merge
  merge-IsVerified sets p o v = go (matches bit_sets verify p o) _ _
    where
      start : Merging B
      start = record { proof = p; all_valid = true; increased = false; added_bits = p.bits }

      go :
          (b : Bool) (x y : SignatureProofMergeResult)
          → Grown p
              (if◌then◌else◌ {A = SimpleProof B × SignatureProofMergeResult} b
                ((merge_loop bit_sets verify o.sigs start).proof, x)
                (p, y)).0
      go true x y = merge_loop-Grown sets o.sigs start v
      go false x y = Grown-refl p v
