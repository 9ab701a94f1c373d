-- ===== src/Mirror/Kernel/Conflicts.antt =====
-- How the kernel takes the updates of a vote request (kernel.go): each by a compare and swap on the
-- version of its block.
use gordian.Prelude.{
  ℕ, ◌+◌, ◌≡◌, inl, inr, refl, sym, ap, subst, ◌∙◌, Bool, true, false, ◌==◌, ◌&&◌, [], ◌∷◌, Bytes,
  bytes_eq, bytes_eq_iff, bytes_key, Map, lookup, insert, has, get_or, lookup-insert, Distinct,
  Option, none, some, if◌then◌else◌, u32, arith, Bool-cases,
}
use gordian.Mirror.Kernel.Votes.{VoteUpdate, Applied, apply_updates}

module _ {P : Type 0} where
  -- The update was made against the block's current version.
  abbrev pub is_fresh : Map Bytes ℕ → Bytes → VoteUpdate P → Bool
  is_fresh versions h u = u.prev_version == get_or versions h 0

  abbrev pub all_fresh : Map Bytes ℕ → Map Bytes (VoteUpdate P) → Bool
  all_fresh versions [] = true
  all_fresh versions ((h, u) ∷ us) = is_fresh versions h u && all_fresh versions us

  -- The block's proof and version after the request, from those before it.
  abbrev pub swapped : Option (VoteUpdate P) → Option P → ℕ → Option P × ℕ
  swapped none p v = (p, v)
  swapped (some u) p v = if u.prev_version == v then (some u.proof, u32 (v + 1)) else (p, v)

  abbrev step : Bytes → VoteUpdate P → Applied P → Applied P
  step h u a =
      if is_fresh a.versions h u
      then record a {
        proofs = insert h u.proof a.proofs;
        versions = insert h (u32 (get_or a.versions h 0 + 1)) a.versions;
        any_added = true;
      }
      else record a { all_accepted = false }

  abbrev at_block : Applied P → Bytes → Option P × ℕ
  at_block a h = (lookup h a.proofs, get_or a.versions h 0)

  step_same :
      (h : Bytes) (u : VoteUpdate P) (a : Applied P)
      → at_block (step h u a) h ≡ swapped (some u) (lookup h a.proofs) (get_or a.versions h 0)
  step_same h u a = ground (
    arith,
    lookup-insert h h u.proof a.proofs,
    lookup-insert h h (u32 (get_or a.versions h 0 + 1)) a.versions,
    bytes_eq_iff h h,
  )

  step_other :
      (k h : Bytes) (u : VoteUpdate P) (a : Applied P)
      → bytes_eq k h ≡ false
      → at_block (step k u a) h ≡ at_block a h
  step_other k h u a n = ground (
    arith,
    n,
    lookup-insert k h u.proof a.proofs,
    lookup-insert k h (u32 (get_or a.versions k 0 + 1)) a.versions,
  )

  -- For a request with one update per block: a block whose update was made against its current
  -- version gets the new proof and the next version, and every other block keeps its own.
  pub apply_updates_swaps :
      (us : Map Bytes (VoteUpdate P)) (a : Applied P) (h : Bytes)
      → Distinct us
      → let b = apply_updates us a in
        (lookup h b.proofs, get_or b.versions h 0)
        ≡ swapped (lookup h us) (lookup h a.proofs) (get_or a.versions h 0)
  unfolding apply_updates lookup
  apply_updates_swaps [] a h d = refl
  apply_updates_swaps ((k, u) ∷ us) a h d =
      apply_updates_swaps us (step k u a) h d.1 ∙ elim (Bool-cases (bytes_eq k h)) [
        | inl e ↦
            let q : k ≡ h = (bytes_eq_iff k h).0 e in
            let n : lookup h us ≡ none = ground (arith, q, d.0) in
            ap (λ o. swapped o (lookup h (step k u a).proofs) (get_or (step k u a).versions h 0)) n
            ∙ (subst
                  (λ j.
                    at_block (step j u a) h
                    ≡ swapped (some u) (lookup h a.proofs) (get_or a.versions h 0))
                  (sym q) (step_same h u a)
                ∙ ap
                    (λ b.
                      swapped (if b then some u else lookup h us) (lookup h a.proofs)
                        (get_or a.versions h 0))
                    (sym e))
        | inr e ↦
            ap (λ p. swapped (lookup h us) p.0 p.1) (step_other k h u a e)
            ∙ ap
                (λ b.
                  swapped (if b then some u else lookup h us) (lookup h a.proofs)
                    (get_or a.versions h 0))
                (sym e)
      ]

  -- A request with one update per block is accepted exactly when every update was made against the
  -- current version of its block; otherwise it is in conflict.
  pub apply_updates_accepts :
      (us : Map Bytes (VoteUpdate P)) (a : Applied P)
      → Distinct us
      → (apply_updates us a).all_accepted ≡ (a.all_accepted && all_fresh a.versions us)
  unfolding apply_updates lookup
  apply_updates_accepts [] a d = ground arith
  apply_updates_accepts ((k, u) ∷ us) a d =
      apply_updates_accepts us (step k u a) d.1
      ∙ (ap (λ b. (step k u a).all_accepted && b) (fresh_after us d.0) ∙ ground arith)
    where
      fresh_after :
          (ws : Map Bytes (VoteUpdate P))
          → has k ws ≡ false
          → all_fresh (step k u a).versions ws ≡ all_fresh a.versions ws
      fresh_after [] n = refl
      fresh_after ((j, w) ∷ ws) n = elim (Bool-cases (bytes_eq k j)) [
        | inl e ↦ absurd (ground (arith, bytes_eq_iff k j, bytes_eq_iff j k, e, n))
        | inr e ↦ ground (
          arith,
          fresh_after ws (ground (arith, n, e, bytes_eq_iff k j, bytes_eq_iff j k)),
          ap (λ p. p.1) (step_other k j u a e),
        )
      ]
