-- ===== src/Mirror/Kernel/Returns.antt =====
-- When a kernel handler comes to an end without a panic (kernel.go).
use gordian.Prelude.{
  ◌<◌, ◌≡◌, ◌≢◌, refl, sym, ap, subst, inl, inr, List, [], ◌∷◌, Bytes, bytes_eq_iff, bytes_key, Map,
  none, some, arith, Option-cases,
}
use gordian.Consensus.Math.{byzantine_minority, byzantine_defined}
use gordian.Consensus.VoteSummary.{sum_powers}
use gordian.Mirror.Lookup.{IsSynced}
use gordian.Mirror.Kernel.World.{
  SignatureProofs, SparseSignatureCollection, Env, World, Outcome, done, failed, panic, ◌>>◌,
  collect_sparse, map_to_sparse_signature_collection,
}
use gordian.Mirror.Kernel.Fetch.{
  new_vote_distribution, missing_hashes, request_all, request_missing, check_missing_phs,
}
use gordian.Mirror.Kernel.World.{log_error}
use gordian.Mirror.Kernel.Steps.{Ends}
use gordian.Mirror.Kernel.Shift.{update_observers, save_current_committing_header}

module _ {P : Type 0} where
  -- The handler comes to an end, with or without an error.
  abbrev pub Returns : Outcome P → Type 0
  Returns o = (w : World P) × Ends o w

  pub not_panic : (o : Outcome P) → o ≢ panic → Returns o
  not_panic (done w) ne = (w, inl refl)
  not_panic (failed w) ne = (w, inr refl)
  not_panic panic ne = absurd (ne refl)

  pub is_done :
      (o : Outcome P) → o ≢ panic → ((v : World P) → o ≢ failed v) → (v : World P) × (o ≡ done v)
  is_done (done v) p f = (v, refl)
  is_done (failed v) p f = absurd (f v refl)
  is_done panic p f = absurd (p refl)

  pub >>-Returns :
      (f g : World P → Outcome P) (w : World P)
      → Returns (f w)
      → ((v : World P) → f w ≡ done v → Returns (g v))
      → Returns ((f >> g) w)
  >>-Returns f g w (v, inl q) k = ground (arith, q, k v q)
  >>-Returns f g w (v, inr q) k = (v, inr (ground (arith, q)))

  pub update_observers-Returns : (env : Env) (w : World P) → Returns (update_observers env w)
  unfolding update_observers
  update_observers-Returns env w = not_panic (update_observers env w) (λ e. ground (arith, e))

  pub save_committing-Returns :
      (env : Env) (w : World P) → Returns (save_current_committing_header env w)
  unfolding save_current_committing_header
  save_committing-Returns env w =
      not_panic (save_current_committing_header env w) (λ e. ground (arith, e))

  pub log_error-Returns : (o : Outcome P) → Returns o → Returns (log_error o)
  log_error-Returns (done v) r = (v, inl refl)
  log_error-Returns (failed v) r = (v, inl refl)
  log_error-Returns panic (v, e) = absurd (ground (arith, e))

module _ {P : Type 0} (proofs_of : SignatureProofs P) where
  -- Every proof of the map has the public key hash.
  abbrev pub HasKeyHash : Bytes → Map Bytes P → Type 0
  HasKeyHash k [] = Unit {0}
  HasKeyHash k ((h, p) ∷ m) = (proofs_of.pub_key_hash p ≡ k) × HasKeyHash k m

  collect_sparse-Returns :
      (k : Bytes) (m : Map Bytes P)
      → HasKeyHash k m
      → (r : Map Bytes (List _)) × (collect_sparse proofs_of k m ≡ some r)
  unfolding collect_sparse
  collect_sparse-Returns k [] a = ([], refl)
  collect_sparse-Returns k ((h, p) ∷ m) a =
      let (r, e) = collect_sparse-Returns k m a.1 in
      (
        (h, proofs_of.sparse p) ∷ r,
        ground (arith, e, a.0, bytes_eq_iff k (proofs_of.pub_key_hash p)),
      )

  pub map_to_sparse-Returns :
      (k : Bytes) (m : Map Bytes P)
      → HasKeyHash k m
      → (c : SparseSignatureCollection) × (map_to_sparse_signature_collection proofs_of m ≡ some c)
  unfolding map_to_sparse_signature_collection
  map_to_sparse-Returns k [] a = (_, refl)
  map_to_sparse-Returns k ((h, p) ∷ m) a =
      let (r, e) =
        collect_sparse-Returns (proofs_of.pub_key_hash p) m
          (subst (λ j. HasKeyHash j m) (sym a.0) a.1) in
      (
        _,
        ap
            (λ o. elim o [
              | none ↦ none
              | some r ↦ some (record {
                pub_key_hash = proofs_of.pub_key_hash p;
                block_signatures = (h, proofs_of.sparse p) ∷ r;
              })
            ])
            e,
      )

  request_missing-Returns :
      (env : Env) (m : Map Bytes P) (hs : List Bytes) (w : World P)
      → IsSynced w.state
      → 0 < w.state.voting.vote_summary.available_power
      → (w' : World P) × (request_missing proofs_of env m hs w ≡ done w')
  unfolding request_missing new_vote_distribution
  request_missing-Returns env m [] w y p = (w, refl)
  request_missing-Returns env m (h ∷ hs) w y p =
      let n = sum_powers 0 w.state.voting.validator_set.validators in
      elim (Option-cases (byzantine_minority n)) [
        | inl q ↦ absurd (ground (arith, q, p, y.voting_power, byzantine_defined n))
        | inr (min, q) ↦ (
          request_all env min
              (new_vote_distribution proofs_of m
                w.state.voting.validator_set.validators).block_vote_power
              (h ∷ hs) w,
          ground (arith, q),
        )
      ]

  pub check_missing-Returns :
      (env : Env) (m : Map Bytes P) (w : World P)
      → m ≢ []
      → IsSynced w.state
      → 0 < w.state.voting.vote_summary.available_power
      → (w' : World P) × (check_missing_phs proofs_of env m w ≡ done w')
  unfolding check_missing_phs
  check_missing-Returns env [] w ne y p = absurd (ne refl)
  check_missing-Returns env (x ∷ m) w ne y p =
      request_missing-Returns env (x ∷ m) (missing_hashes proofs_of w.state (x ∷ m)) w y p
