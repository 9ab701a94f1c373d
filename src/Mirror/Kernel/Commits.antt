-- ===== src/Mirror/Kernel/Commits.antt =====
-- The check of the voting view for a commit (kernel.go): what has happened when it ends.
use gordian.Prelude.{
  ℕ, ◌+◌, ◌*◌, ◌^◌, ◌≤◌, ◌<◌, ◌≡◌, sym, ap, subst, ◌∙◌, ◌⊎◌, inl, inr, false, List, [], ◌∷◌, Bytes,
  bytes_eq, bytes_eq_iff, bytes_key, Map, get_or, some, ltb, ◌==◌, arith, Option-cases, Bool-cases,
}
use gordian.Consensus.Types.{Header}
use gordian.Consensus.Math.{byzantine_majority, byzantine_majority_least, byzantine_minority}
use gordian.Mirror.KState.{NextHeightDetails, bump, clear_shared}
use gordian.Mirror.Lookup.{IsSynced, IsSharedBy, Separate, ViewMap}
use gordian.Mirror.Commit.{shift_commits, clear_shared_lem}
use gordian.Mirror.Kernel.World.{SignatureProofs, Env, World, with_state}
use gordian.Mirror.Kernel.Fetch.{
  new_vote_distribution, missing_hashes, request_one, request_all, request_missing,
  check_missing_phs,
}
use gordian.Mirror.Kernel.Shift.{
  find_header, advance, commit_header, commit_hash, check_voting_precommit_view_shift,
}
use gordian.Mirror.Kernel.Steps.{
  Ends, GoodStep, SameViews, SameViews-refl, SameViews-trans, GoodStep-stay, HasQuorum,
  advance-GoodStep, advance_height, finish_commit_lem,
}

module _ {P : Type 0} (proofs_of : SignatureProofs P) where
  -- A commit that ends has committed the header.
  pub commit_header_lem :
      (f : ViewMap P)
      → (env : Env) (header : Header) (w w' : World P) → IsSynced w.state
      → Separate f w.state
      → w.state.voting.height + 1 < 2 ^ 64
      → Ends (commit_header proofs_of env header w) w'
      → GoodStep f w.state w'.state
        × (w'.state.committing_header ≡ header)
        × (w'.state.committing
            ≡ clear_shared w.state.prev_commit_proof_shared (bump w.state.voting))
        × (w'.state.voting.height ≡ w.state.voting.height + 1)
  unfolding commit_header
  commit_header_lem f env header w w' y sep b e = elim (Bool-cases (bytes_eq header.hash [])) [
    | inl h ↦ absurd (ground (arith, h, e))
    | inr h ↦
        let nhd : NextHeightDetails = record {
          validator_set = header.next_validator_set;
          voted_header = header;
        } in
        let c = shift_commits proofs_of.sparse f w.state nhd y sep b in
        let q : w'.state ≡ c.0 = finish_commit_lem env (with_state w c.0) w' (rw (h, c.1) at e) in
        (
          subst (GoodStep f w.state) (sym q) (record {
            synced = c.2;
            shared = c.3;
            moved = ground (
              arith,
              c,
              clear_shared_lem proofs_of.sparse w.state.prev_commit_proof_shared
                  (bump w.state.voting),
            );
          }),
          ground (arith, q, c),
          ground (arith, q, c),
          ground (arith, q, c),
        )
  ]

  request_one-SameViews :
      (env : Env) (min : ℕ) (powers : Map Bytes ℕ) (h : Bytes) (w : World P)
      → SameViews w.state (request_one env min powers h w).state
  unfolding request_one
  request_one-SameViews env min powers h w = ground arith

  request_all-SameViews :
      (env : Env) (min : ℕ) (powers : Map Bytes ℕ) (hs : List Bytes) (w : World P)
      → SameViews w.state (request_all env min powers hs w).state
  unfolding request_all
  request_all-SameViews env min powers [] w = SameViews-refl w.state
  request_all-SameViews env min powers (h ∷ hs) w =
      let v = request_one env min powers h w in
      SameViews-trans w.state v.state (request_all env min powers hs v).state
        (request_one-SameViews env min powers h w) (request_all-SameViews env min powers hs v)

  request_missing-SameViews :
      (env : Env) (m : Map Bytes P) (hs : List Bytes) (w w' : World P)
      → Ends (request_missing proofs_of env m hs w) w'
      → SameViews w.state w'.state
  unfolding request_missing
  request_missing-SameViews env m [] w w' e = ground arith
  request_missing-SameViews env m (h ∷ hs) w w' e =
      let dist = new_vote_distribution proofs_of m w.state.voting.validator_set.validators in
      elim (Option-cases (byzantine_minority dist.available_vote_power)) [
        | inl q ↦ absurd (ground (arith, q, e))
        | inr (min, q) ↦
            ground (arith, q, e, request_all-SameViews env min dist.block_vote_power (h ∷ hs) w)
      ]

  -- Asking for missing headers leaves the views alone.
  pub check_missing-SameViews :
      (env : Env) (m : Map Bytes P) (w w' : World P)
      → Ends (check_missing_phs proofs_of env m w) w'
      → SameViews w.state w'.state
  unfolding check_missing_phs
  check_missing-SameViews env [] w w' e = absurd (ground (arith, e))
  check_missing-SameViews env (p ∷ m) w w' e =
      request_missing-SameViews env (p ∷ m) (missing_hashes proofs_of w.state (p ∷ m)) w w' e

  commit_hash_lem :
      (f : ViewMap P)
      → (env : Env) (hash : Bytes) (w w' : World P) → IsSynced w.state
      → IsSharedBy f w.state
      → w.state.voting.height + 1 < 2 ^ 64
      → Ends (commit_hash proofs_of env hash w) w'
      → GoodStep f w.state w'.state
        × ((w'.state.voting.height ≡ w.state.voting.height)
            ⊎ ((header : Header) × (find_header hash w.state.voting.proposed_headers ≡ some header)
                × (w'.state.committing_header ≡ header)
                × (w'.state.committing
                    ≡ clear_shared w.state.prev_commit_proof_shared (bump w.state.voting))))
  unfolding commit_hash
  commit_hash_lem f env hash w w' y g b e =
      elim (Option-cases (find_header hash w.state.voting.proposed_headers)) [
        | inl q ↦
            let same : w'.state ≡ w.state = ground (arith, q, e) in
            (
              subst (GoodStep f w.state) (sym same) (GoodStep-stay f w.state y g),
              inl (ap (λ s. s.voting.height) same),
            )
        | inr (header, q) ↦
            let c = commit_header_lem f env header w w' y g.separate b (rw (q, commit_hash) at e) in
            (c.0, inr (header, q, c.1, c.2))
      ]

  by_advance :
      (f : ViewMap P)
      → (env : Env) (w w' : World P) → IsSynced w.state
      → IsSharedBy f w.state
      → Ends (advance env w) w'
      → GoodStep f w.state w'.state
        × ((w'.state.voting.height ≡ w.state.voting.height) ⊎ HasQuorum w'.state)
  by_advance f env w w' y g e =
      (advance-GoodStep f env w w' y g e, inl (advance_height f env w w' y g e))

  by_staying :
      (f : ViewMap P)
      → (env : Env) (w w' : World P) → IsSynced w.state
      → IsSharedBy f w.state
      → w'.state ≡ w.state
      → GoodStep f w.state w'.state
        × ((w'.state.voting.height ≡ w.state.voting.height) ⊎ HasQuorum w'.state)
  by_staying f env w w' y g q = (
    subst (GoodStep f w.state) (sym q) (GoodStep-stay f w.state y g),
    inl (ap (λ s. s.voting.height) q),
  )

  -- The view that was committed had reached the majority.
  quorum_reached :
      (w : World P) (header : Header) (maj : ℕ)
      → let vs = w.state.voting.vote_summary in
        let hash = vs.most_voted_precommit_hash in
        byzantine_majority vs.available_power ≡ some maj
        → vs.available_power < 2 ^ 64
        → maj ≤ get_or vs.precommit_block_power hash 0
        → bytes_eq hash [] ≡ false
        → find_header hash w.state.voting.proposed_headers ≡ some header
        → (w' : World P) → w'.state.committing_header ≡ header
        → w'.state.committing ≡ clear_shared w.state.prev_commit_proof_shared (bump w.state.voting)
        → HasQuorum w'.state
  quorum_reached w header maj q small reached not_nil f w' h cm =
      let vs = w.state.voting.vote_summary in
      let pow = get_or vs.precommit_block_power vs.most_voted_precommit_hash 0 in
      let l =
        clear_shared_lem proofs_of.sparse w.state.prev_commit_proof_shared (bump w.state.voting) in
      let vsq : w'.state.committing.vote_summary ≡ vs = ap (λ v. v.vote_summary) cm ∙ l.1 in
      let phq : w'.state.committing.proposed_headers ≡ w.state.voting.proposed_headers =
        ap (λ v. v.proposed_headers) cm ∙ l.2 in
      let big = (byzantine_majority_least vs.available_power maj pow small q).0.0 reached in
      (
        subst
            (λ u.
              2 * u.available_power
              < 3 * get_or u.precommit_block_power u.most_voted_precommit_hash 0)
            (sym vsq) big,
        ground (arith, not_nil, vsq, bytes_eq_iff vs.most_voted_precommit_hash []),
        ap (λ u. find_header u.most_voted_precommit_hash w'.state.committing.proposed_headers) vsq
            ∙ (ap (find_header vs.most_voted_precommit_hash) phq ∙ (f ∙ ap some (sym h))),
      )

  -- From a synced and shared state, below the last uint64 height and with less than 2^64
  -- available power, a check for a view shift that ends keeps the state so and moves the views at
  -- most once. The voting height moves only by a commit.
  pub check_voting_lem :
      (f : ViewMap P)
      → (env : Env) (w w' : World P) → IsSynced w.state
      → IsSharedBy f w.state
      → w.state.voting.height + 1 < 2 ^ 64
      → w.state.voting.vote_summary.available_power < 2 ^ 64
      → Ends (check_voting_precommit_view_shift proofs_of env w) w'
      → GoodStep f w.state w'.state
        × ((w'.state.voting.height ≡ w.state.voting.height) ⊎ HasQuorum w'.state)
  unfolding check_voting_precommit_view_shift
  check_voting_lem f env w w' y g b small e =
      let vs = w.state.voting.vote_summary in
      let pow = get_or vs.precommit_block_power vs.most_voted_precommit_hash 0 in
      elim (Option-cases (byzantine_majority vs.available_power)) [
        | inl q ↦ absurd (ground (arith, q, e))
        | inr (maj, q) ↦ elim (Bool-cases (ltb pow maj)) [
          | inl c ↦ elim (Bool-cases (vs.total_precommit_power == vs.available_power)) [
            | inl d ↦
                by_advance f env w w' y g (rw (q, check_voting_precommit_view_shift, c, d) at e)
            | inr d ↦ by_staying f env w w' y g (ground (arith, q, c, d, e))
          ]
          | inr c ↦ elim (Bool-cases (bytes_eq vs.most_voted_precommit_hash [])) [
            | inl d ↦
                by_advance f env w w' y g (rw (q, check_voting_precommit_view_shift, c, d) at e)
            | inr d ↦
                let k =
                  commit_hash_lem f env vs.most_voted_precommit_hash w w' y g b
                    (rw (q, check_voting_precommit_view_shift, c, d) at e) in
                (
                  k.0,
                  elim k.1 [
                    | inl h ↦ inl h
                    | inr (header, f, h, cm) ↦ inr (
                        quorum_reached w header maj q small (ground (arith, c)) (ground (arith, d))
                          f w' h cm)
                  ],
                )
          ]
        ]
      ]
