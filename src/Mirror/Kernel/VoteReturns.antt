-- ===== src/Mirror/Kernel/VoteReturns.antt =====
-- That the handling of a vote comes to an end without a panic (kernel.go).
use gordian.Prelude.{
  ℕ, Bool, false, ◌&&◌, if◌then◌else◌, ◌+◌, ◌<◌, ◌^◌, ◌≡◌, ◌≢◌, refl, sym, subst, ◌⊎◌, inl, inr,
  List, [], ◌∷◌, Bytes, bytes_eq, bytes_eq_iff, bytes_key, Map, get_or, ◌==◌, some, arith,
  Option-cases, Bool-cases,
}
use gordian.Consensus.Math.{byzantine_defined}
use gordian.Mirror.Outgoing.{ViewId, voting, committing}
use gordian.Mirror.KState.{mark_view_updated}
use gordian.Mirror.Lookup.{
  IsSynced, IsShared, whole, without_proofs, without_proofs-Separate, Stands, find_view_iff,
}
use gordian.Mirror.Kernel.World.{SignatureProofs, Env, World, Outcome, done, panic, ◌>>◌}
use gordian.Mirror.Kernel.Fetch.{check_missing_phs}
use gordian.Mirror.Kernel.Votes.{
  AddVoteRequest, Applied, read_view, nil_maps, answer, result_of, then_respond, apply_updates,
  start_prevotes, store_prevotes, shift_after_prevote, add_prevote_to, add_prevote,
}
use gordian.Mirror.Kernel.Kept.{Kept, Kept-same, Kept-trans}
use gordian.Mirror.Kernel.Commits.{check_missing-SameViews}
use gordian.Mirror.Kernel.World.{AddVoteResult}
use gordian.Mirror.Kernel.VoteSafety.{store_prevotes-Kept, store_precommits-Kept, answer-same}
use gordian.Consensus.Math.{byzantine_majority}
use gordian.Consensus.Types.{Header, ProposedHeader}
use gordian.Prelude.{ltb}
use gordian.Mirror.Commit.{shift_commits}
use gordian.Mirror.KState.{KState, NextHeightDetails, advance_voting_round}
use gordian.Mirror.Kernel.World.{with_state}
use gordian.Mirror.Kernel.Shift.{
  find_header, update_observers, advance, save_current_committing_header, commit_header,
  commit_hash, check_voting_precommit_view_shift,
}
use gordian.Mirror.Kernel.Votes.{
  start_precommits, store_precommits, shift_after_precommit, add_precommit_to, add_precommit,
}
use gordian.Mirror.Kernel.Returns.{
  Returns, is_done, >>-Returns, update_observers-Returns, save_committing-Returns,
  log_error-Returns, HasKeyHash, map_to_sparse-Returns, check_missing-Returns,
}

module _ {P : Type 0} (proofs_of : SignatureProofs P) where
  find_header-hash :
      (hash : Bytes) (phs : List ProposedHeader) (header : Header)
      → find_header hash phs ≡ some header
      → header.hash ≡ hash
  unfolding find_header
  find_header-hash hash [] header e = absurd (ground (arith, e))
  find_header-hash hash (ph ∷ phs) header e =
      ground (arith, e, bytes_eq_iff ph.header.hash hash, find_header-hash hash phs header)

  commit_header-Returns :
      (env : Env) (header : Header) (w : World P)
      → IsSynced w.state
      → w.state.voting.height + 1 < 2 ^ 64
      → header.hash ≢ []
      → Returns (commit_header proofs_of env header w)
  unfolding commit_header
  commit_header-Returns env header w y b ne =
      let nhd : NextHeightDetails = record {
        validator_set = header.next_validator_set;
        voted_header = header;
      } in
      let c =
        shift_commits proofs_of.sparse without_proofs w.state nhd y
          (without_proofs-Separate w.state) b in
      let v = with_state w c.0 in
      let r =
        >>-Returns (save_current_committing_header env) (update_observers env) v
          (save_committing-Returns env v) (λ u e. update_observers-Returns env u) in
      subst Returns (sym (ground (arith, c.1, ne, bytes_eq_iff header.hash []))) r

  -- In a synced state with positive available power below the last uint64 height, the check of the
  -- voting precommits never panics.
  pub check_voting-Returns :
      (env : Env) (w : World P)
      → IsSynced w.state
      → w.state.voting.height + 1 < 2 ^ 64
      → 0 < w.state.voting.vote_summary.available_power
      → Returns (check_voting_precommit_view_shift proofs_of env w)
  unfolding check_voting_precommit_view_shift commit_hash advance
  check_voting-Returns env w y b p =
      let vs = w.state.voting.vote_summary in
      let hash = vs.most_voted_precommit_hash in
      let pow = get_or vs.precommit_block_power hash 0 in
      elim (Option-cases (byzantine_majority vs.available_power)) [
        | inl q ↦ absurd (ground (arith, q, p, byzantine_defined vs.available_power))
        | inr (maj, q) ↦ elim (Bool-cases (ltb pow maj)) [
          | inl c ↦ elim (Bool-cases (vs.total_precommit_power == vs.available_power)) [
            | inl d ↦
                subst Returns (sym (ground (arith, q, c, d)))
                  (update_observers-Returns env (with_state w (advance_voting_round w.state)))
            | inr d ↦ (w, inl (ground (arith, q, c, d)))
          ]
          | inr c ↦ elim (Bool-cases (bytes_eq hash [])) [
            | inl d ↦
                subst Returns (sym (ground (arith, q, c, d)))
                  (update_observers-Returns env (with_state w (advance_voting_round w.state)))
            | inr d ↦ elim (Option-cases (find_header hash w.state.voting.proposed_headers)) [
              | inl f ↦ (w, inl (ground (arith, q, c, d, f)))
              | inr (header, f) ↦ subst Returns (sym (ground (arith, q, c, d, f))) (
                  commit_header-Returns env header w y b (
                    ground (
                      arith,
                      d,
                      find_header-hash hash w.state.voting.proposed_headers header f,
                      bytes_eq_iff hash [],
                    )))
            ]
          ]
        ]
      ]

  shift_after_precommit-Returns :
      (env : Env) (a : Applied P) (w : World P) (id : ViewId)
      → (id ≡ voting) ⊎ (id ≡ committing)
      → IsSynced w.state
      → w.state.voting.height + 1 < 2 ^ 64
      → 0 < w.state.voting.vote_summary.available_power
      → Returns (shift_after_precommit proofs_of env a id w)
  unfolding shift_after_precommit
  shift_after_precommit-Returns env a w voting i y b p = elim (Bool-cases a.all_accepted) [
    | inl q ↦ subst Returns (sym (ground (arith, q))) (
        log_error-Returns (check_voting_precommit_view_shift proofs_of env w)
          (check_voting-Returns env w y b p))
    | inr q ↦ (w, inl (ground (arith, q)))
  ]
  shift_after_precommit-Returns env a w committing i y b p = (w, inl refl)
  shift_after_precommit-Returns env a w id (inl q) y b p = absurd (ground (arith, q))
  shift_after_precommit-Returns env a w id (inr q) y b p = absurd (ground (arith, q))

  -- A vote handler returns if its store step is done and its view shift returns.
  votes-Returns :
      (env : Env) (req : AddVoteRequest P) (res : AddVoteResult) (m : Map Bytes P)
      (store k : World P → Outcome P) (w v : World P)
      → store w ≡ done v
      → Kept whole w.state v.state
      → m ≢ []
      → 0 < w.state.voting.vote_summary.available_power
      → ((u : World P) → Kept whole w.state u.state → Returns (k u))
      → Returns ((store >> then_respond req res >> check_missing_phs proofs_of env m >> k) w)
  votes-Returns env req res m store k w v e c ne p cont =
      let v' = answer req res v in
      let c' : Kept whole w.state v'.state =
        subst (Kept whole w.state) (sym (answer-same req res v)) c in
      let (u, q) =
        check_missing-Returns proofs_of env m v' ne c'.synced (omega (arith, c'.same_power, p)) in
      let s =
        Kept-same whole v'.state u.state c'.synced c'.shared
          (check_missing-SameViews proofs_of env m v' u (inl q)) in
      subst Returns (sym (ground (arith, e, q)))
        (cont u (Kept-trans whole w.state v'.state u.state c' s))

  -- A view that can be marked.
  abbrev pub IsCurrentView : ViewId → Type 0
  IsCurrentView id = (id ≡ voting) ⊎ (id ≡ committing)

  unless_panic-Returns :
      (b : Bool) (o : Outcome P) → b ≡ false → Returns o → Returns (if b then panic else o)
  unless_panic-Returns b o q r = subst Returns (sym (ground (arith, q))) r

  nil_maps_lem :
      (s : KState P) (id : ViewId) (h r : ℕ)
      → IsCurrentView id
      → Stands s id h r
      → h ≢ 0
      → nil_maps s id ≡ false
  unfolding nil_maps
  nil_maps_lem s voting h r i st pos = refl
  nil_maps_lem s committing h r i st pos = ground (arith, st, pos)
  nil_maps_lem s id h r (inl q) st pos = absurd (ground (arith, q, st))
  nil_maps_lem s id h r (inr q) st pos = absurd (ground (arith, q, st))

  store_prevotes_done :
      (req : AddVoteRequest P) (id : ViewId) (a : Applied P) (k : Bytes) (w : World P)
      → IsCurrentView id
      → HasKeyHash proofs_of k a.proofs
      → (v : World P) × (store_prevotes proofs_of req id a w ≡ done v)
  unfolding store_prevotes mark_view_updated
  store_prevotes_done req id a k w i h =
      let (c, e) = map_to_sparse-Returns proofs_of k a.proofs h in
      is_done (store_prevotes proofs_of req id a w) (λ f. ground (arith, f, e, i))
        (λ v f. ground (arith, f, e, i))

  store_precommits_done :
      (req : AddVoteRequest P) (id : ViewId) (a : Applied P) (k : Bytes) (w : World P)
      → IsCurrentView id
      → HasKeyHash proofs_of k a.proofs
      → (v : World P) × (store_precommits proofs_of req id a w ≡ done v)
  unfolding store_precommits mark_view_updated
  store_precommits_done req id a k w i h =
      let (c, e) = map_to_sparse-Returns proofs_of k a.proofs h in
      is_done (store_precommits proofs_of req id a w) (λ f. ground (arith, f, e, i))
        (λ v f. ground (arith, f, e, i))

  -- From a synced and shared state, no two views of which share a map, with positive available
  -- power, a prevote at a positive height for the voting or the committing view is handled to the
  -- end, without a panic, if the proofs of the view after the update are not empty and all have one
  -- public key hash.
  pub add_prevote-Returns :
      (env : Env) (req : AddVoteRequest P) (w : World P) (id : ViewId) (k : Bytes)
      → IsSynced w.state
      → IsShared w.state
      → 0 < w.state.voting.vote_summary.available_power
      → IsCurrentView id
      → Stands w.state id req.h req.r
      → req.h ≢ 0
      → HasKeyHash proofs_of k
          (apply_updates req.updates (start_prevotes (read_view w.state id))).proofs
      → (apply_updates req.updates (start_prevotes (read_view w.state id))).proofs ≢ []
      → Returns (add_prevote proofs_of env req w)
  unfolding add_prevote add_prevote_to shift_after_prevote
  add_prevote-Returns env req w id k y g p i st pos h ne =
      let a = apply_updates req.updates (start_prevotes (read_view w.state id)) in
      let (v, e) = store_prevotes_done req id a k w i h in
      let f = (find_view_iff w.state req.h req.r id y).1 st in
      let r =
        votes-Returns env req (result_of a) a.proofs (store_prevotes proofs_of req id a)
          (shift_after_prevote proofs_of env a id) w v e
          (store_prevotes-Kept proofs_of whole req id a w v y g (inl e)) ne p
          (λ u c. (u, inl (ground (arith, i)))) in
      subst Returns (sym (ground (arith, f))) (
        unless_panic-Returns (nil_maps w.state id && a.any_added) _
          (ground (arith, nil_maps_lem w.state id req.h req.r i st pos)) r)

  -- From a synced and shared state, no two views of which share a map, with positive available
  -- power below the last uint64 height, a precommit at a positive height for the voting or the
  -- committing view is handled to the end, without a panic, if the proofs of the view after the
  -- update are not empty and all have one public key hash.
  pub add_precommit-Returns :
      (env : Env) (req : AddVoteRequest P) (w : World P) (id : ViewId) (k : Bytes)
      → IsSynced w.state
      → IsShared w.state
      → w.state.voting.height + 1 < 2 ^ 64
      → 0 < w.state.voting.vote_summary.available_power
      → IsCurrentView id
      → Stands w.state id req.h req.r
      → req.h ≢ 0
      → HasKeyHash proofs_of k
          (apply_updates req.updates (start_precommits (read_view w.state id))).proofs
      → (apply_updates req.updates (start_precommits (read_view w.state id))).proofs ≢ []
      → Returns (add_precommit proofs_of env req w)
  unfolding add_precommit add_precommit_to
  add_precommit-Returns env req w id k y g b p i st pos h ne =
      let a = apply_updates req.updates (start_precommits (read_view w.state id)) in
      let (v, e) = store_precommits_done req id a k w i h in
      let f = (find_view_iff w.state req.h req.r id y).1 st in
      let r =
        votes-Returns env req (result_of a) a.proofs (store_precommits proofs_of req id a)
          (shift_after_precommit proofs_of env a id) w v e
          (store_precommits-Kept proofs_of whole req id a w v y g (inl e)) ne p
          (λ u c.
            shift_after_precommit-Returns env a u id i c.synced (omega (arith, c.same_height, b))
              (omega (arith, c.same_power, p))) in
      subst Returns (sym (ground (arith, f))) (
        unless_panic-Returns (nil_maps w.state id && a.any_added) _
          (ground (arith, nil_maps_lem w.state id req.h req.r i st pos)) r)
