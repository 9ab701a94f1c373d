-- ===== src/Mirror/Kernel/VoteSafety.antt =====
-- What `addPrevote` and `addPrecommit` keep (kernel.go).
use gordian.Prelude.{
  ◌&&◌, ◌+◌, ◌^◌, ◌<◌, ◌≡◌, refl, sym, subst, inl, inr, Bytes, Map, Option, none, some, arith,
  Option-cases, Bool-cases,
}
use gordian.Consensus.VoteSummary.{set_prevote_powers, set_precommit_powers}
use gordian.Mirror.Outgoing.{ViewId, voting, next_round}
use gordian.Mirror.KState.{
  KState, ViewLookupStatus, found, before_committing, mark_view_updated, find_view,
}
use gordian.Mirror.Lookup.{IsSynced, IsShared, IsSharedBy, ViewMap, whole}
use gordian.Mirror.Kernel.World.{
  SignatureProofs, AddVoteResult, out_of_date, Env, World, Outcome, panic, ◌>>◌,
  map_to_sparse_signature_collection,
}
use gordian.Mirror.Kernel.Fetch.{check_missing_phs}
use gordian.Mirror.Kernel.Shift.{
  check_next_round_precommit_view_shift, check_prevote_view_shift,
  check_voting_precommit_view_shift,
}
use gordian.Mirror.Kernel.Votes.{
  AddVoteRequest, Applied, read_view, write_view, with_prevotes, with_precommits, store_prevotes,
  store_precommits, shift_after_prevote, shift_after_precommit, add_prevote_to, add_precommit_to,
  add_prevote, add_precommit, refuse, answer, result_of, then_respond, apply_updates,
  start_prevotes, start_precommits, nil_maps,
}
use gordian.Mirror.Kernel.Steps.{Ends, SameViews-refl, >>_Ends}
use gordian.Mirror.Kernel.Commits.{check_missing-SameViews, check_voting_lem}
use gordian.Mirror.Kernel.Kept.{
  Kept, marked-Kept, Safe, SafeBy, Stays, StaysBy, Stays-refl, Stays-Safe, Stays-Kept, Safe-Kept,
  Kept-same, Kept-trans, log_error-Ends,
}
use gordian.Mirror.Kernel.Kept.{unless_panic-Ends}
use gordian.Mirror.Kernel.Safety.{check_next_round-Stays, check_prevote-Stays}

module _ {P : Type 0} where
  pub answer-same :
      (req : AddVoteRequest P) (res : AddVoteResult) (w : World P)
      → (answer req res w).state ≡ w.state
  answer-same req res w = ground arith

  refuse-same :
      (req : AddVoteRequest P) (st : ViewLookupStatus) (w w' : World P)
      → Ends (refuse req st w) w'
      → w'.state ≡ w.state
  unfolding refuse
  refuse-same req before_committing w w' e = ground (arith, e, answer-same req out_of_date w)
  refuse-same req st w w' e = ground (arith, e, answer-same req out_of_date w)

module _ {P : Type 0} (proofs_of : SignatureProofs P) where
  pub store_prevotes-Kept :
      (f : ViewMap P)
      → (req : AddVoteRequest P) (id : ViewId) (a : Applied P) (w w' : World P) → IsSynced w.state
      → IsSharedBy f w.state
      → Ends (store_prevotes proofs_of req id a w) w'
      → Kept f w.state w'.state
  unfolding store_prevotes
  store_prevotes-Kept f req id a w w' y g e =
      let v = with_prevotes proofs_of (read_view w.state id) a in
      elim (Bool-cases a.any_added) [
        | inl b ↦ elim (Option-cases (mark_view_updated (write_view w.state id v) id)) [
          | inl q ↦ absurd (ground (arith, b, q, e))
          | inr (s, q) ↦
              elim (Option-cases (map_to_sparse_signature_collection proofs_of a.proofs)) [
                | inl c ↦ absurd (ground (arith, b, q, c, e))
                | inr (x, c) ↦ subst (Kept f w.state) (sym (ground (arith, b, q, c, e))) (
                    marked-Kept f w.state id v s y g (unfold with_prevotes in refl)
                      (unfold with_prevotes in refl) (unfold with_prevotes in refl)
                      (unfold with_prevotes set_prevote_powers in refl) q)
              ]
        ]
        | inr b ↦
            subst (Kept f w.state) (sym (ground (arith, b, e)))
              (Kept-same f w.state w.state y g (SameViews-refl w.state))
      ]

  pub store_precommits-Kept :
      (f : ViewMap P)
      → (req : AddVoteRequest P) (id : ViewId) (a : Applied P) (w w' : World P) → IsSynced w.state
      → IsSharedBy f w.state
      → Ends (store_precommits proofs_of req id a w) w'
      → Kept f w.state w'.state
  unfolding store_precommits
  store_precommits-Kept f req id a w w' y g e =
      let v = with_precommits proofs_of (read_view w.state id) a in
      elim (Bool-cases a.any_added) [
        | inl b ↦ elim (Option-cases (mark_view_updated (write_view w.state id v) id)) [
          | inl q ↦ absurd (ground (arith, b, q, e))
          | inr (s, q) ↦
              elim (Option-cases (map_to_sparse_signature_collection proofs_of a.proofs)) [
                | inl c ↦ absurd (ground (arith, b, q, c, e))
                | inr (x, c) ↦ subst (Kept f w.state) (sym (ground (arith, b, q, c, e))) (
                    marked-Kept f w.state id v s y g (unfold with_precommits in refl)
                      (unfold with_precommits in refl) (unfold with_precommits in refl)
                      (unfold with_precommits set_precommit_powers in refl) q)
              ]
        ]
        | inr b ↦
            subst (Kept f w.state) (sym (ground (arith, b, e)))
              (Kept-same f w.state w.state y g (SameViews-refl w.state))
      ]

  -- A vote handler up to its view shift keeps the views.
  votes_chain :
      (f : ViewMap P)
      → (R : KState P → KState P → Type 0) (env : Env) (req : AddVoteRequest P)
        (res : AddVoteResult) (m : Map Bytes P) (store k : World P → Outcome P) (w w' : World P)
      → ((s : KState P) → IsSynced s → IsSharedBy f s → R s s)
      → ((s t u : KState P) → Kept f s t → R t u → R s u)
      → ((v : World P) → Ends (store w) v → Kept f w.state v.state)
      → ((v v' : World P) → Kept f w.state v.state → Ends (k v) v' → R v.state v'.state)
      → Ends ((store >> then_respond req res >> check_missing_phs proofs_of env m >> k) w) w'
      → R w.state w'.state
  votes_chain f R env req res m store k w w' stay along kept safe e =
      let respond = then_respond req res in
      let check = check_missing_phs proofs_of env m in
      elim (>>_Ends (store >> respond >> check) k w w' e) [
        | inl q ↦ stopped w' (checked w' (inr q))
        | inr (v, q, r) ↦
            let c = checked v (inl q) in along w.state v.state w'.state c (safe v w' c r)
      ]
    where
      responded :
          (v : World P) → Ends ((store >> then_respond req res) w) v → Kept f w.state v.state
      responded v e = elim (>>_Ends store (then_respond req res) w v e) [
        | inl q ↦ kept v (inr q)
        | inr (u, q, r) ↦
            subst (Kept f w.state) (sym (ground (arith, r, answer-same req res u))) (kept u (inl q))
      ]

      checked :
          (v : World P)
          → Ends ((store >> then_respond req res >> check_missing_phs proofs_of env m) w) v
          → Kept f w.state v.state
      checked v e =
          elim (>>_Ends (store >> then_respond req res) (check_missing_phs proofs_of env m) w v e) [
            | inl q ↦ responded v (inr q)
            | inr (u, q, r) ↦
                let c = responded u (inl q) in
                Kept-trans f w.state u.state v.state c (
                  Kept-same f u.state v.state c.synced c.shared
                    (check_missing-SameViews proofs_of env m u v r))
          ]

      stopped : (v : World P) → Kept f w.state v.state → R w.state v.state
      stopped v c = along w.state v.state v.state c (stay v.state c.synced c.shared)

  shift_after_prevote-Stays :
      (f : ViewMap P)
      → (env : Env) (a : Applied P) (id : ViewId) (w w' : World P) → IsSynced w.state
      → IsSharedBy f w.state
      → Ends (shift_after_prevote proofs_of env a id w) w'
      → StaysBy f w.state w'.state
  unfolding shift_after_prevote
  shift_after_prevote-Stays f env a next_round w w' y g e = elim (Bool-cases a.all_accepted) [
    | inl q ↦ check_prevote-Stays proofs_of f env w w' y g (
        log_error-Ends (check_prevote_view_shift proofs_of env w) w'
          (rw (q, shift_after_prevote) at e))
    | inr q ↦ Stays-refl f w.state w'.state y g (ground (arith, q, e))
  ]
  shift_after_prevote-Stays f env a id w w' y g e =
      Stays-refl f w.state w'.state y g (ground (arith, e))

  shift_after_precommit-Safe :
      (f : ViewMap P)
      → (env : Env) (a : Applied P) (id : ViewId) (w w' : World P) → IsSynced w.state
      → IsSharedBy f w.state
      → w.state.voting.height + 1 < 2 ^ 64
      → w.state.voting.vote_summary.available_power < 2 ^ 64
      → Ends (shift_after_precommit proofs_of env a id w) w'
      → SafeBy f w.state w'.state
  unfolding shift_after_precommit
  shift_after_precommit-Safe f env a voting w w' y g b p e = elim (Bool-cases a.all_accepted) [
    | inl q ↦ check_voting_lem proofs_of f env w w' y g b p (
        log_error-Ends (check_voting_precommit_view_shift proofs_of env w) w'
          (rw (q, shift_after_precommit) at e))
    | inr q ↦
        Stays-Safe f w.state w'.state (Stays-refl f w.state w'.state y g (ground (arith, q, e)))
  ]
  shift_after_precommit-Safe f env a next_round w w' y g b p e = elim (Bool-cases a.all_accepted) [
    | inl q ↦ Stays-Safe f w.state w'.state (
        check_next_round-Stays proofs_of f env w w' y g (
          log_error-Ends (check_next_round_precommit_view_shift proofs_of env w) w'
            (rw (q, shift_after_precommit) at e)))
    | inr q ↦
        Stays-Safe f w.state w'.state (Stays-refl f w.state w'.state y g (ground (arith, q, e)))
  ]
  shift_after_precommit-Safe f env a id w w' y g b p e =
      Stays-Safe f w.state w'.state (Stays-refl f w.state w'.state y g (ground (arith, e)))

  pub add_prevote-StaysBy :
      (f : ViewMap P)
      → (env : Env) (req : AddVoteRequest P) (w w' : World P) → IsSynced w.state
      → IsSharedBy f w.state
      → Ends (add_prevote proofs_of env req w) w'
      → StaysBy f w.state w'.state
  unfolding add_prevote add_prevote_to
  add_prevote-StaysBy f env req w w' y g e = go (find_view w.state req.h req.r) e
    where
      handled :
          (id : ViewId)
          → Ends (add_prevote_to proofs_of env req id w) w'
          → StaysBy f w.state w'.state
      handled id k =
          let a = apply_updates req.updates (start_prevotes (read_view w.state id)) in
          votes_chain f (StaysBy f) env req (result_of a) a.proofs
            (store_prevotes proofs_of req id a) (shift_after_prevote proofs_of env a id) w w'
            (λ s y' g'. Stays-refl f s s y' g' refl) (Stays-Kept f)
            (λ v q. store_prevotes-Kept f req id a w v y g q)
            (λ v v' c q. shift_after_prevote-Stays f env a id v v' c.synced c.shared q)
            (unless_panic-Ends (nil_maps w.state id && a.any_added) _ w' k)

      go :
          (o : Option (ViewId × ViewLookupStatus))
          → Ends
              (elim o [
                | none ↦ panic
                | some (id, found) ↦ add_prevote_to proofs_of env req id w
                | some (id, st) ↦ refuse req st w
              ])
              w'
          → StaysBy f w.state w'.state
      go none k = absurd (ground (arith, k))
      go (some (id, found)) k = handled id k
      go (some (id, st)) k = Stays-refl f w.state w'.state y g (refuse-same req st w w' k)

  pub add_precommit-SafeBy :
      (f : ViewMap P)
      → (env : Env) (req : AddVoteRequest P) (w w' : World P) → IsSynced w.state
      → IsSharedBy f w.state
      → w.state.voting.height + 1 < 2 ^ 64
      → w.state.voting.vote_summary.available_power < 2 ^ 64
      → Ends (add_precommit proofs_of env req w) w'
      → SafeBy f w.state w'.state
  unfolding add_precommit add_precommit_to
  add_precommit-SafeBy f env req w w' y g b p e = go (find_view w.state req.h req.r) e
    where
      handled :
          (id : ViewId)
          → Ends (add_precommit_to proofs_of env req id w) w'
          → SafeBy f w.state w'.state
      handled id k =
          let a = apply_updates req.updates (start_precommits (read_view w.state id)) in
          votes_chain f (SafeBy f) env req (result_of a) a.proofs
            (store_precommits proofs_of req id a) (shift_after_precommit proofs_of env a id) w w'
            (λ s y' g'. Stays-Safe f s s (Stays-refl f s s y' g' refl)) (Safe-Kept f)
            (λ v q. store_precommits-Kept f req id a w v y g q)
            (λ v v' c q.
              shift_after_precommit-Safe f env a id v v' c.synced c.shared
                (omega (arith, c.same_height, b)) (omega (arith, c.same_power, p)) q)
            (unless_panic-Ends (nil_maps w.state id && a.any_added) _ w' k)

      go :
          (o : Option (ViewId × ViewLookupStatus))
          → Ends
              (elim o [
                | none ↦ panic
                | some (id, found) ↦ add_precommit_to proofs_of env req id w
                | some (id, st) ↦ refuse req st w
              ])
              w'
          → SafeBy f w.state w'.state
      go none k = absurd (ground (arith, k))
      go (some (id, found)) k = handled id k
      go (some (id, st)) k =
          Stays-Safe f w.state w'.state
            (Stays-refl f w.state w'.state y g (refuse-same req st w w' k))

  -- From a synced and shared state, no two views of which share a map, a prevote that the kernel
  -- handles to the end keeps the state synced and shared, keeps the voting and the committing
  -- height, and moves the voting round at most to the next round.
  pub add_prevote-Stays :
      (env : Env) (req : AddVoteRequest P) (w w' : World P)
      → IsSynced w.state
      → IsShared w.state
      → Ends (add_prevote proofs_of env req w) w'
      → Stays w.state w'.state
  add_prevote-Stays env req w w' y g e = add_prevote-StaysBy whole env req w w' y g e

  -- From a synced and shared state, no two views of which share a map, below the last uint64 height
  -- and with less than 2^64 available power, a precommit that the kernel handles to the end keeps
  -- the state synced and shared, and moves the views at most once: to the next round or to the next
  -- height. The height moves only if the new committing view shows more than two thirds of its
  -- power for the committed header.
  pub add_precommit-Safe :
      (env : Env) (req : AddVoteRequest P) (w w' : World P)
      → IsSynced w.state
      → IsShared w.state
      → w.state.voting.height + 1 < 2 ^ 64
      → w.state.voting.vote_summary.available_power < 2 ^ 64
      → Ends (add_precommit proofs_of env req w) w'
      → Safe w.state w'.state
  add_precommit-Safe env req w w' y g b p e = add_precommit-SafeBy whole env req w w' y g b p e
