-- ===== src/Mirror/Kernel/HeaderSafety.antt =====
-- What `addProposedHeader` keeps (kernel.go).
use gordian.Prelude.{
  ◌+◌, ◌^◌, ◌<◌, refl, sym, subst, inl, inr, Bool, true, false, Bytes, Map, Option, none, some,
  arith, Option-cases, Bool-cases,
}
use gordian.Mirror.Outgoing.{ViewId, voting, committing, next_round}
use gordian.Mirror.KState.{
  ViewLookupStatus, found, mark_view_updated, mark_committing_view_updated, find_view,
}
use gordian.Mirror.Lookup.{IsSynced, IsSharedBy, without_proofs, without_proofs-Separate}
use gordian.Mirror.Kernel.World.{
  SignatureProofs, Env, World, done, panic, with_state, map_to_sparse_signature_collection,
}
use gordian.Mirror.Kernel.Shift.{check_voting_precommit_view_shift}
use gordian.Mirror.Kernel.Votes.{read_view, write_view}
use gordian.Mirror.Kernel.Steps.{Ends, SameViews, >>_Ends}
use gordian.Mirror.Kernel.Commits.{check_voting_lem}
use gordian.Mirror.Kernel.Kept.{
  Kept, marked-Kept, SafeBy, Stays-refl, Stays-Safe, Safe-Kept, Kept-same, Kept-trans,
  log_error-Ends,
}
use gordian.Prelude.{bytes_key, has}
use gordian.Consensus.Types.{ProposedHeader}
use gordian.Mirror.Lag.{set_state, up_to_date}
use gordian.Mirror.Kernel.World.{call, save_round_proposed_header}
use gordian.Mirror.Kernel.Headers.{
  cancel_in_flight, have_signature, append_header, backfill, with_committing_proofs, store_backfill,
  merge_previous_commit, shift_after_header, after_header, finish_header, add_header_to,
  add_proposed_header,
}

module _ {P : Type 0} where
  cancel-SameViews :
      (ph : ProposedHeader) (w : World P) → SameViews w.state (cancel_in_flight ph w).state
  unfolding cancel_in_flight
  cancel-SameViews ph w = ground arith

module _ {P : Type 0} (proofs_of : SignatureProofs P) where
  store_backfill-Kept :
      (ph : ProposedHeader) (m : Map Bytes P) (merged : Bool) (w w' : World P)
      → IsSynced w.state
      → IsSharedBy without_proofs w.state
      → Ends (store_backfill proofs_of ph m merged w) w'
      → Kept without_proofs w.state w'.state
  unfolding store_backfill mark_view_updated
  store_backfill-Kept ph m true w w' y g e =
      elim (Option-cases (map_to_sparse_signature_collection proofs_of m)) [
        | inl q ↦ absurd (ground (arith, q, e))
        | inr (c, q) ↦
            let s = with_committing_proofs proofs_of w.state m in
            let t = mark_committing_view_updated s in
            subst (Kept without_proofs w.state) (sym (ground (arith, q, e))) (
              marked-Kept without_proofs w.state committing s.committing t y g refl refl refl refl
                refl)
      ]
  store_backfill-Kept ph m false w w' y g e =
      let s = with_committing_proofs proofs_of w.state m in
      let k : Kept without_proofs w.state s = record {
        synced = ground (arith, y);
        shared = record {
          committing_shared = g.committing_shared;
          voting_shared = g.voting_shared;
          next_round_shared = g.next_round_shared;
          separate = without_proofs-Separate (with_committing_proofs proofs_of w.state m);
        };
        same_height = refl;
        same_round = refl;
        same_committing = refl;
        same_power = refl;
      } in
      subst (Kept without_proofs w.state) (sym (ground (arith, e))) k

  merge_previous-Kept :
      (ph : ProposedHeader) (w w' : World P)
      → IsSynced w.state
      → IsSharedBy without_proofs w.state
      → Ends (merge_previous_commit proofs_of ph w) w'
      → Kept without_proofs w.state w'.state
  unfolding merge_previous_commit
  merge_previous-Kept ph w w' y g e =
      let k = ph.header.prev_commit_proof.pub_key_hash in
      let c = ph.header.prev_commit_proof.proofs in
      let m = w.state.committing.precommit_proofs in
      elim (Option-cases (backfill proofs_of k c (m, false))) [
        | inl q ↦ absurd (ground (arith, q, e))
        | inr (r, q) ↦ store_backfill-Kept ph r.0 r.1 w w' y g (rw (q, merge_previous_commit) at e)
      ]

  shift_after_header-Safe :
      (env : Env) (ph : ProposedHeader) (id : ViewId) (w w' : World P)
      → IsSynced w.state
      → IsSharedBy without_proofs w.state
      → w.state.voting.height + 1 < 2 ^ 64
      → w.state.voting.vote_summary.available_power < 2 ^ 64
      → Ends (shift_after_header proofs_of env ph id w) w'
      → SafeBy without_proofs w.state w'.state
  unfolding shift_after_header
  shift_after_header-Safe env ph voting w w' y g b p e =
      elim (Bool-cases (has ph.header.hash w.state.voting.precommit_proofs)) [
        | inl q ↦ check_voting_lem proofs_of without_proofs env w w' y g b p (
            log_error-Ends (check_voting_precommit_view_shift proofs_of env w) w'
              (rw (q, shift_after_header) at e))
        | inr q ↦
            Stays-Safe without_proofs w.state w'.state
              (Stays-refl without_proofs w.state w'.state y g (ground (arith, q, e)))
      ]
  shift_after_header-Safe env ph id w w' y g b p e =
      Stays-Safe without_proofs w.state w'.state
        (Stays-refl without_proofs w.state w'.state y g (ground (arith, e)))

  after_header-Safe :
      (env : Env) (ph : ProposedHeader) (id : ViewId) (w w' : World P)
      → IsSynced w.state
      → IsSharedBy without_proofs w.state
      → w.state.voting.height + 1 < 2 ^ 64
      → w.state.voting.vote_summary.available_power < 2 ^ 64
      → Ends (after_header proofs_of env ph id w) w'
      → SafeBy without_proofs w.state w'.state
  unfolding after_header
  after_header-Safe env ph id w w' y g b p e =
      let s = w.state in
      let t = record s { lag_manager = set_state s.lag_manager up_to_date s.committing.height 0 } in
      let k : Kept without_proofs s t = Kept-same without_proofs s t y g (ground arith) in
      let u = with_state w t in
      elim (>>_Ends (merge_previous_commit proofs_of ph) (shift_after_header proofs_of env ph id) u
        w' e) [
          | inl q ↦
              let c =
                Kept-trans without_proofs s t w'.state k
                  (merge_previous-Kept ph u w' k.synced k.shared (inr q)) in
              Safe-Kept without_proofs s w'.state w'.state c (
                Stays-Safe without_proofs w'.state w'.state
                  (Stays-refl without_proofs w'.state w'.state c.synced c.shared refl))
          | inr (v, q, r) ↦
              let c =
                Kept-trans without_proofs s t v.state k
                  (merge_previous-Kept ph u v k.synced k.shared (inl q)) in
              Safe-Kept without_proofs s v.state w'.state c (
                shift_after_header-Safe env ph id v w' c.synced c.shared
                  (omega (arith, c.same_height, b)) (omega (arith, c.same_power, p)) r)
        ]

  finish_header-Safe :
      (env : Env) (ph : ProposedHeader) (id : ViewId) (w w' : World P)
      → IsSynced w.state
      → IsSharedBy without_proofs w.state
      → w.state.voting.height + 1 < 2 ^ 64
      → w.state.voting.vote_summary.available_power < 2 ^ 64
      → Ends (finish_header proofs_of env ph id w) w'
      → SafeBy without_proofs w.state w'.state
  unfolding finish_header
  finish_header-Safe env ph voting w w' y g b p e = after_header-Safe env ph voting w w' y g b p e
  finish_header-Safe env ph next_round w w' y g b p e =
      after_header-Safe env ph next_round w w' y g b p e
  finish_header-Safe env ph id w w' y g b p e =
      Stays-Safe without_proofs w.state w'.state
        (Stays-refl without_proofs w.state w'.state y g (ground (arith, e)))

  add_header_to-Safe :
      (env : Env) (ph : ProposedHeader) (id : ViewId) (w w' : World P)
      → IsSynced w.state
      → IsSharedBy without_proofs w.state
      → w.state.voting.height + 1 < 2 ^ 64
      → w.state.voting.vote_summary.available_power < 2 ^ 64
      → Ends (add_header_to proofs_of env ph id w) w'
      → SafeBy without_proofs w.state w'.state
  unfolding add_header_to
  add_header_to-Safe env ph id w w' y g b p e =
      let v = read_view w.state id in
      let v' = append_header ph v in
      elim (Bool-cases (have_signature ph v)) [
        | inl q ↦
            Stays-Safe without_proofs w.state w'.state
              (Stays-refl without_proofs w.state w'.state y g (ground (arith, q, e)))
        | inr q ↦ elim (Option-cases (mark_view_updated (write_view w.state id v') id)) [
          | inl n ↦ absurd (ground (arith, q, n, e))
          | inr (t, n) ↦
              let c = marked-Kept without_proofs w.state id v' t y g refl refl refl refl n in
              Safe-Kept without_proofs w.state t w'.state c (
                finish_header-Safe env ph id (call (save_round_proposed_header ph) (with_state w t))
                  w' c.synced c.shared (omega (arith, c.same_height, b))
                  (omega (arith, c.same_power, p)) (rw (q, add_header_to, n) at e))
        ]
      ]

  -- From a synced state that is shared but for the precommit proofs and the previous commit's
  -- proofs of the committing view, below the last uint64 height and with less than 2^64 available
  -- power, a proposed header that the kernel handles to the end keeps the state synced and so
  -- shared, and moves the views at most once: to the next round or to the next height. The height
  -- moves only if the new committing view shows more than two thirds of its power for the committed
  -- header.
  pub add_proposed_header-Safe :
      (env : Env) (ph : ProposedHeader) (w w' : World P)
      → IsSynced w.state
      → IsSharedBy without_proofs w.state
      → w.state.voting.height + 1 < 2 ^ 64
      → w.state.voting.vote_summary.available_power < 2 ^ 64
      → Ends (add_proposed_header proofs_of env ph w) w'
      → SafeBy without_proofs w.state w'.state
  unfolding add_proposed_header
  add_proposed_header-Safe env ph w w' y g b p e =
      let u = cancel_in_flight ph w in
      let k = Kept-same without_proofs w.state u.state y g (cancel-SameViews ph w) in
      Safe-Kept without_proofs w.state u.state w'.state k
        (go u k (find_view u.state ph.header.height ph.round) e)
    where
      go :
          (u : World P)
          → Kept without_proofs w.state u.state
          → (o : Option (ViewId × ViewLookupStatus))
          → Ends
              (elim o [
                | none ↦ panic
                | some (id, found) ↦ add_header_to proofs_of env ph id u
                | some (id, st) ↦ done u
              ])
              w'
          → SafeBy without_proofs u.state w'.state
      go u k none e = absurd (ground (arith, e))
      go u k (some (id, found)) e =
          add_header_to-Safe env ph id u w' k.synced k.shared (omega (arith, k.same_height, b))
            (omega (arith, k.same_power, p)) e
      go u k (some (id, st)) e =
          Stays-Safe without_proofs u.state w'.state
            (Stays-refl without_proofs u.state w'.state k.synced k.shared (ground (arith, e)))
