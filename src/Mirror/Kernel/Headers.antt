-- ===== src/Mirror/Kernel/Headers.antt =====
-- Proposed headers arriving at the kernel: `addProposedHeader` in kernel.go.
use gordian.Prelude.{
  ◌+◌, Bool, false, ◌||◌, List, [], ◌∷◌, ◌++◌, Bytes, bytes_eq, bytes_key, Map, insert, erase,
  lookup, has, Option, none, some, if◌then◌else◌, contains_func, u64,
}
use gordian.Consensus.Types.{ProposedHeader, SparseSignature}
use gordian.Consensus.RoundView.{VersionedRoundView}
use gordian.Mirror.Outgoing.{ViewId, voting, next_round}
use gordian.Mirror.Lag.{up_to_date, set_state}
use gordian.Mirror.KState.{
  KState, found, find_view, mark_view_updated, mark_committing_view_updated,
}
use gordian.Mirror.Kernel.World.{
  SignatureProofs, cancel_fetch, save_round_proposed_header, overwrite_round_precommit_proofs, Env,
  World, Outcome, done, panic, call, with_state, log_error, ◌>>◌,
  map_to_sparse_signature_collection,
}
use gordian.Mirror.Kernel.Shift.{check_voting_precommit_view_shift}
use gordian.Mirror.Kernel.Votes.{read_view, write_view}

module _ {P : Type 0} where
  -- An outstanding fetch of the header is cancelled first.
  unfoldable pub cancel_in_flight : ProposedHeader → World P → World P
  cancel_in_flight ph w =
      let s = w.state in
      if has ph.header.hash s.in_flight_fetch_phs
      then record (call (cancel_fetch ph.header.hash) w) {
        state = record s { in_flight_fetch_phs = erase ph.header.hash s.in_flight_fetch_phs };
      }
      else w

  abbrev pub have_signature : ProposedHeader → VersionedRoundView P → Bool
  have_signature ph v = contains_func (λ p. bytes_eq p.signature ph.signature) v.proposed_headers

  abbrev pub append_header : ProposedHeader → VersionedRoundView P → VersionedRoundView P
  append_header ph v = record v {
    round_view = record (v.round_view) { proposed_headers = v.proposed_headers ++ ph ∷ [] };
  }

module _ {P : Type 0} (proofs_of : SignatureProofs P) where
  -- The loop that merges the header's previous commit into the precommits of the committing view,
  -- and whether any signature was new. `none` is the panic on a block with no precommits there.
  unfoldable pub backfill :
      Bytes → Map Bytes (List SparseSignature) → Map Bytes P × Bool → Option (Map Bytes P × Bool)
  backfill key_hash [] acc = some acc
  backfill key_hash ((h, sigs) ∷ later) (m, merged) = elim (lookup h m) [
    | none ↦ none
    | some target ↦
        let (p, increased) = proofs_of.merge_sparse target key_hash sigs in
        backfill key_hash later (insert h p m, merged || increased)
  ]

  abbrev pub with_committing_proofs : KState P → Map Bytes P → KState P
  with_committing_proofs s m = record s {
    committing = record (s.committing) {
      round_view = record (s.committing.round_view) { precommit_proofs = m };
    };
  }

  -- Once every signature is merged: store and share the committing view if any was new.
  unfoldable pub store_backfill : ProposedHeader → Map Bytes P → Bool → World P → Outcome P
  store_backfill ph m merged w =
      let s = with_committing_proofs w.state m in
      if merged
      then elim (map_to_sparse_signature_collection proofs_of m) [
        | none ↦ panic
        | some c ↦ done (
            call
              (overwrite_round_precommit_proofs (u64 (ph.header.height + 18446744073709551615))
                ph.header.prev_commit_proof.round c)
              (with_state w (mark_committing_view_updated s)))
      ]
      else done (with_state w s)

  unfoldable pub merge_previous_commit : ProposedHeader → World P → Outcome P
  merge_previous_commit ph w =
      elim (backfill ph.header.prev_commit_proof.pub_key_hash ph.header.prev_commit_proof.proofs
        (w.state.committing.precommit_proofs, false)) [
          | none ↦ panic
          | some (m, merged) ↦ store_backfill ph m merged w
        ]

  -- A header that arrives after precommits for it may complete a commit.
  unfoldable pub shift_after_header : Env → ProposedHeader → ViewId → World P → Outcome P
  shift_after_header env ph voting w =
      if has ph.header.hash w.state.voting.precommit_proofs
      then log_error (check_voting_precommit_view_shift proofs_of env w)
      else done w
  shift_after_header env ph _ w = done w

  -- The rest of the method, for a header of the voting height.
  unfoldable pub after_header : Env → ProposedHeader → ViewId → World P → Outcome P
  after_header env ph id w =
      let s = w.state in
      let s' = record s {
        lag_manager = set_state s.lag_manager up_to_date s.committing.height 0;
      } in
      (merge_previous_commit ph >> shift_after_header env ph id) (with_state w s')

  unfoldable pub finish_header : Env → ProposedHeader → ViewId → World P → Outcome P
  finish_header env ph voting w = after_header env ph voting w
  finish_header env ph next_round w = after_header env ph next_round w
  finish_header env ph _ w = done w

  unfoldable pub add_header_to : Env → ProposedHeader → ViewId → World P → Outcome P
  add_header_to env ph id w =
      let v = read_view w.state id in
      if have_signature ph v
      then done w
      else elim (mark_view_updated (write_view w.state id (append_header ph v)) id) [
        | none ↦ panic
        | some s ↦ finish_header env ph id (call (save_round_proposed_header ph) (with_state w s))
      ]

  unfoldable pub add_proposed_header : Env → ProposedHeader → World P → Outcome P
  add_proposed_header env ph w =
      let w' = cancel_in_flight ph w in
      elim (find_view w'.state ph.header.height ph.round) [
        | none ↦ panic
        | some (id, found) ↦ add_header_to env ph id w'
        | some (id, status) ↦ done w'
      ]
