-- ===== src/Mirror/Kernel/Votes.antt =====
-- Votes arriving at the kernel: `addPrevote` and `addPrecommit` in kernel.go, and votes.go.
use gordian.Prelude.{
  ℕ, ◌+◌, Bool, true, false, ◌==◌, ◌&&◌, [], ◌∷◌, Bytes, bytes_key, Map, insert, get_or, none, some,
  if◌then◌else◌, u32,
}
use gordian.Consensus.RoundView.{VersionedRoundView}
use gordian.Consensus.VoteSummary.{set_prevote_powers, set_precommit_powers}
use gordian.Mirror.Outgoing.{ViewId, voting, committing, next_round}
use gordian.Mirror.KState.{
  KState, ViewLookupStatus, found, before_committing, wrong_commit, orphaned, find_view,
  mark_view_updated,
}
use gordian.Mirror.Kernel.World.{
  SignatureProofs, AddVoteResult, accepted, conflict, out_of_date, overwrite_round_prevote_proofs,
  overwrite_round_precommit_proofs, respond, Env, World, Outcome, done, panic, call, with_state,
  log_error, ◌>>◌, map_to_sparse_signature_collection,
}
use gordian.Mirror.Kernel.Fetch.{check_missing_phs}
use gordian.Mirror.Kernel.Shift.{
  check_voting_precommit_view_shift, check_next_round_precommit_view_shift,
  check_prevote_view_shift,
}

pub record VoteUpdate (P : Type 0) : Type 0 where
  pub proof : P
  pub prev_version : ℕ  -- uint32

-- AddPrevoteRequest and AddPrecommitRequest; `responds` says whether the response channel is set.
pub record AddVoteRequest (P : Type 0) : Type 0 where
  pub h : ℕ
  pub r : ℕ
  pub updates : Map Bytes (VoteUpdate P)
  pub responds : Bool

-- The variables of the loop over the updates.
pub record Applied (P : Type 0) : Type 0 where
  pub proofs : Map Bytes P
  pub versions : Map Bytes ℕ
  pub all_accepted : Bool
  pub any_added : Bool

module _ {P : Type 0} where
  -- The loop over maps that can be written: an update is applied if its previous version is the
  -- current version of the block. The panic on a nil map is in `add_prevote_to` and
  -- `add_precommit_to`.
  unfoldable pub apply_updates : Map Bytes (VoteUpdate P) → Applied P → Applied P
  apply_updates [] a = a
  apply_updates ((h, u) ∷ us) a = apply_updates us (
      if u.prev_version == get_or a.versions h 0
      then record a {
        proofs = insert h u.proof a.proofs;
        versions = insert h (u32 (get_or a.versions h 0 + 1)) a.versions;
        any_added = true;
      }
      else record a { all_accepted = false })

  -- Reading and writing the view that an identifier names.
  abbrev pub read_view : KState P → ViewId → VersionedRoundView P
  read_view s committing = s.committing
  read_view s next_round = s.next_round
  read_view s _ = s.voting

  -- Before the first commit the committing view is the zero view, at height 0 and with nil maps:
  -- reading them is reading empty maps, and a write panics.
  unfoldable pub nil_maps : KState P → ViewId → Bool
  nil_maps s committing = s.committing.height == 0
  nil_maps s _ = false

  abbrev pub write_view : KState P → ViewId → VersionedRoundView P → KState P
  write_view s committing v = record s { committing = v }
  write_view s next_round v = record s { next_round = v }
  write_view s _ v = record s { voting = v }

  abbrev pub answer : AddVoteRequest P → AddVoteResult → World P → World P
  answer req res w = if req.responds then call (respond res) w else w

  -- A view that was not found: an answer for an old one, else a panic.
  unfoldable pub refuse : AddVoteRequest P → ViewLookupStatus → World P → Outcome P
  refuse req before_committing w = done (answer req out_of_date w)
  refuse req orphaned w = done (answer req out_of_date w)
  refuse req wrong_commit w = done (answer req out_of_date w)
  refuse req _ w = panic

  abbrev pub result_of : Applied P → AddVoteResult
  result_of a = if a.all_accepted then accepted else conflict

  abbrev pub then_respond : AddVoteRequest P → AddVoteResult → World P → Outcome P
  then_respond req res w = done (answer req res w)

  abbrev pub start_prevotes : VersionedRoundView P → Applied P
  start_prevotes v = record {
    proofs = v.prevote_proofs;
    versions = v.prevote_block_versions;
    all_accepted = true;
    any_added = false;
  }

  abbrev pub start_precommits : VersionedRoundView P → Applied P
  start_precommits v = record {
    proofs = v.precommit_proofs;
    versions = v.precommit_block_versions;
    all_accepted = true;
    any_added = false;
  }

module _ {P : Type 0} (proofs_of : SignatureProofs P) where
  -- The view with the loop's results and its recomputed summary.
  unfoldable pub with_prevotes : VersionedRoundView P → Applied P → VersionedRoundView P
  with_prevotes v a = record v {
    round_view = record (v.round_view) {
      prevote_proofs = a.proofs;
      vote_summary =
          set_prevote_powers proofs_of.bits v.vote_summary v.validator_set.validators a.proofs;
    };
    prevote_block_versions = a.versions;
  }

  unfoldable pub with_precommits : VersionedRoundView P → Applied P → VersionedRoundView P
  with_precommits v a = record v {
    round_view = record (v.round_view) {
      precommit_proofs = a.proofs;
      vote_summary =
          set_precommit_powers proofs_of.bits v.vote_summary v.validator_set.validators a.proofs;
    };
    precommit_block_versions = a.versions;
  }

  -- The bookkeeping of an applied update: mark the view and write the round store.
  unfoldable pub store_prevotes : AddVoteRequest P → ViewId → Applied P → World P → Outcome P
  store_prevotes req id a w =
      if a.any_added
      then elim (mark_view_updated (write_view w.state id (with_prevotes (read_view w.state id) a))
          id) [
            | none ↦ panic
            | some s ↦ elim (map_to_sparse_signature_collection proofs_of a.proofs) [
              | none ↦ panic
              | some c ↦ done (call (overwrite_round_prevote_proofs req.h req.r c) (with_state w s))
            ]
          ]
      else done w

  unfoldable pub store_precommits : AddVoteRequest P → ViewId → Applied P → World P → Outcome P
  store_precommits req id a w =
      if a.any_added
      then elim (mark_view_updated
          (write_view w.state id (with_precommits (read_view w.state id) a)) id) [
            | none ↦ panic
            | some s ↦ elim (map_to_sparse_signature_collection proofs_of a.proofs) [
              | none ↦ panic
              | some c ↦
                  done (call (overwrite_round_precommit_proofs req.h req.r c) (with_state w s))
            ]
          ]
      else done w

  -- Only an accepted prevote for the next round can shift the view.
  unfoldable pub shift_after_prevote : Env → Applied P → ViewId → World P → Outcome P
  shift_after_prevote env a next_round w =
      if a.all_accepted then log_error (check_prevote_view_shift proofs_of env w) else done w
  shift_after_prevote env a _ w = done w

  unfoldable pub shift_after_precommit : Env → Applied P → ViewId → World P → Outcome P
  shift_after_precommit env a voting w =
      if a.all_accepted
      then log_error (check_voting_precommit_view_shift proofs_of env w)
      else done w
  shift_after_precommit env a next_round w =
      if a.all_accepted
      then log_error (check_next_round_precommit_view_shift proofs_of env w)
      else done w
  shift_after_precommit env a _ w = done w

  unfoldable pub add_prevote_to : Env → AddVoteRequest P → ViewId → World P → Outcome P
  add_prevote_to env req id w =
      let a = apply_updates req.updates (start_prevotes (read_view w.state id)) in
      if nil_maps w.state id && a.any_added
      then panic
      else (store_prevotes req id a
            >> then_respond req (result_of a)
            >> check_missing_phs proofs_of env a.proofs
            >> shift_after_prevote env a id)
          w

  unfoldable pub add_precommit_to : Env → AddVoteRequest P → ViewId → World P → Outcome P
  add_precommit_to env req id w =
      let a = apply_updates req.updates (start_precommits (read_view w.state id)) in
      if nil_maps w.state id && a.any_added
      then panic
      else (store_precommits req id a
            >> then_respond req (result_of a)
            >> check_missing_phs proofs_of env a.proofs
            >> shift_after_precommit env a id)
          w

  unfoldable pub add_prevote : Env → AddVoteRequest P → World P → Outcome P
  add_prevote env req w = elim (find_view w.state req.h req.r) [
    | none ↦ panic
    | some (id, found) ↦ add_prevote_to env req id w
    | some (id, status) ↦ refuse req status w
  ]

  unfoldable pub add_precommit : Env → AddVoteRequest P → World P → Outcome P
  add_precommit env req w = elim (find_view w.state req.h req.r) [
    | none ↦ panic
    | some (id, found) ↦ add_precommit_to env req id w
    | some (id, status) ↦ refuse req status w
  ]
