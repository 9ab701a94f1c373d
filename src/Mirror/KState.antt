-- ===== src/Mirror/KState.antt =====
-- tm/tmengine/internal/tmmirror/internal/tmi/kstate.go: the mutable state of the mirror kernel.
-- `P` is the type of the signature proofs; `sparse` is a proof's `AsSparse().Signatures`.
use gordian.Prelude.{
  ℕ, ◌+◌, Bool, ◌==◌, ◌&&◌, ◌||◌, true, false, ltb, if◌then◌else◌, Option, none, some, List, [],
  ◌∷◌, Bytes, Map, u32, u64,
}
use gordian.Consensus.Types.{Header, ValidatorSet, SparseSignature}
use gordian.Consensus.VoteSummary.{new_vote_summary, set_available_power}
use gordian.Consensus.RoundView.{VersionedRoundView, zero_round_view}
use gordian.Consensus.RoundView
use gordian.Mirror.Outgoing.{ViewId, not_found, voting, committing, next_round}
use gordian.Mirror.Gossip.{GossipViewManager}
use gordian.Mirror.StateMachineView.{
  StateMachineViewManager, Signal, no_signal, open_signal, closed_signal, set_view, jump_to_round,
}
use gordian.Mirror.Lag.{LagManager}

-- The keys of InFlightFetchPHs; the cancel functions are effects of the kernel. `NewKernel` gives the
-- voting view and the next round's view one and the same PrevCommitProof map;
-- `prev_commit_proof_shared` says that they still share it, since clearing the one clears the other.
pub record KState (P : Type 0) : Type 0 where
  pub committing : VersionedRoundView P
  pub voting : VersionedRoundView P
  pub next_round : VersionedRoundView P
  pub in_flight_fetch_phs : Map Bytes (Unit {0})
  pub committing_header : Header
  pub prev_commit_proof_shared : Bool
  pub state_machine_view_manager : StateMachineViewManager P
  pub gossip_view_manager : GossipViewManager P
  pub lag_manager : LagManager

pub data ViewLookupStatus : Type 0 where
  found before_committing wrong_commit orphaned later_voting_round future : ViewLookupStatus

pub record NextHeightDetails : Type 0 where
  pub validator_set : ValidatorSet
  pub voted_header : Header

-- `close(ch)`, but not on a nil channel: a second close panics.
unfoldable pub close : Signal → Option Signal
close no_signal = some no_signal
close open_signal = some closed_signal
close closed_signal = none

-- `map[string][]gcrypto.SparseSignature` from full proofs.
unfoldable pub sparse_proofs :
    {P : Type 0} → (P → List SparseSignature) → Map Bytes P → Map Bytes (List SparseSignature)
sparse_proofs sparse [] = []
sparse_proofs sparse ((h, p) ∷ m) = (h, sparse p) ∷ sparse_proofs sparse m

module _ {P : Type 0} where
  -- `FindView`: the identifier of the view, and the status. `none` is the panic.
  unfoldable pub find_view : KState P → ℕ → ℕ → Option (ViewId × ViewLookupStatus)
  find_view s h r =
      let vr = s.voting.round in
      let cr = s.committing.round in
      let below =
        if ltb h s.committing.height
        then some (not_found, before_committing)
        else if ltb s.voting.height h
        then some (not_found, future)
        else none in
      if h == s.voting.height
      then if r == vr
        then some (voting, found)
        else if r == u32 (vr + 1)
        then some (next_round, found)
        else if ltb r vr
        then some (not_found, orphaned)
        else some (not_found, later_voting_round)
      else if h == s.committing.height
      then if r == cr
        then some (committing, found)
        else if ltb r cr
        then some (not_found, before_committing)
        else below
      else below

  abbrev pub bump : VersionedRoundView P → VersionedRoundView P
  bump v = record v { version = u32 (v.version + 1) }

  abbrev pub gossip_committing : KState P → VersionedRoundView P → GossipViewManager P
  gossip_committing s v =
      let g = s.gossip_view_manager in record g { committing = record (g.committing) { vrv = v } }

  abbrev pub gossip_voting : KState P → VersionedRoundView P → GossipViewManager P
  gossip_voting s v =
      let g = s.gossip_view_manager in record g { voting = record (g.voting) { vrv = v } }

  abbrev pub gossip_next_round : KState P → VersionedRoundView P → GossipViewManager P
  gossip_next_round s v =
      let g = s.gossip_view_manager in record g { next_round = record (g.next_round) { vrv = v } }

  unfoldable pub mark_committing_view_updated : KState P → KState P
  mark_committing_view_updated s =
      let v = bump s.committing in
      let m = s.state_machine_view_manager in
      let smh = m.round_entrance.h in
      let smr = m.round_entrance.r in
      let m' =
        if smh == v.height && smr == v.round
        then set_view m v
        else if ltb smh v.height || (smh == v.height && ltb smr v.round)
        then jump_to_round m v
        else m in
      record s {
        committing = v;
        gossip_view_manager = gossip_committing s v;
        state_machine_view_manager = m';
      }

  unfoldable pub mark_voting_view_updated : KState P → KState P
  mark_voting_view_updated s =
      let v = bump s.voting in
      let m = s.state_machine_view_manager in
      let m' =
        if m.round_entrance.h == v.height && m.round_entrance.r == v.round
        then set_view m v
        else m in
      record s {
        voting = v;
        gossip_view_manager = gossip_voting s v;
        state_machine_view_manager = m';
      }

  unfoldable pub mark_next_round_view_updated : KState P → KState P
  mark_next_round_view_updated s =
      let v = bump s.next_round in
      record s { next_round = v; gossip_view_manager = gossip_next_round s v }

  -- `none` is the panic on any other view.
  unfoldable pub mark_view_updated : KState P → ViewId → Option (KState P)
  mark_view_updated s committing = some (mark_committing_view_updated s)
  mark_view_updated s voting = some (mark_voting_view_updated s)
  mark_view_updated s next_round = some (mark_next_round_view_updated s)
  mark_view_updated s _ = none

  -- Swap the next round and the voting view, and clear what becomes the next round.
  unfoldable pub increment_voting_round : KState P → KState P
  increment_voting_round s =
      let s1 =
        mark_voting_view_updated (record s { voting = s.next_round; next_round = s.voting }) in
      let cleared = RoundView.reset_for_same_height s1.next_round in
      let next = record cleared {
        round_view = record (cleared.round_view) { round = u32 (s1.voting.round + 1) };
      } in
      mark_next_round_view_updated (record s1 { next_round = next })

  unfoldable pub advance_voting_round : KState P → KState P
  advance_voting_round s =
      let g = s.gossip_view_manager in
      increment_voting_round
        (record s { gossip_view_manager = record g { nil_voted_round = some s.voting } })

  -- `s.Voting.Round-1` on a uint32.
  unfoldable pub jump_voting_round : KState P → KState P
  jump_voting_round s =
      let s1 = increment_voting_round s in
      let m = s1.state_machine_view_manager in
      if m.round_entrance.h == s1.voting.height
        && m.round_entrance.r == u32 (s1.voting.round + 4294967295)
      then record s1 { state_machine_view_manager = jump_to_round m s1.voting }
      else s1

  unfoldable pub close_signal : Bool → KState P → Option (KState P)
  unfolding close
  close_signal signal s =
      let m = s.state_machine_view_manager in
      if signal
      then elim (close m.round_entrance.height_committed) [
        | none ↦ none
        | some c ↦ some (record s {
          state_machine_view_manager = record m {
            round_entrance = record (m.round_entrance) { height_committed = c };
          };
        })
      ]
      else some s

  -- `clear(v.PrevCommitProof.Proofs)` seen through a view that shares the map.
  unfoldable pub clear_shared : Bool → VersionedRoundView P → VersionedRoundView P
  clear_shared true v = record v {
    round_view = record (v.round_view) {
      prev_commit_proof = record (v.prev_commit_proof) { proofs = [] };
    };
  }
  clear_shared false v = v

module _ {P : Type 0} (sparse : P → List SparseSignature) where
  -- The fresh voting view of the next height.
  unfoldable pub fresh_voting : VersionedRoundView P → ℕ → ValidatorSet → VersionedRoundView P
  fresh_voting c new_height vals = record {
    round_view = record {
      height = new_height;
      round = 0;
      validator_set = vals;
      prev_commit_proof = record {
        round = c.round;
        pub_key_hash = c.validator_set.pub_key_hash;
        proofs = sparse_proofs sparse c.precommit_proofs;
      };
      proposed_headers = [];
      prevote_proofs = [];
      precommit_proofs = [];
      vote_summary = set_available_power new_vote_summary vals.validators;
    };
    version = 0;
    prevote_version = 1;
    precommit_version = 1;
    prevote_block_versions = [];
    precommit_block_versions = [];
  }

  -- The next round view of the next height, from the reset one.
  unfoldable pub fresh_next_round :
      VersionedRoundView P → VersionedRoundView P → ValidatorSet → VersionedRoundView P
  fresh_next_round old v vals =
      let cleared = RoundView.reset old in
      record cleared {
        round_view = record (cleared.round_view) {
          height = v.height;
          round = 1;
          validator_set = vals;
          prev_commit_proof = v.prev_commit_proof;
          vote_summary = record (cleared.vote_summary) {
            available_power = v.vote_summary.available_power;
          };
        };
        prevote_version = 1;
        precommit_version = 1;
      }

  -- `none` is the panic of closing a closed channel. The reset of the next round also clears the new
  -- committing view's proofs, if the two share that map; the copies handed out were made before, and
  -- the fresh views share no map.
  unfoldable pub shift_voting_to_committing : KState P → NextHeightDetails → Option (KState P)
  shift_voting_to_committing s nhd =
      let signal = s.state_machine_view_manager.round_entrance.h == s.committing.height in
      let s1 = mark_committing_view_updated (record s { committing = s.voting }) in
      let new_height = u64 (s1.voting.height + 1) in
      let v = fresh_voting s1.committing new_height nhd.validator_set in
      let s2 = mark_voting_view_updated (record s1 { voting = v }) in
      let n = fresh_next_round s2.next_round s2.voting nhd.validator_set in
      let s3 = mark_next_round_view_updated (record s2 { next_round = n }) in
      close_signal signal (record s3 {
        committing = clear_shared s.prev_commit_proof_shared s3.committing;
        prev_commit_proof_shared = false;
        committing_header = nhd.voted_header;
      })
