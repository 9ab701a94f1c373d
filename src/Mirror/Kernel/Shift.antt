-- ===== src/Mirror/Kernel/Shift.antt =====
-- The view shifts of kernel.go: when votes move the mirror to another round or height.
use gordian.Prelude.{
  ℕ, ◌==◌, List, [], ◌∷◌, Bytes, bytes_eq, bytes_key, get_or, Option, none, some, if◌then◌else◌,
  ltb, leb,
}
use gordian.Consensus.Types.{Header, ProposedHeader}
use gordian.Consensus.Math.{byzantine_majority, byzantine_minority}
use gordian.Consensus.VoteSummary.{VoteSummary}
use gordian.Mirror.KState.{advance_voting_round, jump_voting_round, shift_voting_to_committing}
use gordian.Mirror.Kernel.World.{
  SignatureProofs, save_committed_header, set_network_height_round, Env, World, Outcome, done,
  failed, panic, ◌>>◌, call, with_state,
}
use gordian.Mirror.Kernel.Fetch.{check_missing_phs}

-- The first proposed header with the hash.
unfoldable pub find_header : Bytes → List ProposedHeader → Option Header
find_header hash [] = none
find_header hash (ph ∷ phs) =
    let rest = find_header hash phs in if bytes_eq ph.header.hash hash then some ph.header else rest

module _ {P : Type 0} where
  unfoldable pub update_observers : Env → World P → Outcome P
  update_observers env w =
      let s = w.state in
      let w' =
        call
          (set_network_height_round s.voting.height s.voting.round s.committing.height
            s.committing.round)
          w in
      if env.set_network_height_round_fails then failed w' else done w'

  -- `(*Kernel).advanceVotingRound` and `(*Kernel).jumpVotingRound`; the latter ignores the round
  -- that it is given.
  unfoldable pub advance : Env → World P → Outcome P
  advance env w = update_observers env (with_state w (advance_voting_round w.state))

  unfoldable pub jump : Env → World P → Outcome P
  jump env w = update_observers env (with_state w (jump_voting_round w.state))

  unfoldable pub save_current_committing_header : Env → World P → Outcome P
  save_current_committing_header env w =
      let s = w.state in
      let w' =
        call
          (save_committed_header
            (record { header = s.committing_header; proof = s.voting.prev_commit_proof }))
          w in
      if env.save_committed_header_fails then failed w' else done w'

module _ {P : Type 0} (proofs_of : SignatureProofs P) where
  -- The commit of a header that has its majority.
  unfoldable pub commit_header : Env → Header → World P → Outcome P
  commit_header env header w =
      if bytes_eq header.hash []
      then panic
      else elim (shift_voting_to_committing proofs_of.sparse w.state
          (record { validator_set = header.next_validator_set; voted_header = header })) [
            | none ↦ panic
            | some s ↦ (save_current_committing_header env >> update_observers env) (with_state w s)
          ]

  -- A non-nil hash has the majority of the precommits.
  unfoldable pub commit_hash : Env → Bytes → World P → Outcome P
  commit_hash env hash w = elim (find_header hash w.state.voting.proposed_headers) [
    | none ↦ done w
    | some header ↦ commit_header env header w
  ]

  unfoldable pub check_voting_precommit_view_shift : Env → World P → Outcome P
  check_voting_precommit_view_shift env w =
      let vs = w.state.voting.vote_summary in
      let hash = vs.most_voted_precommit_hash in
      elim (byzantine_majority vs.available_power) [
        | none ↦ panic
        | some maj ↦
            if ltb (get_or vs.precommit_block_power hash 0) maj
            then if vs.total_precommit_power == vs.available_power then advance env w else done w
            else if bytes_eq hash []
            then advance env w
            else commit_hash env hash w
      ]

  -- After the jump: a majority is not handled, and a minority for one block may miss its header.
  unfoldable pub after_precommit_jump : Env → VoteSummary → ℕ → World P → Outcome P
  after_precommit_jump env vs min w =
      let max_pow = get_or vs.precommit_block_power vs.most_voted_precommit_hash 0 in
      elim (byzantine_majority vs.available_power) [
        | none ↦ panic
        | some maj ↦
            if leb maj max_pow
            then panic
            else if leb min max_pow
            then check_missing_phs proofs_of env w.state.voting.precommit_proofs w
            else done w
      ]

  unfoldable pub check_next_round_precommit_view_shift : Env → World P → Outcome P
  check_next_round_precommit_view_shift env w =
      let vs = w.state.next_round.vote_summary in
      elim (byzantine_minority vs.available_power) [
        | none ↦ panic
        | some min ↦
            if ltb vs.total_precommit_power min
            then done w
            else (jump env >> after_precommit_jump env vs min) w
      ]

  unfoldable pub after_prevote_jump : Env → VoteSummary → ℕ → World P → Outcome P
  after_prevote_jump env vs min w =
      if leb min (get_or vs.prevote_block_power vs.most_voted_prevote_hash 0)
      then check_missing_phs proofs_of env w.state.voting.prevote_proofs w
      else done w

  -- `checkPrevoteViewShift`, which is called for the next round only.
  unfoldable pub check_prevote_view_shift : Env → World P → Outcome P
  check_prevote_view_shift env w =
      let vs = w.state.next_round.vote_summary in
      elim (byzantine_minority vs.available_power) [
        | none ↦ panic
        | some min ↦
            if ltb vs.total_prevote_power min
            then done w
            else (jump env >> after_prevote_jump env vs min) w
      ]
