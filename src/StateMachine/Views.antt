-- ===== src/StateMachine/Views.antt =====
-- Views from the mirror (statemachine.go): `handleViewUpdate`, its cases by step, and
-- `handleJumpAhead`.
use gordian.Prelude.{
  ℕ, Bool, true, false, List, [], ◌∷◌, bytes_eq, bytes_key, get_or, Option, none, some, leb, ltb,
  length, ◌==◌, ◌&&◌, not, if◌then◌else◌,
}
use gordian.Consensus.Types.{Header, ProposedHeader}
use gordian.Consensus.Math.{byzantine_majority, byzantine_minority}
use gordian.Consensus.RoundView.{VersionedRoundView}
use gordian.Consensus.Step.{
  Step, invalid, awaiting_proposal, awaiting_prevotes, prevote_delay, awaiting_precommits,
  precommit_delay, commit_wait, awaiting_finalization,
}
use gordian.Mirror.StateMachineView.{StateMachineRoundView}
use gordian.Mirror.Kernel.Shift.{find_header}
use gordian.StateMachine.Lifecycle.{
  prevote_delay_timer, precommit_delay_timer, mark_reason_new_hashes,
}
use gordian.StateMachine.World.{
  Config, consider_proposed_blocks, choose_proposed_block, terminate, Env, World, Outcome, ok,
  panic, ◌>>◌, ignore, with_rlc, called, timed_send,
}
use gordian.StateMachine.Rounds.{
  reject_mismatched_proposed_headers, with_step, with_timer, with_view, cancel_timer,
  request_decision, request_finalization, begin_commit, advance_round,
}

-- Equality of steps, as far as the handlers test it.
abbrev pub step_is : Step → Step → Bool
step_is awaiting_prevotes awaiting_prevotes = true
step_is prevote_delay prevote_delay = true
step_is awaiting_precommits awaiting_precommits = true
step_is precommit_delay precommit_delay = true
step_is s t = false

module _ {P : Type 0} where
  unfoldable pub cancel_timer_at : Step → World P → Outcome P
  cancel_timer_at s w = if step_is w.rlc.s s then cancel_timer w else ok w

  abbrev pub start_prevote_delay : World P → World P
  start_prevote_delay w =
      with_timer (some (prevote_delay_timer w.rlc.h w.rlc.r)) (with_step prevote_delay w)

  abbrev pub start_precommit_delay : World P → World P
  start_precommit_delay w =
      with_timer (some (precommit_delay_timer w.rlc.h w.rlc.r)) (with_step precommit_delay w)

  abbrev pub clear_considered : World P → World P
  clear_considered w = with_rlc (record w.rlc { prev_considered_hashes = [] }) w

  abbrev pub precommit_power : VersionedRoundView P → ℕ
  precommit_power v =
      get_or v.vote_summary.precommit_block_power v.vote_summary.most_voted_precommit_hash 0

  abbrev pub prevote_power : VersionedRoundView P → ℕ
  prevote_power v =
      get_or v.vote_summary.prevote_block_power v.vote_summary.most_voted_prevote_hash 0

module _ {P : Type 0} (cfg : Config) (env : Env P) where
  -- The precommits of one hash have the majority: a nil commit or the commit of a block.
  unfoldable pub settle : VersionedRoundView P → World P → Outcome P
  settle v w =
      if bytes_eq v.vote_summary.most_voted_precommit_hash []
      then ignore (advance_round cfg env w)
      else ignore (begin_commit env v w)

  -- The precommits have the majority, seen while the own precommit is still to come.
  unfoldable pub majority_precommits : ℕ → VersionedRoundView P → World P → Outcome P
  majority_precommits maj v w =
      if leb maj (precommit_power v)
      then settle v w
      else ignore (request_decision env v.vote_summary (start_precommit_delay w))

  unfoldable pub consider_after_prevotes : VersionedRoundView P → World P → Outcome P
  consider_after_prevotes v w = elim (reject_mismatched_proposed_headers w.rlc v.proposed_headers) [
    | [] ↦ ok w
    | ph ∷ phs ↦
        let (req, rlc) = mark_reason_new_hashes (ph ∷ phs) true w.rlc in
        timed_send env (consider_proposed_blocks req) (with_rlc rlc w)
  ]

  -- The prevotes have the majority, seen while waiting for a proposal.
  unfoldable pub majority_prevotes : ℕ → VersionedRoundView P → World P → Outcome P
  majority_prevotes maj v w =
      if leb maj (prevote_power v)
      then (timed_send env (
              choose_proposed_block (reject_mismatched_proposed_headers w.rlc v.proposed_headers)
                w.rlc.prevote_hash_ch)
            >> λ w'. ok (clear_considered w'))
          (with_step awaiting_precommits w)
      else consider_after_prevotes v (start_prevote_delay w)

  unfoldable pub consider_incoming :
      VersionedRoundView P → List ProposedHeader → World P → Outcome P
  consider_incoming v have w =
      let incoming = reject_mismatched_proposed_headers w.rlc v.proposed_headers in
      if leb (length incoming) (length (reject_mismatched_proposed_headers w.rlc have))
      then ok w
      else let (req, rlc) = mark_reason_new_hashes incoming false w.rlc in
        timed_send env (consider_proposed_blocks req) (with_rlc rlc w)

  -- No threshold is reached: there may be new proposed headers.
  unfoldable pub new_proposals : VersionedRoundView P → World P → Outcome P
  new_proposals v w = elim w.rlc.vrv [
    | none ↦ panic
    | some have ↦
        if ltb (length have.proposed_headers) (length v.proposed_headers)
        then consider_incoming v have.proposed_headers w
        else ok w
  ]

  unfoldable pub proposal_view_at : ℕ → ℕ → VersionedRoundView P → World P → Outcome P
  proposal_view_at min maj v w =
      let vs = v.vote_summary in
      if leb maj vs.total_precommit_power
      then (cancel_timer >> majority_precommits maj v) w
      else if leb min vs.total_precommit_power
      then (cancel_timer >> λ w'.
            ignore (request_decision env vs (with_step awaiting_precommits w')))
          w
      else if leb maj vs.total_prevote_power
      then (cancel_timer >> majority_prevotes maj v) w
      else new_proposals v w

  unfoldable pub handle_proposal_view_update : VersionedRoundView P → World P → Outcome P
  handle_proposal_view_update v w = elim (byzantine_minority v.vote_summary.available_power) [
    | none ↦ panic
    | some min ↦ elim (byzantine_majority v.vote_summary.available_power) [
      | none ↦ panic
      | some maj ↦ proposal_view_at min maj v w
    ]
  ]

  unfoldable pub prevote_view_at : ℕ → VersionedRoundView P → World P → Outcome P
  prevote_view_at maj v w =
      let vs = v.vote_summary in
      if leb maj vs.total_precommit_power
      then (cancel_timer_at prevote_delay >> majority_precommits maj v) w
      else if leb maj vs.total_prevote_power
      then if leb maj (prevote_power v)
        then (cancel_timer_at prevote_delay >> λ w'.
              ignore (request_decision env vs (with_step awaiting_precommits w')))
            w
        else ok (if step_is w.rlc.s awaiting_prevotes then start_prevote_delay w else w)
      else ok w

  unfoldable pub handle_prevote_view_update : VersionedRoundView P → World P → Outcome P
  handle_prevote_view_update v w = elim (byzantine_majority v.vote_summary.available_power) [
    | none ↦ panic
    | some maj ↦ prevote_view_at maj v w
  ]

  unfoldable pub settle_precommits : VersionedRoundView P → World P → Outcome P
  settle_precommits v w =
      if bytes_eq v.vote_summary.most_voted_precommit_hash []
      then ignore (advance_round cfg env w)
      else (cancel_timer_at precommit_delay >> λ w'. ignore (begin_commit env v w')) w

  unfoldable pub precommit_view_at : ℕ → VersionedRoundView P → World P → Outcome P
  precommit_view_at maj v w =
      let vs = v.vote_summary in
      if leb maj vs.total_precommit_power
      then if leb maj (precommit_power v)
        then settle_precommits v w
        else if vs.total_precommit_power == vs.available_power
        then ignore (advance_round cfg env w)
        else ok (if step_is w.rlc.s awaiting_precommits then start_precommit_delay w else w)
      else ok w

  unfoldable pub handle_precommit_view_update : VersionedRoundView P → World P → Outcome P
  handle_precommit_view_update v w = elim (byzantine_majority v.vote_summary.available_power) [
    | none ↦ panic
    | some maj ↦ precommit_view_at maj v w
  ]

  abbrev pub committing_header : VersionedRoundView P → Option Header
  committing_header v = find_header v.vote_summary.most_voted_precommit_hash v.proposed_headers

  unfoldable pub finalize_late : VersionedRoundView P → World P → Outcome P
  finalize_late v w = elim (committing_header v) [
    | none ↦ ok w
    | some header ↦ ignore (request_finalization env header v.round w)
  ]

  unfoldable pub handle_commit_wait_view_update : VersionedRoundView P → World P → Outcome P
  handle_commit_wait_view_update v w = if not w.rlc.finalize_resp_ch then ok w else elim w.rlc.vrv [
    | none ↦ panic
    | some have ↦ elim (committing_header have) [ some header ↦ ok w | none ↦ finalize_late v w ]
  ]

  unfoldable pub view_update_at : Step → VersionedRoundView P → World P → Outcome P
  view_update_at awaiting_proposal = handle_proposal_view_update
  view_update_at awaiting_prevotes = handle_prevote_view_update
  view_update_at prevote_delay = handle_prevote_view_update
  view_update_at awaiting_precommits = handle_precommit_view_update
  view_update_at precommit_delay = handle_precommit_view_update
  view_update_at commit_wait = handle_commit_wait_view_update
  view_update_at awaiting_finalization = handle_commit_wait_view_update
  view_update_at invalid = λ v w. panic

  -- The view is kept, unless the update moved the state machine to another round.
  unfoldable pub keep_view : VersionedRoundView P → World P → Outcome P
  keep_view v w = elim w.rlc.vrv [
    | none ↦ panic
    | some have ↦ ok (if v.height == have.height && v.round == have.round then with_view v w else w)
  ]

  unfoldable pub handle_jump_ahead : VersionedRoundView P → World P → Outcome P
  handle_jump_ahead v w =
      if not (v.height == w.rlc.h)
      then panic
      else if leb v.round w.rlc.r
      then panic
      else ignore (advance_round cfg env w)

  unfoldable pub jump_if_told : Option (VersionedRoundView P) → World P → Outcome P
  jump_if_told none = ok
  jump_if_told (some j) = handle_jump_ahead j

  -- A view of the current round, checked against the last one.
  unfoldable pub update_current : StateMachineRoundView P → World P → Outcome P
  update_current u w = elim w.rlc.vrv [
    | none ↦ panic
    | some have ↦
        if leb u.vrv.version have.version
        then ok (called terminate w)
        else (view_update_at w.rlc.s u.vrv
              >> keep_view u.vrv
              >> jump_if_told u.jump_ahead_round_view)
            w
  ]

  unfoldable pub handle_view_update : StateMachineRoundView P → World P → Outcome P
  handle_view_update u w =
      if u.vrv.height == 0
      then elim u.jump_ahead_round_view [ none ↦ panic | some j ↦ handle_jump_ahead j w ]
      else if u.vrv.height == w.rlc.h && u.vrv.round == w.rlc.r
      then update_current u w
      else ok w
