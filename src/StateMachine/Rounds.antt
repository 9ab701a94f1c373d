-- ===== src/StateMachine/Rounds.antt =====
-- Entering a height or a round (statemachine.go): `advanceHeight`, `advanceRound`, `advance`,
-- `beginRoundLive` and `beginCommit`. These call one another for as long as the mirror answers with a
-- round that already ended in nil: the recursion is on the answers. Where no answer is left the state
-- machine waits until its context is cancelled.
use gordian.Prelude.{
  ℕ, ◌+◌, Bool, false, List, [], ◌∷◌, bytes_eq, contains_func, Option, none, some, u32, u64,
  if◌then◌else◌, ◌&&◌,
}
use gordian.Consensus.Types.{ValidatorSet_equal, Header, ProposedHeader, CommittedHeader, PubKey}
use gordian.Consensus.RoundView.{VersionedRoundView}
use gordian.Consensus.VoteSummary.{VoteSummary}
use gordian.Consensus.Step.{
  Step, awaiting_proposal, awaiting_precommits, commit_wait, get_step_from_vote_summary,
}
use gordian.Mirror.StateMachineView.{open_signal, no_signal}
use gordian.Mirror.Kernel.Entrance.{RoundEntranceResponse, view, committed}
use gordian.Mirror.Kernel.Shift.{find_header}
use gordian.StateMachine.Lifecycle.{
  Timer, proposal_timer, commit_wait_timer, RoundLifecycle, reset, mark_catching_up,
  cycle_finalization, mark_reason_new_hashes,
}
use gordian.StateMachine.World.{
  Config, Call, enter_mirror, enter_round, consider_proposed_blocks, decide_precommit,
  finalize_block, set_height_round, Env, World, Outcome, ok, stopped, panic, ◌>>◌, with_rlc, called,
  send,
}

-- The public key in an entrance, empty for a nil signer.
abbrev pub signer_key : Config → PubKey
signer_key cfg = elim cfg.signer [ none ↦ [] | some signer ↦ signer.pub_key ]

module _ {P : Type 0} where
  -- The test of `rejectMismatchedProposedHeaders`.
  abbrev pub matches : RoundLifecycle P → ProposedHeader → Bool
  matches rlc ph =
      bytes_eq ph.header.prev_app_state_hash rlc.prev_fin_app_state_hash
      && (ValidatorSet_equal ph.header.validator_set rlc.cur_val_set
          && ValidatorSet_equal ph.header.next_validator_set rlc.prev_fin_next_val_set)

  unfoldable pub reject_mismatched_proposed_headers :
      RoundLifecycle P → List ProposedHeader → List ProposedHeader
  reject_mismatched_proposed_headers rlc [] = []
  reject_mismatched_proposed_headers rlc (ph ∷ phs) =
      let rest = reject_mismatched_proposed_headers rlc phs in
      if matches rlc ph then ph ∷ rest else rest

  unfoldable pub is_participating : Config → RoundLifecycle P → Bool
  is_participating cfg rlc = elim cfg.signer [
    | none ↦ false
    | some signer ↦
        contains_func (λ v. bytes_eq v.pub_key signer.pub_key) rlc.cur_val_set.validators
  ]

  abbrev pub with_step : Step → World P → World P
  with_step s w = with_rlc (record w.rlc { s = s }) w

  abbrev pub with_timer : Option Timer → World P → World P
  with_timer t w = with_rlc (record w.rlc { step_timer = t }) w

  -- `rlc.CancelTimer()`, which panics on a nil function, and the two assignments after it.
  unfoldable pub cancel_timer : World P → Outcome P
  cancel_timer w = elim w.rlc.step_timer [ none ↦ panic | some t ↦ ok (with_timer none w) ]

  abbrev pub with_view : VersionedRoundView P → World P → World P
  with_view v w = with_rlc (record w.rlc { vrv = some v }) w

module _ {P : Type 0} (env : Env P) where
  unfoldable pub request_decision : VoteSummary → World P → Outcome P
  request_decision vs w = send env (decide_precommit vs w.rlc.precommit_hash_ch) w

  unfoldable pub request_finalization : Header → ℕ → World P → Outcome P
  request_finalization header round w =
      send env (finalize_block header round w.rlc.finalize_resp_ch) w

  unfoldable pub begin_commit : VersionedRoundView P → World P → Outcome P
  begin_commit v w =
      let w' = with_timer (some (commit_wait_timer w.rlc.h w.rlc.r)) (with_step commit_wait w) in
      elim (find_header v.vote_summary.most_voted_precommit_hash v.proposed_headers) [
        | none ↦ stopped w'
        | some header ↦ request_finalization header v.round w'
      ]

  -- The first case of `beginRoundLive`.
  unfoldable pub consider_initial : VersionedRoundView P → World P → Outcome P
  consider_initial v w = elim (reject_mismatched_proposed_headers w.rlc v.proposed_headers) [
    | [] ↦ ok w
    | ph ∷ phs ↦
        let (req, rlc) = mark_reason_new_hashes (ph ∷ phs) false w.rlc in
        send env (consider_proposed_blocks req) (with_rlc rlc w)
  ]

  -- The assignments after the switch, and `startInitialTimer` for the two steps that come to it.
  abbrev pub wait_for_proposal : VersionedRoundView P → World P → Outcome P
  wait_for_proposal v w = ok (
      with_timer (some (proposal_timer w.rlc.h w.rlc.r))
        (with_view v (with_step awaiting_proposal w)))

  abbrev pub wait_for_precommits : VersionedRoundView P → World P → Outcome P
  wait_for_precommits v w = ok (with_view v (with_step awaiting_precommits w))

  -- The switch. The last clause is the panic on an unhandled step.
  unfoldable pub begin_at :
      (World P → Outcome P) → VersionedRoundView P → Step → World P → Outcome P
  begin_at advance_round v awaiting_proposal = consider_initial v >> wait_for_proposal v
  begin_at advance_round v awaiting_precommits =
      request_decision v.vote_summary >> wait_for_precommits v
  begin_at advance_round v commit_wait =
      if bytes_eq v.vote_summary.most_voted_precommit_hash []
      then advance_round
      else (begin_commit v >> λ w. ok (with_view v w))
  begin_at advance_round v other = λ w. panic

  -- `advance_round` is what `beginRoundLive` calls on a round that ended in nil.
  unfoldable pub begin_round_live :
      (World P → Outcome P) → VersionedRoundView P → World P → Outcome P
  begin_round_live advance_round v w = elim (get_step_from_vote_summary v.vote_summary) [
    | none ↦ panic
    | some s ↦ begin_at advance_round v s w
  ]

  unfoldable pub save_height_round : World P → Outcome P
  save_height_round w =
      if env.fails w.calls (set_height_round w.rlc.h w.rlc.r)
      then stopped w
      else ok (record (called (set_height_round w.rlc.h w.rlc.r) w) {
        height_round = (w.rlc.h, w.rlc.r);
      })

  abbrev pub reset_world : ℕ → ℕ → World P → World P
  reset_world h r w = with_rlc (reset h r w.rlc) w

  -- The body of `advanceRound`, before `advance`.
  unfoldable pub to_next_round : World P → Outcome P
  to_next_round w = save_height_round (reset_world w.rlc.h (u32 (w.rlc.r + 1)) w)

  -- The body of `advanceHeight`, before `advance`.
  unfoldable pub to_next_height : World P → Outcome P
  to_next_height w =
      save_height_round (reset_world (u64 (w.rlc.h + 1)) 0 (with_rlc (cycle_finalization w.rlc) w))

  -- The answer with a committed header: it is finalized at once.
  unfoldable pub catch_up : CommittedHeader → World P → Outcome P
  catch_up ch w =
      request_finalization ch.header ch.proof.round (with_rlc (mark_catching_up w.rlc) w)

  -- EnterRound of the consensus strategy, whose error is a panic here.
  unfoldable pub enter_live : VersionedRoundView P → World P → Outcome P
  enter_live v w =
      (send env (enter_round v.round_view w.rlc.proposal_ch) >> λ w'.
      if env.enter_round_fails v.round_view then panic else ok w')
        w

module _ {P : Type 0} (cfg : Config) (env : Env P) where
  abbrev pub entrance : RoundLifecycle P → Call P
  entrance rlc =
      enter_mirror
        (record {
          h = rlc.h;
          r = rlc.r;
          pub_key = signer_key cfg;
          height_committed = if rlc.height_committed then open_signal else no_signal;
        })
        (is_participating cfg rlc)

  abbrev pub answered : List (RoundEntranceResponse P) → World P → World P
  answered rest w = record w { answers = rest }

  -- The entrance, answered with a view. The mirror takes actions on its channel from now on.
  unfoldable pub announce : List (RoundEntranceResponse P) → World P → Outcome P
  announce rest w =
      (send env (entrance w.rlc) >> λ w'. ok (
          with_rlc (record w'.rlc { outgoing_actions_ch = is_participating cfg w'.rlc })
            (answered rest w')))
        w

  unfoldable pub advance : List (RoundEntranceResponse P) → World P → Outcome P
  advance [] w = (send env (entrance w.rlc) >> stopped) w
  advance (committed ch ∷ rest) w =
      (send env (entrance w.rlc) >> λ w'. catch_up env ch (answered rest w')) w
  advance (view v ∷ rest) w =
      (announce rest
          >> enter_live env v
          >> begin_round_live env (to_next_round env >> advance rest) v)
        w

  unfoldable pub advance_round : World P → Outcome P
  advance_round w = (to_next_round env >> advance w.answers) w

  unfoldable pub advance_height : World P → Outcome P
  advance_height w = (to_next_height env >> advance w.answers) w
