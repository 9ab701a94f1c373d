-- ===== src/StateMachine/Events.antt =====
-- The handlers of finalizations, timers, committed heights and arriving block data (statemachine.go):
-- `handleFinalization`, `handleTimerElapsed`, `handleHeightCommitted` and `handleBlockDataArrival`.
use gordian.Prelude.{
  ℕ, true, false, List, [], ◌∷◌, Bytes, Option, none, some, ◌==◌, ◌&&◌, not, if◌then◌else◌,
}
use gordian.Consensus.Types.{
  Validator, ValidatorSet, empty_validator_set, validators_to_pub_keys, validators_to_vote_powers,
  ProposedHeader,
}
use gordian.Consensus.Step.{
  Step, awaiting_proposal, awaiting_prevotes, prevote_delay, awaiting_precommits, precommit_delay,
  commit_wait, awaiting_finalization,
}
use gordian.Store.Finalizations.{save_finalization}
use gordian.Store.Validators.{HashScheme}
use gordian.StateMachine.Lifecycle.{ConsiderProposedBlocksRequest, seen}
use gordian.StateMachine.World.{
  Config, consider_proposed_blocks, choose_proposed_block, Env, World, Outcome, ok, stopped, panic,
  ◌>>◌, with_rlc, send,
}
use gordian.StateMachine.Rounds.{
  reject_mismatched_proposed_headers, with_step, cancel_timer, request_decision, advance_round,
  advance_height,
}
use gordian.StateMachine.Views.{clear_considered}

-- tmconsensus.NewValidatorSet.
unfoldable pub new_validator_set : HashScheme → List Validator → Option ValidatorSet
new_validator_set hs vs = elim (hs.pub_keys (validators_to_pub_keys vs)) [
  | none ↦ none
  | some key_hash ↦ elim (hs.vote_powers (validators_to_vote_powers vs)) [
    | none ↦ none
    | some pow_hash ↦
        some (record { validators = vs; pub_key_hash = key_hash; vote_power_hash = pow_hash })
  ]
]

-- tmdriver.FinalizeBlockResponse.
pub record FinalizeBlockResponse : Type 0 where
  pub height : ℕ  -- uint64
  pub round : ℕ  -- uint32
  pub block_hash : Bytes
  pub validators : List Validator
  pub app_state_hash : Bytes

-- tmelink.BlockDataArrival.
pub record BlockDataArrival : Type 0 where
  pub height : ℕ  -- uint64
  pub round : ℕ  -- uint32
  pub id : Bytes

-- The loop that gathers the queued arrivals of the same round.
unfoldable pub gather : BlockDataArrival → List BlockDataArrival → List Bytes
gather a [] = a.id ∷ []
gather a (x ∷ xs) =
    let rest = gather a xs in
    if x.height == a.height && x.round == a.round then x.id ∷ rest else rest

-- The data IDs of the headers that arrived, in the order of the headers.
unfoldable pub updated_ids : List Bytes → List ProposedHeader → List Bytes
updated_ids ids [] = []
updated_ids ids (ph ∷ phs) =
    let rest = updated_ids ids phs in
    if seen ph.header.data_id ids then ph.header.data_id ∷ rest else rest

module _ {P : Type 0} (cfg : Config) (env : Env P) where
  abbrev pub with_finalization : ValidatorSet → FinalizeBlockResponse → World P → World P
  with_finalization vals resp w =
      with_rlc
        (record w.rlc {
          finalized_val_set = vals;
          finalized_app_state_hash = resp.app_state_hash;
          finalized_block_hash = resp.block_hash;
          finalize_resp_ch = false;
        })
        w

  -- The finalization is saved; `none` is the store's error.
  unfoldable pub store_finalization : ValidatorSet → FinalizeBlockResponse → World P → Outcome P
  store_finalization vals resp w =
      elim (save_finalization
        (record {
          h = w.rlc.h;
          r = w.rlc.r;
          block_hash = resp.block_hash;
          val_set = vals;
          app_state_hash = resp.app_state_hash;
        })
        w.finalization_store) [
          | none ↦ stopped w
          | some store ↦ ok (record w { finalization_store = store })
        ]

  abbrev pub advance_if_waiting : Step → World P → Outcome P
  advance_if_waiting awaiting_finalization w = advance_height cfg env w
  advance_if_waiting other w = ok w

  unfoldable pub handle_finalization : FinalizeBlockResponse → World P → Outcome P
  handle_finalization resp w = elim resp.validators [
    | [] ↦ panic
    | val ∷ vals ↦ elim (new_validator_set cfg.hash_scheme (val ∷ vals)) [
      | none ↦ stopped (with_rlc (record w.rlc { finalized_val_set = empty_validator_set }) w)
      | some set ↦
          if not (resp.height == w.rlc.h && resp.round == w.rlc.r)
          then panic
          else (store_finalization set resp >> λ w'. advance_if_waiting w'.rlc.s w')
              (with_finalization set resp w)
    ]
  ]

  -- The commit wait is over: without a finalization the state machine goes on waiting for it.
  unfoldable pub end_commit_wait : World P → Outcome P
  end_commit_wait w = elim w.rlc.finalized_val_set.validators [
    | [] ↦ ok (with_step awaiting_finalization w)
    | val ∷ vals ↦ advance_height cfg env w
  ]

  abbrev pub mark_elapsed : World P → World P
  mark_elapsed w = with_rlc (record w.rlc { commit_wait_elapsed = true }) w

  unfoldable pub height_committed_at : Step → World P → Outcome P
  height_committed_at awaiting_finalization w = ok w
  height_committed_at commit_wait w = end_commit_wait w
  height_committed_at other w = panic

  unfoldable pub handle_height_committed : World P → Outcome P
  handle_height_committed w = height_committed_at w.rlc.s (
      with_rlc
        (record w.rlc { height_committed = false; commit_wait_elapsed = true; step_timer = none })
        w)

  -- The proposal timer: choose among the headers at hand.
  unfoldable pub proposal_elapsed : World P → Outcome P
  proposal_elapsed w = elim w.rlc.vrv [
    | none ↦ panic
    | some v ↦
        (send env (
              choose_proposed_block (reject_mismatched_proposed_headers w.rlc v.proposed_headers)
                w.rlc.prevote_hash_ch)
            >> λ w'. cancel_timer (with_step awaiting_prevotes (clear_considered w')))
          w
  ]

  unfoldable pub prevote_delay_elapsed : World P → Outcome P
  prevote_delay_elapsed w = elim w.rlc.vrv [
    | none ↦ panic
    | some v ↦
        (request_decision env v.vote_summary >> λ w'.
        cancel_timer (with_step awaiting_precommits w'))
          w
  ]

  unfoldable pub timer_elapsed_at : Step → World P → Outcome P
  timer_elapsed_at awaiting_proposal = proposal_elapsed
  timer_elapsed_at prevote_delay = prevote_delay_elapsed
  timer_elapsed_at precommit_delay = cancel_timer >> advance_round cfg env
  timer_elapsed_at commit_wait = λ w. (cancel_timer >> end_commit_wait) (mark_elapsed w)
  timer_elapsed_at other = λ w. panic

  unfoldable pub handle_timer_elapsed : World P → Outcome P
  handle_timer_elapsed w = timer_elapsed_at w.rlc.s w

  abbrev pub data_request :
      List Bytes → List ProposedHeader → World P → ConsiderProposedBlocksRequest
  data_request ids phs w = record {
    phs = phs;
    reason = record {
      new_proposed_blocks = [];
      updated_block_data_ids = ids;
      majority_voting_power_present = false;
    };
    result = w.rlc.prevote_hash_ch;
  }

  unfoldable pub consider_data : List Bytes → List ProposedHeader → World P → Outcome P
  consider_data arrived phs w = elim (updated_ids arrived phs) [
    | [] ↦ ok w
    | id ∷ ids ↦ send env (consider_proposed_blocks (data_request (id ∷ ids) phs w)) w
  ]

  unfoldable pub handle_block_data_arrival :
      BlockDataArrival → List BlockDataArrival → World P → Outcome P
  handle_block_data_arrival a queued w =
      if not w.rlc.prevote_hash_ch
      then ok w
      else if not (a.height == w.rlc.h && a.round == w.rlc.r)
      then ok w
      else elim w.rlc.vrv [
        | none ↦ panic
        | some v ↦
            consider_data (gather a queued)
              (reject_mismatched_proposed_headers w.rlc v.proposed_headers) w
      ]
