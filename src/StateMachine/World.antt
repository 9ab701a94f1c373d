-- ===== src/StateMachine/World.antt =====
-- What a handler of the state machine works on (tm/tmengine/internal/tmstate/statemachine.go): the
-- round's lifecycle, the stores, what it sent, and the mirror's answers that are still to come. The
-- stores are those of tm/tmstore/tmmemstore. The channels' other ends, the signer and the hash scheme
-- are parameters.
use gordian.Prelude.{ℕ, Bool, List, [], ◌∷◌, ◌++◌, Bytes, Option, if◌then◌else◌}
use gordian.Consensus.Types.{PubKey, ValidatorSet, Header, ProposedHeader, VoteTarget}
use gordian.Consensus.RoundView.{RoundView}
use gordian.Consensus.VoteSummary.{VoteSummary}
use gordian.Mirror.StateMachineView.{StateMachineRoundEntrance}
use gordian.Mirror.Kernel.Entrance.{RoundEntranceResponse}
use gordian.Store.Actions.{ActionStore}
use gordian.Store.Finalizations.{FinalizationStore}
use gordian.Store.Validators.{HashScheme}
use gordian.StateMachine.Lifecycle.{RoundLifecycle, ConsiderProposedBlocksRequest}

-- tmconsensus.Signer: the content and the signature of a vote, or `none` on an error.
pub record Signer : Type 0 where
  pub pub_key : PubKey
  pub sign_prevote : VoteTarget → Option (Bytes × Bytes)
  pub sign_precommit : VoteTarget → Option (Bytes × Bytes)
  pub sign_proposed_header : ProposedHeader → Option Bytes

pub record Genesis : Type 0 where
  pub initial_height : ℕ  -- uint64
  pub current_app_state_hash : Bytes
  pub validator_set : ValidatorSet

-- The parts of the configuration that the handlers read. `hash_block` is HashScheme.Block.
pub record Config : Type 0 where
  pub signer : Option Signer
  pub hash_scheme : HashScheme
  pub hash_block : Header → Option Bytes
  pub genesis : Genesis

-- What goes to the mirror, the consensus manager, the driver, the store and the watchdog. A Boolean
-- says whether the channel in the message is set.
pub data Call (P : Type 0) : Type 0 where
  enter_mirror : StateMachineRoundEntrance → Bool → Call P
  enter_round : RoundView P → Bool → Call P
  consider_proposed_blocks : ConsiderProposedBlocksRequest → Call P
  choose_proposed_block : List ProposedHeader → Bool → Call P
  decide_precommit : VoteSummary → Bool → Call P
  finalize_block : Header → ℕ → Bool → Call P
  set_height_round : ℕ → ℕ → Call P
  terminate : Call P

-- StateMachineRoundAction with the height and the round of its channel.
pub data RoundAction : Type 0 where
  propose : ProposedHeader → RoundAction
  prevote : VoteTarget → Bytes → Bytes → RoundAction
  precommit : VoteTarget → Bytes → Bytes → RoundAction

-- Which calls fail, after the calls made so far: a send whose context is cancelled, or an error of a
-- store. A send with a time limit panics where it is `blocked`.
pub record Env (P : Type 0) : Type 0 where
  pub fails : List (Call P) → Call P → Bool
  pub blocked : List (Call P) → Call P → Bool
  pub enter_round_fails : RoundView P → Bool

pub record World (P : Type 0) : Type 0 where
  pub rlc : RoundLifecycle P
  pub calls : List (Call P)
  pub answers : List (RoundEntranceResponse P)
  pub action_store : ActionStore
  pub finalization_store : FinalizationStore
  pub height_round : ℕ × ℕ
  pub outgoing_actions : List RoundAction

-- A handler reports true, or false, on which the kernel quits; or it panics; or it hangs on a send to
-- a nil channel.
pub data Outcome (P : Type 0) : Type 0 where
  ok : World P → Outcome P
  stopped : World P → Outcome P
  panic : Outcome P
  hung : Outcome P

module _ {P : Type 0} where
  infixl 5 ◌>>◌
  abbrev pub ◌>>◌ : (World P → Outcome P) → (World P → Outcome P) → World P → Outcome P
  ◌>>◌ first second w = elim (first w) [
    | ok w' ↦ second w'
    | stopped w' ↦ stopped w'
    | panic ↦ panic
    | hung ↦ hung
  ]

  -- The caller drops the result: `_ = f(...)`.
  abbrev pub ignore : Outcome P → Outcome P
  ignore (ok w) = ok w
  ignore (stopped w) = ok w
  ignore panic = panic
  ignore hung = hung

  abbrev pub with_rlc : RoundLifecycle P → World P → World P
  with_rlc rlc w = record w { rlc = rlc }

  abbrev pub called : Call P → World P → World P
  called c w = record w { calls = w.calls ++ c ∷ [] }

  -- gchan.SendC, and the first half of gchan.ReqResp.
  unfoldable pub send : Env P → Call P → World P → Outcome P
  send env c w = if env.fails w.calls c then stopped w else ok (called c w)

  -- A send with a timer of 100 ms.
  unfoldable pub timed_send : Env P → Call P → World P → Outcome P
  timed_send env c w = if env.blocked w.calls c then panic else ok (called c w)
