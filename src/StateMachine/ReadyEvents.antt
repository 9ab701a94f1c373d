-- ===== src/StateMachine/ReadyEvents.antt =====
-- When the main loop of the state machine (statemachine.go) handles an event without a panic.
use gordian.Prelude.{◌≡◌, ◌≢◌, ◌⊎◌, true, [], none}
use gordian.Consensus.Step.{Step, commit_wait, awaiting_finalization}
use gordian.StateMachine.World.{Config, Env, World}
use gordian.StateMachine.Loop.{
  Event, view_in, proposal_in, prevote_hash_in, precommit_hash_in, finalization_in, timer_elapsed,
  height_committed, block_data_in,
}
use gordian.StateMachine.Ready.{IsReliable, Ready}
use gordian.StateMachine.ReadyUpdates.{Sendable}
use gordian.StateMachine.ReadySigning.{CanSend}
use gordian.StateMachine.Stops.{Stops}

module _ {P : Type 0} (cfg : Config) (env : Env P) (rel : IsReliable env) where
  -- What the other parts promise for an event: the mirror sends views with votes and jumps to a later
  -- round, and reports a height as committed only when the state machine waits for that; the strategy
  -- proposes only where it can, and the driver answers for the current round with some validators.
  abbrev pub Welcome : Event P → World P → Type 0
  Welcome (view_in u) w = Sendable cfg env rel u w
  Welcome (proposal_in p) w = (cfg.signer ≢ none) × (w.rlc.outgoing_actions_ch ≡ true)
  Welcome (prevote_hash_in sel) w = CanSend cfg w
  Welcome (precommit_hash_in sel) w = CanSend cfg w
  Welcome (finalization_in resp) w =
      (resp.validators ≢ []) × (resp.height ≡ w.rlc.h) × (resp.round ≡ w.rlc.r)
  Welcome timer_elapsed w = Unit
  Welcome height_committed w = (w.rlc.s ≡ commit_wait) ⊎ (w.rlc.s ≡ awaiting_finalization)
  Welcome (block_data_in a queued) w = Unit
