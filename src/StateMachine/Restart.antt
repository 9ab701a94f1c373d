-- ===== src/StateMachine/Restart.antt =====
-- A restart in a later round of the first height (statemachine.go): `advanceRound` stores the round,
-- and `sendInitialActionSet` then loads the finalization two heights back, which was never stored.
use gordian.Prelude.{ℕ, ◌+◌, ◌^◌, ◌<◌, ◌≡◌, ◌≢◌, ◌∙◌, ap, none, lookup, nat_eq, u32, arith}
use gordian.Store.Finalizations.{load_finalization_by_height}
use gordian.StateMachine.World.{Config, Env, World, with_rlc, ok, stopped}
use gordian.StateMachine.Lifecycle.{RoundLifecycle, reset}
use gordian.StateMachine.Rounds.{save_height_round, to_next_round}
use gordian.StateMachine.Start.{u64_sub, initial_height_round, load_val_sets, initialize}

module _ {P : Type 0} (cfg : Config) where
  restarted_lem :
      (env : Env P) (r : ℕ) (w : World P)
      → cfg.genesis.initial_height ≢ 0
      → r ≢ 0
      → w.height_round ≡ (cfg.genesis.initial_height, r)
      → lookup cfg.genesis.initial_height w.finalization_store ≡ none
      → lookup (u64_sub cfg.genesis.initial_height 2) w.finalization_store ≡ none
      → initialize cfg env w ≡ stopped w
  unfolding initialize initial_height_round load_val_sets load_finalization_by_height
  restarted_lem env r w pos later at_first here before =
      ground (arith, pos, later, at_first, here, before)

  -- At the first height, positive and below 2^64, with nothing stored but at most the finalization of
  -- genesis one height before: once the state machine has gone to a next round without an error, it
  -- cannot be started again. From any lifecycle of the new process, and whatever the stores and the
  -- other parts then do, the initialization stops before its first call and changes nothing.
  pub restart_after_round :
      (env later : Env P) (w v : World P) (rlc : RoundLifecycle P)
      → cfg.genesis.initial_height ≢ 0
      → cfg.genesis.initial_height < 2 ^ 64
      → w.rlc.h ≡ cfg.genesis.initial_height
      → w.rlc.r + 1 < 2 ^ 32
      → ((k : ℕ) → k ≢ u64_sub cfg.genesis.initial_height 1 → lookup k w.finalization_store ≡ none)
      → to_next_round env w ≡ ok v
      → initialize cfg later (with_rlc rlc v) ≡ stopped (with_rlc rlc v)
  unfolding to_next_round save_height_round reset
  restart_after_round env later w v rlc pos small first fits empty e =
      let h = cfg.genesis.initial_height in
      let hr : v.height_round ≡ (h, u32 (w.rlc.r + 1)) = ground (arith, e, first) in
      let fs : v.finalization_store ≡ w.finalization_store = ground (arith, e) in
      restarted_lem later (u32 (w.rlc.r + 1)) (with_rlc rlc v) pos (λ q. omega arith) hr
        (ap (lookup h) fs ∙ empty h (λ q. omega arith))
        (ap (lookup (u64_sub h 2)) fs ∙ empty (u64_sub h 2) (λ q. omega arith))
