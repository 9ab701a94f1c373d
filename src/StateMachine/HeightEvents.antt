-- ===== src/StateMachine/HeightEvents.antt =====
-- Finalizations (statemachine.go), and with them every event of the main loop: a height is left
-- once it is finalized.
use gordian.Prelude.{
  ℕ, not, if◌then◌else◌, ◌≡◌, refl, inl, inr, true, List, [], ◌∷◌, Option, none, some, ◌==◌, ◌&&◌,
  lookup, lookup-insert, nat_eq, arith, Bool-cases, Option-cases,
}
use gordian.Consensus.Types.{ValidatorSet, empty_validator_set, Validator}
use gordian.Consensus.Step.{
  Step, invalid, awaiting_proposal, awaiting_prevotes, prevote_delay, awaiting_precommits,
  precommit_delay, commit_wait, awaiting_finalization,
}
use gordian.Store.Finalizations.{Finalization, save_finalization}
use gordian.StateMachine.World.{
  Config, with_rlc, Env, World, Outcome, ok, stopped, panic, hung, ◌>>◌,
}
use gordian.StateMachine.Rounds.{advance_height}
use gordian.StateMachine.Views.{handle_view_update}
use gordian.StateMachine.Actions.{record_proposed_header, record_prevote, record_precommit}
use gordian.StateMachine.Events.{
  FinalizeBlockResponse, store_finalization, handle_finalization, handle_height_committed,
  timer_elapsed_at, handle_timer_elapsed, handle_block_data_arrival, advance_if_waiting,
  with_finalization, new_validator_set,
}
use gordian.StateMachine.Loop.{
  Event, view_in, proposal_in, prevote_hash_in, precommit_hash_in, finalization_in, timer_elapsed,
  height_committed, block_data_in, handle_event, live_event, is_possible, close_proposal,
  close_prevote, close_precommit,
}
use gordian.StateMachine.Outcomes.{Holds, Holds-weaken}
use gordian.StateMachine.ViewFrame.{handle_view_update-Frame}
use gordian.StateMachine.Grows.{
  finalized, IsRecorded, Grows, SameHeight-Grows, from_Frame, from_same, After, Holds-After,
}
use gordian.StateMachine.HeightActions.{proposal-Same, prevote-Same, precommit-Same}
use gordian.StateMachine.HeightTimers.{
  advance_height-Grows, height_committed-Grows, timer_elapsed_at-Grows, block_data-Grows,
}

module _ {P : Type 0} (cfg : Config) (env : Env P) where
  pub store_finalization_lem :
      (set : ValidatorSet) (resp : FinalizeBlockResponse) (w : World P)
      → After
          (λ v.
            (finalized w.rlc.h v ≡ true)
            × (v.rlc ≡ w.rlc)
            × ((k : ℕ) → finalized k w ≡ true → finalized k v ≡ true))
          (store_finalization cfg env set resp w)
  unfolding store_finalization save_finalization
  store_finalization_lem set resp w = elim (Option-cases (lookup w.rlc.h w.finalization_store)) [
    | inl new ↦
        let f : Finalization = record {
          h = w.rlc.h;
          r = w.rlc.r;
          block_hash = resp.block_hash;
          val_set = set;
          app_state_hash = resp.app_state_hash;
        } in
        rw (new, After)
          (
            ground (arith, lookup-insert w.rlc.h w.rlc.h f w.finalization_store),
            refl,
            λ k h. ground (arith, h, lookup-insert w.rlc.h k f w.finalization_store),
          )
    | inr (old, e) ↦ rw (e, After) tt
  ]

  pub stored_here :
      (w v : World P)
      → finalized w.rlc.h v ≡ true
      → v.rlc.h ≡ w.rlc.h
      → ((k : ℕ) → finalized k w ≡ true → finalized k v ≡ true)
      → Grows w v
  stored_here w v y e kept = record {
    recorded = inr (ground (arith, e, y));
    kept = kept;
    moved = inl e;
  }

  -- The finalization of the height is stored, and then the height may be left.
  pub advance_if-Grows :
      (s : Step) (w v : World P)
      → (finalized w.rlc.h v ≡ true)
      → (v.rlc.h ≡ w.rlc.h)
      → ((k : ℕ) → finalized k w ≡ true → finalized k v ≡ true)
      → Holds (Grows w) (advance_if_waiting cfg env s v)
  advance_if-Grows awaiting_finalization w v y e kept =
      Holds-weaken (Grows v) (Grows w) (advance_height cfg env v)
        (λ u g. record {
          recorded = g.recorded;
          kept = λ k h. g.kept k (kept k h);
          moved = ground (arith, g.moved, e, y);
        })
        (advance_height-Grows cfg env v (ground (arith, e, y)))
  advance_if-Grows invalid w v y e kept = stored_here w v y e kept
  advance_if-Grows awaiting_proposal w v y e kept = stored_here w v y e kept
  advance_if-Grows awaiting_prevotes w v y e kept = stored_here w v y e kept
  advance_if-Grows prevote_delay w v y e kept = stored_here w v y e kept
  advance_if-Grows awaiting_precommits w v y e kept = stored_here w v y e kept
  advance_if-Grows precommit_delay w v y e kept = stored_here w v y e kept
  advance_if-Grows commit_wait w v y e kept = stored_here w v y e kept

  pub finish_finalization :
      (set : ValidatorSet) (resp : FinalizeBlockResponse) (w v : World P)
      → v.rlc.h ≡ w.rlc.h
      → v.finalization_store ≡ w.finalization_store
      → After
          (Grows w)
          ((store_finalization cfg env set resp >> λ u. advance_if_waiting cfg env u.rlc.s u) v)
  finish_finalization set resp w v e f =
      go (store_finalization cfg env set resp v) (store_finalization_lem set resp v)
    where
      go :
          (o : Outcome P)
          → After
              (λ u.
                (finalized v.rlc.h u ≡ true)
                × (u.rlc ≡ v.rlc)
                × ((k : ℕ) → finalized k v ≡ true → finalized k u ≡ true))
              o
          → After (Grows w) (elim o [
            | ok u ↦ advance_if_waiting cfg env u.rlc.s u
            | stopped u ↦ stopped u
            | panic ↦ panic
            | hung ↦ hung
          ])
      go (ok u) q = Holds-After (Grows w) (advance_if_waiting cfg env u.rlc.s u) (
          advance_if-Grows u.rlc.s w u (ground (arith, q.0, e)) (ground (arith, q.1, e))
            (λ k h. q.2 k (ground (arith, h, f))))
      go (stopped u) q = tt
      go panic q = tt
      go hung q = tt

  pub handle_finalization-Grows :
      (resp : FinalizeBlockResponse) (w : World P)
      → IsRecorded w
      → After (Grows w) (handle_finalization cfg env resp w)
  unfolding handle_finalization
  handle_finalization-Grows resp w y = go resp.validators
    where
      at : Option ValidatorSet → Outcome P
      at none = stopped (with_rlc (record w.rlc { finalized_val_set = empty_validator_set }) w)
      at (some set) =
          if not (resp.height == w.rlc.h && resp.round == w.rlc.r)
          then panic
          else (store_finalization cfg env set resp >> λ u. advance_if_waiting cfg env u.rlc.s u)
              (with_finalization cfg env set resp w)

      at_lem : (o : Option ValidatorSet) → After (Grows w) (at o)
      at_lem none = tt
      at_lem (some set) =
          ground
            (arith, finish_finalization set resp w (with_finalization cfg env set resp w) refl refl)

      go :
          (vals : List Validator)
          → After (Grows w) (elim vals [
            | [] ↦ panic
            | val ∷ vals ↦ elim (new_validator_set cfg.hash_scheme (val ∷ vals)) [
              | none ↦ at none
              | some set ↦ at (some set)
            ]
          ])
      go [] = tt
      go (val ∷ vals) =
          elim (new_validator_set cfg.hash_scheme (val ∷ vals))
            as (λ o. After (Grows w) (elim o [ none ↦ at none | some set ↦ at (some set) ])) [
              | none ↦ tt
              | some set ↦ at_lem (some set)
            ]

  pub handle_event-Grows :
      (e : Event P) (w : World P) → IsRecorded w → After (Grows w) (handle_event cfg env e w)
  unfolding handle_event
  handle_event-Grows (view_in u) w y =
      done (handle_view_update cfg env u w)
        (from_Frame w _ y (handle_view_update-Frame cfg env u w))
    where
      done : (o : Outcome P) → Holds (Grows w) o → After (Grows w) o
      done = Holds-After (Grows w)
  handle_event-Grows (proposal_in p) w y =
      Holds-After (Grows w) ((record_proposed_header cfg p >> close_proposal cfg env) w)
        (from_same w _ y (proposal-Same cfg env p w))
  handle_event-Grows (prevote_hash_in none) w y = tt
  handle_event-Grows (prevote_hash_in (some hash)) w y =
      Holds-After (Grows w) ((record_prevote cfg hash >> close_prevote cfg env) w)
        (from_same w _ y (prevote-Same cfg env hash w))
  handle_event-Grows (precommit_hash_in none) w y = tt
  handle_event-Grows (precommit_hash_in (some hash)) w y =
      Holds-After (Grows w) ((record_precommit cfg hash >> close_precommit cfg env) w)
        (from_same w _ y (precommit-Same cfg env hash w))
  handle_event-Grows (finalization_in resp) w y = handle_finalization-Grows resp w y
  handle_event-Grows timer_elapsed w y =
      unfold handle_timer_elapsed in
      Holds-After (Grows w) (timer_elapsed_at cfg env w.rlc.s w)
        (timer_elapsed_at-Grows cfg env w.rlc.s w y)
  handle_event-Grows height_committed w y =
      Holds-After (Grows w) (handle_height_committed cfg env w) (height_committed-Grows cfg env w y)
  handle_event-Grows (block_data_in a queued) w y =
      Holds-After (Grows w) (handle_block_data_arrival cfg env a queued w)
        (block_data-Grows cfg env a queued w y)

  pub live_event-Grows :
      (e : Event P) (w : World P) → IsRecorded w → After (Grows w) (live_event cfg env e w)
  unfolding live_event
  live_event-Grows e w y = elim (Bool-cases (is_possible cfg env e w.rlc)) [
    | inl q ↦ ground (arith, q, handle_event-Grows e w y)
    | inr q ↦ ground (arith, q, SameHeight-Grows w w y (ground arith))
  ]
