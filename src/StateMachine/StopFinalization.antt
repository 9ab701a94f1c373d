-- ===== src/StateMachine/StopFinalization.antt =====
-- When a finalization (`handleFinalization` in statemachine.go) makes the kernel of the state machine
-- quit.
use gordian.Prelude.{
  ◌≡◌, refl, ◌⊎◌, inl, inr, List, [], ◌∷◌, none, some, if◌then◌else◌, not, ◌==◌, ◌&&◌, arith,
}
use gordian.Consensus.Types.{Validator, ValidatorSet, empty_validator_set}
use gordian.Consensus.Step.{Step, awaiting_finalization}
use gordian.Store.Finalizations.{Finalization, save_finalization}
use gordian.StateMachine.World.{Config, Env, World, stopped, panic, ◌>>◌, with_rlc}
use gordian.StateMachine.Events.{
  FinalizeBlockResponse, handle_finalization, store_finalization, with_finalization,
  new_validator_set, advance_if_waiting,
}
use gordian.StateMachine.Ready.{IsReliable}
use gordian.StateMachine.Stops.{
  Stops, ok-Stops, panic-Stops, stopped-Stops, >>-Stops, if-Stops, elim_option-Stops,
}
use gordian.StateMachine.StopEvents.{Dead, advance_height-Stops}

module _ {P : Type 0} (cfg : Config) (env : Env P) (rel : IsReliable env) where
  -- What a finalization is saved as.
  abbrev pub finalization_of : ValidatorSet → FinalizeBlockResponse → World P → Finalization
  finalization_of set resp w = record {
    h = w.rlc.h;
    r = w.rlc.r;
    block_hash = resp.block_hash;
    val_set = set;
    app_state_hash = resp.app_state_hash;
  }

  -- The validators could not be hashed, the finalization was not taken by the store, or the state
  -- machine waited for it and the mirror's answers then leave it without a round.
  abbrev pub Unfinalized : FinalizeBlockResponse → World P → Type 0
  Unfinalized resp w =
      (new_validator_set cfg.hash_scheme resp.validators ≡ none)
      ⊎ ((set : ValidatorSet) × (new_validator_set cfg.hash_scheme resp.validators ≡ some set)
          × (save_finalization (finalization_of set resp w) w.finalization_store ≡ none))
      ⊎ ((w.rlc.s ≡ awaiting_finalization) × Dead w.answers)

  advance_if-Stops :
      (C : Type 0) (s : Step) (w : World P)
      → (s ≡ awaiting_finalization → Dead w.answers → C)
      → Stops C (advance_if_waiting cfg env s w)
  advance_if-Stops C awaiting_finalization w k = advance_height-Stops cfg env rel C w (k refl)
  advance_if-Stops C s w k = ok-Stops C w

  pub handle_finalization-Stops :
      (resp : FinalizeBlockResponse) (w : World P)
      → Stops (Unfinalized resp w) (handle_finalization cfg env resp w)
  unfolding handle_finalization store_finalization
  handle_finalization-Stops resp w = go resp.validators refl
    where
      stored :
          (set : ValidatorSet)
          → new_validator_set cfg.hash_scheme resp.validators ≡ some set
          → (u : World P) → u ≡ with_finalization cfg env set resp w
          → Stops (Unfinalized resp w) (
              (store_finalization cfg env set resp >> λ w'. advance_if_waiting cfg env w'.rlc.s w')
                u)
      stored set made u same =
          let C = Unfinalized resp w in
          >>-Stops C (store_finalization cfg env set resp)
            (λ w'. advance_if_waiting cfg env w'.rlc.s w') u
            (elim_option-Stops C
              (save_finalization (finalization_of set resp u) u.finalization_store) (stopped u) _
              (λ q. stopped-Stops C u (inr (inl (set, made, ground (arith, same, q)))))
              (λ store q. ok-Stops C _))
            (λ x e.
              advance_if-Stops C x.rlc.s x
                (λ waits dead. inr (inr (ground (arith, e, same, waits, dead)))))

      go :
          (vals : List Validator)
          → resp.validators ≡ vals
          → Stops (Unfinalized resp w) (elim vals [
            | [] ↦ panic
            | val ∷ vals ↦ elim (new_validator_set cfg.hash_scheme (val ∷ vals)) [
              | none ↦
                  stopped (with_rlc (record w.rlc { finalized_val_set = empty_validator_set }) w)
              | some set ↦
                  if not (resp.height == w.rlc.h && resp.round == w.rlc.r)
                  then panic
                  else (store_finalization cfg env set resp >> λ u.
                        advance_if_waiting cfg env u.rlc.s u)
                      (with_finalization cfg env set resp w)
            ]
          ])
      go [] q = panic-Stops (Unfinalized resp w)
      go (val ∷ vals) q =
          let C = Unfinalized resp w in
          elim_option-Stops C (new_validator_set cfg.hash_scheme (val ∷ vals)) (stopped _) _
            (λ n. stopped-Stops C _ (inl (ground (arith, q, n))))
            (λ set n.
              if-Stops C (not (resp.height == w.rlc.h && resp.round == w.rlc.r)) panic _
                (λ q. panic-Stops C) (λ _. stored set (ground (arith, q, n)) _ refl))
