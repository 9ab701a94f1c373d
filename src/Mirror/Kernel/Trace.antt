-- ===== src/Mirror/Kernel/Trace.antt =====
-- Runs of the kernel's main loop (kernel.go) over the cases of its `select` that carry votes,
-- proposed headers, requested or fetched, and the state machine's actions, in any order.
use gordian.Prelude.{
  ℕ, suc, ◌+◌, ◌^◌, ◌≤◌, ◌<◌, ◌≡◌, refl, sym, subst, ◌⊎◌, inl, inr, List, [], ◌∷◌, arith, length,
  u64,
}
use gordian.Consensus.Types.{ProposedHeader, Validator}
use gordian.Consensus.VoteSummary.{sum_powers}
use gordian.Mirror.KState.{KState}
use gordian.Mirror.Lookup.{IsSynced, IsSharedBy, without_proofs}
use gordian.Mirror.Kernel.World.{SignatureProofs, Env, World, Outcome, done, ◌>>◌}
use gordian.Mirror.Kernel.Votes.{AddVoteRequest, add_prevote, add_precommit}
use gordian.Mirror.Kernel.Headers.{add_proposed_header}
use gordian.Mirror.Kernel.Action.{StateMachineRoundAction, ProofScheme, handle_state_machine_action}
use gordian.Mirror.Kernel.ActionSafety.{IsBounded, handle_state_machine_action-Safe}
use gordian.Mirror.Kernel.Steps.{Ends, GoodStep, >>_Ends}
use gordian.Mirror.Kernel.Kept.{SafeBy, Stays-Safe}
use gordian.Mirror.Kernel.VoteSafety.{add_prevote-StaysBy, add_precommit-SafeBy}
use gordian.Mirror.Kernel.HeaderSafety.{add_proposed_header-Safe}

-- What the main loop takes from `addPrevoteRequests`, `addPrecommitRequests`, from `addPHRequests` or
-- the fetched headers, and from the state machine's actions.
pub data Input (P : Type 0) : Type 0 where
  prevote : AddVoteRequest P → Input P
  precommit : AddVoteRequest P → Input P
  header : ProposedHeader → Input P
  action : StateMachineRoundAction → Input P

sum_powers_fits : (vs : List Validator) (acc : ℕ) → acc < 2 ^ 64 → sum_powers acc vs < 2 ^ 64
unfolding sum_powers
sum_powers_fits [] acc b = b
sum_powers_fits (v ∷ vs) acc b = sum_powers_fits vs (u64 (acc + v.power)) (omega arith)

power_fits :
    {P : Type 0} (s : KState P) → IsSynced s → s.voting.vote_summary.available_power < 2 ^ 64
power_fits s y =
    omega (arith, y.voting_power, sum_powers_fits s.voting.validator_set.validators 0 (omega arith))

module _ {P : Type 0} (proofs_of : SignatureProofs P) (scheme : ProofScheme P) where
  unfoldable pub handle : Env → Input P → World P → Outcome P
  handle env (prevote req) = add_prevote proofs_of env req
  handle env (precommit req) = add_precommit proofs_of env req
  handle env (header ph) = add_proposed_header proofs_of env ph
  handle env (action act) = handle_state_machine_action proofs_of scheme env act

  -- The loop over the inputs, in the order in which they come. Each comes with what the stores and
  -- the fetcher answer while it is handled.
  unfoldable pub main_loop : List (Env × Input P) → World P → Outcome P
  main_loop [] = done
  main_loop ((env, i) ∷ is) = handle env i >> main_loop is

  handle-Safe :
      (env : Env) (i : Input P) (w w' : World P)
      → IsSynced w.state
      → IsSharedBy without_proofs w.state
      → w.state.voting.height + 1 < 2 ^ 64
      → Ends (handle env i w) w'
      → SafeBy without_proofs w.state w'.state
  handle-Safe env (prevote req) w w' y g b e =
      Stays-Safe without_proofs w.state w'.state
        (add_prevote-StaysBy proofs_of without_proofs env req w w' y g (unfold handle in e))
  handle-Safe env (precommit req) w w' y g b e =
      add_precommit-SafeBy proofs_of without_proofs env req w w' y g b (power_fits w.state y)
        (unfold handle in e)
  handle-Safe env (header ph) w w' y g b e =
      add_proposed_header-Safe proofs_of env ph w w' y g b (power_fits w.state y)
        (unfold handle in e)
  handle-Safe env (action act) w w' y g b e =
      let bounded : IsBounded w = record {
        synced = y;
        shared = g;
        below = b;
        small = power_fits w.state y;
      } in
      handle_state_machine_action-Safe w w' bounded proofs_of scheme env act (unfold handle in e)

  -- What a run achieves from `s` in at most `n` steps.
  abbrev pub Grows : ℕ → KState P → KState P → Type 0
  Grows n s t =
      IsSynced t
      × IsSharedBy without_proofs t
      × (s.voting.height ≤ t.voting.height)
      × (t.voting.height ≤ s.voting.height + n)
      × (s.committing.height ≤ t.committing.height)
      × (((t.committing.height ≡ s.committing.height) × (t.voting.height ≡ s.voting.height))
          ⊎ (t.voting.height ≡ t.committing.height + 1))

  step-Grows :
      (n : ℕ) (s t u : KState P)
      → IsSynced s
      → GoodStep without_proofs s t
      → Grows n t u
      → Grows (suc n) s u
  step-Grows n s t u y k g = ground (arith, k.moved, y.above, g)

  -- From a synced state that is shared but for the precommit proofs and the previous commit's
  -- proofs of the committing view, when the voting height cannot pass the last uint64 height in
  -- that many steps, the main loop run over any list of prevotes, precommits, proposed headers and
  -- actions of the state machine, each with its own failures of the stores and the fetcher, if it
  -- ends, leaves the state synced and so shared; the voting and the committing height never go
  -- back, the voting height grows by at most one per input, and after any commit it is one above
  -- the committing height.
  pub main_loop-Grows :
      (is : List (Env × Input P)) (w w' : World P)
      → IsSynced w.state
      → IsSharedBy without_proofs w.state
      → w.state.voting.height + length is < 2 ^ 64
      → Ends (main_loop is w) w'
      → Grows (length is) w.state w'.state
  unfolding main_loop
  main_loop-Grows [] w w' y g b e =
      subst (Grows 0 w.state) (sym (ground (arith, e)))
        (y, g, omega arith, omega arith, omega arith, inl (refl, refl))
  main_loop-Grows ((env, i) ∷ is) w w' y g b e =
      elim (>>_Ends (handle env i) (main_loop is) w w' e) [
        | inl q ↦
            let k = (handle-Safe env i w w' y g (omega (arith, b)) (inr q)).0 in
            step-Grows (length is) w.state w'.state w'.state y k
              (k.synced, k.shared, omega arith, omega arith, omega arith, inl (refl, refl))
        | inr (v, q, r) ↦
            let k = (handle-Safe env i w v y g (omega (arith, b)) (inl q)).0 in
            step-Grows (length is) w.state v.state w'.state y k
              (main_loop-Grows is v w' k.synced k.shared (ground (arith, k.moved, b)) r)
      ]
