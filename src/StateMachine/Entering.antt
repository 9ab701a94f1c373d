-- ===== src/StateMachine/Entering.antt =====
-- Which rounds the state machine can enter (statemachine.go): `beginRoundLive` on every vote summary.
use gordian.Prelude.{
  ◌*◌, ◌^◌, ◌≤◌, ◌<◌, ◌≡◌, ◌≢◌, ◌↔◌, ◌⊎◌, inl, inr, [], bytes_eq, bytes_key, get_or, some, arith,
  refl, sym, ◌∙◌, Bool-cases,
}
use gordian.Consensus.Math.{byzantine_majority, byzantine_minority}
use gordian.Consensus.VoteSummary.{VoteSummary}
use gordian.Consensus.RoundView.{VersionedRoundView}
use gordian.Consensus.Step.{
  Step, awaiting_proposal, prevote_delay, awaiting_precommits, precommit_delay, commit_wait,
  get_step_from_vote_summary,
}
use gordian.StateMachine.Lifecycle.{mark_reason_new_hashes}
use gordian.StateMachine.World.{Call, decide_precommit, Env, World, Outcome, ok, panic, ◌>>◌, send}
use gordian.StateMachine.Outcomes.{Fine, >>-Fine, Fine-ne-panic}
use gordian.StateMachine.Rounds.{
  consider_initial, request_decision, request_finalization, begin_commit, begin_at,
  begin_round_live, wait_for_proposal, wait_for_precommits, with_view,
}

-- More than two thirds of the power has voted, and no hash has that much.
abbrev pub SplitPrecommits : VoteSummary → Type 0
SplitPrecommits vs =
    (2 * vs.available_power < 3 * vs.total_precommit_power)
    × (3 * get_or vs.precommit_block_power vs.most_voted_precommit_hash 0 ≤ 2 * vs.available_power)

abbrev pub SplitPrevotes : VoteSummary → Type 0
SplitPrevotes vs =
    (3 * vs.total_precommit_power < vs.available_power)
    × (2 * vs.available_power < 3 * vs.total_prevote_power)
    × (3 * get_or vs.prevote_block_power vs.most_voted_prevote_hash 0 ≤ 2 * vs.available_power)

delay_iff :
    (vs : VoteSummary)
    → 0 < vs.available_power
    → vs.available_power < 2 ^ 64
    → ((get_step_from_vote_summary vs ≡ some prevote_delay) ↔ SplitPrevotes vs)
      × ((get_step_from_vote_summary vs ≡ some precommit_delay) ↔ SplitPrecommits vs)
unfolding get_step_from_vote_summary byzantine_majority byzantine_minority
delay_iff vs pos small = (ground arith, ground arith)

step_known :
    (vs : VoteSummary)
    → 0 < vs.available_power
    → (get_step_from_vote_summary vs ≡ some awaiting_proposal)
      ⊎ (get_step_from_vote_summary vs ≡ some awaiting_precommits)
      ⊎ (get_step_from_vote_summary vs ≡ some commit_wait)
      ⊎ (get_step_from_vote_summary vs ≡ some prevote_delay)
      ⊎ (get_step_from_vote_summary vs ≡ some precommit_delay)
unfolding get_step_from_vote_summary byzantine_majority byzantine_minority
step_known vs pos = ground arith

-- No claim on the world.
abbrev AnyWorld : {P : Type 0} → World P → Type 0
AnyWorld w = Unit {0}

module _ {P : Type 0} (env : Env P) where
  send-Fine : (c : Call P) (w : World P) → Fine AnyWorld (send env c w)
  unfolding send
  send-Fine c w = ground arith

  consider_initial-Fine :
      (v : VersionedRoundView P) (w : World P) → Fine AnyWorld (consider_initial env v w)
  unfolding consider_initial mark_reason_new_hashes send
  consider_initial-Fine v w = ground arith

  begin_commit-Fine :
      (v : VersionedRoundView P) (w : World P) → Fine AnyWorld (begin_commit env v w)
  unfolding begin_commit request_finalization send
  begin_commit-Fine v w = ground arith

module _ {P : Type 0} (env : Env P) (next : World P → Outcome P) (v : VersionedRoundView P) where
  proposal-Fine : (w : World P) → Fine AnyWorld (begin_at env next v awaiting_proposal w)
  unfolding begin_at
  proposal-Fine w =
      >>-Fine AnyWorld AnyWorld (consider_initial env v) (wait_for_proposal env v) w
        (consider_initial-Fine env v w) (λ u q. tt) (λ u q. tt)

  precommits-Fine : (w : World P) → Fine AnyWorld (begin_at env next v awaiting_precommits w)
  unfolding begin_at request_decision
  precommits-Fine w =
      >>-Fine AnyWorld AnyWorld (request_decision env v.vote_summary) (wait_for_precommits env v) w
        (send-Fine env (decide_precommit v.vote_summary w.rlc.precommit_hash_ch) w) (λ u q. tt)
        (λ u q. tt)

  commit-no_panic : (w : World P) → next w ≢ panic → begin_at env next v commit_wait w ≢ panic
  unfolding begin_at
  commit-no_panic w n e = elim (Bool-cases (bytes_eq v.vote_summary.most_voted_precommit_hash [])) [
    | inl q ↦ n (ground (arith, q, e))
    | inr q ↦
        Fine-ne-panic AnyWorld ((begin_commit env v >> λ u. ok (with_view v u)) w)
          (>>-Fine AnyWorld AnyWorld (begin_commit env v) (λ u. ok (with_view v u)) w
            (begin_commit-Fine env v w) (λ u q. tt) (λ u q. tt))
          (ground (arith, q, e))
  ]

  at_step :
      (s : Step) (w : World P)
      → get_step_from_vote_summary v.vote_summary ≡ some s
      → begin_round_live env next v w ≡ begin_at env next v s w
  unfolding begin_round_live
  at_step s w q = ground (arith, q)

  delay_panics :
      (w : World P)
      → (begin_at env next v prevote_delay w ≡ panic)
        × (begin_at env next v precommit_delay w ≡ panic)
  unfolding begin_at
  delay_panics w = (refl, refl)

  panics-Split :
      (w : World P)
      → 0 < v.vote_summary.available_power
      → v.vote_summary.available_power < 2 ^ 64
      → next w ≢ panic
      → begin_round_live env next v w ≡ panic
      → SplitPrevotes v.vote_summary ⊎ SplitPrecommits v.vote_summary
  panics-Split w pos small n e = elim (step_known v.vote_summary pos) [
    | inl q ↦ absurd (Fine-ne-panic AnyWorld _ (proposal-Fine w) (sym (at_step _ w q) ∙ e))
    | inr (inl q) ↦ absurd (Fine-ne-panic AnyWorld _ (precommits-Fine w) (sym (at_step _ w q) ∙ e))
    | inr (inr (inl q)) ↦ absurd (commit-no_panic w n (sym (at_step _ w q) ∙ e))
    | inr (inr (inr (inl q))) ↦ inl ((delay_iff v.vote_summary pos small).0.0 q)
    | inr (inr (inr (inr q))) ↦ inr ((delay_iff v.vote_summary pos small).1.0 q)
  ]

  -- For a view of positive available power below 2^64, entered in a world in which the further
  -- rounds do not panic: entering the round panics exactly when more than two thirds of the power
  -- has precommitted, or has prevoted while less than a third has precommitted, and no hash has
  -- more than two thirds.
  pub begin_round_live_panics_iff :
      (w : World P)
      → 0 < v.vote_summary.available_power
      → v.vote_summary.available_power < 2 ^ 64
      → next w ≢ panic
      → (begin_round_live env next v w ≡ panic)
        ↔ (SplitPrevotes v.vote_summary ⊎ SplitPrecommits v.vote_summary)
  begin_round_live_panics_iff w pos small n = (
    panics-Split w pos small n,
    λ split. elim split [
      | inl q ↦
          at_step prevote_delay w ((delay_iff v.vote_summary pos small).0.1 q) ∙ (delay_panics w).0
      | inr q ↦
          at_step precommit_delay w ((delay_iff v.vote_summary pos small).1.1 q)
          ∙ (delay_panics w).1
    ],
  )
