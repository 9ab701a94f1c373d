-- ===== src/Consensus/Step.antt =====
-- tm/tmengine/internal/tmstate/internal/tsi/step.go: the step of a round, read off its votes.
use gordian.Prelude.{
  ℕ, ◌*◌, ◌≤◌, ◌<◌, ◌^◌, ◌≡◌, ◌↔◌, Option, none, some, leb, if◌then◌else◌, arith, get_or, bytes_key,
}
use gordian.Consensus.Math.{byzantine_majority, byzantine_minority}
use gordian.Consensus.VoteSummary.{VoteSummary}

pub data Step : Type 0 where
  invalid awaiting_proposal awaiting_prevotes prevote_delay awaiting_precommits : Step
  precommit_delay commit_wait awaiting_finalization : Step

-- The body of the function, once both thresholds are known.
unfoldable pub step_at : ℕ → ℕ → VoteSummary → Step
step_at maj min vs =
    if leb maj vs.total_precommit_power
    then if leb maj (get_or vs.precommit_block_power vs.most_voted_precommit_hash 0)
      then commit_wait
      else precommit_delay
    else if leb min vs.total_precommit_power
    then awaiting_precommits
    else if leb maj vs.total_prevote_power
    then if leb maj (get_or vs.prevote_block_power vs.most_voted_prevote_hash 0)
      then awaiting_precommits
      else prevote_delay
    else awaiting_proposal

-- `none` is the panic of the thresholds at no available power.
unfoldable pub get_step_from_vote_summary : VoteSummary → Option Step
unfolding step_at
get_step_from_vote_summary vs = elim (byzantine_majority vs.available_power) [
  | none ↦ none
  | some maj ↦ elim (byzantine_minority vs.available_power) [
    | none ↦ none
    | some min ↦ some (step_at maj min vs)
  ]
]

-- With positive available power below 2^64 the step is `commit_wait` exactly when both the total
-- precommit power and the power of the most voted hash exceed two thirds of the available power.
pub commit_wait_iff :
    (vs : VoteSummary)
    → 0 < vs.available_power
    → vs.available_power < 2 ^ 64
    → (get_step_from_vote_summary vs ≡ some commit_wait) ↔ (
        (2 * vs.available_power < 3 * vs.total_precommit_power)
        × (2 * vs.available_power
            < 3 * get_or vs.precommit_block_power vs.most_voted_precommit_hash 0))
unfolding get_step_from_vote_summary byzantine_majority byzantine_minority
commit_wait_iff vs pos small = ground arith

-- With positive available power below 2^64 the step stays `awaiting_proposal` exactly when the
-- prevotes are at two thirds of the available power or less and the precommits below one third.
pub awaiting_proposal_iff :
    (vs : VoteSummary)
    → 0 < vs.available_power
    → vs.available_power < 2 ^ 64
    → (get_step_from_vote_summary vs ≡ some awaiting_proposal) ↔ (
        (3 * vs.total_prevote_power ≤ 2 * vs.available_power)
        × (3 * vs.total_precommit_power < vs.available_power))
unfolding get_step_from_vote_summary byzantine_majority byzantine_minority
awaiting_proposal_iff vs pos small = ground arith
