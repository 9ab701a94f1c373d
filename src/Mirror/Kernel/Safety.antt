-- ===== src/Mirror/Kernel/Safety.antt =====
-- What the kernel's handlers of votes and headers keep (kernel.go): the views stay synced and
-- shared, move at most once in a step, and a height is committed only by a quorum.
use gordian.Prelude.{ℕ, inl, inr, ltb, arith, Option-cases, Bool-cases}
use gordian.Consensus.Math.{byzantine_minority}
use gordian.Consensus.VoteSummary.{VoteSummary}
use gordian.Mirror.Lookup.{IsSynced, IsSharedBy, ViewMap}
use gordian.Mirror.Kernel.World.{SignatureProofs, Env, World, Outcome, ◌>>◌}
use gordian.Mirror.Kernel.Shift.{
  jump, after_precommit_jump, check_next_round_precommit_view_shift, after_prevote_jump,
  check_prevote_view_shift,
}
use gordian.Mirror.Kernel.Steps.{
  Ends, SameViews, SameViews-refl, >>_Ends, jump-GoodStep, jump_height,
}
use gordian.Mirror.Kernel.Commits.{check_missing-SameViews}
use gordian.Mirror.Kernel.Kept.{StaysBy, Stays-refl, Stays-jump}

module _ {P : Type 0} (proofs_of : SignatureProofs P) where
  after_precommit_jump-SameViews :
      (env : Env) (vs : VoteSummary) (min : ℕ) (w w' : World P)
      → Ends (after_precommit_jump proofs_of env vs min w) w'
      → SameViews w.state w'.state
  unfolding after_precommit_jump
  after_precommit_jump-SameViews env vs min w w' e = ground (
    arith,
    e,
    SameViews-refl w.state,
    check_missing-SameViews proofs_of env w.state.voting.precommit_proofs w w',
  )

  after_prevote_jump-SameViews :
      (env : Env) (vs : VoteSummary) (min : ℕ) (w w' : World P)
      → Ends (after_prevote_jump proofs_of env vs min w) w'
      → SameViews w.state w'.state
  unfolding after_prevote_jump
  after_prevote_jump-SameViews env vs min w w' e = ground (
    arith,
    e,
    SameViews-refl w.state,
    check_missing-SameViews proofs_of env w.state.voting.prevote_proofs w w',
  )

  -- A jump and what follows it.
  jump_then-Stays :
      (f : ViewMap P)
      → (env : Env) (k : World P → Outcome P) (w w' : World P)
      → ((v v' : World P) → Ends (k v) v' → SameViews v.state v'.state)
      → IsSynced w.state
      → IsSharedBy f w.state
      → Ends ((jump env >> k) w) w'
      → StaysBy f w.state w'.state
  jump_then-Stays f env k w w' same y g e = elim (>>_Ends (jump env) k w w' e) [
    | inl q ↦
        Stays-jump f w.state w'.state w'.state (jump-GoodStep f env w w' y g (inr q))
          (jump_height f env w w' y g (inr q)) (SameViews-refl w'.state)
    | inr (v, q, r) ↦
        Stays-jump f w.state v.state w'.state (jump-GoodStep f env w v y g (inl q))
          (jump_height f env w v y g (inl q)) (same v w' r)
  ]

  pub check_next_round-Stays :
      (f : ViewMap P)
      → (env : Env) (w w' : World P) → IsSynced w.state
      → IsSharedBy f w.state
      → Ends (check_next_round_precommit_view_shift proofs_of env w) w'
      → StaysBy f w.state w'.state
  unfolding check_next_round_precommit_view_shift
  check_next_round-Stays f env w w' y g e =
      let vs = w.state.next_round.vote_summary in
      elim (Option-cases (byzantine_minority vs.available_power)) [
        | inl q ↦ absurd (ground (arith, q, e))
        | inr (min, q) ↦ elim (Bool-cases (ltb vs.total_precommit_power min)) [
          | inl c ↦ Stays-refl f w.state w'.state y g (ground (arith, q, c, e))
          | inr c ↦
              jump_then-Stays f env (after_precommit_jump proofs_of env vs min) w w'
                (λ v v'. after_precommit_jump-SameViews env vs min v v') y g
                (rw (q, check_next_round_precommit_view_shift, c) at e)
        ]
      ]

  pub check_prevote-Stays :
      (f : ViewMap P)
      → (env : Env) (w w' : World P) → IsSynced w.state
      → IsSharedBy f w.state
      → Ends (check_prevote_view_shift proofs_of env w) w'
      → StaysBy f w.state w'.state
  unfolding check_prevote_view_shift
  check_prevote-Stays f env w w' y g e =
      let vs = w.state.next_round.vote_summary in
      elim (Option-cases (byzantine_minority vs.available_power)) [
        | inl q ↦ absurd (ground (arith, q, e))
        | inr (min, q) ↦ elim (Bool-cases (ltb vs.total_prevote_power min)) [
          | inl c ↦ Stays-refl f w.state w'.state y g (ground (arith, q, c, e))
          | inr c ↦
              jump_then-Stays f env (after_prevote_jump proofs_of env vs min) w w'
                (λ v v'. after_prevote_jump-SameViews env vs min v v') y g
                (rw (q, check_prevote_view_shift, c) at e)
        ]
      ]
