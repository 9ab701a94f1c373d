-- ===== src/StateMachine/Ready.antt =====
-- A live round of the state machine (statemachine.go), and what its surroundings promise.
use gordian.Prelude.{
  ◌≡◌, refl, sym, subst, ◌⊎◌, inr, Bool, true, false, List, [], Option, none, some, All,
}
use gordian.Consensus.VoteSummary.{VoteSummary}
use gordian.Consensus.RoundView.{RoundView}
use gordian.Consensus.Step.{
  Step, invalid, awaiting_proposal, awaiting_prevotes, prevote_delay, awaiting_precommits,
  precommit_delay, commit_wait, awaiting_finalization, get_step_from_vote_summary,
}
use gordian.Mirror.Kernel.Entrance.{RoundEntranceResponse, view, committed}
use gordian.StateMachine.Lifecycle.{Timer}
use gordian.StateMachine.World.{Call, Env, World}

-- Nothing is cancelled or blocked, the stores accept, and the consensus strategy enters every round.
pub record IsReliable {P : Type 0} (env : Env P) : Type 0 where
  pub sent : (calls : List (Call P)) (c : Call P) → env.fails calls c ≡ false
  pub unblocked : (calls : List (Call P)) (c : Call P) → env.blocked calls c ≡ false
  pub entered : (v : RoundView P) → env.enter_round_fails v ≡ false

abbrev pub is_set {ℓ} : {A : Type ℓ} → Option A → Bool
is_set none = false
is_set (some a) = true

-- The timer of the step: running in the steps that wait for one, stopped in those that do not.
abbrev pub Fits : Step → Option Timer → Type 0
Fits awaiting_proposal t = is_set t ≡ true
Fits prevote_delay t = is_set t ≡ true
Fits precommit_delay t = is_set t ≡ true
Fits awaiting_prevotes t = is_set t ≡ false
Fits awaiting_precommits t = is_set t ≡ false
Fits awaiting_finalization t = is_set t ≡ false
Fits commit_wait t = Unit {0}
Fits invalid t = ⊥

-- The votes put a round into a step in which it can begin.
abbrev pub Enterable : VoteSummary → Type 0
Enterable vs =
    (get_step_from_vote_summary vs ≡ some awaiting_proposal)
    ⊎ (get_step_from_vote_summary vs ≡ some awaiting_precommits)
    ⊎ (get_step_from_vote_summary vs ≡ some commit_wait)

module _ {P : Type 0} where
  abbrev pub IsLive : RoundEntranceResponse P → Type 0
  IsLive (view v) = Enterable v.vote_summary
  IsLive (committed ch) = ⊥

  -- A live round that waits for an event, with the answers that the mirror will give.
  pub record Live (w : World P) : Type 0 where
    pub viewed : is_set w.rlc.vrv ≡ true
    pub answers_live : All IsLive w.answers
    pub fits : Fits w.rlc.s w.rlc.step_timer

  -- After an event: a live round, or the mirror has not answered the last entrance.
  pub record Ready (w : World P) : Type 0 where
    pub viewed : is_set w.rlc.vrv ≡ true
    pub answers_live : All IsLive w.answers
    pub settled : (w.answers ≡ []) ⊎ Fits w.rlc.s w.rlc.step_timer

  -- Between two steps, with no timer running.
  pub record Idle (rest : List (RoundEntranceResponse P)) (w : World P) : Type 0 where
    pub viewed : is_set w.rlc.vrv ≡ true
    pub rest_live : All IsLive rest
    pub same_rest : w.answers ≡ rest
    pub stopped_timer : is_set w.rlc.step_timer ≡ false

  -- The same, whatever the timer does.
  pub record Loose (rest : List (RoundEntranceResponse P)) (w : World P) : Type 0 where
    pub viewed : is_set w.rlc.vrv ≡ true
    pub rest_live : All IsLive rest
    pub same_rest : w.answers ≡ rest

  pub Loose-Ready :
      (rest : List (RoundEntranceResponse P)) (w : World P)
      → Loose rest w
      → Fits w.rlc.s w.rlc.step_timer
      → Ready w
  Loose-Ready rest w l f = record {
    viewed = l.viewed;
    answers_live = subst (All IsLive) (sym l.same_rest) l.rest_live;
    settled = inr f;
  }

  pub Idle-Loose :
      (rest : List (RoundEntranceResponse P)) (w : World P) → Idle rest w → Loose rest w
  Idle-Loose rest w i = record {
    viewed = i.viewed;
    rest_live = i.rest_live;
    same_rest = i.same_rest;
  }

  pub Live-Loose : (w : World P) → Live w → Loose w.answers w
  Live-Loose w l = record { viewed = l.viewed; rest_live = l.answers_live; same_rest = refl }

  pub Live-Ready : (w : World P) → Live w → Ready w
  Live-Ready w l = record { viewed = l.viewed; answers_live = l.answers_live; settled = inr l.fits }
