-- ===== src/Mirror/Kernel/Entrance.antt =====
-- The state machine enters a round: `handleStateMachineRoundEntrance` in kernel.go.
use gordian.Prelude.{ℕ, Option, none, some}
use gordian.Consensus.Types.{CommittedHeader}
use gordian.Consensus.RoundView.{VersionedRoundView}
use gordian.Mirror.Outgoing.{ViewId}
use gordian.Mirror.StateMachineView.{
  StateMachineRoundEntrance, StateMachineViewManager, mark_first_sent_version,
}
use gordian.Mirror.StateMachineView
use gordian.Mirror.KState.{KState, found, before_committing, find_view}
use gordian.Mirror.Kernel.Votes.{read_view}

-- RoundEntranceResponse: exactly one of its fields is set.
pub data RoundEntranceResponse (P : Type 0) : Type 0 where
  view : VersionedRoundView P → RoundEntranceResponse P
  committed : CommittedHeader → RoundEntranceResponse P

module _ {P : Type 0} where
  abbrev pub with_manager : KState P → StateMachineViewManager P → KState P
  with_manager s m = record s { state_machine_view_manager = m }

  -- The answer with the view that the state machine enters.
  unfoldable pub respond_view : KState P → ViewId → Option (KState P × RoundEntranceResponse P)
  respond_view s id =
      let v = read_view s id in
      elim (mark_first_sent_version s.state_machine_view_manager v.version) [
        | none ↦ none
        | some m ↦ some (with_manager s m, view v)
      ]

  -- `load` is the header store; `none` is a panic.
  unfoldable pub handle_state_machine_round_entrance :
      (ℕ → Option CommittedHeader)
      → KState P
      → StateMachineRoundEntrance
      → Option (KState P × RoundEntranceResponse P)
  handle_state_machine_round_entrance load s re =
      let s' = with_manager s (StateMachineView.reset s.state_machine_view_manager re) in
      elim (find_view s' re.h re.r) [
        | none ↦ none
        | some (id, found) ↦ respond_view s' id
        | some (id, before_committing) ↦ elim (load re.h) [
          | none ↦ none
          | some ch ↦ some (s', committed ch)
        ]
        | some (id, status) ↦ none
      ]
