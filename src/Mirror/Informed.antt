-- ===== src/Mirror/Informed.antt =====
-- Whom the mirror tells when it leaves a voting round (kstate.go, statemachineviewmanager.go).
use gordian.Prelude.{◌+◌, ◌^◌, ◌<◌, ◌≡◌, true, none, some, arith}
use gordian.Consensus.RoundView.{VersionedRoundView}
use gordian.Mirror.StateMachineView.{StateMachineViewManager, jump_to_round}
use gordian.Mirror.StateMachineView
use gordian.Mirror.Gossip
use gordian.Mirror.KState.{KState, advance_voting_round, jump_voting_round}
use gordian.Mirror.Lookup.{IsSynced}
use gordian.Mirror.Rounds.{increment_lem, jump_lem}

module _ {P : Type 0} where
  -- A nil commit leaves the old voting view for the gossip strategy: if the gossip channel is set,
  -- the next output is ready and carries it.
  pub advance_shares_nil_round :
      (s : KState P)
      → s.gossip_view_manager.out ≡ true
      → let o = Gossip.output (advance_voting_round s).gossip_view_manager in
        (o.ch ≡ true) × (o.val.nil_voted_round ≡ some s.voting)
  unfolding advance_voting_round Gossip.output
  advance_shares_nil_round s c =
      let a = record s {
        gossip_view_manager = record (s.gossip_view_manager) { nil_voted_round = some s.voting };
      } in
      ground (arith, increment_lem a)

  -- A manager whose jump lies ahead in the same height has a ready output that carries the jump.
  output_carries_jump :
      (m : StateMachineViewManager P) (v : VersionedRoundView P)
      → m.out ≡ true
      → m.force_send ≡ none
      → m.jump_ahead ≡ some v
      → v.height ≡ m.round_entrance.h
      → m.round_entrance.r < v.round
      → ((StateMachineView.output m).ch ≡ true)
        × ((StateMachineView.output m).val.jump_ahead_round_view ≡ some v)
  unfolding StateMachineView.output
  output_carries_jump m v o f j h r = ground arith

  jump_sets_manager :
      (s : KState P)
      → let u = jump_voting_round s in
        let m = u.state_machine_view_manager in
        IsSynced s
        → s.voting.round + 1 < 2 ^ 32
        → s.state_machine_view_manager.round_entrance.h ≡ s.voting.height
        → s.state_machine_view_manager.round_entrance.r ≡ s.voting.round
        → (m.jump_ahead ≡ some u.voting)
          × (m.out ≡ s.state_machine_view_manager.out)
          × (m.force_send ≡ s.state_machine_view_manager.force_send)
  unfolding jump_voting_round jump_to_round
  jump_sets_manager s w b h r = ground (arith, increment_lem s)

  -- When the mirror jumps from a synced state while the state machine is in the voting round, with
  -- no view forced, its channel set and the round below the last uint32, the next output to the
  -- state machine is ready and carries the new voting view as the jump.
  pub jump_informs_state_machine :
      (s : KState P)
      → IsSynced s
      → s.voting.round + 1 < 2 ^ 32
      → s.state_machine_view_manager.out ≡ true
      → s.state_machine_view_manager.force_send ≡ none
      → s.state_machine_view_manager.round_entrance.h ≡ s.voting.height
      → s.state_machine_view_manager.round_entrance.r ≡ s.voting.round
      → let u = jump_voting_round s in
        let o = StateMachineView.output u.state_machine_view_manager in
        (o.ch ≡ true) × (o.val.jump_ahead_round_view ≡ some u.voting)
  jump_informs_state_machine s w b o f h r =
      let u = jump_voting_round s in
      let j = jump_sets_manager s w b h r in
      output_carries_jump u.state_machine_view_manager u.voting (ground (arith, j))
        (ground (arith, j)) (ground (arith, j)) (ground (arith, jump_lem s, increment_lem s))
        (ground (arith, jump_lem s, increment_lem s))
