-- ===== src/Mirror/StateMachineView.antt =====
-- tm/tmengine/internal/tmmirror/internal/tmi/statemachineviewmanager.go and
-- tm/tmengine/internal/tmeil/statemachine.go: the views that the mirror owes the state machine.
use gordian.Prelude.{
  ℕ, ◌<◌, ◌≡◌, Bool, true, false, ◌==◌, ◌&&◌, ltb, if◌then◌else◌, Option, none, some, arith, ◌⊎◌,
}
use gordian.Consensus.Types.{PubKey}
use gordian.Consensus.RoundView.{VersionedRoundView, zero_view}

-- The HeightCommitted channel of the state machine: nil, open or closed.
pub data Signal : Type 0 where
  no_signal open_signal closed_signal : Signal

-- The channels Actions and Response are left to the kernel.
pub record StateMachineRoundEntrance : Type 0 where
  pub h : ℕ  -- uint64
  pub r : ℕ  -- uint32
  pub pub_key : PubKey
  pub height_committed : Signal

pub record StateMachineRoundView (P : Type 0) : Type 0 where
  pub vrv : VersionedRoundView P
  pub jump_ahead_round_view : Option (VersionedRoundView P)

pub record StateMachineViewManager (P : Type 0) : Type 0 where
  pub out : Bool
  pub round_entrance : StateMachineRoundEntrance
  pub last_sent_version : ℕ  -- uint32
  pub force_send : Option (VersionedRoundView P)
  pub jump_ahead : Option (VersionedRoundView P)
  pub outgoing_view : VersionedRoundView P

-- `ch` is false where the output's channel is nil.
pub record StateMachineOutput (P : Type 0) : Type 0 where
  pub ch : Bool
  pub val : StateMachineRoundView P
  pub sent_version : ℕ

module _ {P : Type 0} where
  unfoldable pub set_view :
      StateMachineViewManager P → VersionedRoundView P → StateMachineViewManager P
  set_view m v = record m { outgoing_view = v }

  unfoldable pub jump_to_round :
      StateMachineViewManager P → VersionedRoundView P → StateMachineViewManager P
  jump_to_round m v = record m { jump_ahead = some v }

  abbrev pub no_output : StateMachineOutput P
  no_output = record {
    ch = false;
    val = record { vrv = zero_view; jump_ahead_round_view = none };
    sent_version = 0;
  }

  -- The plain case: a newer view, or a jump, for the round that the state machine is in.
  unfoldable pub output_current : StateMachineViewManager P → StateMachineOutput P
  output_current m =
      let newer = ltb m.last_sent_version m.outgoing_view.version in
      record {
        ch = m.out;
        val = record {
          vrv = if newer then m.outgoing_view else zero_view;
          jump_ahead_round_view = m.jump_ahead;
        };
        sent_version =
            if newer
            then m.outgoing_view.version
            else elim m.jump_ahead [ none ↦ 0 | some j ↦ m.last_sent_version ];
      }

  -- The last case: a jump ahead of the state machine's round, with no view to go with it.
  unfoldable pub output_jump : StateMachineViewManager P → StateMachineOutput P
  output_jump m = elim m.jump_ahead [
    | none ↦ no_output
    | some j ↦
        if j.height == m.round_entrance.h && ltb m.round_entrance.r j.round
        then record {
          ch = m.out;
          val = record { vrv = zero_view; jump_ahead_round_view = some j };
          sent_version = m.last_sent_version;
        }
        else no_output
  ]

  unfoldable pub output : StateMachineViewManager P → StateMachineOutput P
  unfolding output_current output_jump
  output m = elim m.force_send [
    | some v ↦ record {
      ch = m.out;
      val = record { vrv = v; jump_ahead_round_view = none };
      sent_version = v.version;
    }
    | none ↦
        if (m.outgoing_view.height == m.round_entrance.h
            && m.outgoing_view.round == m.round_entrance.r)
          && ltb 0 (output_current m).sent_version
        then output_current m
        else output_jump m
  ]

  -- `none` is the panic on a second call before the first view is sent.
  unfoldable pub force_send :
      StateMachineViewManager P → VersionedRoundView P → Option (StateMachineViewManager P)
  force_send m v = elim m.force_send [
    | some w ↦ none
    | none ↦ some (record m { force_send = some v })
  ]

  unfoldable pub reset :
      StateMachineViewManager P → StateMachineRoundEntrance → StateMachineViewManager P
  reset m re = record m { round_entrance = re; last_sent_version = 0; jump_ahead = none }

  -- `none` is the panic when a version was marked before.
  unfoldable pub mark_first_sent_version :
      StateMachineViewManager P → ℕ → Option (StateMachineViewManager P)
  mark_first_sent_version m version =
      if m.last_sent_version == 0 then some (record m { last_sent_version = version }) else none

  -- `stateMachineOutput.MarkSent`; an output that is not ready has no manager and is never sent.
  unfoldable pub mark_sent :
      StateMachineOutput P → StateMachineViewManager P → StateMachineViewManager P
  mark_sent o m = record m {
    force_send = none;
    jump_ahead = none;
    last_sent_version = o.sent_version;
  }

  -- A view or a jump is sent once: when an output with no forced view is sent, the next output is
  -- not ready.
  pub mark_sent_silences_output :
      (m : StateMachineViewManager P)
      → m.force_send ≡ none
      → (output m).ch ≡ true
      → (output (mark_sent (output m) m)).ch ≡ false
  unfolding output mark_sent
  mark_sent_silences_output m f c = ground arith

  -- A ready output is for the state machine: it carries the forced view, or a view of the state
  -- machine's own height and round newer than the last one sent, or a jump.
  pub output_sound :
      (m : StateMachineViewManager P)
      → (output m).ch ≡ true
      → let o = output m in
        ((v : VersionedRoundView P) × (m.force_send ≡ some v) × (o.val.vrv ≡ v))
        ⊎ (((o.val.vrv ≡ m.outgoing_view)
              × (m.outgoing_view.height ≡ m.round_entrance.h)
              × (m.outgoing_view.round ≡ m.round_entrance.r)
              × (m.last_sent_version < m.outgoing_view.version))
            ⊎ ((j : VersionedRoundView P) × (m.jump_ahead ≡ some j)
                × (o.val.jump_ahead_round_view ≡ some j)))
  unfolding output
  output_sound m c = ground arith
