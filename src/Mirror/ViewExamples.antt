-- ===== src/Mirror/ViewExamples.antt =====
-- The views of the mirror and their managers on concrete states.
use gordian.Prelude.{
  ℕ, ◌<◌, ◌≡◌, refl, Bool, true, false, List, [], ◌∷◌, Option, none, some, arith, Bytes, ◌&&◌, u32,
}
use gordian.Mirror.Outgoing.{ViewId, voting, next_round}
use gordian.Mirror.StateMachineView.{StateMachineViewManager, open_signal}
use gordian.Mirror.KState.{KState, found}
use gordian.Mirror.Lookup.{IsSynced, IsShared}
use gordian.Mirror.Kernel.Votes.{VoteUpdate}
use gordian.Mirror.KState.{sparse_proofs, find_view, jump_voting_round, shift_voting_to_committing}
use gordian.Mirror.StateMachineView.{set_view, jump_to_round}
use gordian.Mirror.Kernel.Votes.{apply_updates}
use gordian.Prelude.{lookup, bytes_eq, bytes_key}
use gordian.Mirror.Fixtures.{
  two_validators, block, view_at, voting_on, voting_on-IsSynced, voting_on-IsShared,
}
use gordian.Mirror.Lookup.{Stands, find_view_iff, find_view_panics_iff}
use gordian.Mirror.Rounds.{next_voting_round}
use gordian.Mirror.Informed.{jump_informs_state_machine}
use gordian.Mirror.KState.{
  NextHeightDetails, advance_voting_round, jump_voting_round, bump, find_view, sparse_proofs,
  shift_voting_to_committing,
}
use gordian.Mirror.StateMachineView
use gordian.Mirror.StateMachineView.{
  StateMachineRoundEntrance, mark_sent_silences_output, output_sound,
}
use gordian.Mirror.Outgoing.{View}
use gordian.Mirror.Lag.{LagManager, assumed_behind}
use gordian.Mirror.Kernel.Conflicts.{swapped, all_fresh, apply_updates_swaps, apply_updates_accepts}
use gordian.Mirror.Kernel.Votes.{Applied, read_view, start_precommits}
use gordian.Mirror.Kernel.PhCheck.{PhCheckResponse, acceptable, send_ph_check_response}
use gordian.Mirror.Kernel.Entrance.{view, with_manager, handle_state_machine_round_entrance}
use gordian.Mirror.Kernel.Answers.{Acceptable, acceptable_iff, entrance_answers_view}
use gordian.Consensus.Types.{CommittedHeader}
use gordian.Prelude.{◌↔◌, ◌⊎◌, lookup, get_or, Distinct, Map}

abbrev start : KState (List Bool)
start = voting_on (block ∷ [])

abbrev start-IsSynced : IsSynced start
start-IsSynced = voting_on-IsSynced (block ∷ [])

abbrev start-IsShared : IsShared start
start-IsShared = voting_on-IsShared (block ∷ [])

find_view_iff_example :
    (find_view start 2 1 ≡ some (next_round, found)) ↔ Stands start next_round 2 1
find_view_iff_example = find_view_iff start 2 1 next_round start-IsSynced

find_view_panics_iff_example :
    (find_view start 1 3 ≡ none) ↔ (((1 ≡ start.committing.height) × (0 < 3)) ⊎ ((1 < 1) × (1 < 2)))
find_view_panics_iff_example = find_view_panics_iff start 1 3 start-IsSynced

next_voting_round_example :
    let t = advance_voting_round start in
    let u = jump_voting_round start in
    IsSynced t
    × IsShared t
    × (t.voting ≡ bump start.next_round)
    × (t.voting.height ≡ 2)
    × (t.voting.round ≡ u32 1)
    × (t.committing ≡ start.committing)
    × IsSynced u
    × IsShared u
    × (u.voting ≡ t.voting)
    × (u.committing ≡ start.committing)
next_voting_round_example = next_voting_round start start-IsSynced start-IsShared

abbrev next_height_details : NextHeightDetails
next_height_details = record { validator_set = two_validators; voted_header = block.header }

jump_informs_state_machine_example :
    let u = jump_voting_round start in
    let o = StateMachineView.output u.state_machine_view_manager in
    (o.ch ≡ true) × (o.val.jump_ahead_round_view ≡ some u.voting)
jump_informs_state_machine_example =
    jump_informs_state_machine start start-IsSynced (omega arith) refl refl refl refl

-- A newer view waits for the state machine.
abbrev waiting : StateMachineViewManager (List Bool)
waiting = record (start.state_machine_view_manager) { last_sent_version = 0 }

waiting_ready : (StateMachineView.output waiting).ch ≡ true
unfolding StateMachineView.output StateMachineView.output_current
waiting_ready = refl

abbrev sent_view : View (List Bool)
sent_view = record {
  vrv = view_at 2 0 [];
  outgoing = record { sent_h = 2; sent_r = 0; sent_v = 1; vrv = view_at 2 0 [] };
}

abbrev lagging : LagManager
lagging = record {
  out = true;
  state = record { status = assumed_behind; committing_height = 1; need_height = 0 };
  sent = false;
}

abbrev updates : Map Bytes (VoteUpdate (List Bool))
updates =
    (7 ∷ [], record { proof = true ∷ []; prev_version = 0 })
    ∷ ([], record { proof = false ∷ true ∷ []; prev_version = 1 })
    ∷ []

abbrev no_updates : Applied (List Bool)
no_updates = start_precommits start.voting

updates-Distinct : Distinct updates
unfolding lookup bytes_eq
updates-Distinct = (refl, (refl, tt))

apply_updates_swaps_example :
    let b = apply_updates updates no_updates in
    (lookup (7 ∷ []) b.proofs, get_or b.versions (7 ∷ []) 0)
    ≡ swapped
        (lookup (7 ∷ []) updates)
        (lookup (7 ∷ []) no_updates.proofs)
        (get_or no_updates.versions (7 ∷ []) 0)
apply_updates_swaps_example = apply_updates_swaps updates no_updates (7 ∷ []) updates-Distinct

apply_updates_accepts_example :
    (apply_updates updates no_updates).all_accepted
    ≡ (no_updates.all_accepted && all_fresh no_updates.versions updates)
apply_updates_accepts_example = apply_updates_accepts updates no_updates updates-Distinct

acceptable_iff_example :
    ((resp : PhCheckResponse (List Bool)) × (send_ph_check_response 1 start block ≡ some resp)
      × (resp.status ≡ acceptable))
    ↔ ((id : ViewId) × Stands start id 2 0 × Acceptable block (read_view start id))
acceptable_iff_example = acceptable_iff 1 start block start-IsSynced (omega arith)

abbrev entrance : StateMachineRoundEntrance
entrance = record { h = 2; r = 0; pub_key = 1 ∷ []; height_committed = open_signal }

abbrev empty_store : ℕ → Option CommittedHeader
empty_store h = none

entrance_answers_view_example :
    handle_state_machine_round_entrance empty_store start entrance
    ≡ some (
      with_manager start (record (start.state_machine_view_manager) {
        round_entrance = entrance;
        last_sent_version = 1;
        jump_ahead = none;
      }),
      view start.voting,
    )
entrance_answers_view_example =
    entrance_answers_view empty_store start entrance voting start-IsSynced (refl, refl)
