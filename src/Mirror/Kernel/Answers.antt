-- ===== src/Mirror/Kernel/Answers.antt =====
-- What the kernel answers to a check of a proposed header and to a round entrance (kernel.go).
use gordian.Prelude.{
  ℕ, ◌+◌, ◌<◌, ◌^◌, ◌≡◌, ◌↔◌, ◌⊎◌, inl, inr, ap, true, false, Option, none, some, arith,
}
use gordian.Consensus.Types.{ProposedHeader, CommittedHeader}
use gordian.Consensus.RoundView.{VersionedRoundView}
use gordian.Mirror.Outgoing.{ViewId, not_found, voting, committing, next_round, next_height}
use gordian.Mirror.StateMachineView.{
  StateMachineRoundEntrance, StateMachineViewManager, mark_first_sent_version,
}
use gordian.Mirror.StateMachineView
use gordian.Mirror.KState.{KState, ViewLookupStatus, found, before_committing, find_view}
use gordian.Mirror.Lookup.{IsSynced, Stands, find_view_iff}
use gordian.Mirror.Kernel.Votes.{read_view}
use gordian.Mirror.Kernel.Headers.{have_signature}
use gordian.Mirror.Kernel.PhCheck.{
  acceptable, PhCheckResponse, is_validator, known_proposer, set_ph_check_status,
  check_voting_height, send_ph_check_response,
}
use gordian.Mirror.Kernel.Entrance.{
  RoundEntranceResponse, view, committed, with_manager, respond_view,
  handle_state_machine_round_entrance,
}

module _ {P : Type 0} where
  -- The header is new to the view and its proposer is a validator there.
  abbrev pub Acceptable : ProposedHeader → VersionedRoundView P → Type 0
  Acceptable ph v =
      (have_signature ph v ≡ false)
      × (is_validator ph.proposer_pub_key v.validator_set.validators ≡ true)

  set_ph_check_status_lem :
      (initial_height : ℕ) (s : KState P) (ph : ProposedHeader) (v : VersionedRoundView P)
      (id : ViewId)
      → ((set_ph_check_status initial_height s ph v id).status ≡ acceptable) ↔ Acceptable ph v
  unfolding set_ph_check_status known_proposer
  set_ph_check_status_lem initial_height s ph v id = ground arith

  -- The three places from which an acceptable status can come.
  sent :
      (initial_height : ℕ) (s : KState P) (ph : ProposedHeader) (resp : PhCheckResponse P)
      → IsSynced s
      → send_ph_check_response initial_height s ph ≡ some resp
      → resp.status ≡ acceptable
      → (Stands s voting ph.header.height ph.round
          × (resp ≡ set_ph_check_status initial_height s ph s.voting voting))
        ⊎ ((Stands s committing ph.header.height ph.round
              × (resp ≡ set_ph_check_status initial_height s ph s.committing committing))
            ⊎ (Stands s next_round ph.header.height ph.round
                × (resp ≡ set_ph_check_status initial_height s ph s.next_round next_round)))
  unfolding send_ph_check_response check_voting_height
  sent initial_height s ph resp y e a = ground arith

  -- In a synced state below the last uint32 round the check reports a proposed header as acceptable
  -- exactly when some view stands for its height and round, has no proposed header with its
  -- signature yet, and counts its proposer among the validators.
  pub acceptable_iff :
      (initial_height : ℕ) (s : KState P) (ph : ProposedHeader)
      → IsSynced s
      → s.voting.round + 1 < 2 ^ 32
      → ((resp : PhCheckResponse P) × (send_ph_check_response initial_height s ph ≡ some resp)
          × (resp.status ≡ acceptable))
        ↔ ((id : ViewId) × Stands s id ph.header.height ph.round × Acceptable ph (read_view s id))
  unfolding send_ph_check_response check_voting_height
  acceptable_iff initial_height s ph y b = (there, back)
    where
      there :
          ((resp : PhCheckResponse P) × (send_ph_check_response initial_height s ph ≡ some resp)
            × (resp.status ≡ acceptable))
          → (id : ViewId) × Stands s id ph.header.height ph.round × Acceptable ph (read_view s id)
      there (resp, e, a) = elim (sent initial_height s ph resp y e a) [
        | inl (st, q) ↦ (
          voting,
          st,
          (set_ph_check_status_lem initial_height s ph s.voting voting).0 (ground (arith, a, q)),
        )
        | inr (inl (st, q)) ↦ (
          committing,
          st,
          (set_ph_check_status_lem initial_height s ph s.committing committing).0
              (ground (arith, a, q)),
        )
        | inr (inr (st, q)) ↦ (
          next_round,
          st,
          (set_ph_check_status_lem initial_height s ph s.next_round next_round).0
              (ground (arith, a, q)),
        )
      ]

      back :
          ((id : ViewId) × Stands s id ph.header.height ph.round × Acceptable ph (read_view s id))
          → (resp : PhCheckResponse P) × (send_ph_check_response initial_height s ph ≡ some resp)
            × (resp.status ≡ acceptable)
      back (voting, st, a) = (
        set_ph_check_status initial_height s ph s.voting voting,
        ground (arith, st, y.above),
        (set_ph_check_status_lem initial_height s ph s.voting voting).1 a,
      )
      back (committing, st, a) = (
        set_ph_check_status initial_height s ph s.committing committing,
        ground (arith, st, y.above),
        (set_ph_check_status_lem initial_height s ph s.committing committing).1 a,
      )
      back (next_round, st, a) = (
        set_ph_check_status initial_height s ph s.next_round next_round,
        ground (arith, st, y.above, b, y.same_height, y.next_follows),
        (set_ph_check_status_lem initial_height s ph s.next_round next_round).1 a,
      )
      back (not_found, st, a) = absurd st
      back (next_height, st, a) = absurd st

  -- The handler, with the view that was looked up.
  abbrev entered :
      (ℕ → Option CommittedHeader)
      → KState P
      → StateMachineRoundEntrance
      → Option (ViewId × ViewLookupStatus)
      → Option (KState P × RoundEntranceResponse P)
  entered load s re o =
      let s' = with_manager s (StateMachineView.reset s.state_machine_view_manager re) in
      elim o [
        | none ↦ none
        | some (id, found) ↦ respond_view s' id
        | some (id, before_committing) ↦ elim (load re.h) [
          | none ↦ none
          | some ch ↦ some (s', committed ch)
        ]
        | some (id, status) ↦ none
      ]

  -- In a synced state, a state machine that enters a round for which some view stands gets that
  -- view in answer, whatever the header store holds. The manager then has the entrance, counts the
  -- version of that view as sent, and holds no jump; nothing else in the state changes.
  pub entrance_answers_view :
      (load : ℕ → Option CommittedHeader) (s : KState P) (re : StateMachineRoundEntrance)
      (id : ViewId)
      → IsSynced s
      → Stands s id re.h re.r
      → handle_state_machine_round_entrance load s re
        ≡ some (
          with_manager s (record (s.state_machine_view_manager) {
            round_entrance = re;
            last_sent_version = (read_view s id).version;
            jump_ahead = none;
          }),
          view (read_view s id),
        )
  unfolding handle_state_machine_round_entrance respond_view StateMachineView.reset
      mark_first_sent_version find_view
  entrance_answers_view load s re voting y st =
      ap (entered load s re) ((find_view_iff s re.h re.r voting y).1 st)
  entrance_answers_view load s re committing y st =
      ap (entered load s re) ((find_view_iff s re.h re.r committing y).1 st)
  entrance_answers_view load s re next_round y st =
      ap (entered load s re) ((find_view_iff s re.h re.r next_round y).1 st)
  entrance_answers_view load s re not_found y st = absurd st
  entrance_answers_view load s re next_height y st = absurd st
