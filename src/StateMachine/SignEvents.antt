-- ===== src/StateMachine/SignEvents.antt =====
-- What a run of the main loop (statemachine.go) signs: never two different actions of one kind for
-- one height and round.
use gordian.Prelude.{inl, inr, List, [], ◌∷◌, none, some, All, arith, Bool-cases}
use gordian.StateMachine.World.{Config, Env, World, Outcome, ok, ◌>>◌}
use gordian.StateMachine.Views.{handle_view_update}
use gordian.StateMachine.Actions.{record_proposed_header, record_prevote, record_precommit}
use gordian.StateMachine.Events.{
  handle_timer_elapsed, timer_elapsed_at, handle_finalization, handle_height_committed,
  handle_block_data_arrival,
}
use gordian.StateMachine.Loop.{
  Event, view_in, proposal_in, prevote_hash_in, precommit_hash_in, finalization_in, timer_elapsed,
  height_committed, block_data_in, handle_event, is_possible, live_event, live_loop,
}
use gordian.StateMachine.Outcomes.{Holds, Holds-weaken}
use gordian.StateMachine.ViewFrame.{handle_view_update-Frame}
use gordian.StateMachine.Unsigned.{
  SameSigned, from_Frame, height_committed-Unsigned, timer_elapsed_at-Unsigned, block_data-Unsigned,
  handle_finalization-Unsigned,
}
use gordian.StateMachine.SignsOnce.{IsHonest}
use gordian.StateMachine.Agreement.{Agree, All-Agree}
use gordian.StateMachine.SignActions.{
  VotesSigned, then-IsHonest, SameSigned-Honest, unsigned, record_proposed_header-Honest,
  record_prevote-Honest, record_precommit-Honest,
}

module _ {P : Type 0} (cfg : Config) (env : Env P) where
  closed-Honest :
      (f : World P → Outcome P) (g : World P → World P) (w : World P)
      → Holds IsHonest (f w)
      → ((v : World P) → SameSigned v (g v))
      → Holds IsHonest ((f >> λ v. ok (g v)) w)
  closed-Honest f g w h k =
      then-IsHonest f (λ v. ok (g v)) w h (λ v y. SameSigned-Honest v (g v) y (k v))

  handle_event-Honest :
      VotesSigned cfg
      → (e : Event P) (w : World P) → IsHonest w
      → Holds IsHonest (handle_event cfg env e w)
  unfolding handle_event
  handle_event-Honest s (view_in u) w y =
      unsigned w (handle_view_update cfg env u w) y
        (from_Frame w (handle_view_update cfg env u w) (handle_view_update-Frame cfg env u w))
  handle_event-Honest s (proposal_in p) w y =
      closed-Honest (record_proposed_header cfg p) _ w (record_proposed_header-Honest cfg p w y)
        (λ v. ground arith)
  handle_event-Honest s (prevote_hash_in none) w y = y
  handle_event-Honest s (prevote_hash_in (some hash)) w y =
      closed-Honest (record_prevote cfg hash) _ w (record_prevote-Honest cfg s hash w y)
        (λ v. ground arith)
  handle_event-Honest s (precommit_hash_in none) w y = y
  handle_event-Honest s (precommit_hash_in (some hash)) w y =
      closed-Honest (record_precommit cfg hash) _ w (record_precommit-Honest cfg s hash w y)
        (λ v. ground arith)
  handle_event-Honest s (finalization_in resp) w y =
      unsigned w (handle_finalization cfg env resp w) y
        (handle_finalization-Unsigned cfg env resp w)
  handle_event-Honest s timer_elapsed w y =
      unfold handle_timer_elapsed in
      unsigned w (timer_elapsed_at cfg env w.rlc.s w) y
        (timer_elapsed_at-Unsigned cfg env w.rlc.s w)
  handle_event-Honest s height_committed w y =
      unsigned w (handle_height_committed cfg env w) y (height_committed-Unsigned cfg env w)
  handle_event-Honest s (block_data_in a queued) w y =
      unsigned w (handle_block_data_arrival cfg env a queued w) y
        (block_data-Unsigned cfg env a queued w)

  live_event-Honest :
      VotesSigned cfg
      → (e : Event P) (w : World P) → IsHonest w
      → Holds IsHonest (live_event cfg env e w)
  unfolding live_event
  live_event-Honest s e w y = elim (Bool-cases (is_possible cfg env e w.rlc)) [
    | inl q ↦ rw (q, Holds) (handle_event-Honest s e w y)
    | inr q ↦ rw (q, Holds) y
  ]

  -- However a run of live events goes, to its end or to an early stop, everything that the state
  -- machine has sent stands in its action store, if it did before and if the signer's votes have a
  -- signature that is not empty: each vote with its target and its signature, each proposed header
  -- of a positive height as it is.
  pub live_loop-Honest :
      VotesSigned cfg
      → (es : List (Event P)) (w : World P) → IsHonest w
      → Holds IsHonest (live_loop cfg env es w)
  unfolding live_loop
  live_loop-Honest s [] w y = y
  live_loop-Honest s (e ∷ es) w y =
      then-IsHonest (live_event cfg env e) (live_loop cfg env es) w (live_event-Honest s e w y)
        (live_loop-Honest s es)

  abbrev pub SignsOnce : World P → Type 0
  SignsOnce w = All (λ a. All (Agree a) w.outgoing_actions) w.outgoing_actions

  -- However a run of live events goes, to its end or to an early stop, the state machine never sends
  -- two different prevotes, two different precommits, or two different proposed headers for one
  -- positive height and round, if all that it had sent before stands in its action store and if the
  -- signer's votes have a signature that is not empty.
  pub live_loop-SignsOnce :
      VotesSigned cfg
      → (es : List (Event P)) (w : World P) → IsHonest w
      → Holds SignsOnce (live_loop cfg env es w)
  live_loop-SignsOnce s es w y =
      Holds-weaken IsHonest SignsOnce (live_loop cfg env es w)
        (λ v q. All-Agree v.action_store v.outgoing_actions v.outgoing_actions q q)
        (live_loop-Honest s es w y)
