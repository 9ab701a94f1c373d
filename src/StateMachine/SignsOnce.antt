-- ===== src/StateMachine/SignsOnce.antt =====
-- What the state machine sends stands in its action store (statemachine.go and
-- tm/tmstore/tmmemstore/actionstore.go).
use gordian.Prelude.{
  ℕ, ◌≡◌, ◌≢◌, refl, subst, ◌⊎◌, inl, inr, List, [], ◌∷◌, ◌++◌, All, ◌==◌, not, bytes_eq, arith,
  Bool-cases,
}
use gordian.Consensus.Types.{PubKey}
use gordian.Store.Actions.{
  ActionStore, Action, SaveResult, saved, refused, ActionError, double_action, pub_key_changed,
  save_action, after_save, actions_at, Stands, save_action-Stands, saved_inv, inserted,
  save_proposed_header_action, save_prevote_action, save_precommit_action, with_proposal,
  with_prevote, with_precommit, key_differs,
}
use gordian.Store.Actions
use gordian.StateMachine.World.{RoundAction, propose, prevote, precommit, World}
use gordian.StateMachine.Outcomes.{Holds}
use gordian.StateMachine.Actions.{save_and_send}

-- The action is recorded for its height and round: a vote with its target and its signature.
abbrev pub IsStored : ActionStore → RoundAction → Type 0
IsStored s (propose ph) =
    (ph.header.height ≡ 0) ⊎ ((actions_at s ph.header.height ph.round).proposed_header ≡ ph)
IsStored s (prevote vt content sig) =
    (sig ≢ [])
    × ((actions_at s vt.height vt.round).prevote_target ≡ vt.block_hash)
    × ((actions_at s vt.height vt.round).prevote_signature ≡ sig)
IsStored s (precommit vt content sig) =
    (sig ≢ [])
    × ((actions_at s vt.height vt.round).precommit_target ≡ vt.block_hash)
    × ((actions_at s vt.height vt.round).precommit_signature ≡ sig)

-- The call of the store that goes with an action.
abbrev pub call_of : PubKey → RoundAction → Action
call_of key (propose ph) = Actions.propose ph
call_of key (prevote vt content sig) = Actions.prevote key vt sig
call_of key (precommit vt content sig) = Actions.precommit key vt sig

-- The signature of a vote is not empty.
abbrev pub IsSigned : RoundAction → Type 0
IsSigned (propose ph) = Unit {0}
IsSigned (prevote vt content sig) = sig ≢ []
IsSigned (precommit vt content sig) = sig ≢ []

IsStored-Stands :
    (a : RoundAction) (s t : ActionStore)
    → ((h r : ℕ) → Stands (actions_at s h r) (actions_at t h r))
    → IsStored s a
    → IsStored t a
IsStored-Stands (propose ph) s t k h = ground (arith, h, k ph.header.height ph.round)
IsStored-Stands (prevote vt content sig) s t k h = ground (arith, h, k vt.height vt.round)
IsStored-Stands (precommit vt content sig) s t k h = ground (arith, h, k vt.height vt.round)

All-Stored :
    (l : List RoundAction) (a : RoundAction) (s t : ActionStore)
    → ((h r : ℕ) → Stands (actions_at s h r) (actions_at t h r))
    → All (IsStored s) l
    → IsStored t a
    → All (IsStored t) (l ++ a ∷ [])
All-Stored [] a s t k h here = (here, tt)
All-Stored (b ∷ l) a s t k h here = (IsStored-Stands b s t k h.0, All-Stored l a s t k h.1 here)

-- A call that was accepted records its action.
save_action-Stored :
    (key : PubKey) (a : RoundAction) (s t : ActionStore)
    → IsSigned a
    → save_action (call_of key a) s ≡ saved t
    → IsStored t a
unfolding save_action save_proposed_header_action save_prevote_action save_precommit_action
save_action-Stored key (propose ph) s t signed e =
    let ra = actions_at s ph.header.height ph.round in
    let p = saved_inv (not (ra.proposed_header.header.height == 0)) double_action _ t e in
    ground (arith, inserted s ph.header.height ph.round (with_proposal ph ra) t (ground (arith, p)))
save_action-Stored key (prevote vt content sig) s t signed e =
    let ra = actions_at s vt.height vt.round in
    let p = saved_inv (not (bytes_eq ra.prevote_signature [])) double_action _ t e in
    let q = saved_inv (key_differs ra.pub_key key) pub_key_changed _ t p in
    ground (
      arith,
      signed,
      inserted s vt.height vt.round (with_prevote key vt sig ra) t (ground (arith, q)),
    )
save_action-Stored key (precommit vt content sig) s t signed e =
    let ra = actions_at s vt.height vt.round in
    let p = saved_inv (not (bytes_eq ra.precommit_signature [])) double_action _ t e in
    let q = saved_inv (key_differs ra.pub_key key) pub_key_changed _ t p in
    ground (
      arith,
      signed,
      inserted s vt.height vt.round (with_precommit key vt sig ra) t (ground (arith, q)),
    )

module _ {P : Type 0} where
  -- All that was sent stands in the store.
  abbrev pub IsHonest : World P → Type 0
  IsHonest w = All (IsStored w.action_store) w.outgoing_actions

  -- An action is sent only once the store has recorded it.
  pub save_and_send-Honest :
      (key : PubKey) (a : RoundAction) (w : World P)
      → IsSigned a
      → IsHonest w
      → Holds IsHonest (save_and_send a (save_action (call_of key a) w.action_store) w)
  unfolding save_and_send
  save_and_send-Honest key a w signed y = go (save_action (call_of key a) w.action_store) refl
    where
      go :
          (r : SaveResult)
          → save_action (call_of key a) w.action_store ≡ r
          → Holds IsHonest (save_and_send a r w)
      go (refused e) q = y
      go (saved t) q = elim (Bool-cases w.rlc.outgoing_actions_ch) [
        | inl open_ch ↦
            rw (open_ch, Holds)
              (All-Stored w.outgoing_actions a w.action_store t
                (λ h r.
                  subst
                    (λ x.
                      Stands (actions_at w.action_store h r)
                        (actions_at (after_save w.action_store x) h r))
                    q (save_action-Stands (call_of key a) w.action_store h r))
                y (save_action-Stored key a w.action_store t signed q))
        | inr closed ↦ rw (closed, Holds) tt
      ]
