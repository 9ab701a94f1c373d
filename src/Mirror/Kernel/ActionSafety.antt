-- ===== src/Mirror/Kernel/ActionSafety.antt =====
-- What an action of the state machine does to the kernel's state (`handleStateMachineAction` in
-- kernel.go).
use gordian.Prelude.{
  ◌+◌, ◌^◌, ◌<◌, Option, none, some, Bool, true, false, ◌||◌, if◌then◌else◌, arith,
}
use gordian.Mirror.Outgoing.{ViewId, voting, committing}
use gordian.Mirror.KState.{ViewLookupStatus, find_view}
use gordian.Mirror.Lookup.{IsSynced, IsSharedBy, without_proofs}
use gordian.Mirror.Kernel.World.{SignatureProofs, Env, World, Outcome, done, panic}
use gordian.Mirror.Kernel.Votes.{read_view}
use gordian.Mirror.Kernel.Action.{
  ScopedSignature, StateMachineRoundAction, ProofScheme, is_present, updated_vote, own_request,
  own_prevote, own_precommit, own_vote, own_vote_in, handle_state_machine_action,
}
use gordian.Mirror.Kernel.Steps.{Ends}
use gordian.Mirror.Kernel.Kept.{SafeBy, Stays-refl, Stays-Safe}
use gordian.Mirror.Kernel.VoteSafety.{add_prevote-StaysBy, add_precommit-SafeBy}
use gordian.Mirror.Kernel.HeaderSafety.{add_proposed_header-Safe}

-- A synced state, shared but for the proofs that can change in place, below the last uint64 height,
-- with less than 2^64 available power.
pub record IsBounded {P : Type 0} (w : World P) : Type 0 where
  pub synced : IsSynced w.state
  pub shared : IsSharedBy without_proofs w.state
  pub below : w.state.voting.height + 1 < 2 ^ 64
  pub small : w.state.voting.vote_summary.available_power < 2 ^ 64

module _ {P : Type 0} (w w' : World P) (y : IsBounded w) where
  -- What one outcome that ends in `w'` may do.
  abbrev pub Behaves : Outcome P → Type 0
  Behaves o = Ends o w' → SafeBy without_proofs w.state w'.state

  unchanged : Behaves (done w)
  unchanged e =
      Stays-Safe without_proofs w.state w'.state
        (Stays-refl without_proofs w.state w'.state y.synced y.shared (ground (arith, e)))

  unended : Behaves panic
  unended e = absurd (ground (arith, e))

  if-Behaves : (b : Bool) (o q : Outcome P) → Behaves o → Behaves q → Behaves (if b then o else q)
  if-Behaves true o q h k = h
  if-Behaves false o q h k = k

  option-Behaves :
      {A : Type 0} (o : Option A) (f : A → Outcome P)
      → ((a : A) → Behaves (f a))
      → Behaves (elim o [ none ↦ done w | some a ↦ f a ])
  option-Behaves none f k = unchanged
  option-Behaves (some a) f k = k a

  module _ (proofs_of : SignatureProofs P) (scheme : ProofScheme P) (env : Env) where
    own_prevote-Behaves :
        (id : ViewId) (act : ScopedSignature) → Behaves (own_prevote proofs_of scheme env id act w)
    unfolding own_prevote
    own_prevote-Behaves id act =
        option-Behaves (updated_vote scheme w.state (read_view w.state id).prevote_proofs act) _
          (λ p e. Stays-Safe without_proofs w.state w'.state (
            add_prevote-StaysBy proofs_of without_proofs env
              (own_request scheme w.state (read_view w.state id).prevote_block_versions
                act.target_hash p)
              w w' y.synced y.shared e))

    own_precommit-Behaves :
        (id : ViewId) (act : ScopedSignature)
        → Behaves (own_precommit proofs_of scheme env id act w)
    unfolding own_precommit
    own_precommit-Behaves id act =
        option-Behaves (updated_vote scheme w.state (read_view w.state id).precommit_proofs act) _
          (λ p e.
            add_precommit-SafeBy proofs_of without_proofs env
              (own_request scheme w.state (read_view w.state id).precommit_block_versions
                act.target_hash p)
              w w' y.synced y.shared y.below y.small e)

    own_vote-Behaves :
        (id : ViewId) (act : StateMachineRoundAction)
        → Behaves (own_vote proofs_of scheme env id act w)
    unfolding own_vote
    own_vote-Behaves id act =
        if-Behaves (is_present act.prevote.sig) _ _
          (if-Behaves (is_present act.precommit.sig) panic _ unended
            (own_prevote-Behaves id act.prevote))
          (own_precommit-Behaves id act.precommit)

    own_vote_in-Behaves :
        (o : Option (ViewId × ViewLookupStatus)) (act : StateMachineRoundAction)
        → Behaves (own_vote_in proofs_of scheme env o act w)
    unfolding own_vote_in
    own_vote_in-Behaves none act = unended
    own_vote_in-Behaves (some (voting, st)) act = own_vote-Behaves voting act
    own_vote_in-Behaves (some (committing, st)) act = own_vote-Behaves committing act
    own_vote_in-Behaves (some (id, st)) act = unchanged

    -- An action of the state machine, a proposed header or a vote, that the kernel handles to the
    -- end from a synced state that is shared but for the precommit proofs and the previous commit's
    -- proofs of the committing view, below the last uint64 height and with less than 2^64 available
    -- power, keeps the state synced and so shared, and moves the views at most once, to the next
    -- round or to the next height. The height moves only if the new committing view shows more than
    -- two thirds of its power for the committed header.
    pub handle_state_machine_action-Safe :
        (act : StateMachineRoundAction)
        → Ends (handle_state_machine_action proofs_of scheme env act w) w'
        → SafeBy without_proofs w.state w'.state
    unfolding handle_state_machine_action
    handle_state_machine_action-Safe act =
        if-Behaves (is_present act.ph.header.hash) _ _
          (if-Behaves (is_present act.prevote.sig || is_present act.precommit.sig) panic _ unended
            (λ e.
              add_proposed_header-Safe proofs_of env act.ph w w' y.synced y.shared y.below y.small
                e))
          (if-Behaves (is_present act.prevote.sig || is_present act.precommit.sig) _ panic
            (own_vote_in-Behaves
              (find_view w.state w.state.state_machine_view_manager.round_entrance.h
                w.state.state_machine_view_manager.round_entrance.r)
              act)
            unended)
