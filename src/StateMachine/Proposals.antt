-- ===== src/StateMachine/Proposals.antt =====
-- Proposed headers (statemachine.go and tsi/consensusmanager.go): which are offered to the consensus
-- strategy, which count as new, and that the own proposal is one that the state machine would offer.
use gordian.Prelude.{
  ◌≡◌, refl, ◌∙◌, inl, inr, true, false, List, [], ◌∷◌, ◌++◌, map, Bytes, bytes_eq_iff,
  bytes_eq_refl, Option, none, some, ◌&&◌, ◌||◌, not, arith, Bool-cases,
}
use gordian.Consensus.Types.{
  Validator, ValidatorSet, validator_slices_equal, ValidatorSet_equal, ProposedHeader,
}
use gordian.Consensus.RoundView.{VersionedRoundView}
use gordian.Store.Actions.{SaveResult, saved, refused, save_proposed_header_action}
use gordian.StateMachine.Lifecycle.{RoundLifecycle, Proposal, seen, mark_new}
use gordian.StateMachine.World.{Signer, Config, RoundAction, propose, World, ok, stopped, panic}
use gordian.StateMachine.Rounds.{matches}
use gordian.StateMachine.Actions.{
  save_and_send, draft, finish_header, propose_with, record_proposed_header,
}

abbrev pub hashes_of : List ProposedHeader → List Bytes
hashes_of = map (λ ph. ph.header.hash)

-- Every hash stands in the list once.
abbrev pub AllOnce : List Bytes → Type 0
AllOnce [] = Unit {0}
AllOnce (h ∷ hs) = (seen h hs ≡ false) × AllOnce hs

seen_all :
    (x : Bytes) (phs : List ProposedHeader) (prev : List Bytes)
    → seen x (mark_new phs prev).1 ≡ (seen x prev || seen x (hashes_of phs))
unfolding mark_new
seen_all x [] prev = ground arith
seen_all x (ph ∷ phs) prev = elim (Bool-cases (seen ph.header.hash prev)) [
  | inl q ↦ ground (arith, q, bytes_eq_iff x ph.header.hash, seen_all x phs prev)
  | inr q ↦ ground (arith, q, seen_all x phs (ph.header.hash ∷ prev))
]

seen_new :
    (x : Bytes) (phs : List ProposedHeader) (prev : List Bytes)
    → seen x (mark_new phs prev).0 ≡ (not (seen x prev) && seen x (hashes_of phs))
unfolding mark_new
seen_new x [] prev = ground arith
seen_new x (ph ∷ phs) prev = elim (Bool-cases (seen ph.header.hash prev)) [
  | inl q ↦ ground (arith, q, bytes_eq_iff x ph.header.hash, seen_new x phs prev)
  | inr q ↦ ground (arith, q, bytes_eq_iff x ph.header.hash, seen_new x phs (ph.header.hash ∷ prev))
]

new_once : (phs : List ProposedHeader) (prev : List Bytes) → AllOnce (mark_new phs prev).0
unfolding mark_new
new_once [] prev = tt
new_once (ph ∷ phs) prev = elim (Bool-cases (seen ph.header.hash prev)) [
  | inl q ↦ rw q (new_once phs prev)
  | inr q ↦ ground (
    arith,
    q,
    bytes_eq_refl ph.header.hash,
    seen_new ph.header.hash phs (ph.header.hash ∷ prev),
    new_once phs (ph.header.hash ∷ prev),
  )
]

-- The hashes reported as new are those of the given headers that had not been considered, each once;
-- afterwards those that had been considered and those of the given headers have been.
pub mark_new_lem :
    (phs : List ProposedHeader) (prev : List Bytes)
    → let (new, all) = mark_new phs prev in
      AllOnce new
      × ((x : Bytes) → seen x new ≡ (not (seen x prev) && seen x (hashes_of phs)))
      × ((x : Bytes) → seen x all ≡ (seen x prev || seen x (hashes_of phs)))
mark_new_lem phs prev = (new_once phs prev, λ x. seen_new x phs prev, λ x. seen_all x phs prev)

validator_slices_equal_refl : (vs : List Validator) → validator_slices_equal vs vs ≡ true
unfolding validator_slices_equal
validator_slices_equal_refl [] = refl
validator_slices_equal_refl (v ∷ vs) =
    ground (arith, validator_slices_equal_refl vs, bytes_eq_refl v.pub_key)

ValidatorSet_equal_refl : (v : ValidatorSet) → ValidatorSet_equal v v ≡ true
unfolding ValidatorSet_equal
ValidatorSet_equal_refl v = ground (
  arith,
  bytes_eq_refl v.pub_key_hash,
  bytes_eq_refl v.vote_power_hash,
  validator_slices_equal_refl v.validators,
)

module _ {P : Type 0} (cfg : Config) where
  draft-matches :
      (signer : Signer) (rlc : RoundLifecycle P) (v : VersionedRoundView P) (p : Proposal)
      → matches rlc (draft signer rlc v p) ≡ true
  draft-matches signer rlc v p = ground (
    arith,
    bytes_eq_refl rlc.prev_fin_app_state_hash,
    ValidatorSet_equal_refl rlc.cur_val_set,
    ValidatorSet_equal_refl rlc.prev_fin_next_val_set,
  )

  -- The hash and the signature change nothing that is compared.
  finish_keeps :
      (signer : Signer) (ph ph' : ProposedHeader) (rlc : RoundLifecycle P)
      → finish_header cfg signer ph ≡ some ph'
      → (matches rlc ph' ≡ matches rlc ph)
        × (ph'.header.height ≡ ph.header.height)
        × (ph'.round ≡ ph.round)
        × (ph'.header.prev_block_hash ≡ ph.header.prev_block_hash)
        × (ph'.proposer_pub_key ≡ ph.proposer_pub_key)
  unfolding finish_header
  finish_keeps signer ph ph' rlc e = ground (arith, e)

  sent_lem :
      (a : RoundAction) (r : SaveResult) (w u : World P)
      → save_and_send a r w ≡ ok u
      → (u.outgoing_actions ≡ w.outgoing_actions ++ a ∷ []) × (u.rlc ≡ w.rlc)
  unfolding save_and_send
  sent_lem a (refused e) w u q = absurd (ground (arith, q))
  sent_lem a (saved t) w u q = ground (arith, q)

  -- What a proposal leads to, once its header is finished.
  sent_header :
      (signer : Signer) (v : VersionedRoundView P) (p : Proposal) (w u : World P)
      → propose_with cfg signer v p w ≡ ok u
      → (ph : ProposedHeader) × (finish_header cfg signer (draft signer w.rlc v p) ≡ some ph)
        × (u.outgoing_actions ≡ w.outgoing_actions ++ propose ph ∷ [])
        × (u.rlc ≡ w.rlc)
  unfolding propose_with
  sent_header signer v p w u e = go (finish_header cfg signer (draft signer w.rlc v p)) refl e
    where
      go :
          (o : Option ProposedHeader)
          → finish_header cfg signer (draft signer w.rlc v p) ≡ o
          → elim o [
            | none ↦ stopped w
            | some ph ↦ save_and_send (propose ph) (save_proposed_header_action ph w.action_store) w
          ]
            ≡ ok u
          → (ph : ProposedHeader) × (finish_header cfg signer (draft signer w.rlc v p) ≡ some ph)
            × (u.outgoing_actions ≡ w.outgoing_actions ++ propose ph ∷ [])
            × (u.rlc ≡ w.rlc)
      go none q e = absurd (ground (arith, e))
      go (some ph) q e =
          let s = sent_lem (propose ph) (save_proposed_header_action ph w.action_store) w u e in
          (ph, q, s.0, s.1)

  abbrev pub Proposes : Signer → World P → World P → Type 0
  Proposes signer w u =
      (ph : ProposedHeader) × (u.outgoing_actions ≡ w.outgoing_actions ++ propose ph ∷ [])
      × (matches u.rlc ph ≡ true)
      × (ph.header.height ≡ w.rlc.h)
      × (ph.round ≡ w.rlc.r)
      × (ph.header.prev_block_hash ≡ w.rlc.prev_block_hash)
      × (ph.proposer_pub_key ≡ signer.pub_key)

  propose_with-Proposes :
      (signer : Signer) (v : VersionedRoundView P) (p : Proposal) (w u : World P)
      → propose_with cfg signer v p w ≡ ok u
      → Proposes signer w u
  propose_with-Proposes signer v p w u e =
      let (ph, q, sent, same) = sent_header signer v p w u e in
      let k = finish_keeps signer (draft signer w.rlc v p) ph w.rlc q in
      (ph, sent, rw same (k.0 ∙ draft-matches signer w.rlc v p), k.1, k.2, k.3, k.4)

  -- A proposal of the consensus strategy that is recorded without an error is sent as one header of
  -- the own signer for the current height and round, on top of the previous block, and it passes the
  -- state machine's own test for proposed headers.
  pub record_proposed_header-Proposes :
      (signer : Signer) (p : Proposal) (w u : World P)
      → cfg.signer ≡ some signer
      → record_proposed_header cfg p w ≡ ok u
      → Proposes signer w u
  unfolding record_proposed_header
  record_proposed_header-Proposes signer p w u s e = go w.rlc.vrv e
    where
      go :
          (o : Option (VersionedRoundView P))
          → elim o [
            | none ↦ panic
            | some v ↦ elim cfg.signer [
              | none ↦ panic
              | some signer ↦ propose_with cfg signer v p w
            ]
          ]
            ≡ ok u
          → Proposes signer w u
      go none e = absurd (ground (arith, e))
      go (some v) e = propose_with-Proposes signer v p w u (ground (arith, s, e))
