-- ===== src/Mirror/Kernel/Steps.antt =====
-- One step of the kernel (kernel.go): where the views stand after a shift of the views.
use gordian.Prelude.{
  ◌+◌, ◌*◌, ◌<◌, ◌≡◌, ◌≢◌, refl, sym, ap, subst, ◌∙◌, ◌⊎◌, inl, inr, [], bytes_key, get_or, some,
  u32, arith,
}
use gordian.Mirror.KState.{KState, advance_voting_round, jump_voting_round}
use gordian.Mirror.Lookup.{IsSynced, IsSharedBy, ViewMap}
use gordian.Mirror.Rounds.{next_voting_round_by}
use gordian.Mirror.Kernel.World.{Env, World, Outcome, done, failed, panic, ◌>>◌, with_state}
use gordian.Mirror.Kernel.Shift.{
  find_header, update_observers, advance, jump, save_current_committing_header,
}

module _ {P : Type 0} where
  -- The handler comes to an end in a world, with or without an error.
  abbrev pub Ends : Outcome P → World P → Type 0
  Ends o w = (o ≡ done w) ⊎ (o ≡ failed w)

  -- The views stay, or voting moves to the next round, or the voting height is committed.
  abbrev pub Moved : KState P → KState P → Type 0
  Moved s t =
      ((t.voting.height ≡ s.voting.height)
        × ((t.voting.round ≡ s.voting.round) ⊎ (t.voting.round ≡ u32 (s.voting.round + 1)))
        × (t.committing.height ≡ s.committing.height))
      ⊎ ((t.voting.height ≡ s.voting.height + 1)
          × (t.voting.round ≡ 0)
          × (t.committing.height ≡ s.voting.height))

  -- A step keeps the state synced and shared and moves the views at most once.
  pub record GoodStep (f : ViewMap P) (s t : KState P) : Type 0 where
    pub synced : IsSynced t
    pub shared : IsSharedBy f t
    pub moved : Moved s t

  -- The views and their managers are left alone.
  pub record SameViews (s t : KState P) : Type 0 where
    pub same_committing : t.committing ≡ s.committing
    pub same_voting : t.voting ≡ s.voting
    pub same_next_round : t.next_round ≡ s.next_round
    pub same_gossip : t.gossip_view_manager ≡ s.gossip_view_manager
    pub same_sharing : t.prev_commit_proof_shared ≡ s.prev_commit_proof_shared
    pub same_manager : t.state_machine_view_manager ≡ s.state_machine_view_manager

  pub SameViews-refl : (s : KState P) → SameViews s s
  SameViews-refl s = ground arith

  pub SameViews-trans : (s t u : KState P) → SameViews s t → SameViews t u → SameViews s u
  SameViews-trans s t u h k = ground arith

  pub GoodStep-same :
      (f : ViewMap P) → (s t u : KState P) → GoodStep f s t → SameViews t u → GoodStep f s u
  GoodStep-same f s t u g v = record {
    synced = ground (arith, g.synced, v);
    shared = ground (arith, g.shared, v);
    moved = ground (arith, g.moved, v);
  }

  pub GoodStep-stay :
      (f : ViewMap P) → (s : KState P) → IsSynced s → IsSharedBy f s → GoodStep f s s
  GoodStep-stay f s w g = record { synced = w; shared = g; moved = ground arith }

  pub update_observers_lem :
      (env : Env) (w w' : World P) → Ends (update_observers env w) w' → w'.state ≡ w.state
  unfolding update_observers
  update_observers_lem env w w' e = ground arith

  pub advance_lem :
      (env : Env) (w w' : World P)
      → Ends (advance env w) w'
      → w'.state ≡ advance_voting_round w.state
  unfolding advance
  advance_lem env w w' e =
      update_observers_lem env (with_state w (advance_voting_round w.state)) w' e

  pub jump_state :
      (env : Env) (w w' : World P) → Ends (jump env w) w' → w'.state ≡ jump_voting_round w.state
  unfolding jump
  jump_state env w w' e = update_observers_lem env (with_state w (jump_voting_round w.state)) w' e

  pub advance-GoodStep :
      (f : ViewMap P)
      → (env : Env) (w w' : World P) → IsSynced w.state
      → IsSharedBy f w.state
      → Ends (advance env w) w'
      → GoodStep f w.state w'.state
  advance-GoodStep f env w w' y g e =
      let n = next_voting_round_by f w.state y g in
      subst (GoodStep f w.state) (sym (advance_lem env w w' e))
        (record { synced = n.0; shared = n.1; moved = ground (arith, n) })

  pub advance_height :
      (f : ViewMap P)
      → (env : Env) (w w' : World P) → IsSynced w.state
      → IsSharedBy f w.state
      → Ends (advance env w) w'
      → w'.state.voting.height ≡ w.state.voting.height
  advance_height f env w w' y g e =
      ap (λ s. s.voting.height) (advance_lem env w w' e) ∙ (next_voting_round_by f w.state y g).3

  pub jump_height :
      (f : ViewMap P)
      → (env : Env) (w w' : World P) → IsSynced w.state
      → IsSharedBy f w.state
      → Ends (jump env w) w'
      → w'.state.voting.height ≡ w.state.voting.height
  jump_height f env w w' y g e =
      let n = next_voting_round_by f w.state y g in
      ap (λ s. s.voting.height) (jump_state env w w' e) ∙ (ap (λ v. v.height) n.8 ∙ n.3)

  pub jump-GoodStep :
      (f : ViewMap P)
      → (env : Env) (w w' : World P) → IsSynced w.state
      → IsSharedBy f w.state
      → Ends (jump env w) w'
      → GoodStep f w.state w'.state
  jump-GoodStep f env w w' y g e =
      let n = next_voting_round_by f w.state y g in
      subst (GoodStep f w.state) (sym (jump_state env w w' e))
        (record { synced = n.6; shared = n.7; moved = ground (arith, n) })

  -- A chain that ends: the first handler fails, or it is done and the second ends.
  pub >>_Ends :
      (f g : World P → Outcome P) (w w' : World P)
      → Ends ((f >> g) w) w'
      → (f w ≡ failed w') ⊎ ((v : World P) × (f w ≡ done v) × Ends (g v) w')
  >>_Ends f g w w' e = go (f w) refl e
    where
      go :
          (o : Outcome P)
          → f w ≡ o
          → Ends (elim o [ done v ↦ g v | failed v ↦ failed v | panic ↦ panic ]) w'
          → (f w ≡ failed w') ⊎ ((v : World P) × (f w ≡ done v) × Ends (g v) w')
      go (done v) q k = inr (v, q, k)
      go (failed v) q k = inl (q ∙ ground arith)
      go panic q k = absurd (ground arith)

  save_committing_lem :
      (env : Env) (w w' : World P)
      → Ends (save_current_committing_header env w) w'
      → w'.state ≡ w.state
  unfolding save_current_committing_header
  save_committing_lem env w w' e = ground arith

  pub finish_commit_lem :
      (env : Env) (w w' : World P)
      → Ends ((save_current_committing_header env >> update_observers env) w) w'
      → w'.state ≡ w.state
  finish_commit_lem env w w' e =
      elim (>>_Ends (save_current_committing_header env) (update_observers env) w w' e) [
        | inl q ↦ save_committing_lem env w w' (inr q)
        | inr (v, q, k) ↦ update_observers_lem env v w' k ∙ save_committing_lem env w v (inl q)
      ]

  -- The committing view of a commit: its most voted hash is not nil, has more than two thirds of
  -- the available power among the precommits, and is the hash of a proposed header of the view,
  -- the first of which is the committing header.
  abbrev pub HasQuorum : KState P → Type 0
  HasQuorum t =
      let vs = t.committing.vote_summary in
      let hash = vs.most_voted_precommit_hash in
      (2 * vs.available_power < 3 * get_or vs.precommit_block_power hash 0)
      × (hash ≢ [])
      × (find_header hash t.committing.proposed_headers ≡ some t.committing_header)
