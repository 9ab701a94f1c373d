-- ===== src/Mirror/Lookup.antt =====
-- The well-formed kernel states, and what `FindView` finds in them (kstate.go).
use gordian.Prelude.{
  ℕ, ◌+◌, ◌^◌, ◌<◌, ◌≡◌, ◌≢◌, ◌↔◌, ◌⊎◌, inl, inr, refl, sym, Bool, true, false, [], none, some, u32,
  arith,
}
use gordian.Consensus.RoundView.{VersionedRoundView}
use gordian.Consensus.VoteSummary.{sum_powers}
use gordian.Mirror.Outgoing.{ViewId, not_found, voting, committing, next_round, next_height}
use gordian.Mirror.StateMachineView.{closed_signal}
use gordian.Mirror.KState.{KState, found, find_view, clear_shared}

-- What a comparison of two views looks at.
abbrev pub ViewMap : Type 0 → Type 0
ViewMap P = VersionedRoundView P → VersionedRoundView P

module _ {P : Type 0} where
  -- How the three views stand to one another: the next round follows the voting round at the same
  -- height and with the same validators, the committing height lies below, and the available power
  -- is that of the validators. A closed signal belongs to a height below the committing one.
  pub record IsSynced (s : KState P) : Type 0 where
    pub same_height : s.next_round.height ≡ s.voting.height
    pub next_follows : s.next_round.round ≡ u32 (s.voting.round + 1)
    pub above : s.committing.height < s.voting.height
    pub rounds_fit : s.voting.round < 2 ^ 32
    pub heights_fit : s.voting.height < 2 ^ 64
    pub same_validators : s.next_round.validator_set ≡ s.voting.validator_set
    pub voting_power :
        s.voting.vote_summary.available_power ≡ sum_powers 0 s.voting.validator_set.validators
    pub next_power :
        s.next_round.vote_summary.available_power ≡ sum_powers 0 s.voting.validator_set.validators
    pub closed_once :
        (s.state_machine_view_manager.round_entrance.height_committed ≢ closed_signal)
        ⊎ (s.state_machine_view_manager.round_entrance.h < s.committing.height)

  -- A comparison that does not look at the proofs of the previous commit.
  pub record ForgetsPrevCommit (f : ViewMap P) : Type 0 where
    pub forgets : (v : VersionedRoundView P) → f (clear_shared true v) ≡ f v

  -- The voting view and the next round share no map, or the comparison does not see it.
  abbrev pub Separate : ViewMap P → KState P → Type 0
  Separate f s = (s.prev_commit_proof_shared ≡ false) ⊎ ForgetsPrevCommit f

  -- The gossip manager holds the latest of each view, of the committing one as far as `f` shows it.
  pub record IsSharedBy (f : ViewMap P) (s : KState P) : Type 0 where
    pub committing_shared : f s.gossip_view_manager.committing.vrv ≡ f s.committing
    pub voting_shared : s.gossip_view_manager.voting.vrv ≡ s.voting
    pub next_round_shared : s.gossip_view_manager.next_round.vrv ≡ s.next_round
    pub separate : Separate f s

  abbrev pub whole : ViewMap P
  whole v = v

  -- A view but for its precommit proofs and the proofs of the previous commit, which the program can
  -- change in place without marking the view.
  abbrev pub without_proofs : ViewMap P
  without_proofs v = record v {
    round_view = record (v.round_view) {
      precommit_proofs = [];
      prev_commit_proof = record (v.prev_commit_proof) { proofs = [] };
    };
  }

  -- The gossip manager holds the latest of each view, and no two views share a map.
  abbrev pub IsShared : KState P → Type 0
  IsShared s = IsSharedBy whole s

  pub without_proofs-Separate : (s : KState P) → Separate without_proofs s
  unfolding clear_shared
  without_proofs-Separate s = inr (record { forgets = λ v. refl })

  pub clear_shared-same :
      (f : ViewMap P) (s : KState P) (v : VersionedRoundView P)
      → Separate f s
      → f v ≡ f (clear_shared s.prev_commit_proof_shared v)
  unfolding clear_shared
  clear_shared-same f s v (inl q) = ground (arith, q)
  clear_shared-same f s v (inr k) = go s.prev_commit_proof_shared
    where
      go : (b : Bool) → f v ≡ f (clear_shared b v)
      go true = sym (k.forgets v)
      go false = refl

  -- The view that an identifier names stands for a height and a round.
  abbrev pub Stands : KState P → ViewId → ℕ → ℕ → Type 0
  Stands s voting h r = (s.voting.height ≡ h) × (s.voting.round ≡ r)
  Stands s committing h r = (s.committing.height ≡ h) × (s.committing.round ≡ r)
  Stands s next_round h r = (s.next_round.height ≡ h) × (s.next_round.round ≡ r)
  Stands s not_found h r = ⊥
  Stands s next_height h r = ⊥

  -- In a synced state `FindView` finds a view exactly when that view stands for the height and the
  -- round asked for.
  pub find_view_iff :
      (s : KState P) (h r : ℕ) (id : ViewId)
      → IsSynced s
      → (find_view s h r ≡ some (id, found)) ↔ Stands s id h r
  unfolding find_view
  find_view_iff s h r voting w = ground arith
  find_view_iff s h r committing w = ground arith
  find_view_iff s h r next_round w = ground arith
  find_view_iff s h r not_found w = ground arith
  find_view_iff s h r next_height w = ground arith

  -- In a synced state `FindView` panics exactly on a later round of the committing height and on a
  -- height strictly between the committing and the voting height.
  pub find_view_panics_iff :
      (s : KState P) (h r : ℕ)
      → IsSynced s
      → (find_view s h r ≡ none) ↔ (
          ((h ≡ s.committing.height) × (s.committing.round < r))
          ⊎ ((s.committing.height < h) × (h < s.voting.height)))
  unfolding find_view
  find_view_panics_iff s h r w = ground arith
