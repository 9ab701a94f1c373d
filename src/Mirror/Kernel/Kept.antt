-- ===== src/Mirror/Kernel/Kept.antt =====
-- Steps of the kernel that leave heights and rounds alone, and how safe steps compose (kernel.go).
use gordian.Prelude.{
  Bool, true, false, if◌then◌else◌, ◌≡◌, sym, ap, subst, ◌∙◌, ◌⊎◌, inl, inr, some, arith,
}
use gordian.Consensus.RoundView.{VersionedRoundView}
use gordian.Mirror.Outgoing.{ViewId, not_found, voting, committing, next_round, next_height}
use gordian.Mirror.KState.{KState, mark_view_updated}
use gordian.Mirror.Lookup.{IsSynced, IsSharedBy, ViewMap, whole}
use gordian.Mirror.Rounds.{mark_voting_lem, mark_next_round_lem, mark_committing_lem}
use gordian.Mirror.Kernel.World.{World, Outcome, done, failed, panic, log_error}
use gordian.Mirror.Kernel.Votes.{read_view, write_view}
use gordian.Mirror.Kernel.Steps.{Ends, GoodStep, SameViews, GoodStep-same, GoodStep-stay, HasQuorum}

module _ {P : Type 0} where
  -- The views keep their heights, rounds and available power, and stay synced and shared.
  pub record Kept (f : ViewMap P) (s t : KState P) : Type 0 where
    pub synced : IsSynced t
    pub shared : IsSharedBy f t
    pub same_height : t.voting.height ≡ s.voting.height
    pub same_round : t.voting.round ≡ s.voting.round
    pub same_committing : t.committing.height ≡ s.committing.height
    pub same_power : t.voting.vote_summary.available_power ≡ s.voting.vote_summary.available_power

  -- Writing a view of the same height, round, validators and power, and marking it, keeps all.
  pub marked-Kept :
      (f : ViewMap P)
      → (s : KState P) (id : ViewId) (v : VersionedRoundView P) (t : KState P) → IsSynced s
      → IsSharedBy f s
      → v.height ≡ (read_view s id).height
      → v.round ≡ (read_view s id).round
      → v.validator_set ≡ (read_view s id).validator_set
      → v.vote_summary.available_power ≡ (read_view s id).vote_summary.available_power
      → mark_view_updated (write_view s id v) id ≡ some t
      → Kept f s t
  unfolding mark_view_updated
  marked-Kept f s voting v t y g h r vs p e =
      ground (arith, mark_voting_lem (write_view s voting v), e)
  marked-Kept f s committing v t y g h r vs p e =
      ground (arith, mark_committing_lem (write_view s committing v), e)
  marked-Kept f s next_round v t y g h r vs p e =
      ground (arith, mark_next_round_lem (write_view s next_round v), e)
  marked-Kept f s not_found v t y g h r vs p e = absurd (ground (arith, e))
  marked-Kept f s next_height v t y g h r vs p e = absurd (ground (arith, e))

  -- A step after the views were kept.
  pub Kept-GoodStep :
      (f : ViewMap P) → (s t u : KState P) → Kept f s t → GoodStep f t u → GoodStep f s u
  Kept-GoodStep f s t u k g = record {
    synced = g.synced;
    shared = g.shared;
    moved = ground (arith, k, g.moved);
  }

  -- What a handler achieves from `s`: a good step, whose height moves by a commit only.
  abbrev pub SafeBy : ViewMap P → KState P → KState P → Type 0
  SafeBy f s t = GoodStep f s t × ((t.voting.height ≡ s.voting.height) ⊎ HasQuorum t)

  -- A good step at the same height.
  abbrev pub StaysBy : ViewMap P → KState P → KState P → Type 0
  StaysBy f s t = GoodStep f s t × (t.voting.height ≡ s.voting.height)

  abbrev pub Safe : KState P → KState P → Type 0
  Safe s t = SafeBy whole s t

  abbrev pub Stays : KState P → KState P → Type 0
  Stays s t = StaysBy whole s t

  pub Stays-refl :
      (f : ViewMap P) → (s t : KState P) → IsSynced s → IsSharedBy f s → t ≡ s → StaysBy f s t
  Stays-refl f s t y g q =
      (subst (GoodStep f s) (sym q) (GoodStep-stay f s y g), ap (λ u. u.voting.height) q)

  pub Stays-Safe : (f : ViewMap P) → (s t : KState P) → StaysBy f s t → SafeBy f s t
  Stays-Safe f s t r = (r.0, inl r.1)

  pub Stays-Kept : (f : ViewMap P) → (s t u : KState P) → Kept f s t → StaysBy f t u → StaysBy f s u
  Stays-Kept f s t u k r = (Kept-GoodStep f s t u k r.0, r.1 ∙ k.same_height)

  pub Safe-Kept : (f : ViewMap P) → (s t u : KState P) → Kept f s t → SafeBy f t u → SafeBy f s u
  Safe-Kept f s t u k r =
      (Kept-GoodStep f s t u k r.0, elim r.1 [ inl e ↦ inl (e ∙ k.same_height) | inr q ↦ inr q ])

  -- Fetching after a jump.
  pub Stays-jump :
      (f : ViewMap P)
      → (s t u : KState P) → GoodStep f s t
      → t.voting.height ≡ s.voting.height
      → SameViews t u
      → StaysBy f s u
  Stays-jump f s t u g h v =
      (GoodStep-same f s t u g v, ap (λ (x : VersionedRoundView P). x.height) v.same_voting ∙ h)

  pub Kept-same :
      (f : ViewMap P) → (s t : KState P) → IsSynced s → IsSharedBy f s → SameViews s t → Kept f s t
  Kept-same f s t y g v =
      let n = GoodStep-same f s s t (GoodStep-stay f s y g) v in
      record {
        synced = n.synced;
        shared = n.shared;
        same_height = ground (arith, v);
        same_round = ground (arith, v);
        same_committing = ground (arith, v);
        same_power = ground (arith, v);
      }

  pub Kept-trans : (f : ViewMap P) → (s t u : KState P) → Kept f s t → Kept f t u → Kept f s u
  Kept-trans f s t u h k = record {
    synced = k.synced;
    shared = k.shared;
    same_height = k.same_height ∙ h.same_height;
    same_round = k.same_round ∙ h.same_round;
    same_committing = k.same_committing ∙ h.same_committing;
    same_power = k.same_power ∙ h.same_power;
  }

  pub log_error-Ends : (o : Outcome P) (w : World P) → Ends (log_error o) w → Ends o w
  log_error-Ends (done v) w e = ground (arith, e)
  log_error-Ends (failed v) w e = ground (arith, e)
  log_error-Ends panic w e = absurd (ground (arith, e))

  pub unless_panic-Ends :
      (b : Bool) (o : Outcome P) (w : World P) → Ends (if b then panic else o) w → Ends o w
  unless_panic-Ends true o w e = absurd (ground (arith, e))
  unless_panic-Ends false o w e = e
