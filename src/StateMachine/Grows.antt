-- ===== src/StateMachine/Grows.antt =====
-- What one event does to the height and the stored finalizations (statemachine.go): the predicates,
-- and the lemmas that join them.
use gordian.Prelude.{ℕ, ◌+◌, ◌≡◌, ◌⊎◌, inl, inr, Bool, true, [], u64, has, nat_eq, arith}
use gordian.StateMachine.World.{World, Outcome, ok, stopped, panic, hung}
use gordian.StateMachine.Frame.{Frame}
use gordian.StateMachine.Outcomes.{Holds, Holds-weaken}

module _ {P : Type 0} where
  abbrev pub finalized : ℕ → World P → Bool
  finalized k w = has k w.finalization_store

  -- A finalization that the lifecycle holds is stored under its height.
  abbrev pub IsRecorded : World P → Type 0
  IsRecorded w = (w.rlc.finalized_val_set.validators ≡ []) ⊎ (finalized w.rlc.h w ≡ true)

  -- One event: the finalizations stay, and the height stays or was finalized and is left for the
  -- next.
  pub record Grows (w w' : World P) : Type 0 where
    pub recorded : IsRecorded w'
    pub kept : (k : ℕ) → finalized k w ≡ true → finalized k w' ≡ true
    pub moved :
        (w'.rlc.h ≡ w.rlc.h) ⊎ ((w'.rlc.h ≡ u64 (w.rlc.h + 1)) × (finalized w.rlc.h w' ≡ true))

  -- The height and what is finalized are as before.
  pub record SameHeight (w w' : World P) : Type 0 where
    pub same_h : w'.rlc.h ≡ w.rlc.h
    pub same_finalized : w'.rlc.finalized_val_set ≡ w.rlc.finalized_val_set
    pub same_store : w'.finalization_store ≡ w.finalization_store

  pub SameHeight-Grows : (w v : World P) → IsRecorded w → SameHeight w v → Grows w v
  SameHeight-Grows w v y f = record {
    recorded = ground (arith, y, f);
    kept = λ k h. ground (arith, f, h);
    moved = inl f.same_h;
  }

  pub Frame-SameHeight : (w v : World P) → Frame w v → SameHeight w v
  Frame-SameHeight w v f = ground arith

  pub from_Frame :
      (w : World P) (o : Outcome P) → IsRecorded w → Holds (Frame w) o → Holds (Grows w) o
  from_Frame w o y h =
      Holds-weaken (Frame w) (Grows w) o (λ v f. SameHeight-Grows w v y (Frame-SameHeight w v f)) h

  pub from_same :
      (w : World P) (o : Outcome P) → IsRecorded w → Holds (SameHeight w) o → Holds (Grows w) o
  from_same w o y h = Holds-weaken (SameHeight w) (Grows w) o (λ v f. SameHeight-Grows w v y f) h

  -- The lifecycle right after a height was left.
  pub record Left (w v : World P) : Type 0 where
    pub next_h : v.rlc.h ≡ u64 (w.rlc.h + 1)
    pub no_finalization : v.rlc.finalized_val_set.validators ≡ []
    pub store : v.finalization_store ≡ w.finalization_store

  pub Left-Grows : (w v u : World P) → finalized w.rlc.h w ≡ true → Left w v → Frame v u → Grows w u
  Left-Grows w v u y l f = record {
    recorded = inl (ground (arith, l, f));
    kept = λ k h. ground (arith, l, f, h);
    moved = inr (ground (arith, l, f), ground (arith, l, f, y));
  }

  -- What a handler that reports true achieves.
  abbrev pub After : (World P → Type 0) → Outcome P → Type 0
  After Q (ok w) = Q w
  After Q (stopped w) = Unit
  After Q panic = Unit
  After Q hung = Unit

  pub Holds-After : (Q : World P → Type 0) (o : Outcome P) → Holds Q o → After Q o
  Holds-After Q (ok w) h = h
  Holds-After Q (stopped w) h = tt
  Holds-After Q panic h = tt
  Holds-After Q hung h = tt

  pub same_then : (w v u : World P) → SameHeight w v → Grows v u → Grows w u
  same_then w v u f g = record {
    recorded = g.recorded;
    kept = λ k h. g.kept k (ground (arith, f, h));
    moved = ground (arith, f, g.moved);
  }
