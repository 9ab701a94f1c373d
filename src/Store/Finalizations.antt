-- ===== src/Store/Finalizations.antt =====
-- tm/tmstore/tmmemstore/finalizationstore.go: what the application made of each height.
use gordian.Prelude.{
  ℕ, ◌≡◌, refl, ap, ◌∙◌, inl, inr, List, [], ◌∷◌, Bytes, Map, lookup, insert, lookup-insert, nat_eq,
  Option, none, some, ◌==◌, if◌then◌else◌, arith, Option-cases,
}
use gordian.Consensus.Types.{ValidatorSet}

-- `fin`.
pub record Finalization : Type 0 where
  pub h : ℕ  -- uint64
  pub r : ℕ  -- uint32
  pub block_hash : Bytes
  pub val_set : ValidatorSet
  pub app_state_hash : Bytes

abbrev pub FinalizationStore : Type 0
FinalizationStore = Map ℕ Finalization

-- `none` is the FinalizationOverwriteError.
unfoldable pub save_finalization : Finalization → FinalizationStore → Option FinalizationStore
save_finalization f s = elim (lookup f.h s) [ some old ↦ none | none ↦ some (insert f.h f s) ]

-- `none` is the HeightUnknownError.
unfoldable pub load_finalization_by_height : ℕ → FinalizationStore → Option Finalization
load_finalization_by_height h s = lookup h s

-- The store after a call, refused or not.
abbrev pub after_save : FinalizationStore → Option FinalizationStore → FinalizationStore
after_save s none = s
after_save s (some t) = t

unfoldable pub save_finalizations : List Finalization → FinalizationStore → FinalizationStore
save_finalizations [] s = s
save_finalizations (f ∷ fs) s = save_finalizations fs (after_save s (save_finalization f s))

-- The first finalization of a height, the recorded one before those of the list.
abbrev pub first_of : ℕ → List Finalization → Option Finalization → Option Finalization
first_of h fs (some f) = some f
first_of h [] none = none
first_of h (f ∷ fs) none = first_of h fs (if f.h == h then some f else none)

lookup-save :
    (h : ℕ) (f : Finalization) (s : FinalizationStore)
    → lookup h (after_save s (save_finalization f s))
      ≡ elim (lookup h s) [ some g ↦ some g | none ↦ if f.h == h then some f else none ]
unfolding save_finalization
lookup-save h f s = elim (Option-cases (lookup f.h s)) [
  | inl e ↦ ground (arith, e, lookup-insert f.h h f s)
  | inr (old, e) ↦ ground (arith, e)
]

save_finalization_lem :
    (h : ℕ) (f : Finalization) (fs : List Finalization) (s : FinalizationStore)
    → first_of h fs (lookup h (after_save s (save_finalization f s)))
      ≡ first_of h (f ∷ fs) (lookup h s)
save_finalization_lem h f fs s = ap (first_of h fs) (lookup-save h f s) ∙ go (lookup h s)
  where
    go :
        (o : Option Finalization)
        → first_of h fs (elim o [ some g ↦ some g | none ↦ if f.h == h then some f else none ])
          ≡ first_of h (f ∷ fs) o
    go none = refl
    go (some g) = ground arith

-- Whatever finalizations are saved, in any order, the store gives for every height the first one
-- saved for that height; later ones for the height are refused and change nothing.
pub load-save_finalizations :
    (h : ℕ) (fs : List Finalization) (s : FinalizationStore)
    → load_finalization_by_height h (save_finalizations fs s) ≡ first_of h fs (lookup h s)
unfolding save_finalizations load_finalization_by_height
load-save_finalizations h [] s = ground arith
load-save_finalizations h (f ∷ fs) s =
    load-save_finalizations h fs (after_save s (save_finalization f s))
    ∙ save_finalization_lem h f fs s
