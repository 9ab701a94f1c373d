-- ===== src/TxBuffer/Sifts.antt =====
-- How a rebase sifts the transactions (gdriver/gtxbuf/workingstate.go).
use gordian.Prelude.{
  ◌≡◌, ◌↔◌, refl, sym, ap, subst, ◌∙◌, ◌⊎◌, inl, inr, Bool, true, false, List, [], ◌∷◌, ◌++◌, some,
  if◌then◌else◌, arith, Bool-cases,
}
use mathlib.Core.List.{append-nil, append_assoc}
use gordian.TxBuffer.WorkingState.{
  AddResult, added, invalid, failed, Loop, delete_func, rebase_loop, delete_some,
}
use gordian.TxBuffer.Current.{apply_all}

module _ {T : Type 0} where
  abbrev pub Elem : T → List T → Type 0
  Elem x [] = ⊥
  Elem x (y ∷ ys) = (x ≡ y) ⊎ Elem x ys

  abbrev pub NoRepeat : List T → Type 0
  NoRepeat [] = Unit {0}
  NoRepeat (x ∷ xs) = ¬ (Elem x xs) × NoRepeat xs

  delete_func-Elem : (p : T → Bool) (x : T) (ts : List T) → Elem x (delete_func p ts) → Elem x ts
  unfolding delete_func
  delete_func-Elem p x [] i = i
  delete_func-Elem p x (t ∷ ts) i = go (p t) (λ j. delete_func-Elem p x ts j) i
    where
      go :
          (b : Bool)
          → (Elem x (delete_func p ts) → Elem x ts)
          → Elem x (if b then delete_func p ts else t ∷ delete_func p ts)
          → Elem x (t ∷ ts)
      go true ih i = inr (ih i)
      go false ih (inl q) = inl q
      go false ih (inr i) = inr (ih i)

  delete_func-NoRepeat : (p : T → Bool) (ts : List T) → NoRepeat ts → NoRepeat (delete_func p ts)
  unfolding delete_func
  delete_func-NoRepeat p [] n = n
  delete_func-NoRepeat p (t ∷ ts) n =
      go (p t) (λ i. n.0 (delete_func-Elem p t ts i)) (delete_func-NoRepeat p ts n.1)
    where
      go :
          (b : Bool)
          → ¬ (Elem t (delete_func p ts))
          → NoRepeat (delete_func p ts)
          → NoRepeat (if b then delete_func p ts else t ∷ delete_func p ts)
      go true out ih = ih
      go false out ih = (out, ih)

  pub delete_some-NoRepeat :
      (deleter : List T → T → Bool) (rej ts : List T)
      → NoRepeat ts
      → NoRepeat (delete_some deleter rej ts)
  delete_some-NoRepeat deleter [] ts n = n
  delete_some-NoRepeat deleter (r ∷ rs) ts n = delete_func-NoRepeat (deleter (r ∷ rs)) ts n

module _ {S T : Type 0} (add_tx : S → T → AddResult S) where
  -- From `s` the transactions sift into those kept, which lead to `u`, and those dropped.
  pub data Sifts : S → List T → S → List T → List T → Type 0 where
    end : {s : S} → Sifts s [] s [] []
    keep :
        {s s' u : S} {t : T} {ts ks ds : List T}
        → add_tx s t ≡ added s'
        → Sifts s' ts u ks ds
        → Sifts s (t ∷ ts) u (t ∷ ks) ds
    drop :
        {s u : S} {t : T} {ts ks ds : List T}
        → add_tx s t ≡ invalid
        → Sifts s ts u ks ds
        → Sifts s (t ∷ ts) u ks (t ∷ ds)

  pub Sifts-apply_all :
      {s u : S} {ts ks ds : List T} → Sifts s ts u ks ds → apply_all add_tx s ks ≡ some u
  unfolding apply_all
  Sifts-apply_all end = refl
  Sifts-apply_all (keep e r) = ground (arith, e, Sifts-apply_all r)
  Sifts-apply_all (drop e r) = Sifts-apply_all r

  Sifts-dropped : {s u : S} {ts ks ds : List T} (x : T) → Sifts s ts u ks ds → Elem x ds → Elem x ts
  Sifts-dropped x end i = i
  Sifts-dropped x (keep e r) i = inr (Sifts-dropped x r i)
  Sifts-dropped x (drop e r) (inl q) = inl q
  Sifts-dropped x (drop e r) (inr i) = inr (Sifts-dropped x r i)

  -- Deleting what was dropped leaves what was kept, when no transaction comes twice.
  pub Sifts-delete :
      {s u : S} {ts ks ds : List T} (p : T → Bool)
      → Sifts s ts u ks ds
      → NoRepeat ts
      → ((x : T) → Elem x ts → (p x ≡ true) ↔ Elem x ds)
      → delete_func p ts ≡ ks
  unfolding delete_func
  Sifts-delete p end n h = refl
  Sifts-delete p (keep {t = t} {ts = ts} {ks = ks} e r) n h =
      let rest = Sifts-delete p r n.1 (λ x i. h x (inr i)) in
      elim (Bool-cases (p t)) [
        | inl q ↦ absurd (n.0 (Sifts-dropped t r ((h t (inl refl)).0 q)))
        | inr q ↦
            ap (λ b. if b then delete_func p ts else t ∷ delete_func p ts) q ∙ ap (λ l. t ∷ l) rest
      ]
  Sifts-delete p (drop {t = t} {ts = ts} {ds = ds} e r) n h =
      ap (λ b. if b then delete_func p ts else t ∷ delete_func p ts) ((h t (inl refl)).1 (inl refl))
      ∙ Sifts-delete p r n.1
          (λ x i. ((λ q. other x i ((h x (inr i)).0 q)), (λ d. (h x (inr i)).1 (inr d))))
    where
      other : (x : T) → Elem x ts → (x ≡ t) ⊎ Elem x ds → Elem x ds
      other x i (inl q) = absurd (n.0 (subst (λ y. Elem y ts) q i))
      other x i (inr d) = d

  -- What the loop computes when it does not fail.
  pub loop-Sifts :
      (ts : List T) (l : Loop S T)
      → (rebase_loop add_tx ts l).is_failed ≡ false
      → let l' = rebase_loop add_tx ts l in
        (ks : List T) × (ds : List T) × Sifts l.cur_state ts l'.cur_state ks ds
        × (l'.invalid_txs ≡ l.invalid_txs ++ ds)
        × ((l'.is_updated ≡ true) ⊎ ((l'.is_updated ≡ l.is_updated) × (l'.cur_state ≡ l.cur_state)))
  unfolding rebase_loop
  loop-Sifts [] l f = ([], [], end, sym (append-nil l.invalid_txs), inr (refl, refl))
  loop-Sifts (t ∷ ts) l f = go (add_tx l.cur_state t) refl f (λ l' f'. loop-Sifts ts l' f')
    where
      Result : Loop S T → List T → Loop S T → Type 0
      Result l ts l' =
          (ks : List T) × (ds : List T) × Sifts l.cur_state ts l'.cur_state ks ds
          × (l'.invalid_txs ≡ l.invalid_txs ++ ds)
          × ((l'.is_updated ≡ true)
              ⊎ ((l'.is_updated ≡ l.is_updated) × (l'.cur_state ≡ l.cur_state)))

      go :
          (a : AddResult S)
          → add_tx l.cur_state t ≡ a
          → let l' = elim a as (λ _. Loop S T) [
            | added s ↦ rebase_loop add_tx ts (record l { cur_state = s; is_updated = true })
            | invalid ↦ rebase_loop add_tx ts (record l { invalid_txs = l.invalid_txs ++ t ∷ [] })
            | failed ↦ record l { is_failed = true }
          ] in
            l'.is_failed ≡ false
            → ((k : Loop S T)
                → (rebase_loop add_tx ts k).is_failed ≡ false
                → Result k ts (rebase_loop add_tx ts k))
            → Result l (t ∷ ts) l'
      go (added s) e f ih =
          let (ks, ds, r, i, u) = ih (record l { cur_state = s; is_updated = true }) f in
          (t ∷ ks, ds, keep e r, i, inl (elim u [ inl q ↦ q | inr q ↦ q.0 ]))
      go invalid e f ih =
          let (ks, ds, r, i, u) = ih (record l { invalid_txs = l.invalid_txs ++ t ∷ [] }) f in
          (ks, t ∷ ds, drop e r, i ∙ append_assoc l.invalid_txs (t ∷ []) ds, u)
      go failed e f ih = absurd (ground (arith, f))
