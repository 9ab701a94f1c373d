-- ===== src/TxBuffer/Rebase.antt =====
-- What a rebase leaves in the buffer (gdriver/gtxbuf/workingstate.go).
use gordian.Prelude.{
  ◌≡◌, ◌↔◌, refl, sym, ap, subst, ◌∙◌, ◌⊎◌, inl, inr, Bool, true, false, List, [], ◌∷◌, some,
  if◌then◌else◌, arith, Bool-cases,
}
use gordian.TxBuffer.WorkingState.{
  AddResult, WorkingState, invalidated, Loop, delete_func, current, rebase_loop, delete_some,
  finish_rebase, rebase,
}
use gordian.TxBuffer.Current.{apply_all, IsCurrent}
use gordian.TxBuffer.Sifts.{
  Elem, NoRepeat, delete_some-NoRepeat, Sifts, Sifts-apply_all, Sifts-delete, loop-Sifts,
}

module _ {S T : Type 0} (add_tx : S → T → AddResult S) (tx_deleter : List T → T → Bool) where
  -- The deleter reports exactly the transactions that it is given.
  abbrev pub Deletes : Type 0
  Deletes = (rej : List T) (t : T) → (tx_deleter rej t ≡ true) ↔ Elem t rej

  kept_by_delete :
      Deletes
      → {s u : S} {ts ks ds : List T} → Sifts add_tx s ts u ks ds
      → NoRepeat ts
      → delete_some tx_deleter ds ts ≡ ks
  unfolding delete_func
  kept_by_delete spec {ts = ts} {ds = []} r n =
      sym (delete_none ts) ∙ Sifts-delete add_tx (λ t. false) r n (λ x i. ground arith)
    where
      delete_none : (ts : List T) → delete_func (λ t. false) ts ≡ ts
      delete_none [] = refl
      delete_none (t ∷ ts) = ap (λ l. t ∷ l) (delete_none ts)
  kept_by_delete spec {ds = d ∷ ds} r n =
      Sifts-delete add_tx (tx_deleter (d ∷ ds)) r n (λ x i. spec (d ∷ ds) x)

  abbrev start : S → Loop S T
  start base = record { cur_state = base; is_updated = false; invalid_txs = []; is_failed = false }

  abbrev rebased : S → List T → Loop S T → WorkingState S T
  rebased base txs l = record {
    base_state = base;
    cur_state = l.cur_state;
    is_updated = l.is_updated;
    txs = delete_some tx_deleter l.invalid_txs txs;
  }

  current_lem :
      (base : S) (txs : List T) (l : Loop S T)
      → (l.is_updated ≡ true) ⊎ ((l.is_updated ≡ false) × (l.cur_state ≡ base))
      → current (rebased base txs l) ≡ l.cur_state
  current_lem base txs l (inl u) = ap (λ b. if b then l.cur_state else base) u
  current_lem base txs l (inr u) = ap (λ b. if b then l.cur_state else base) u.0 ∙ sym u.1

  -- When no transaction is buffered twice and the deleter reports exactly the transactions given
  -- to it, a rebase that does not fail sifts what is left after deleting the applied transactions:
  -- from the new base state, in order, those that are invalid are returned, the others stay
  -- buffered, and the current state is the new base state with the buffered ones applied.
  pub rebase-Sifts :
      Deletes
      → (base : S) (applied ds : List T) (w w' : WorkingState S T) → NoRepeat w.txs
      → rebase add_tx tx_deleter base applied w ≡ (w', invalidated ds)
      → Sifts add_tx base (delete_some tx_deleter applied w.txs) (current w') w'.txs ds
        × IsCurrent add_tx w'
        × (w'.base_state ≡ base)
  unfolding rebase finish_rebase
  rebase-Sifts spec base applied ds w w' n e =
      let txs = delete_some tx_deleter applied w.txs in
      let l = rebase_loop add_tx txs (start base) in
      elim (Bool-cases l.is_failed) [
        | inl f ↦ absurd (ground (arith, f, e))
        | inr f ↦
            let (ks, ds', r, i, u) = loop-Sifts add_tx txs (start base) f in
            let q : w' ≡ rebased base txs l = ground (arith, f, e) in
            let d : ds' ≡ ds = sym i ∙ ground (arith, f, e) in
            let k : ks ≡ w'.txs =
              sym (kept_by_delete spec r (delete_some-NoRepeat tx_deleter applied w.txs n))
              ∙ (ap (λ x. delete_some tx_deleter x txs) (sym i) ∙ ap (λ x. x.txs) (sym q)) in
            let c : l.cur_state ≡ current w' =
              sym (current_lem base txs l u) ∙ ap (λ x. current x) (sym q) in
            let b : w'.base_state ≡ base = ap (λ x. x.base_state) q in
            let r' : Sifts add_tx base txs (current w') w'.txs ds =
              subst (λ x. Sifts add_tx base txs (current w') w'.txs x) d
                (subst (λ x. Sifts add_tx base txs (current w') x ds') k
                  (subst (λ x. Sifts add_tx base txs x ks ds') c r)) in
            (
              r',
              subst (λ x. apply_all add_tx x w'.txs ≡ some (current w')) (sym b)
                  (Sifts-apply_all add_tx r'),
              b,
            )
      ]
