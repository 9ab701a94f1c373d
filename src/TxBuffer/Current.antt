-- ===== src/TxBuffer/Current.antt =====
-- The state of the buffer is that of its transactions (gdriver/gtxbuf/workingstate.go).
use gordian.Prelude.{
  ◌≡◌, refl, ◌∙◌, ◌⊎◌, inl, inr, true, List, [], ◌∷◌, ◌++◌, Option, none, some, arith,
}
use gordian.TxBuffer.WorkingState.{
  AddResult, added, invalid, failed, WorkingState, current, check_add_tx,
}

module _ {S T : Type 0} (add_tx : S → T → AddResult S) where
  -- All transactions in a row, each of which must be valid.
  unfoldable pub apply_all : S → List T → Option S
  apply_all s [] = some s
  apply_all s (t ∷ ts) = elim (add_tx s t) [
    | added s' ↦ apply_all s' ts
    | invalid ↦ none
    | failed ↦ none
  ]

  apply_all-append :
      (s u : S) (ts : List T) (t : T)
      → apply_all s ts ≡ some u
      → apply_all s (ts ++ t ∷ []) ≡ apply_all u (t ∷ [])
  unfolding apply_all
  apply_all-append s u [] t e = ground (arith, e)
  apply_all-append s u (x ∷ ts) t e = go (add_tx s x) (λ s'. apply_all-append s' u ts t) e
    where
      go :
          (a : AddResult S)
          → ((s' : S)
              → apply_all s' ts ≡ some u
              → apply_all s' (ts ++ t ∷ []) ≡ apply_all u (t ∷ []))
          → elim a [ added s' ↦ apply_all s' ts | invalid ↦ none | failed ↦ none ] ≡ some u
          → elim a [ added s' ↦ apply_all s' (ts ++ t ∷ []) | invalid ↦ none | failed ↦ none ]
            ≡ apply_all u (t ∷ [])
      go (added s') ih k = ih s' k
      go invalid ih k = absurd (ground (arith, k))
      go failed ih k = absurd (ground (arith, k))

  apply_one : (s : S) (t : T) (u : S) → add_tx s t ≡ added u → apply_all s (t ∷ []) ≡ some u
  unfolding apply_all
  apply_one s t u e = ground (arith, e)

  -- The current state is the base state with all buffered transactions applied.
  abbrev pub IsCurrent : WorkingState S T → Type 0
  IsCurrent w = apply_all w.base_state w.txs ≡ some (current w)

  -- Adding a transaction keeps the current state that of the buffered transactions; one that is
  -- refused changes nothing, and one that is taken stands last.
  pub check_add_tx-IsCurrent :
      (tx : T) (w : WorkingState S T)
      → IsCurrent w
      → let (w', res) = check_add_tx add_tx tx w in
        IsCurrent w'
        × (w'.base_state ≡ w.base_state)
        × (((s : S) × (res ≡ added s) × (w'.txs ≡ w.txs ++ tx ∷ []) × (current w' ≡ s)) ⊎ (w' ≡ w))
  unfolding check_add_tx
  check_add_tx-IsCurrent tx w c = go (add_tx (current w) tx) refl
    where
      go :
          (a : AddResult S)
          → add_tx (current w) tx ≡ a
          → let (w', res) = elim a as (λ _. WorkingState S T × AddResult S) [
            | added s ↦
                (record w { cur_state = s; is_updated = true; txs = w.txs ++ tx ∷ [] }, added s)
            | invalid ↦ (w, invalid)
            | failed ↦ (w, failed)
          ] in
            IsCurrent w'
            × (w'.base_state ≡ w.base_state)
            × (((s : S) × (res ≡ added s) × (w'.txs ≡ w.txs ++ tx ∷ []) × (current w' ≡ s))
                ⊎ (w' ≡ w))
      go (added s) e = (
        apply_all-append w.base_state (current w) w.txs tx c ∙ apply_one (current w) tx s e,
        refl,
        inl (s, refl, refl, refl),
      )
      go invalid e = (c, refl, inr refl)
      go failed e = (c, refl, inr refl)
