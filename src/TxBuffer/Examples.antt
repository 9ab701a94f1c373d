-- ===== src/TxBuffer/Examples.antt =====
-- A buffer of spendings against a balance.
use gordian.Prelude.{
  ℕ, ◌-◌, ◌≡◌, ◌⊎◌, refl, Bool, true, List, [], ◌∷◌, ◌++◌, ◌==◌, ltb, if◌then◌else◌, contains_func,
  arith,
}
use gordian.TxBuffer.WorkingState.{
  AddResult, added, invalid, WorkingState, invalidated, delete_func, delete_some, current,
  check_add_tx, rebase_loop, finish_rebase, rebase,
}
use gordian.TxBuffer.Current.{IsCurrent, apply_all, check_add_tx-IsCurrent}
use gordian.TxBuffer.Sifts.{NoRepeat, Sifts}
use gordian.TxBuffer.Rebase.{Deletes, rebase-Sifts}

-- A spending beyond the balance is invalid.
abbrev spend : ℕ → ℕ → AddResult ℕ
spend balance t = if ltb balance t then invalid else added (balance - t)

abbrev listed : List ℕ → ℕ → Bool
listed rej t = contains_func (λ r. t == r) rej

listed-Deletes : Deletes spend listed
listed-Deletes [] t = ground arith
listed-Deletes (r ∷ rej) t = ground (arith, listed-Deletes rej t)

-- A balance of 10, of which 4, 3 and 2 are to be spent.
abbrev buffer : WorkingState ℕ ℕ
buffer = record { base_state = 10; cur_state = 1; is_updated = true; txs = 4 ∷ 3 ∷ 2 ∷ [] }

buffer-IsCurrent : IsCurrent spend buffer
unfolding apply_all
buffer-IsCurrent = refl

check_add_tx-IsCurrent_example :
    let (w', res) = check_add_tx spend 1 buffer in
    IsCurrent spend w'
    × (w'.base_state ≡ 10)
    × (((s : ℕ) × (res ≡ added s) × (w'.txs ≡ (4 ∷ 3 ∷ 2 ∷ []) ++ 1 ∷ []) × (current w' ≡ s))
        ⊎ (w' ≡ buffer))
check_add_tx-IsCurrent_example = check_add_tx-IsCurrent spend 1 buffer buffer-IsCurrent

-- 4 was spent and only 4 are left: 3 is valid and 2 is not.
abbrev rebased_buffer : WorkingState ℕ ℕ
rebased_buffer = record { base_state = 4; cur_state = 1; is_updated = true; txs = 3 ∷ [] }

buffer_rebased : rebase spend listed 4 (4 ∷ []) buffer ≡ (rebased_buffer, invalidated (2 ∷ []))
unfolding rebase finish_rebase rebase_loop delete_func
buffer_rebased = refl

no_repeat : NoRepeat {T = ℕ} (4 ∷ 3 ∷ 2 ∷ [])
no_repeat = ground arith

rebase-Sifts_example :
    Sifts spend 4 (delete_some listed (4 ∷ []) (4 ∷ 3 ∷ 2 ∷ [])) 1 (3 ∷ []) (2 ∷ [])
    × IsCurrent spend rebased_buffer
    × (rebased_buffer.base_state ≡ 4)
rebase-Sifts_example =
    rebase-Sifts spend listed listed-Deletes 4 (4 ∷ []) (2 ∷ []) buffer rebased_buffer no_repeat
      buffer_rebased
