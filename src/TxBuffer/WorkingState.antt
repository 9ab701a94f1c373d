-- ===== src/TxBuffer/WorkingState.antt =====
-- gdriver/gtxbuf/workingstate.go. `add_tx` and `tx_deleter` are the callbacks given to `New`.
use gordian.Prelude.{Bool, true, false, List, [], ◌∷◌, ◌++◌, if◌then◌else◌}

-- What `addTx` returns: a new state, an error wrapped in TxInvalidError, or any other error.
pub data AddResult (S : Type 0) : Type 0 where
  added : S → AddResult S
  invalid failed : AddResult S

pub record WorkingState (S T : Type 0) : Type 0 where
  pub base_state : S
  pub cur_state : S
  pub is_updated : Bool
  pub txs : List T

-- What `Rebase` returns: the invalidated transactions, or an error.
pub data RebaseResponse (T : Type 0) : Type 0 where
  invalidated : List T → RebaseResponse T
  rebase_failed : RebaseResponse T

-- The variables of the loop of `Rebase`, and whether it returned on an error.
pub record Loop (S T : Type 0) : Type 0 where
  pub cur_state : S
  pub is_updated : Bool
  pub invalid_txs : List T
  pub is_failed : Bool

-- `slices.DeleteFunc`.
unfoldable pub delete_func : {T : Type 0} → (T → Bool) → List T → List T
delete_func p [] = []
delete_func p (t ∷ ts) = let rest = delete_func p ts in if p t then rest else t ∷ rest

-- Deleting, where there is something to delete.
abbrev pub delete_some : {T : Type 0} → (List T → T → Bool) → List T → List T → List T
delete_some tx_deleter [] txs = txs
delete_some tx_deleter (r ∷ rs) txs = delete_func (tx_deleter (r ∷ rs)) txs

module _ {S T : Type 0} where
  abbrev pub current : WorkingState S T → S
  current w = if w.is_updated then w.cur_state else w.base_state

  unfoldable pub buffered : WorkingState S T → List T → List T
  buffered w dst = dst ++ w.txs

module _ {S T : Type 0} (add_tx : S → T → AddResult S) where
  -- The error of `addTx`, if any, and the state.
  unfoldable pub check_add_tx : T → WorkingState S T → WorkingState S T × AddResult S
  check_add_tx tx w = elim (add_tx (current w) tx) [
    | added s ↦ (record w { cur_state = s; is_updated = true; txs = w.txs ++ tx ∷ [] }, added s)
    | invalid ↦ (w, invalid)
    | failed ↦ (w, failed)
  ]

  unfoldable pub rebase_loop : List T → Loop S T → Loop S T
  rebase_loop [] l = l
  rebase_loop (tx ∷ txs) l = elim (add_tx l.cur_state tx) [
    | added s ↦ rebase_loop txs (record l { cur_state = s; is_updated = true })
    | invalid ↦ rebase_loop txs (record l { invalid_txs = l.invalid_txs ++ tx ∷ [] })
    | failed ↦ record l { is_failed = true }
  ]

module _ {S T : Type 0} (add_tx : S → T → AddResult S) (tx_deleter : List T → T → Bool) where
  unfoldable pub finish_rebase : S → List T → Loop S T → WorkingState S T × RebaseResponse T
  finish_rebase base txs l =
      if l.is_failed
      then (
        record { base_state = base; cur_state = l.cur_state; is_updated = l.is_updated; txs = txs },
        rebase_failed,
      )
      else (
        record {
          base_state = base;
          cur_state = l.cur_state;
          is_updated = l.is_updated;
          txs = delete_some tx_deleter l.invalid_txs txs;
        },
        invalidated l.invalid_txs,
      )

  -- With no transactions the loop does nothing, so the early return is the same.
  unfoldable pub rebase : S → List T → WorkingState S T → WorkingState S T × RebaseResponse T
  rebase new_base applied w =
      let txs = delete_some tx_deleter applied w.txs in
      finish_rebase new_base txs (
        rebase_loop add_tx txs (record {
          cur_state = new_base;
          is_updated = false;
          invalid_txs = [];
          is_failed = false;
        }))
