-- ===== src/Mirror/Lag.antt =====
-- tm/tmengine/internal/tmmirror/internal/tmi/lag.go and tm/tmengine/tmelink/lagstate.go.
use gordian.Prelude.{ℕ, ◌≡◌, Bool, true, false, ◌||◌, not, if◌then◌else◌, arith}
use mathlib.Core.Logic.{ite}

pub data LagStatus : Type 0 where
  initializing up_to_date assumed_behind known_missing : LagStatus

pub LagStatus-discrete : Discrete LagStatus
LagStatus-discrete = hlevel

pub record LagState : Type 0 where
  pub status : LagStatus
  pub committing_height : ℕ  -- uint64
  pub need_height : ℕ  -- uint64

-- `out` says whether the lag channel is set.
pub record LagManager : Type 0 where
  pub out : Bool
  pub state : LagState
  pub sent : Bool

pub record LagOutput : Type 0 where
  pub ch : Bool
  pub val : LagState

abbrev pub zero_lag_state : LagState
zero_lag_state = record { status = initializing; committing_height = 0; need_height = 0 }

unfoldable pub new_lag_manager : Bool → LagManager
new_lag_manager out = record { out = out; state = zero_lag_state; sent = false }

unfoldable pub set_state : LagManager → LagStatus → ℕ → ℕ → LagManager
set_state m s committing_height need_height = if not m.out then m else record m {
  state = record { status = s; committing_height = committing_height; need_height = need_height };
  sent = ite (LagStatus-discrete m.state.status s) m.sent false;
}

unfoldable pub output : LagManager → LagOutput
output m =
    if not m.out || m.sent
    then record { ch = false; val = zero_lag_state }
    else record { ch = true; val = m.state }

unfoldable pub mark_sent : LagManager → LagManager
mark_sent m = record m { sent = true }

-- On a configured manager whose state was sent, setting a state makes an output ready exactly when
-- the status changes. New heights under the same status are stored and not sent.
pub set_state_due :
    (m : LagManager) (s : LagStatus) (c n : ℕ)
    → m.out ≡ true
    → let m' = set_state (mark_sent m) s c n in
      ((output m').ch ≡ not (ite (LagStatus-discrete m.state.status s) true false))
      × (m'.state ≡ record { status = s; committing_height = c; need_height = n })
unfolding set_state output mark_sent
set_state_due m s c n o = elim (LagStatus-discrete m.state.status s) [
  | yes e ↦ (ground arith, ground arith)
  | no ne ↦ (ground arith, ground arith)
]
