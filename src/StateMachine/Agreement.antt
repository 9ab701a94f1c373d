-- ===== src/StateMachine/Agreement.antt =====
-- Two actions that stand in one action store agree (statemachine.go).
use gordian.Prelude.{◌≡◌, ◌≢◌, ◌⊎◌, false, List, [], ◌∷◌, Bytes, some, All, pair_eq, arith}
use gordian.Consensus.Types.{VoteTarget}
use gordian.Store.Actions.{ActionStore}
use gordian.StateMachine.World.{Signer, RoundAction, propose, prevote, precommit}
use gordian.StateMachine.SignsOnce.{IsStored}

-- The signer's votes have a signature that is not empty.
pub record SignsVotes (signer : Signer) : Type 0 where
  pub prevote_signed :
      (vt : VoteTarget) (signed : Bytes × Bytes)
      → signer.sign_prevote vt ≡ some signed
      → signed.1 ≢ []
  pub precommit_signed :
      (vt : VoteTarget) (signed : Bytes × Bytes)
      → signer.sign_precommit vt ≡ some signed
      → signed.1 ≢ []

-- Two actions of one kind for one height and round are the same: the votes in target and signature,
-- the proposed headers of a positive height in all.
abbrev pub Agree : RoundAction → RoundAction → Type 0
Agree (propose a) (propose b) =
    (a.header.height ≡ 0)
    ⊎ (pair_eq (a.header.height, a.round) (b.header.height, b.round) ≡ false)
    ⊎ (a ≡ b)
Agree (prevote a c sig) (prevote b d sig') =
    (pair_eq (a.height, a.round) (b.height, b.round) ≡ false)
    ⊎ ((a.block_hash ≡ b.block_hash) × (sig ≡ sig'))
Agree (precommit a c sig) (precommit b d sig') =
    (pair_eq (a.height, a.round) (b.height, b.round) ≡ false)
    ⊎ ((a.block_hash ≡ b.block_hash) × (sig ≡ sig'))
Agree a b = Unit

pub stored-Agree : (s : ActionStore) (a b : RoundAction) → IsStored s a → IsStored s b → Agree a b
stored-Agree s (propose a) (propose b) x y = ground (arith, x, y)
stored-Agree s (prevote a c sig) (prevote b d sig') x y = ground (arith, x, y)
stored-Agree s (precommit a c sig) (precommit b d sig') x y = ground (arith, x, y)
stored-Agree s (propose a) (prevote b d sig') x y = tt
stored-Agree s (propose a) (precommit b d sig') x y = tt
stored-Agree s (prevote a c sig) (propose b) x y = tt
stored-Agree s (prevote a c sig) (precommit b d sig') x y = tt
stored-Agree s (precommit a c sig) (propose b) x y = tt
stored-Agree s (precommit a c sig) (prevote b d sig') x y = tt

pub All-Agree_with :
    (s : ActionStore) (a : RoundAction) (l : List RoundAction)
    → IsStored s a
    → All (IsStored s) l
    → All (Agree a) l
All-Agree_with s a [] x h = tt
All-Agree_with s a (b ∷ l) x h = (stored-Agree s a b x h.0, All-Agree_with s a l x h.1)

pub All-Agree :
    (s : ActionStore) (l k : List RoundAction)
    → All (IsStored s) l
    → All (IsStored s) k
    → All (λ a. All (Agree a) k) l
All-Agree s [] k h g = tt
All-Agree s (a ∷ l) k h g = (All-Agree_with s a k h.0 g, All-Agree s l k h.1 g)
