-- ===== src/Store/Actions.antt =====
-- tm/tmstore/tmmemstore/actionstore.go and tm/tmstore/actionstore.go: what the own validator signed.
use gordian.Prelude.{
  ℕ, ◌≡◌, refl, sym, subst, ◌⊎◌, inl, inr, Bool, true, false, List, [], ◌∷◌, Bytes, bytes_eq,
  bytes_eq_iff, Map, lookup, insert, lookup-insert, pair_key, pair_eq, pair_eq_iff, Option, none,
  some, ◌==◌, not, if◌then◌else◌, arith,
}
use gordian.Consensus.Types.{PubKey, ProposedHeader, zero_proposed_header, VoteTarget}

pub record RoundActions : Type 0 where
  pub height : ℕ  -- uint64
  pub round : ℕ  -- uint32
  pub proposed_header : ProposedHeader
  pub pub_key : Option PubKey
  pub prevote_target : Bytes
  pub prevote_signature : Bytes
  pub precommit_target : Bytes
  pub precommit_signature : Bytes

-- The zero value, which a missing key reads as.
abbrev pub zero_actions : RoundActions
zero_actions = record {
  height = 0;
  round = 0;
  proposed_header = zero_proposed_header;
  pub_key = none;
  prevote_target = [];
  prevote_signature = [];
  precommit_target = [];
  precommit_signature = [];
}

-- `ras` by height and round.
abbrev pub ActionStore : Type 0
ActionStore = Map (ℕ × ℕ) RoundActions

pub data ActionError : Type 0 where
  double_action pub_key_changed : ActionError

pub data SaveResult : Type 0 where
  saved : ActionStore → SaveResult
  refused : ActionError → SaveResult

abbrev pub actions_at : ActionStore → ℕ → ℕ → RoundActions
actions_at s h r = elim (lookup (h, r) s) [ none ↦ zero_actions | some ra ↦ ra ]

-- The assignments once a call has passed its tests.
abbrev pub with_proposal : ProposedHeader → RoundActions → RoundActions
with_proposal ph ra = record ra {
  height = ph.header.height;
  round = ph.round;
  proposed_header = ph;
}

abbrev pub with_prevote : PubKey → VoteTarget → Bytes → RoundActions → RoundActions
with_prevote key vt sig ra = record ra {
  height = vt.height;
  round = vt.round;
  prevote_target = vt.block_hash;
  prevote_signature = sig;
  pub_key = some key;
}

abbrev pub with_precommit : PubKey → VoteTarget → Bytes → RoundActions → RoundActions
with_precommit key vt sig ra = record ra {
  height = vt.height;
  round = vt.round;
  precommit_target = vt.block_hash;
  precommit_signature = sig;
  pub_key = some key;
}

unfoldable pub save_proposed_header_action : ProposedHeader → ActionStore → SaveResult
save_proposed_header_action ph s =
    let h = ph.header.height in
    let ra = actions_at s h ph.round in
    if not (ra.proposed_header.header.height == 0)
    then refused double_action
    else saved (insert (h, ph.round) (with_proposal ph ra) s)

-- A key was recorded and is not the one given.
abbrev pub key_differs : Option PubKey → PubKey → Bool
key_differs none key = false
key_differs (some k) key = not (bytes_eq k key)

unfoldable pub save_prevote_action : PubKey → VoteTarget → Bytes → ActionStore → SaveResult
save_prevote_action key vt sig s =
    let ra = actions_at s vt.height vt.round in
    if not (bytes_eq ra.prevote_signature [])
    then refused double_action
    else if key_differs ra.pub_key key
    then refused pub_key_changed
    else saved (insert (vt.height, vt.round) (with_prevote key vt sig ra) s)

unfoldable pub save_precommit_action : PubKey → VoteTarget → Bytes → ActionStore → SaveResult
save_precommit_action key vt sig s =
    let ra = actions_at s vt.height vt.round in
    if not (bytes_eq ra.precommit_signature [])
    then refused double_action
    else if key_differs ra.pub_key key
    then refused pub_key_changed
    else saved (insert (vt.height, vt.round) (with_precommit key vt sig ra) s)

-- `none` is the RoundUnknownError.
unfoldable pub load_actions : ℕ → ℕ → ActionStore → Option RoundActions
load_actions h r s = lookup (h, r) s

-- The calls that change the store.
pub data Action : Type 0 where
  propose : ProposedHeader → Action
  prevote : PubKey → VoteTarget → Bytes → Action
  precommit : PubKey → VoteTarget → Bytes → Action

unfoldable pub save_action : Action → ActionStore → SaveResult
save_action (propose ph) s = save_proposed_header_action ph s
save_action (prevote key vt sig) s = save_prevote_action key vt sig s
save_action (precommit key vt sig) s = save_precommit_action key vt sig s

-- The store after a call, refused or not.
abbrev pub after_save : ActionStore → SaveResult → ActionStore
after_save s (saved t) = t
after_save s (refused e) = s

unfoldable pub save_actions : List Action → ActionStore → ActionStore
save_actions [] s = s
save_actions (a ∷ rest) s = save_actions rest (after_save s (save_action a s))

-- What is signed in `a` stands in `b`: the proposal, the prevote, the precommit and the key.
abbrev pub Stands : RoundActions → RoundActions → Type 0
Stands a b =
    ((a.proposed_header.header.height ≡ 0) ⊎ (b.proposed_header ≡ a.proposed_header))
    × ((a.prevote_signature ≡ [])
        ⊎ ((b.prevote_target ≡ a.prevote_target) × (b.prevote_signature ≡ a.prevote_signature)))
    × ((a.precommit_signature ≡ [])
        ⊎ ((b.precommit_target ≡ a.precommit_target)
            × (b.precommit_signature ≡ a.precommit_signature)))
    × ((a.pub_key ≡ none) ⊎ (b.pub_key ≡ a.pub_key))

Stands-refl : (a : RoundActions) → Stands a a
Stands-refl a = (inr refl, inr (refl, refl), inr (refl, refl), inr refl)

Stands-trans : (a b c : RoundActions) → Stands a b → Stands b c → Stands a c
Stands-trans a b c h k = ground arith

-- Writing one round leaves what was signed in every round.
insert-Stands :
    (s : ActionStore) (h r k i : ℕ) (ra : RoundActions)
    → Stands (actions_at s h r) ra
    → Stands (actions_at s k i) (actions_at (insert (h, r) ra s) k i)
insert-Stands s h r k i ra st = go (pair_eq (h, r) (k, i)) refl (lookup-insert (h, r) (k, i) ra s)
  where
    go :
        (b : Bool)
        → pair_eq (h, r) (k, i) ≡ b
        → lookup (k, i) (insert (h, r) ra s) ≡ (if b then some ra else lookup (k, i) s)
        → Stands (actions_at s k i) (actions_at (insert (h, r) ra s) k i)
    go true e l =
        subst (λ o. Stands (actions_at s k i) (elim o [ none ↦ zero_actions | some ra ↦ ra ]))
          (sym l)
          (subst (λ p. Stands (elim (lookup p s) [ none ↦ zero_actions | some ra ↦ ra ]) ra)
            ((pair_eq_iff (h, r) (k, i)).0 e) st)
    go false e l =
        subst (λ o. Stands (actions_at s k i) (elim o [ none ↦ zero_actions | some ra ↦ ra ]))
          (sym l) (Stands-refl (actions_at s k i))

key_agrees :
    (o : Option PubKey) (key : PubKey) → key_differs o key ≡ false → (o ≡ none) ⊎ (some key ≡ o)
key_agrees none key e = inl refl
key_agrees (some k) key e = inr (ground (arith, e, bytes_eq_iff k key))

-- A call that is refused leaves everything; otherwise its test was passed.
refused_or :
    (s : ActionStore) (h r : ℕ) (b : Bool) (err : ActionError) (x : SaveResult)
    → (b ≡ false → Stands (actions_at s h r) (actions_at (after_save s x) h r))
    → Stands (actions_at s h r) (actions_at (after_save s (if b then refused err else x)) h r)
refused_or s h r true err x k = Stands-refl (actions_at s h r)
refused_or s h r false err x k = k refl

pub save_action-Stands :
    (a : Action) (s : ActionStore) (h r : ℕ)
    → Stands (actions_at s h r) (actions_at (after_save s (save_action a s)) h r)
unfolding save_action save_proposed_header_action save_prevote_action save_precommit_action
save_action-Stands (propose ph) s h r =
    let ra = actions_at s ph.header.height ph.round in
    refused_or s h r (not (ra.proposed_header.header.height == 0)) double_action _
      (λ e. insert-Stands s ph.header.height ph.round h r (with_proposal ph ra) (ground (arith, e)))
save_action-Stands (prevote key vt sig) s h r =
    let ra = actions_at s vt.height vt.round in
    refused_or s h r (not (bytes_eq ra.prevote_signature [])) double_action _ (λ e.
      refused_or s h r (key_differs ra.pub_key key) pub_key_changed _ (λ d.
        insert-Stands s vt.height vt.round h r (with_prevote key vt sig ra)
          (ground (arith, e, key_agrees ra.pub_key key d, bytes_eq_iff ra.prevote_signature []))))
save_action-Stands (precommit key vt sig) s h r =
    let ra = actions_at s vt.height vt.round in
    refused_or s h r (not (bytes_eq ra.precommit_signature [])) double_action _ (λ e.
      refused_or s h r (key_differs ra.pub_key key) pub_key_changed _ (λ d.
        insert-Stands s vt.height vt.round h r (with_precommit key vt sig ra)
          (ground (arith, e, key_agrees ra.pub_key key d, bytes_eq_iff ra.precommit_signature []))))

-- Whatever calls follow, in any order and with any arguments, a proposed header of a positive
-- height, a prevote and a precommit with a non-empty signature, and a public key, once recorded
-- for a height and round, stay recorded as they are.
pub save_actions-Stands :
    (calls : List Action) (s : ActionStore) (h r : ℕ)
    → Stands (actions_at s h r) (actions_at (save_actions calls s) h r)
unfolding save_actions
save_actions-Stands [] s h r = Stands-refl (actions_at s h r)
save_actions-Stands (a ∷ rest) s h r =
    let t = after_save s (save_action a s) in
    Stands-trans (actions_at s h r) (actions_at t h r) (actions_at (save_actions rest t) h r)
      (save_action-Stands a s h r) (save_actions-Stands rest t h r)

pub saved_inv :
    (b : Bool) (err : ActionError) (x : SaveResult) (t : ActionStore)
    → (if b then refused err else x) ≡ saved t
    → x ≡ saved t
saved_inv true err x t e = absurd (ground (arith, e))
saved_inv false err x t e = e

pub inserted :
    (s : ActionStore) (h r : ℕ) (ra : RoundActions) (t : ActionStore)
    → insert (h, r) ra s ≡ t
    → (lookup (h, r) t ≡ some ra)
      × ((k i : ℕ) → ((k ≡ h) × (i ≡ r)) ⊎ (lookup (k, i) t ≡ lookup (k, i) s))
inserted s h r ra t e = (
  subst (λ m. lookup (h, r) m ≡ some ra) e (ground (arith, lookup-insert (h, r) (h, r) ra s)),
  λ k i.
      subst (λ m. ((k ≡ h) × (i ≡ r)) ⊎ (lookup (k, i) m ≡ lookup (k, i) s)) e
        (ground (arith, lookup-insert (h, r) (k, i) ra s)),
)

-- A prevote that was accepted is what the store then gives back for its height and round, along
-- with what was recorded there before; the other heights and rounds are as they were.
pub load_actions-save_prevote_action :
    (key : PubKey) (vt : VoteTarget) (sig : Bytes) (s t : ActionStore)
    → save_prevote_action key vt sig s ≡ saved t
    → let ra = actions_at s vt.height vt.round in
      (load_actions vt.height vt.round t ≡ some (with_prevote key vt sig ra))
      × ((h r : ℕ) → ((h ≡ vt.height) × (r ≡ vt.round)) ⊎ (load_actions h r t ≡ load_actions h r s))
unfolding save_prevote_action load_actions
load_actions-save_prevote_action key vt sig s t e =
    let ra = actions_at s vt.height vt.round in
    let p = saved_inv (not (bytes_eq ra.prevote_signature [])) double_action _ t e in
    let q = saved_inv (key_differs ra.pub_key key) pub_key_changed _ t p in
    inserted s vt.height vt.round (with_prevote key vt sig ra) t (ground (arith, q))
