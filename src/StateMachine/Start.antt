-- ===== src/StateMachine/Start.antt =====
-- The start of the state machine (statemachine.go): `sendInitialActionSet` and `initializeRLC`.
use gordian.Prelude.{
  ℕ, ◌+◌, ◌-◌, ◌^◌, Bool, true, false, List, [], ◌∷◌, ◌++◌, Bytes, bytes_eq, contains_func, Option,
  none, some, u64, ltb, ◌==◌, ◌&&◌, if◌then◌else◌,
}
use gordian.Consensus.Types.{ValidatorSet, zero_header, ProposedHeader}
use gordian.Consensus.RoundView.{VersionedRoundView}
use gordian.Mirror.Kernel.Entrance.{RoundEntranceResponse, view, committed}
use gordian.Store.Actions.{load_actions}
use gordian.Store.Finalizations.{load_finalization_by_height}
use gordian.StateMachine.Lifecycle.{RoundLifecycle, reset}
use gordian.StateMachine.World.{
  Signer, Config, propose, enter_round, Env, World, Outcome, ok, stopped, panic, hung, ◌>>◌,
  with_rlc, send,
}
use gordian.StateMachine.Rounds.{
  reject_mismatched_proposed_headers, is_participating, with_view, request_finalization,
  begin_round_live, to_next_round, advance, entrance, answered,
}

-- uint64 subtraction wraps.
abbrev pub u64_sub : ℕ → ℕ → ℕ
u64_sub a b = u64 (a + 2 ^ 64 - b)

-- (Genesis).Header: the hash of the pseudo-block before the first.
unfoldable pub genesis_hash : Config → Option Bytes
genesis_hash cfg = cfg.hash_block (record zero_header {
  height = u64_sub cfg.genesis.initial_height 1;
  next_validator_set = cfg.genesis.validator_set;
})

abbrev pub is_genesis : Config → ℕ → ℕ → Bool
is_genesis cfg h r = h == cfg.genesis.initial_height && r == 0

abbrev pub proposed_by : Signer → ProposedHeader → Bool
proposed_by signer ph = bytes_eq signer.pub_key ph.proposer_pub_key

module _ {P : Type 0} (cfg : Config) where
  -- The stored height and round, or genesis at the first start; past a height that is finalized.
  unfoldable pub initial_height_round : World P → ℕ × ℕ
  initial_height_round w =
      let (h, r) =
        if w.height_round.0 == 0 then (cfg.genesis.initial_height, 0) else w.height_round in
      elim (load_finalization_by_height h w.finalization_store) [
        | none ↦ (h, r)
        | some fin ↦ (u64 (h + 1), 0)
      ]

  -- The previous validator set: of three heights back, or of genesis.
  unfoldable pub load_prev_val_set : ℕ → World P → Option ValidatorSet
  load_prev_val_set h w =
      if ltb cfg.genesis.initial_height (u64_sub h 3)
      then elim (load_finalization_by_height (u64_sub h 3) w.finalization_store) [
        | none ↦ none
        | some fin ↦ some fin.val_set
      ]
      else some cfg.genesis.validator_set

  -- The current and the previous validator set; `none` is an error of the store.
  unfoldable pub load_val_sets : ℕ → ℕ → World P → Option (ValidatorSet × ValidatorSet)
  load_val_sets h r w =
      if is_genesis cfg h r
      then some (cfg.genesis.validator_set, cfg.genesis.validator_set)
      else elim (load_finalization_by_height (u64_sub h 2) w.finalization_store) [
        | none ↦ none
        | some fin ↦ elim (load_prev_val_set h w) [
          | none ↦ none
          | some prev ↦ some (fin.val_set, prev)
        ]
      ]

  abbrev pub with_previous : Bytes → ValidatorSet → Bytes → RoundLifecycle P → RoundLifecycle P
  with_previous hash vals app rlc = record rlc {
    prev_block_hash = hash;
    prev_fin_next_val_set = vals;
    prev_fin_app_state_hash = app;
  }

  -- The block before this height: of genesis, or from the store. A failing genesis hash panics.
  unfoldable pub load_previous : ℕ → ℕ → VersionedRoundView P → World P → Outcome P
  load_previous h r v w =
      if is_genesis cfg h r
      then elim (genesis_hash cfg) [
        | none ↦ panic
        | some hash ↦ ok (
            with_rlc
              (with_previous hash cfg.genesis.validator_set cfg.genesis.current_app_state_hash
                w.rlc)
              w)
      ]
      else elim (load_finalization_by_height (u64_sub h 1) w.finalization_store) [
        | none ↦ stopped w
        | some fin ↦ ok (
            with_view v
              (with_rlc (with_previous fin.block_hash fin.val_set fin.app_state_hash w.rlc) w))
      ]

  -- The view without the headers that do not match.
  abbrev pub filtered : VersionedRoundView P → RoundLifecycle P → VersionedRoundView P
  filtered v rlc = record v {
    round_view = record v.round_view {
      proposed_headers = reject_mismatched_proposed_headers rlc v.proposed_headers;
    };
  }

module _ {P : Type 0} where
  abbrev pub no_proposal : World P → World P
  no_proposal w = with_rlc (record w.rlc { proposal_ch = false }) w

  abbrev pub add_header : ProposedHeader → VersionedRoundView P → VersionedRoundView P
  add_header ph v = record v {
    round_view = record v.round_view { proposed_headers = v.proposed_headers ++ ph ∷ [] };
  }

module _ {P : Type 0} (cfg : Config) (env : Env P) where
  -- A header that was recorded and did not reach the mirror is sent again.
  unfoldable pub resend :
      ProposedHeader
      → VersionedRoundView P
      → (VersionedRoundView P → World P → Outcome P)
      → World P
      → Outcome P
  resend ph v next w =
      if w.rlc.outgoing_actions_ch
      then next (add_header ph v)
          (record (no_proposal w) { outgoing_actions = w.outgoing_actions ++ propose ph ∷ [] })
      else hung

  -- No second proposal for a round, as `initializeRLC` sees to before it enters the round.
  unfoldable pub suppress_proposal :
      Signer
      → VersionedRoundView P
      → (VersionedRoundView P → World P → Outcome P)
      → World P
      → Outcome P
  suppress_proposal signer v next w =
      if contains_func (proposed_by signer) v.proposed_headers
      then next v (no_proposal w)
      else elim (load_actions w.rlc.h w.rlc.r w.action_store) [
        | none ↦ next v w
        | some ra ↦
            if ra.proposed_header.header.height == 0
            then next v w
            else resend ra.proposed_header v next w
      ]

  -- The strategy's error stops the state machine here.
  unfoldable pub enter_first : VersionedRoundView P → World P → Outcome P
  enter_first v =
      (λ w. send env (enter_round v.round_view w.rlc.proposal_ch) w)
      >> (λ w. if env.enter_round_fails v.round_view then stopped w else ok w)
      >> λ w. begin_round_live env (to_next_round env >> advance cfg env w.answers) v w

  unfoldable pub start_live : ℕ → ℕ → VersionedRoundView P → World P → Outcome P
  start_live h r v = load_previous cfg h r v >> λ w.
      let v' = filtered cfg v w.rlc in
      elim cfg.signer [
        | none ↦ enter_first v' w
        | some signer ↦ suppress_proposal signer v' enter_first w
      ]

  abbrev pub reset_for : ℕ → ℕ → Bool → World P → World P
  reset_for h r actions w = with_rlc (record (reset h r w.rlc) { outgoing_actions_ch = actions }) w

  -- The answer to the first entrance: a live round, or a committed header to replay.
  unfoldable pub start_with : List (RoundEntranceResponse P) → ℕ → ℕ → World P → Outcome P
  start_with [] h r w = stopped w
  start_with (view v ∷ rest) h r w =
      start_live h r v (reset_for h r (is_participating cfg w.rlc) (answered cfg env rest w))
  start_with (committed ch ∷ rest) h r w =
      request_finalization env ch.header ch.proof.round
        (with_rlc (reset h r w.rlc) (answered cfg env rest w))

  -- `initializeRLC`, from the zero lifecycle.
  unfoldable pub initialize : World P → Outcome P
  initialize w =
      let (h, r) = initial_height_round cfg w in
      elim (load_val_sets cfg h r w) [
        | none ↦ stopped w
        | some (cur, prev) ↦
            let rlc = record w.rlc {
              h = h;
              r = r;
              cur_val_set = cur;
              prev_val_set = prev;
              height_committed = true;
            } in
            (send env (entrance cfg env rlc) >> λ w'. start_with w'.answers h r w') (with_rlc rlc w)
      ]
