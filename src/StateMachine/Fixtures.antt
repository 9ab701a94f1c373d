-- ===== src/StateMachine/Fixtures.antt =====
-- Concrete rounds of the state machine, for the runs in the examples.
use gordian.Prelude.{Bool, true, false, List, [], ◌∷◌, Option, some, refl}
use gordian.Consensus.Types.{empty_validator_set}
use gordian.Consensus.Step.{Step}
use gordian.Mirror.Fixtures.{two_validators, block, view_at}
use gordian.Mirror.Kernel.Entrance.{view}
use gordian.StateMachine.Lifecycle.{Timer, RoundLifecycle}
use gordian.StateMachine.World.{Signer, Config, Env, World, Outcome, ok, stopped, panic, hung}
use gordian.StateMachine.Events.{FinalizeBlockResponse}
use gordian.StateMachine.Ready.{IsReliable}

-- The signature of a vote or of a header is one byte.
abbrev pub first_signer : Signer
first_signer = record {
  pub_key = 1 ∷ [];
  sign_prevote = λ vt. some (vt.block_hash, 21 ∷ []);
  sign_precommit = λ vt. some (vt.block_hash, 22 ∷ []);
  sign_proposed_header = λ ph. some (23 ∷ []);
}

abbrev pub config : Config
config = record {
  signer = some first_signer;
  hash_scheme = record { pub_keys = λ keys. some (5 ∷ []); vote_powers = λ pows. some (6 ∷ []) };
  hash_block = λ header. some (7 ∷ []);
  genesis = record {
    initial_height = 1;
    current_app_state_hash = [];
    validator_set = two_validators;
  };
}

abbrev pub quiet : Env (List Bool)
quiet = record {
  fails = λ calls c. false;
  blocked = λ calls c. false;
  enter_round_fails = λ v. false;
}

pub quiet-IsReliable : IsReliable quiet
quiet-IsReliable = record {
  sent = λ calls c. refl;
  unblocked = λ calls c. refl;
  entered = λ v. refl;
}

abbrev pub round_at : Step → Option Timer → RoundLifecycle (List Bool)
round_at s t = record {
  h = 2;
  r = 0;
  s = s;
  step_timer = t;
  height_committed = true;
  cur_val_set = two_validators;
  prev_val_set = two_validators;
  vrv = some (view_at 2 0 (block ∷ []));
  prev_block_hash = 3 ∷ [];
  prev_fin_next_val_set = two_validators;
  prev_fin_app_state_hash = [];
  prev_considered_hashes = [];
  outgoing_actions_ch = true;
  proposal_ch = true;
  prevote_hash_ch = true;
  precommit_hash_ch = true;
  finalize_resp_ch = true;
  finalized_val_set = empty_validator_set;
  finalized_app_state_hash = [];
  finalized_block_hash = [];
  commit_wait_elapsed = false;
}

-- Height 2, round 0; the mirror's next answer is the first round of height 3.
abbrev pub world_at : Step → Option Timer → World (List Bool)
world_at s t = record {
  rlc = round_at s t;
  calls = [];
  answers = view (view_at 3 0 []) ∷ [];
  action_store = [];
  finalization_store = [];
  height_round = (2, 0);
  outgoing_actions = [];
}

abbrev pub finalized_block : FinalizeBlockResponse
finalized_block = record {
  height = 2;
  round = 0;
  block_hash = 7 ∷ [];
  validators = two_validators.validators;
  app_state_hash = 4 ∷ [];
}

-- Where a handler ends.
abbrev pub end_of : Outcome (List Bool) → World (List Bool) → World (List Bool)
end_of (ok w) v = w
end_of (stopped w) v = w
end_of panic v = v
end_of hung v = v
