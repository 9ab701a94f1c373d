-- ===== src/Store/Examples.antt =====
-- The stores on concrete calls.
use gordian.Prelude.{
  ℕ, ◌≡◌, refl, ◌==◌, ◌&&◌, List, [], ◌∷◌, ◌++◌, Bytes, bytes_eq, bytes_key, nat_eq, pair_key,
  lookup, insert, none, some, if◌then◌else◌,
}
use gordian.Consensus.Types.{
  Validator, empty_validator_set, ProposedHeader, zero_header, zero_proposed_header, VoteTarget,
  validators_to_pub_keys, validators_to_vote_powers,
}
use gordian.Mirror.Kernel.World.{SparseSignatureCollection}
use gordian.Store.Actions.{
  ActionStore, Action, prevote, precommit, saved, actions_at, with_prevote, save_prevote_action,
  save_actions, Stands, save_actions-Stands,
}
use gordian.Store.Finalizations.{
  Finalization, save_finalizations, load_finalization_by_height, first_of, load-save_finalizations,
}
use gordian.Store.Rounds.{
  RoundStore, headers_at, save_round_proposed_header, overwrite_round_prevote_proofs,
}
use gordian.Store.Proposers.{IsSound, save_round_proposed_header-IsSound}
use gordian.Store.Validators.{
  HashScheme, ValidatorStore, loaded, save_pub_keys, save_vote_powers, load_validators,
  load_validators-save,
}
use gordian.Store.Validators

abbrev own_key : Bytes
own_key = 9 ∷ []

abbrev target : Bytes → VoteTarget
target hash = record { height = 5; round = 1; block_hash = hash }

-- One prevote is recorded.
abbrev one_prevote : ActionStore
one_prevote = ((5, 1), with_prevote own_key (target (7 ∷ [])) (3 ∷ []) (actions_at [] 5 1)) ∷ []

-- A second prevote for another block comes, and a precommit.
abbrev calls : List Action
calls =
    prevote own_key (target (8 ∷ [])) (4 ∷ []) ∷ precommit own_key (target (7 ∷ [])) (6 ∷ []) ∷ []

save_actions-Stands_example :
    Stands (actions_at one_prevote 5 1) (actions_at (save_actions calls one_prevote) 5 1)
save_actions-Stands_example = save_actions-Stands calls one_prevote 5 1

first_prevote : save_prevote_action own_key (target (7 ∷ [])) (3 ∷ []) [] ≡ saved one_prevote
unfolding save_prevote_action lookup insert bytes_eq
first_prevote = refl

abbrev final_at : ℕ → Bytes → Finalization
final_at h hash = record {
  h = h;
  r = 0;
  block_hash = hash;
  val_set = empty_validator_set;
  app_state_hash = [];
}

-- Height 5 is finalized twice.
abbrev finals : List Finalization
finals = final_at 5 (7 ∷ []) ∷ final_at 6 (1 ∷ []) ∷ final_at 5 (8 ∷ []) ∷ []

load-save_finalizations_example :
    load_finalization_by_height 5 (save_finalizations finals []) ≡ first_of 5 finals none
unfolding lookup
load-save_finalizations_example = load-save_finalizations 5 finals []

abbrev header_5 : ProposedHeader
header_5 = record zero_proposed_header {
  header = record zero_header { hash = 7 ∷ []; height = 5 };
  round = 1;
  proposer_pub_key = own_key;
}

abbrev no_rounds : RoundStore
no_rounds = record { phs = []; prevotes = []; precommits = []; replayed_headers = [] }

abbrev one_header : RoundStore
one_header = record no_rounds { phs = (5, (1, (7 ∷ [], header_5 ∷ []) ∷ []) ∷ []) ∷ [] }

header_saved : save_round_proposed_header header_5 no_rounds ≡ some one_header
unfolding save_round_proposed_header lookup insert
header_saved = refl

no_rounds-IsSound : IsSound no_rounds
unfolding lookup
no_rounds-IsSound h r hash = tt

save_round_proposed_header-IsSound_example :
    ((k i : ℕ) (g : Bytes)
      → headers_at one_header k i g ≡ (
          if 5 == k && (1 == i && bytes_eq (7 ∷ []) g)
          then headers_at no_rounds 5 1 (7 ∷ []) ++ header_5 ∷ []
          else headers_at no_rounds k i g))
    × IsSound one_header
save_round_proposed_header-IsSound_example =
    save_round_proposed_header-IsSound header_5 no_rounds one_header header_saved no_rounds-IsSound

abbrev nil_votes : SparseSignatureCollection
nil_votes = record {
  pub_key_hash = 5 ∷ [];
  block_signatures = ([], record { key_id = 0 ∷ 0 ∷ []; sig = 3 ∷ [] } ∷ []) ∷ [];
}

abbrev with_nil_votes : RoundStore
with_nil_votes = overwrite_round_prevote_proofs 5 1 nil_votes one_header

-- Hashes that tell the number of keys or powers.
abbrev test_scheme : HashScheme
test_scheme = record { pub_keys = λ keys. some (concat_keys keys); vote_powers = λ pows. some pows }
  where
    concat_keys : List Bytes → Bytes
    concat_keys [] = []
    concat_keys (k ∷ ks) = k ++ concat_keys ks

abbrev two_validators : List Validator
two_validators =
    record { pub_key = own_key; power = 3 } ∷ record { pub_key = 2 ∷ []; power = 1 } ∷ []

abbrev no_validators : ValidatorStore
no_validators = record { keys = []; pows = [] }

abbrev with_keys : ValidatorStore
with_keys = record no_validators { keys = (9 ∷ 2 ∷ [], own_key ∷ (2 ∷ []) ∷ []) ∷ [] }

abbrev with_both : ValidatorStore
with_both = record with_keys { pows = (3 ∷ 1 ∷ [], 3 ∷ 1 ∷ []) ∷ [] }

keys_saved :
    save_pub_keys test_scheme (validators_to_pub_keys two_validators) no_validators
    ≡ Validators.saved (9 ∷ 2 ∷ []) with_keys
unfolding save_pub_keys validators_to_pub_keys lookup insert
keys_saved = refl

powers_saved :
    save_vote_powers test_scheme (validators_to_vote_powers two_validators) with_keys
    ≡ Validators.saved (3 ∷ 1 ∷ []) with_both
unfolding save_vote_powers validators_to_vote_powers lookup insert
powers_saved = refl

load_validators-save_example :
    load_validators (9 ∷ 2 ∷ []) (3 ∷ 1 ∷ []) with_both ≡ loaded two_validators
load_validators-save_example =
    load_validators-save test_scheme two_validators no_validators with_keys with_both (9 ∷ 2 ∷ [])
      (3 ∷ 1 ∷ []) keys_saved powers_saved
