-- ===== src/Consensus/Examples.antt =====
-- The consensus arithmetic on concrete validators and votes.
use gordian.Prelude.{
  ◌+◌, ◌*◌, ◌≤◌, ◌<◌, ◌≡◌, ◌↔◌, ◌⊎◌, refl, Bool, true, false, List, [], ◌∷◌, Bytes, bytes_eq,
  bytes_key, Map, get_or, lookup, Distinct, none, some, arith,
}
use mathlib.Core.List.{Permᴰ}
use gordian.Consensus.Types.{Validator}
use gordian.Consensus.Math.{
  byzantine_majority, byzantine_minority, byzantine_majority_least, quorum_intersection,
}
use gordian.Consensus.Trust.{
  can_trust_validators, total_power, trusted_power, can_trust_validators_iff,
}
use gordian.Consensus.VoteSummary.{VoteSummary, set_vote_powers, set_prevote_powers}
use gordian.Consensus.Summary.{Summarises, set_vote_powers-Summarises, set_prevote_powers_any_order}
use gordian.Consensus.Step.{commit_wait, get_step_from_vote_summary, commit_wait_iff}
use gordian.Consensus.Feedback.{
  header_already_stored, votes_too_far_in_future, header_unspecified,
  header_round_too_far_in_future, votes_unspecified, votes_no_new_signatures, accepted, ignored,
  accept_all_proposed_header, accept_all_vote_result, drop_duplicate_proposed_header,
  drop_duplicate_vote_result, mappers_agree,
}

majority_of_ten : byzantine_majority 10 ≡ some 7
unfolding byzantine_majority
majority_of_ten = refl

minority_of_ten : byzantine_minority 10 ≡ some 4
unfolding byzantine_minority
minority_of_ten = refl

byzantine_majority_least_example : ((7 ≤ 6) ↔ (2 * 10 < 3 * 6)) × (7 ≤ 10)
byzantine_majority_least_example = byzantine_majority_least 10 7 6 (omega arith) majority_of_ten

quorum_intersection_example : 4 ≤ 5
quorum_intersection_example =
    quorum_intersection 10 7 4 8 7 5 (omega arith) majority_of_ten minority_of_ten (omega arith)
      (omega arith) (omega arith)

abbrev four_validators : List Validator
four_validators =
    record { pub_key = 1 ∷ []; power = 4 }
    ∷ record { pub_key = 2 ∷ []; power = 3 }
    ∷ record { pub_key = 3 ∷ []; power = 2 }
    ∷ record { pub_key = 4 ∷ []; power = 1 }
    ∷ []

can_trust_validators_iff_example :
    (can_trust_validators four_validators ((1 ∷ []) ∷ []) ≡ some true)
    ↔ (total_power four_validators + 6 ≤ 3 * trusted_power ((1 ∷ []) ∷ []) four_validators)
can_trust_validators_iff_example =
    can_trust_validators_iff four_validators ((1 ∷ []) ∷ []) (omega arith) (omega arith)

-- The first and the second validator vote for one block, the fourth for nil.
abbrev votes : Map Bytes (List Bool)
votes = (7 ∷ [], true ∷ true ∷ []) ∷ ([], false ∷ false ∷ false ∷ true ∷ []) ∷ []

abbrev swapped_votes : Map Bytes (List Bool)
swapped_votes = ([], false ∷ false ∷ false ∷ true ∷ []) ∷ (7 ∷ [], true ∷ true ∷ []) ∷ []

abbrev unset_summary : VoteSummary
unset_summary = record {
  available_power = 10;
  total_prevote_power = 0;
  total_precommit_power = 0;
  prevote_block_power = [];
  precommit_block_power = [];
  most_voted_prevote_hash = [];
  most_voted_precommit_hash = [];
}

votes-Distinct : Distinct votes
unfolding lookup bytes_eq
votes-Distinct = (refl, (refl, tt))

abbrev bits_of : List Bool → List Bool
bits_of p = p

abbrev summary : VoteSummary
summary = set_vote_powers bits_of unset_summary four_validators votes []

set_vote_powers-Summarises_example :
    Summarises bits_of four_validators votes summary.total_prevote_power summary.prevote_block_power
      summary.most_voted_prevote_hash
    × Summarises bits_of four_validators [] summary.total_precommit_power
        summary.precommit_block_power summary.most_voted_precommit_hash
    × (summary.available_power ≡ unset_summary.available_power)
set_vote_powers-Summarises_example =
    set_vote_powers-Summarises bits_of four_validators unset_summary votes [] votes-Distinct tt

abbrev prevotes_first : VoteSummary
prevotes_first = set_prevote_powers bits_of unset_summary four_validators votes

abbrev prevotes_swapped : VoteSummary
prevotes_swapped = set_prevote_powers bits_of unset_summary four_validators swapped_votes

set_prevote_powers_any_order_example :
    (prevotes_first.total_prevote_power ≡ prevotes_swapped.total_prevote_power)
    × ((h : Bytes)
        → lookup h prevotes_first.prevote_block_power
          ≡ lookup h prevotes_swapped.prevote_block_power)
    × (prevotes_first.most_voted_prevote_hash ≡ prevotes_swapped.most_voted_prevote_hash)
set_prevote_powers_any_order_example =
    set_prevote_powers_any_order bits_of four_validators unset_summary votes swapped_votes
      (Permᴰ.swap refl refl) votes-Distinct

-- Seven of ten precommit one block.
abbrev decided : VoteSummary
decided = record unset_summary {
  total_precommit_power = 8;
  precommit_block_power = (7 ∷ [], 7) ∷ ([], 1) ∷ [];
  most_voted_precommit_hash = 7 ∷ [];
}

commit_wait_iff_example : (get_step_from_vote_summary decided ≡ some commit_wait) ↔ (
    (2 * 10 < 3 * 8)
    × (2 * 10 < 3 * get_or decided.precommit_block_power decided.most_voted_precommit_hash 0))
commit_wait_iff_example = commit_wait_iff decided (omega arith) (omega arith)

mappers_agree_example :
    ((accept_all_proposed_header header_already_stored ≡ none) ↔ (
      (header_already_stored ≡ header_unspecified)
      ⊎ (header_already_stored ≡ header_round_too_far_in_future)))
    × ((accept_all_vote_result votes_too_far_in_future ≡ none) ↔ (
        (votes_too_far_in_future ≡ votes_unspecified)
        ⊎ (votes_too_far_in_future ≡ votes_too_far_in_future)))
    × ((drop_duplicate_proposed_header header_already_stored
          ≡ accept_all_proposed_header header_already_stored)
        ⊎ ((header_already_stored ≡ header_already_stored)
            × (accept_all_proposed_header header_already_stored ≡ some accepted)
            × (drop_duplicate_proposed_header header_already_stored ≡ some ignored)))
    × ((drop_duplicate_vote_result votes_too_far_in_future
          ≡ accept_all_vote_result votes_too_far_in_future)
        ⊎ ((votes_too_far_in_future ≡ votes_no_new_signatures)
            × (accept_all_vote_result votes_too_far_in_future ≡ some accepted)
            × (drop_duplicate_vote_result votes_too_far_in_future ≡ some ignored)))
mappers_agree_example = mappers_agree header_already_stored votes_too_far_in_future
