-- ===== src/Consensus/Feedback.antt =====
-- tm/tmconsensus/feedbackmapper.go and the results of tm/tmconsensus/handler.go, with the feedback
-- of gexchange/feedback.go: how the p2p layer judges what the mirror says of a message.
use gordian.Prelude.{◌≡◌, ◌↔◌, ◌⊎◌, Option, none, some, arith}

pub data HandleProposedHeaderResult : Type 0 where
  header_unspecified header_accepted header_already_stored : HandleProposedHeaderResult
  header_signer_unrecognized header_bad_block_hash header_bad_signature : HandleProposedHeaderResult
  header_bad_prev_commit_proof_pub_key_hash : HandleProposedHeaderResult
  header_bad_prev_commit_proof_signature : HandleProposedHeaderResult
  header_bad_prev_commit_vote_count header_round_too_old : HandleProposedHeaderResult
  header_round_too_far_in_future header_internal_error : HandleProposedHeaderResult

pub data HandleVoteProofsResult : Type 0 where
  votes_unspecified votes_accepted votes_no_new_signatures votes_empty : HandleVoteProofsResult
  votes_bad_pub_key_hash votes_round_too_old votes_too_far_in_future : HandleVoteProofsResult
  votes_internal_error : HandleVoteProofsResult

pub data Feedback : Type 0 where
  accepted rejected ignored : Feedback

-- The mappers' methods once the handler has answered; `none` is the panic of their default case.
unfoldable pub accept_all_proposed_header : HandleProposedHeaderResult → Option Feedback
accept_all_proposed_header header_accepted = some accepted
accept_all_proposed_header header_already_stored = some accepted
accept_all_proposed_header header_round_too_old = some ignored
accept_all_proposed_header header_internal_error = some ignored
accept_all_proposed_header header_signer_unrecognized = some rejected
accept_all_proposed_header header_bad_signature = some rejected
accept_all_proposed_header header_bad_block_hash = some rejected
accept_all_proposed_header header_bad_prev_commit_proof_pub_key_hash = some rejected
accept_all_proposed_header header_bad_prev_commit_proof_signature = some rejected
accept_all_proposed_header header_bad_prev_commit_vote_count = some rejected
accept_all_proposed_header _ = none

unfoldable pub accept_all_vote_result : HandleVoteProofsResult → Option Feedback
accept_all_vote_result votes_no_new_signatures = some accepted
accept_all_vote_result votes_accepted = some accepted
accept_all_vote_result votes_round_too_old = some ignored
accept_all_vote_result votes_internal_error = some ignored
accept_all_vote_result votes_empty = some rejected
accept_all_vote_result votes_bad_pub_key_hash = some rejected
accept_all_vote_result _ = none

unfoldable pub drop_duplicate_proposed_header : HandleProposedHeaderResult → Option Feedback
drop_duplicate_proposed_header header_accepted = some accepted
drop_duplicate_proposed_header header_round_too_old = some ignored
drop_duplicate_proposed_header header_internal_error = some ignored
drop_duplicate_proposed_header header_already_stored = some ignored
drop_duplicate_proposed_header header_signer_unrecognized = some rejected
drop_duplicate_proposed_header header_bad_signature = some rejected
drop_duplicate_proposed_header header_bad_block_hash = some rejected
drop_duplicate_proposed_header header_bad_prev_commit_proof_pub_key_hash = some rejected
drop_duplicate_proposed_header header_bad_prev_commit_proof_signature = some rejected
drop_duplicate_proposed_header header_bad_prev_commit_vote_count = some rejected
drop_duplicate_proposed_header _ = none

unfoldable pub drop_duplicate_vote_result : HandleVoteProofsResult → Option Feedback
drop_duplicate_vote_result votes_accepted = some accepted
drop_duplicate_vote_result votes_round_too_old = some ignored
drop_duplicate_vote_result votes_no_new_signatures = some ignored
drop_duplicate_vote_result votes_internal_error = some ignored
drop_duplicate_vote_result votes_empty = some rejected
drop_duplicate_vote_result votes_bad_pub_key_hash = some rejected
drop_duplicate_vote_result _ = none

-- The two mappers panic on the same results: the unspecified one and the one that is too far in
-- the future. On all others they give the same feedback, but for a duplicate, which the one accepts
-- and the other ignores.
pub mappers_agree :
    (f : HandleProposedHeaderResult) (g : HandleVoteProofsResult)
    → ((accept_all_proposed_header f ≡ none)
        ↔ ((f ≡ header_unspecified) ⊎ (f ≡ header_round_too_far_in_future)))
      × ((accept_all_vote_result g ≡ none)
          ↔ ((g ≡ votes_unspecified) ⊎ (g ≡ votes_too_far_in_future)))
      × ((drop_duplicate_proposed_header f ≡ accept_all_proposed_header f)
          ⊎ ((f ≡ header_already_stored)
              × (accept_all_proposed_header f ≡ some accepted)
              × (drop_duplicate_proposed_header f ≡ some ignored)))
      × ((drop_duplicate_vote_result g ≡ accept_all_vote_result g)
          ⊎ ((g ≡ votes_no_new_signatures)
              × (accept_all_vote_result g ≡ some accepted)
              × (drop_duplicate_vote_result g ≡ some ignored)))
unfolding accept_all_proposed_header accept_all_vote_result drop_duplicate_proposed_header
    drop_duplicate_vote_result
mappers_agree f g = ground arith
