-- ===== src/Mirror/Kernel/Fetch.antt =====
-- Requests for missing proposed headers: `checkMissingPHs` in kernel.go, and votedistribution.go.
use gordian.Prelude.{
  ℕ, ◌||◌, List, [], ◌∷◌, Bytes, bytes_eq, bytes_key, Map, insert, has, get_or, none, some,
  if◌then◌else◌, ltb, contains_func,
}
use gordian.Consensus.Types.{Validator}
use gordian.Consensus.Math.{byzantine_minority}
use gordian.Consensus.VoteSummary.{sum_powers, add_votes}
use gordian.Mirror.KState.{KState}
use gordian.Mirror.Kernel.World.{
  SignatureProofs, fetch_request, Env, World, Outcome, done, panic, call,
}

pub record VoteDistribution : Type 0 where
  pub available_vote_power : ℕ
  pub vote_power_present : ℕ
  pub block_vote_power : Map Bytes ℕ

module _ {P : Type 0} where
  -- A missing hash with at least the minority power is requested, unless the channel is blocked.
  unfoldable pub request_one : Env → ℕ → Map Bytes ℕ → Bytes → World P → World P
  request_one env min powers h w =
      let s = w.state in
      if ltb (get_or powers h 0) min || env.fetch_blocked h
      then w
      else record (call (fetch_request s.voting.height h) w) {
        state = record s { in_flight_fetch_phs = insert h tt s.in_flight_fetch_phs };
      }

  unfoldable pub request_all : Env → ℕ → Map Bytes ℕ → List Bytes → World P → World P
  request_all env min powers [] w = w
  request_all env min powers (h ∷ hs) w =
      request_all env min powers hs (request_one env min powers h w)

module _ {P : Type 0} (proofs_of : SignatureProofs P) where
  -- The loop over the proofs. A block with no counted vote reads as power zero either way.
  unfoldable pub distribute : List Validator → Map Bytes P → ℕ → Map Bytes ℕ → ℕ × Map Bytes ℕ
  distribute vals [] present powers = (present, powers)
  distribute vals ((h, p) ∷ m) present powers =
      let (present', pow) = add_votes vals (proofs_of.bits p) (present, get_or powers h 0) in
      distribute vals m present' (insert h pow powers)

  unfoldable pub new_vote_distribution : Map Bytes P → List Validator → VoteDistribution
  new_vote_distribution proofs vals =
      let (present, powers) = distribute vals proofs 0 [] in
      record {
        available_vote_power = sum_powers 0 vals;
        vote_power_present = present;
        block_vote_power = powers;
      }

  -- The hashes voted for that are not nil, have no proposed header and are not in flight.
  unfoldable pub missing_hashes : KState P → Map Bytes P → List Bytes
  missing_hashes s [] = []
  missing_hashes s ((h, p) ∷ m) =
      let rest = missing_hashes s m in
      if bytes_eq h []
        || (contains_func (λ ph. bytes_eq ph.header.hash h) s.voting.proposed_headers
            || has h s.in_flight_fetch_phs)
      then rest
      else h ∷ rest

  unfoldable pub request_missing : Env → Map Bytes P → List Bytes → World P → Outcome P
  request_missing env proofs [] w = done w
  request_missing env proofs (h ∷ hs) w =
      let dist = new_vote_distribution proofs w.state.voting.validator_set.validators in
      elim (byzantine_minority dist.available_vote_power) [
        | none ↦ panic
        | some min ↦ done (request_all env min dist.block_vote_power (h ∷ hs) w)
      ]

  -- An empty map of proofs panics: `make` is given the capacity -1.
  unfoldable pub check_missing_phs : Env → Map Bytes P → World P → Outcome P
  check_missing_phs env [] w = panic
  check_missing_phs env (e ∷ m) w = request_missing env (e ∷ m) (missing_hashes w.state (e ∷ m)) w
