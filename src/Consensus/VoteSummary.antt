-- ===== src/Consensus/VoteSummary.antt =====
-- tm/tmconsensus/votesummary.go. A range loop over a Go map visits the entries in an order of
-- the runtime's choice: here in the order of the list. A signature bit set is a list of Booleans,
-- one for each candidate key, read through the parameter `bits` (`SignatureBitSet`).
use gordian.Prelude.{
  ℕ, ◌+◌, Bool, true, false, List, [], ◌∷◌, u64, ltb, ◌==◌, if◌then◌else◌, Bytes, bytes_min, Map,
  insert, bytes_key,
}
use gordian.Consensus.Types.{Validator}

pub record VoteSummary : Type 0 where
  pub available_power : ℕ  -- uint64
  pub total_prevote_power : ℕ  -- uint64
  pub total_precommit_power : ℕ  -- uint64
  pub prevote_block_power : Map Bytes ℕ
  pub precommit_block_power : Map Bytes ℕ
  pub most_voted_prevote_hash : Bytes
  pub most_voted_precommit_hash : Bytes

unfoldable pub new_vote_summary : VoteSummary
new_vote_summary = record {
  available_power = 0;
  total_prevote_power = 0;
  total_precommit_power = 0;
  prevote_block_power = [];
  precommit_block_power = [];
  most_voted_prevote_hash = [];
  most_voted_precommit_hash = [];
}

-- The loop of `SetAvailablePower`.
unfoldable pub sum_powers : ℕ → List Validator → ℕ
sum_powers acc [] = acc
sum_powers acc (v ∷ vs) = sum_powers (u64 (acc + v.power)) vs

unfoldable pub set_available_power : VoteSummary → List Validator → VoteSummary
set_available_power vs vals = record vs { available_power = sum_powers 0 vals }

-- The inner loop over the set bits of one proof: the running total and the power of the block.
-- It ends at the last validator or past the last bit.
unfoldable pub add_votes : List Validator → List Bool → ℕ × ℕ → ℕ × ℕ
add_votes [] bs acc = acc
add_votes (v ∷ vs) [] acc = acc
add_votes (v ∷ vs) (true ∷ bs) (total, block) =
    add_votes vs bs (u64 (total + v.power), u64 (block + v.power))
add_votes (v ∷ vs) (false ∷ bs) acc = add_votes vs bs acc

-- The variables of the outer loop.
pub record Tally : Type 0 where
  pub total : ℕ
  pub block_power : Map Bytes ℕ
  pub max_hash : Bytes
  pub max_pow : ℕ

abbrev pub empty_tally : Tally
empty_tally = record { total = 0; block_power = []; max_hash = []; max_pow = 0 }

-- The body of the outer loop, once the votes of the block are added.
unfoldable pub record_block : Bytes → ℕ → ℕ → Tally → Tally
record_block block_hash total block_pow t =
    let max_hash =
      if block_pow == t.max_pow
      then bytes_min t.max_hash block_hash
      else if ltb t.max_pow block_pow
      then block_hash
      else t.max_hash in
    let max_pow = if ltb t.max_pow block_pow then block_pow else t.max_pow in
    record {
      total = total;
      block_power = insert block_hash block_pow t.block_power;
      max_hash = max_hash;
      max_pow = max_pow;
    }

module _ {P : Type 0} (bits : P → List Bool) where
  unfoldable pub tally_block : List Validator → Bytes → P → Tally → Tally
  tally_block vals block_hash proof t =
      let (total, block_pow) = add_votes vals (bits proof) (t.total, 0) in
      record_block block_hash total block_pow t

  unfoldable pub tally_votes : List Validator → Map Bytes P → Tally → Tally
  tally_votes vals [] t = t
  tally_votes vals ((block_hash, proof) ∷ rest) t =
      tally_votes vals rest (tally_block vals block_hash proof t)

  unfoldable pub set_prevote_powers : VoteSummary → List Validator → Map Bytes P → VoteSummary
  set_prevote_powers vs vals prevotes =
      let t = tally_votes vals prevotes empty_tally in
      record vs {
        total_prevote_power = t.total;
        prevote_block_power = t.block_power;
        most_voted_prevote_hash = t.max_hash;
      }

  unfoldable pub set_precommit_powers : VoteSummary → List Validator → Map Bytes P → VoteSummary
  set_precommit_powers vs vals precommits =
      let t = tally_votes vals precommits empty_tally in
      record vs {
        total_precommit_power = t.total;
        precommit_block_power = t.block_power;
        most_voted_precommit_hash = t.max_hash;
      }

  unfoldable pub set_vote_powers :
      VoteSummary → List Validator → Map Bytes P → Map Bytes P → VoteSummary
  set_vote_powers vs vals prevotes precommits =
      set_precommit_powers (set_prevote_powers vs vals prevotes) vals precommits

unfoldable pub reset_for_same_height : VoteSummary → VoteSummary
reset_for_same_height vs = record vs {
  total_prevote_power = 0;
  total_precommit_power = 0;
  prevote_block_power = [];
  precommit_block_power = [];
  most_voted_prevote_hash = [];
  most_voted_precommit_hash = [];
}

unfoldable pub reset : VoteSummary → VoteSummary
unfolding reset_for_same_height
reset vs = reset_for_same_height (record vs { available_power = 0 })
