-- ===== src/Store/Rounds.antt =====
-- tm/tmstore/tmmemstore/roundstore.go: proposed headers, votes and replayed headers by round. A
-- stored collection has a non-nil map of signatures, as the kernel makes them, so `none` stands for
-- the zero collection that a missing key reads as. A range loop goes in the order of the list.
use gordian.Prelude.{
  ℕ, Bool, false, List, [], ◌∷◌, ◌++◌, Bytes, bytes_eq, bytes_key, nat_eq, Map, lookup, insert, has,
  get_or, contains_func, Option, none, some, ◌||◌, if◌then◌else◌,
}
use gordian.Consensus.Types.{Header, ProposedHeader, zero_proposed_header}
use gordian.Mirror.Kernel.World.{SparseSignatureCollection}

pub record RoundStore : Type 0 where
  pub phs : Map ℕ (Map ℕ (Map Bytes (List ProposedHeader)))
  pub prevotes : Map ℕ (Map ℕ SparseSignatureCollection)
  pub precommits : Map ℕ (Map ℕ SparseSignatureCollection)
  pub replayed_headers : Map ℕ (List Header)

-- The headers under a height, a round and a hash.
abbrev pub headers_at : RoundStore → ℕ → ℕ → Bytes → List ProposedHeader
headers_at s h r hash = get_or (get_or (get_or s.phs h []) r []) hash []

abbrev pub has_proposer : ProposedHeader → List ProposedHeader → Bool
has_proposer ph = contains_func (λ p. bytes_eq ph.proposer_pub_key p.proposer_pub_key)

-- `none` is the OverwriteError on the proposer's key.
unfoldable pub save_round_proposed_header : ProposedHeader → RoundStore → Option RoundStore
save_round_proposed_header ph s =
    let h = ph.header.height in
    let by_round = get_or s.phs h [] in
    let by_hash = get_or by_round ph.round [] in
    let have = get_or by_hash ph.header.hash [] in
    if has_proposer ph have
    then none
    else some (record s {
      phs =
          insert h (insert ph.round (insert ph.header.hash (have ++ ph ∷ []) by_hash) by_round)
            s.phs;
    })

-- Some round of the height has a header with the hash.
unfoldable pub has_hash : Bytes → Map ℕ (Map Bytes (List ProposedHeader)) → Bool
has_hash hash [] = false
has_hash hash ((r, by_hash) ∷ m) = has hash by_hash || has_hash hash m

-- `none` is the OverwriteError on the hash.
unfoldable pub save_round_replayed_header : Header → RoundStore → Option RoundStore
save_round_replayed_header h s =
    if has_hash h.hash (get_or s.phs h.height [])
    then none
    else some (record s {
      replayed_headers =
          insert h.height (get_or s.replayed_headers h.height [] ++ h ∷ []) s.replayed_headers;
    })

unfoldable pub overwrite_round_prevote_proofs :
    ℕ → ℕ → SparseSignatureCollection → RoundStore → RoundStore
overwrite_round_prevote_proofs h r proofs s = record s {
  prevotes = insert h (insert r proofs (get_or s.prevotes h [])) s.prevotes;
}

unfoldable pub overwrite_round_precommit_proofs :
    ℕ → ℕ → SparseSignatureCollection → RoundStore → RoundStore
overwrite_round_precommit_proofs h r proofs s = record s {
  precommits = insert h (insert r proofs (get_or s.precommits h [])) s.precommits;
}

-- The loop over the hashes of a round.
unfoldable pub all_headers : Map Bytes (List ProposedHeader) → List ProposedHeader
all_headers [] = []
all_headers ((hash, phs) ∷ m) = phs ++ all_headers m

-- The loop over the replayed headers, for one hash.
unfoldable pub replayed_with : Bytes → List Header → List ProposedHeader
replayed_with hash [] = []
replayed_with hash (rh ∷ rhs) =
    let rest = replayed_with hash rhs in
    if bytes_eq hash rh.hash then record zero_proposed_header { header = rh } ∷ rest else rest

-- The loop over the hashes of the precommits; the nil hash is passed over.
unfoldable pub replayed_of : {V : Type 0} → Map Bytes V → List Header → List ProposedHeader
replayed_of [] rhs = []
replayed_of ((hash, sigs) ∷ m) rhs =
    let rest = replayed_of m rhs in
    if bytes_eq hash [] then rest else replayed_with hash rhs ++ rest

abbrev pub replayed_at : Option SparseSignatureCollection → List Header → List ProposedHeader
replayed_at none rhs = []
replayed_at (some c) rhs = replayed_of c.block_signatures rhs

pub record RoundState : Type 0 where
  pub phs : List ProposedHeader
  pub prevotes : Option SparseSignatureCollection
  pub precommits : Option SparseSignatureCollection

abbrev pub votes_at :
    Map ℕ (Map ℕ SparseSignatureCollection) → ℕ → ℕ → Option SparseSignatureCollection
votes_at m h r = lookup r (get_or m h [])

unfoldable pub round_state : ℕ → ℕ → RoundStore → RoundState
round_state h r s =
    let precommits = votes_at s.precommits h r in
    let rhs = get_or s.replayed_headers h [] in
    record {
      phs = all_headers (get_or (get_or s.phs h []) r []) ++ replayed_at precommits rhs;
      prevotes = votes_at s.prevotes h r;
      precommits = precommits;
    }

-- `none` is the RoundUnknownError.
unfoldable pub load_round_state : ℕ → ℕ → RoundStore → Option RoundState
load_round_state h r s =
    let st = round_state h r s in
    elim st.prevotes [
      | some p ↦ some st
      | none ↦ elim st.precommits [
        | some c ↦ some st
        | none ↦ elim st.phs [ [] ↦ none | ph ∷ rest ↦ some st ]
      ]
    ]
