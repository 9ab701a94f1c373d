-- ===== src/Store/RoundVotes.antt =====
-- What the round store gives back after votes are written (roundstore.go).
use gordian.Prelude.{
  ℕ, ◌≡◌, refl, ap, ◌∙◌, ◌⊎◌, Bool, true, false, [], Bytes, bytes_eq, bytes_key, nat_eq, Map,
  lookup, insert, get_or, lookup-insert, some, ◌==◌, ◌&&◌, if◌then◌else◌, arith,
}
use gordian.Mirror.Kernel.World.{SparseSignatureCollection}
use gordian.Store.Rounds.{
  RoundStore, overwrite_round_prevote_proofs, votes_at, round_state, load_round_state,
}

pub get_or-insert_nat :
    {V : Type 0} (k j : ℕ) (v d : V) (m : Map ℕ V)
    → get_or (insert k v m) j d ≡ (if k == j then v else get_or m j d)
get_or-insert_nat k j v d m = ground (arith, lookup-insert k j v m)

pub get_or-insert_bytes :
    {V : Type 0} (k j : Bytes) (v d : V) (m : Map Bytes V)
    → get_or (insert k v m) j d ≡ (if bytes_eq k j then v else get_or m j d)
get_or-insert_bytes k j v d m = ground (arith, lookup-insert k j v m)

-- The votes after a write: of the round written, and of any other.
votes_at-write :
    (m : Map ℕ (Map ℕ SparseSignatureCollection)) (h r k i : ℕ) (c : SparseSignatureCollection)
    → votes_at (insert h (insert r c (get_or m h [])) m) k i
      ≡ (if h == k && r == i then some c else votes_at m k i)
votes_at-write m h r k i c =
    ap (lookup i) (get_or-insert_nat h k (insert r c (get_or m h [])) [] m) ∙ go (h == k) refl
  where
    go :
        (b : Bool)
        → (h == k) ≡ b
        → lookup i (if b then insert r c (get_or m h []) else get_or m k [])
          ≡ (if b && r == i then some c else votes_at m k i)
    go true e = ground (arith, e, lookup-insert r i c (get_or m h []))
    go false e = refl

-- Writing the prevotes of a round makes the round known: loading it gives these prevotes, with the
-- rest of the round as it was. Every other round loads as before.
pub load-overwrite_prevotes :
    (h r : ℕ) (proofs : SparseSignatureCollection) (s : RoundStore)
    → let t = overwrite_round_prevote_proofs h r proofs s in
      (load_round_state h r t ≡ some (record (round_state h r s) { prevotes = some proofs }))
      × ((k i : ℕ) → ((h ≡ k) × (r ≡ i)) ⊎ (load_round_state k i t ≡ load_round_state k i s))
unfolding overwrite_round_prevote_proofs load_round_state round_state
load-overwrite_prevotes h r proofs s = (
  ground (arith, votes_at-write s.prevotes h r h r proofs),
  λ k i. ground (arith, votes_at-write s.prevotes h r k i proofs),
)
