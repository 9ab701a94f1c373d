-- ===== src/Store/Proposers.antt =====
-- The round store keeps one header from each proposer (roundstore.go).
use gordian.Prelude.{
  ℕ, ◌≡◌, ◌≢◌, refl, sym, ap, subst, ◌∙◌, inl, inr, Bool, true, false, List, [], ◌∷◌, ◌++◌, Bytes,
  bytes_eq, bytes_eq_iff, bytes_key, nat_eq, Map, insert, get_or, some, ◌==◌, ◌&&◌, if◌then◌else◌,
  arith, Bool-cases,
}
use gordian.Consensus.Types.{ProposedHeader}
use gordian.Store.Rounds.{RoundStore, headers_at, has_proposer, save_round_proposed_header}
use gordian.Store.RoundVotes.{get_or-insert_nat, get_or-insert_bytes}

-- No two headers of the list are from one proposer.
abbrev pub OneEach : List ProposedHeader → Type 0
OneEach [] = Unit {0}
OneEach (p ∷ ps) = (has_proposer p ps ≡ false) × OneEach ps

-- Under every height, round and hash there is at most one header from each proposer.
abbrev pub IsSound : RoundStore → Type 0
IsSound s = (h r : ℕ) (hash : Bytes) → OneEach (headers_at s h r hash)

has_proposer-append :
    (p ph : ProposedHeader) (phs : List ProposedHeader)
    → has_proposer p phs ≡ false
    → p.proposer_pub_key ≢ ph.proposer_pub_key
    → has_proposer p (phs ++ ph ∷ []) ≡ false
has_proposer-append p ph [] e ne =
    ground (arith, ne, bytes_eq_iff p.proposer_pub_key ph.proposer_pub_key)
has_proposer-append p ph (q ∷ phs) e ne = ground (arith, e, has_proposer-append p ph phs)

OneEach-append :
    (ph : ProposedHeader) (phs : List ProposedHeader)
    → has_proposer ph phs ≡ false
    → OneEach phs
    → OneEach (phs ++ ph ∷ [])
OneEach-append ph [] e o = (refl, tt)
OneEach-append ph (p ∷ phs) e o = (
  has_proposer-append p ph phs o.0
      (ground (arith, e, bytes_eq_iff ph.proposer_pub_key p.proposer_pub_key)),
  OneEach-append ph phs (ground (arith, e)) o.1,
)

abbrev headers_in :
    Map ℕ (Map ℕ (Map Bytes (List ProposedHeader))) → ℕ → ℕ → Bytes → List ProposedHeader
headers_in m h r hash = get_or (get_or (get_or m h []) r []) hash []

-- The headers after a write, under any height, round and hash.
headers_in-write :
    (m : Map ℕ (Map ℕ (Map Bytes (List ProposedHeader)))) (h r k i : ℕ) (hash g : Bytes)
    (xs : List ProposedHeader)
    → let by_round = get_or m h [] in
      headers_in (insert h (insert r (insert hash xs (get_or by_round r [])) by_round) m) k i g
      ≡ (if h == k && (r == i && bytes_eq hash g) then xs else headers_in m k i g)
headers_in-write m h r k i hash g xs =
    let by_round = get_or m h [] in
    let by_hash = get_or by_round r [] in
    ap (λ x. get_or (get_or x i []) g [])
      (get_or-insert_nat h k (insert r (insert hash xs by_hash) by_round) [] m)
    ∙ outer (h == k) refl
  where
    inner :
        (b : Bool)
        → (h == k) ≡ true
        → (r == i) ≡ b
        → get_or
            (if b
              then insert hash xs (get_or (get_or m h []) r [])
              else get_or (get_or m h []) i [])
            g
            []
          ≡ (if b && bytes_eq hash g then xs else headers_in m k i g)
    inner true e d =
        ground (arith, e, d, get_or-insert_bytes hash g xs [] (get_or (get_or m h []) r []))
    inner false e d = ground (arith, e)

    outer :
        (b : Bool)
        → (h == k) ≡ b
        → get_or
            (get_or
              (if b
                then insert r (insert hash xs (get_or (get_or m h []) r [])) (get_or m h [])
                else get_or m k [])
              i
              [])
            g
            []
          ≡ (if b && (r == i && bytes_eq hash g) then xs else headers_in m k i g)
    outer true e =
        ap (λ x. get_or x g [])
          (get_or-insert_nat r i (insert hash xs (get_or (get_or m h []) r [])) [] (get_or m h []))
        ∙ inner (r == i) e refl
    outer false e = refl

save_inv :
    (ph : ProposedHeader) (s t : RoundStore)
    → save_round_proposed_header ph s ≡ some t
    → let h = ph.header.height in
      let xs = headers_at s h ph.round ph.header.hash ++ ph ∷ [] in
      let by_round = get_or s.phs h [] in
      (has_proposer ph (headers_at s h ph.round ph.header.hash) ≡ false)
      × (t.phs
          ≡ insert h
              (insert ph.round (insert ph.header.hash xs (get_or by_round ph.round [])) by_round)
              s.phs)
unfolding save_round_proposed_header
save_inv ph s t e =
    elim (Bool-cases (has_proposer ph (headers_at s ph.header.height ph.round ph.header.hash))) [
      | inl b ↦ absurd (ground (arith, e, b))
      | inr b ↦ (b, ground (arith, e, b))
    ]

-- A proposed header that the store takes stands at the end of its height, round and hash; whatever
-- stands under another height, round or hash is as it was. If no two headers of one proposer stood
-- under one height, round and hash, none do afterwards.
pub save_round_proposed_header-IsSound :
    (ph : ProposedHeader) (s t : RoundStore)
    → save_round_proposed_header ph s ≡ some t
    → IsSound s
    → ((k i : ℕ) (g : Bytes)
        → headers_at t k i g ≡ (
            if ph.header.height == k && (ph.round == i && bytes_eq ph.header.hash g)
            then headers_at s ph.header.height ph.round ph.header.hash ++ ph ∷ []
            else headers_at s k i g))
      × IsSound t
save_round_proposed_header-IsSound ph s t e sound =
    let (fresh, q) = save_inv ph s t e in
    let h = ph.header.height in
    let have = headers_at s h ph.round ph.header.hash in
    let same = λ (k i : ℕ) (g : Bytes).
      ap (λ m. headers_in m k i g) q
      ∙ headers_in-write s.phs h ph.round k i ph.header.hash g (have ++ ph ∷ []) in
    (
      same,
      λ k i g. subst OneEach (sym (same k i g)) (
          cond_One (h == k && (ph.round == i && bytes_eq ph.header.hash g)) (have ++ ph ∷ [])
            (headers_at s k i g) (OneEach-append ph have fresh (sound h ph.round ph.header.hash))
            (sound k i g)),
    )
  where
    cond_One :
        (b : Bool) (xs ys : List ProposedHeader)
        → OneEach xs
        → OneEach ys
        → OneEach (if b then xs else ys)
    cond_One true xs ys o p = o
    cond_One false xs ys o p = p
