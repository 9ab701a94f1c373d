-- ===== src/Consensus/Tally.antt =====
-- What a vote summary holds, whatever order the runtime visits the votes in: the properties of
-- `SetPrevotePowers` and `SetPrecommitPowers` (tm/tmconsensus/votesummary.go).
use gordian.Prelude.{
  ℕ, ◌+◌, ◌<◌, ◌≡◌, refl, sym, ap, subst, ◌∙◌, ◌⊎◌, inr, Bool, true, false, List, [], ◌∷◌, u64,
  Bytes, bytes_leb, bytes_leb_total, bytes_leb_trans, bytes_leb_refl, bytes_leb-nil, bytes_eq_iff,
  Map, get_or, bytes_key, insert, lookup, lookup-insert, has, Distinct, none, some, arith,
}
use gordian.Consensus.Types.{Validator}
use gordian.Consensus.VoteSummary.{Tally, add_votes, record_block, tally_block, tally_votes}

-- The voting power behind a bit set, as a plain sum.
abbrev pub voted_power : List Validator → List Bool → ℕ
voted_power [] bs = 0
voted_power (v ∷ vs) [] = 0
voted_power (v ∷ vs) (true ∷ bs) = v.power + voted_power vs bs
voted_power (v ∷ vs) (false ∷ bs) = voted_power vs bs

-- The two accumulators of the inner loop grow by the same power, modulo 2^64.
pub add_votes_lem :
    (vals : List Validator) (bs : List Bool) (total block : ℕ)
    → add_votes vals bs (u64 total, u64 block)
      ≡ (u64 (total + voted_power vals bs), u64 (block + voted_power vals bs))
unfolding add_votes
add_votes_lem [] bs total block = ground arith
add_votes_lem (v ∷ vs) [] total block = ground arith
add_votes_lem (v ∷ vs) (true ∷ bs) total block =
    ground (arith, add_votes_lem vs bs (total + v.power) (block + v.power))
add_votes_lem (v ∷ vs) (false ∷ bs) total block = add_votes_lem vs bs total block

-- The candidate with more power leads; between equal powers, the lexicographically earlier hash.
abbrev pub Leads : ℕ → Bytes → ℕ → Bytes → Type 0
Leads pow hash pow' hash' = (pow' < pow) ⊎ ((pow' ≡ pow) × (bytes_leb hash hash' ≡ true))

Leads-refl : (pow : ℕ) (h : Bytes) → Leads pow h pow h
Leads-refl pow h = inr (refl, bytes_leb_refl h)

Leads-trans : (p q r : ℕ) (a b c : Bytes) → Leads p a q b → Leads q b r c → Leads p a r c
Leads-trans p q r a b c h k = ground (arith, bytes_leb_trans a b c)

-- One entry: the new leader leads both the old one and the entry.
record_block-Leads :
    (h : Bytes) (total pow : ℕ) (t : Tally)
    → let t' = record_block h total pow t in
      Leads t'.max_pow t'.max_hash t.max_pow t.max_hash × Leads t'.max_pow t'.max_hash pow h
unfolding record_block
record_block-Leads h total pow t =
    ground (arith, bytes_leb_total t.max_hash h, bytes_leb_refl t.max_hash, bytes_leb_refl h)

-- The leader's power is on record, and only the nil hash leads without power.
abbrev pub IsRecorded : Tally → Type 0
IsRecorded t = (get_or t.block_power t.max_hash 0 ≡ t.max_pow) × (t.max_pow ≡ 0 → t.max_hash ≡ [])

record_block-IsRecorded :
    (h : Bytes) (total pow : ℕ) (t : Tally)
    → has h t.block_power ≡ false
    → IsRecorded t
    → IsRecorded (record_block h total pow t)
unfolding record_block
record_block-IsRecorded h total pow t fresh r = ground (
  arith,
  lookup-insert h h pow t.block_power,
  lookup-insert h t.max_hash pow t.block_power,
  bytes_eq_iff h h,
  bytes_eq_iff h t.max_hash,
  bytes_leb-nil t.max_hash h,
)

module _ {P : Type 0} (bits : P → List Bool) (vals : List Validator) where
  -- The power that one block gets, and all of them together.
  abbrev pub power_of : P → ℕ
  power_of p = u64 (voted_power vals (bits p))

  abbrev pub all_powers : Map Bytes P → ℕ
  all_powers [] = 0
  all_powers ((h, p) ∷ m) = voted_power vals (bits p) + all_powers m

  tally_block_lem :
      (h : Bytes) (p : P) (t : Tally) (n : ℕ)
      → t.total ≡ u64 n
      → tally_block bits vals h p t
        ≡ record_block h (u64 (n + voted_power vals (bits p))) (power_of p) t
  unfolding tally_block
  tally_block_lem h p t n e =
      let v = voted_power vals (bits p) in
      ap (λ x. let acc = add_votes vals (bits p) (x, 0) in record_block h acc.0 acc.1 t) e
      ∙ (ap (λ acc. record_block h acc.0 acc.1 t) (add_votes_lem vals (bits p) n 0)
          ∙ ap (λ x. record_block h (u64 (n + v)) x t) (omega arith))

  lookup_step :
      (j h : Bytes) (p : P) (m : Map Bytes P) (t t' : Tally)
      → t'.block_power ≡ insert h (power_of p) t.block_power
      → has h m ≡ false
      → (elim (lookup j m) [ none ↦ lookup j t'.block_power | some r ↦ some (power_of r) ])
        ≡ (elim (lookup j ((h, p) ∷ m)) [
          | none ↦ lookup j t.block_power
          | some r ↦ some (power_of r)
        ])
  unfolding lookup
  lookup_step j h p m t t' b fresh =
      ground (arith, lookup-insert h j (power_of p) t.block_power, bytes_eq_iff h j)

  pub tally_votes_total :
      (m : Map Bytes P) (t : Tally) (n : ℕ)
      → t.total ≡ u64 n
      → (tally_votes bits vals m t).total ≡ u64 (n + all_powers m)
  unfolding tally_votes
  tally_votes_total [] t n e = ground arith
  tally_votes_total ((h, p) ∷ m) t n e =
      let t' = record_block h (u64 (n + voted_power vals (bits p))) (power_of p) t in
      ap (λ t'. (tally_votes bits vals m t').total) (tally_block_lem h p t n e)
      ∙ (tally_votes_total m t' (n + voted_power vals (bits p)) (unfold record_block in refl)
          ∙ ap u64 (omega arith))

  -- The block powers after the loop: those of the map, over those from before.
  pub lookup-tally_votes :
      (j : Bytes) (m : Map Bytes P) (t : Tally) (n : ℕ)
      → t.total ≡ u64 n
      → Distinct m
      → lookup j (tally_votes bits vals m t).block_power
        ≡ elim (lookup j m) [ none ↦ lookup j t.block_power | some p ↦ some (power_of p) ]
  unfolding tally_votes
  lookup-tally_votes j [] t n e d = unfold lookup in refl
  lookup-tally_votes j ((h, p) ∷ m) t n e d =
      let q = power_of p in
      let t' = record_block h (u64 (n + voted_power vals (bits p))) q t in
      let b : t'.block_power ≡ insert h q t.block_power = unfold record_block in refl in
      let ih =
        lookup-tally_votes j m t' (n + voted_power vals (bits p)) (unfold record_block in refl)
          d.1 in
      ap (λ t''. lookup j (tally_votes bits vals m t'').block_power) (tally_block_lem h p t n e)
      ∙ (ih ∙ lookup_step j h p m t t' b d.0)

  fresh_step :
      (h j : Bytes) (p : P) (m : Map Bytes P) (t t' : Tally)
      → t'.block_power ≡ insert h (power_of p) t.block_power
      → has h m ≡ false
      → has j m ≡ true
      → (has j ((h, p) ∷ m) ≡ true → has j t.block_power ≡ false)
      → has j t'.block_power ≡ false
  unfolding lookup
  fresh_step h j p m t t' b other k fresh =
      ground (arith, lookup-insert h j (power_of p) t.block_power, bytes_eq_iff h j)

  lead_step :
      (h j : Bytes) (p q : P) (m : Map Bytes P) (pow : ℕ) (w : Bytes)
      → Leads pow w (power_of p) h
      → (lookup j m ≡ some q → Leads pow w (power_of q) j)
      → lookup j ((h, p) ∷ m) ≡ some q
      → Leads pow w (power_of q) j
  unfolding lookup
  lead_step h j p q m pow w new rest l = ground (arith, bytes_eq_iff h j)

  -- The leader after the loop leads where the loop began and every entry on the way.
  pub tally_votes-Leads :
      (m : Map Bytes P) (t : Tally) (n : ℕ)
      → t.total ≡ u64 n
      → let t' = tally_votes bits vals m t in
        Leads t'.max_pow t'.max_hash t.max_pow t.max_hash
        × ((h : Bytes) (p : P) → lookup h m ≡ some p → Leads t'.max_pow t'.max_hash (power_of p) h)
  unfolding tally_votes
  tally_votes-Leads [] t n e = (Leads-refl t.max_pow t.max_hash, λ h p l. unfold lookup in cc)
  tally_votes-Leads ((h, p) ∷ m) t n e =
      let v = voted_power vals (bits p) in
      let t' = record_block h (u64 (n + v)) (power_of p) t in
      let u = tally_votes bits vals m (tally_block bits vals h p t) in
      let q : tally_votes bits vals m t' ≡ u =
        ap (tally_votes bits vals m) (sym (tally_block_lem h p t n e)) in
      let ih =
        subst
          (λ x.
            Leads x.max_pow x.max_hash t'.max_pow t'.max_hash
            × ((j : Bytes) (r : P)
                → lookup j m ≡ some r
                → Leads x.max_pow x.max_hash (power_of r) j))
          q (tally_votes-Leads m t' (n + v) (unfold record_block in refl)) in
      let new = record_block-Leads h (u64 (n + v)) (power_of p) t in
      (
        Leads-trans u.max_pow t'.max_pow t.max_pow u.max_hash t'.max_hash t.max_hash ih.0 new.0,
        λ j r.
            lead_step h j p r m u.max_pow u.max_hash
              (Leads-trans u.max_pow t'.max_pow (power_of p) u.max_hash t'.max_hash h ih.0 new.1)
              (ih.1 j r),
      )

  pub tally_votes-IsRecorded :
      (m : Map Bytes P) (t : Tally) (n : ℕ)
      → t.total ≡ u64 n
      → Distinct m
      → ((j : Bytes) → has j m ≡ true → has j t.block_power ≡ false)
      → IsRecorded t
      → IsRecorded (tally_votes bits vals m t)
  unfolding tally_votes
  tally_votes-IsRecorded [] t n e d fresh r = r
  tally_votes-IsRecorded ((h, p) ∷ m) t n e d fresh r =
      let v = voted_power vals (bits p) in
      let t' = record_block h (u64 (n + v)) (power_of p) t in
      let here : has h t.block_power ≡ false =
        fresh h (unfold lookup in ground (arith, bytes_eq_iff h h)) in
      subst (λ x. IsRecorded (tally_votes bits vals m x)) (sym (tally_block_lem h p t n e))
        (tally_votes-IsRecorded m t' (n + v) (unfold record_block in refl) d.1
          (λ j k. fresh_step h j p m t t' (unfold record_block in refl) d.0 k (fresh j))
          (record_block-IsRecorded h (u64 (n + v)) (power_of p) t here r))
