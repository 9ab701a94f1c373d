-- ===== src/Consensus/Summary.antt =====
-- The vote summary of a round as a specification (tm/tmconsensus/votesummary.go), and that the
-- loops meet it in whatever order the runtime visits the maps.
use mathlib.Core.List.{Permᴰ}
use gordian.Prelude.{
  ℕ, ◌≡◌, ◌≢◌, refl, sym, ap, ◌∙◌, ◌⊎◌, inl, inr, Bool, List, [], ◌∷◌, u64, Bytes,
  bytes_leb_antisymm, bytes_key, Map, get_or, lookup, Distinct, Distinct-perm, lookup-perm, Option,
  none, some, arith, Option-cases,
}
use gordian.Consensus.Types.{Validator}
use gordian.Consensus.VoteSummary.{
  VoteSummary, empty_tally, tally_votes, set_prevote_powers, set_precommit_powers, set_vote_powers,
}
use gordian.Consensus.Tally.{
  Leads, power_of, all_powers, tally_votes_total, lookup-tally_votes, tally_votes-Leads,
  tally_votes-IsRecorded,
}

-- What a summary of the votes `m` must say: the total, the power of each block, and a most voted
-- hash that leads every block that has votes and is the nil hash when nothing has power.
pub record Summarises {P : Type 0} (bits : P → List Bool) (vals : List Validator) (m : Map Bytes P)
    (total : ℕ) (powers : Map Bytes ℕ) (most_voted : Bytes) : Type 0 where
  pub whole : total ≡ u64 (all_powers bits vals m)
  pub each :
      (h : Bytes)
      → lookup h powers ≡ elim (lookup h m) [ none ↦ none | some p ↦ some (power_of bits vals p) ]
  pub leader :
      (h : Bytes) (p : P)
      → lookup h m ≡ some p
      → Leads (get_or powers most_voted 0) most_voted (power_of bits vals p) h
  pub no_power : (get_or powers most_voted 0 ≢ 0) ⊎ (most_voted ≡ [])

module _ {P : Type 0} (bits : P → List Bool) (vals : List Validator) where
  tally-Summarises :
      (m : Map Bytes P)
      → Distinct m
      → let t = tally_votes bits vals m empty_tally in
        Summarises bits vals m t.total t.block_power t.max_hash
  unfolding lookup
  tally-Summarises m d =
      let t = tally_votes bits vals m empty_tally in
      let r =
        tally_votes-IsRecorded bits vals m empty_tally 0 refl d (λ j k. refl) (refl, λ z. refl) in
      let l = tally_votes-Leads bits vals m empty_tally 0 refl in
      record {
        whole = tally_votes_total bits vals m empty_tally 0 refl ∙ ap u64 (omega arith);
        each = λ h. lookup-tally_votes bits vals h m empty_tally 0 refl d;
        leader = λ h p k. ground (arith, l.1 h p k, r.0);
        no_power = ground (arith, r.0, r.1);
      }

  -- `SetVotePowers` on maps with distinct keys meets the specification for the prevotes and for
  -- the precommits, and keeps the available power.
  pub set_vote_powers-Summarises :
      (vs : VoteSummary) (prevotes precommits : Map Bytes P)
      → Distinct prevotes
      → Distinct precommits
      → let s = set_vote_powers bits vs vals prevotes precommits in
        Summarises bits vals prevotes s.total_prevote_power s.prevote_block_power
          s.most_voted_prevote_hash
        × Summarises bits vals precommits s.total_precommit_power s.precommit_block_power
            s.most_voted_precommit_hash
        × (s.available_power ≡ vs.available_power)
  unfolding set_vote_powers set_prevote_powers set_precommit_powers
  set_vote_powers-Summarises vs prevotes precommits d d' =
      (tally-Summarises prevotes d, tally-Summarises precommits d', refl)

  -- A hash that has power is one of the blocks voted for.
  winner-Leads :
      (m m' : Map Bytes P) (n n' : ℕ) (ps ps' : Map Bytes ℕ) (w w' : Bytes)
      → ((h : Bytes) → lookup h m ≡ lookup h m')
      → Summarises bits vals m n ps w
      → Summarises bits vals m' n' ps' w'
      → (get_or ps w 0 ≡ 0) ⊎ Leads (get_or ps' w' 0) w' (get_or ps w 0) w
  winner-Leads m m' n n' ps ps' w w' same s s' = elim (Option-cases (lookup w m)) [
    | inl e ↦ inl (ground (arith, s.each w))
    | inr (p, e) ↦ inr (ground (arith, s.each w, same w, s'.leader w p))
  ]

  -- Two summaries of the same map agree, however its entries are listed.
  same_summary :
      (m m' : Map Bytes P) (n n' : ℕ) (ps ps' : Map Bytes ℕ) (w w' : Bytes)
      → ((h : Bytes) → lookup h m ≡ lookup h m')
      → Summarises bits vals m n ps w
      → Summarises bits vals m' n' ps' w'
      → w ≡ w'
  same_summary m m' n n' ps ps' w w' same s s' = ground (
    arith,
    winner-Leads m m' n n' ps ps' w w' same s s',
    winner-Leads m' m n' n ps' ps w' w (λ h. sym (same h)) s' s,
    bytes_leb_antisymm w w',
    s.no_power,
    s'.no_power,
  )

  all_powers-perm :
      {m m' : Map Bytes P} → Permᴰ m m' → all_powers bits vals m ≡ all_powers bits vals m'
  all_powers-perm Permᴰ.nil = refl
  all_powers-perm (Permᴰ.cons {a} {b} {l₁} {l₂} q p) =
      ap (λ x. all_powers bits vals (x ∷ l₁)) q ∙ omega (arith, all_powers-perm p)
  all_powers-perm (Permᴰ.swap {a} {b} {a'} {b'} {l} q r) =
      ap (λ x. all_powers bits vals (x ∷ b ∷ l)) q
      ∙ (ap (λ x. all_powers bits vals (b' ∷ x ∷ l)) r ∙ omega arith)
  all_powers-perm (Permᴰ.trans p p') = all_powers-perm p ∙ all_powers-perm p'

  -- Whatever order the runtime visits the prevotes in, the summary has the same total, the same
  -- power for each block and the same most voted hash.
  pub set_prevote_powers_any_order :
      (vs : VoteSummary) (m m' : Map Bytes P)
      → Permᴰ m m'
      → Distinct m
      → let s = set_prevote_powers bits vs vals m in
        let s' = set_prevote_powers bits vs vals m' in
        (s.total_prevote_power ≡ s'.total_prevote_power)
        × ((h : Bytes) → lookup h s.prevote_block_power ≡ lookup h s'.prevote_block_power)
        × (s.most_voted_prevote_hash ≡ s'.most_voted_prevote_hash)
  unfolding set_prevote_powers
  set_prevote_powers_any_order vs m m' p d =
      let s = tally-Summarises m d in
      let s' = tally-Summarises m' (Distinct-perm p d) in
      (
        s.whole ∙ (ap u64 (all_powers-perm p) ∙ sym s'.whole),
        λ h.
            s.each h
            ∙ (ap (λ (o : Option P). elim o [ none ↦ none | some q ↦ some (power_of bits vals q) ])
                  (lookup-perm h p d)
                ∙ sym (s'.each h)),
        same_summary m m' _ _ _ _ _ _ (λ h. lookup-perm h p d) s s',
      )
