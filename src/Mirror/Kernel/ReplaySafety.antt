-- ===== src/Mirror/Kernel/ReplaySafety.antt =====
-- When a replayed header is accepted, and what a refused one leaves (`handleReplayedHeader` in
-- kernel.go).
use gordian.Prelude.{
  ℕ, ◌*◌, ◌^◌, ◌<◌, ◌≡◌, refl, sym, subst, ap, ◌∙◌, Bool, true, false, [], ◌∷◌, ◌++◌, Bytes,
  bytes_eq, bytes_eq_iff, bytes_key, contains_func, Map, lookup, Option, none, some, if◌then◌else◌,
  ltb, not, ◌==◌, arith,
}
use gordian.Consensus.Types.{Header, CommitProof}
use gordian.Consensus.Math.{byzantine_majority, byzantine_majority_least}
use gordian.Mirror.KState.{KState, jump_voting_round}
use gordian.Mirror.Kernel.World.{
  SignatureProofs, Env, World, Outcome, done, failed, panic, call, save_round_replayed_header,
  map_to_sparse_signature_collection,
}
use gordian.Mirror.Kernel.Shift.{jump, update_observers, check_voting_precommit_view_shift}
use gordian.Mirror.Kernel.Action.{ProofScheme}
use gordian.Mirror.Kernel.ReplayMerges.{ValidMerges, merge_replayed_lem}
use gordian.Mirror.Kernel.Replay.{
  ReplayEnv, out_of_sync, validation, internal, Replayed, replayed, rejected, replay_panic, Merged,
  merged, refused, no_validators, fake_ph, power_of, with_voting_headers, merge_replayed,
  store_replayed, shifted, replay_votes, replay_header, replay_merged, replay_in_round,
  replay_after, handle_replayed_header,
}

module _ {P : Type 0} where
  -- The views are as before, but for proposed headers of the voting view.
  pub record Untouched (s t : KState P) : Type 0 where
    pub same_committing : t.committing ≡ s.committing
    pub same_next_round : t.next_round ≡ s.next_round
    pub same_height : t.voting.height ≡ s.voting.height
    pub same_round : t.voting.round ≡ s.voting.round
    pub same_precommits : t.voting.precommit_proofs ≡ s.voting.precommit_proofs
    pub same_summary : t.voting.vote_summary ≡ s.voting.vote_summary

  Untouched-refl : (s : KState P) → Untouched s s
  Untouched-refl s = record {
    same_committing = refl;
    same_next_round = refl;
    same_height = refl;
    same_round = refl;
    same_precommits = refl;
    same_summary = refl;
  }

  -- The state in which a header is examined: after the jump, if its round is later.
  abbrev pub examined : ℕ → KState P → KState P
  examined round s = if ltb s.voting.round round then jump_voting_round s else s

  -- What holds of a result, if an accepted header stands for `A`.
  abbrev pub Judged : Type 0 → KState P → Replayed P → Type 0
  Judged A s (replayed w) = A
  Judged A s (rejected validation w) = Untouched s w.state
  Judged A s (rejected e w) = Unit {0}
  Judged A s replay_panic = Unit {0}

  option-Judged :
      {B : Type 0} (A : Type 0) (s : KState P) (o : Option B) (z : Replayed P) (f : B → Replayed P)
      → Judged A s z
      → ((b : B) → o ≡ some b → Judged A s (f b))
      → Judged A s (elim o [ none ↦ z | some b ↦ f b ])
  option-Judged A s none z f h k = h
  option-Judged A s (some b) z f h k = k b refl

  if-Judged :
      (A : Type 0) (s : KState P) (b : Bool) (o q : Replayed P)
      → (b ≡ true → Judged A s o)
      → (b ≡ false → Judged A s q)
      → Judged A s (if b then o else q)
  if-Judged A s true o q h k = h refl
  if-Judged A s false o q h k = k refl

module _ {P : Type 0} (proofs_of : SignatureProofs P) (scheme : ProofScheme P) (env : Env)
    (replay : ReplayEnv P) (header : Header) where
  -- The header hashes to its own hash; for each hash of the commit proof there is a proof of the
  -- voting view, or else a fresh one, for which all the signatures given are valid, and which they
  -- extend; and the proof so made for the header's hash holds more than two thirds of the power
  -- that is available in the state.
  abbrev pub Approved : KState P → CommitProof → Type 0
  Approved s proof =
      (replay.hash_block header ≡ some header.hash)
      × (temp : Map Bytes P) × ValidMerges proofs_of scheme env replay s header proof.round
          proof.proofs temp
      × (p : P) × (lookup header.hash temp ≡ some p)
      × (2 * s.voting.vote_summary.available_power
          < 3 * power_of header.validator_set.validators (proofs_of.bits p))

  shifted-Judged :
      (A : Type 0) (s : KState P) (o : Outcome P)
      → A
      → Judged A s (shifted proofs_of scheme env replay o)
  shifted-Judged A s (done w) a = a
  shifted-Judged A s (failed w) a = tt
  shifted-Judged A s panic a = tt

  store-Judged :
      (A : Type 0) (s : KState P) (round : ℕ) (temp : Map Bytes P) (w : World P)
      → A
      → Judged A s (store_replayed proofs_of scheme env replay header round temp w)
  unfolding store_replayed
  store-Judged A s round temp w a =
      option-Judged A s (map_to_sparse_signature_collection proofs_of _) replay_panic _ tt (λ c q.
        if-Judged A s replay.overwrite_round_precommit_proofs_fails _ _ (λ q. tt)
          (λ q. shifted-Judged A s (check_voting_precommit_view_shift proofs_of env _) a))

  votes-Judged :
      (A : Type 0) (s : KState P) (round : ℕ) (temp : Map Bytes P) (w : World P)
      → Untouched s w.state
      → s.voting.vote_summary.available_power < 2 ^ 64
      → ((p : P)
          → lookup header.hash temp ≡ some p
          → 2 * s.voting.vote_summary.available_power
            < 3 * power_of header.validator_set.validators (proofs_of.bits p)
          → A)
      → Judged A s (replay_votes proofs_of scheme env replay header round temp w)
  unfolding replay_votes
  votes-Judged A s round temp w u small k =
      option-Judged A s (lookup header.hash temp) replay_panic _ tt (λ p found.
        option-Judged A s (byzantine_majority w.state.voting.vote_summary.available_power)
          replay_panic _ tt
          (λ maj q.
            let n = s.voting.vote_summary.available_power in
            let pow = power_of header.validator_set.validators (proofs_of.bits p) in
            if-Judged A s (ltb pow maj) _ _ (λ below. u)
              (λ enough. store-Judged A s round temp w (
                k p found (
                  (byzantine_majority_least n maj pow small (rw u.same_summary at q)).0.0
                    (ground (arith, enough)))))))

  header-Judged :
      (A : Type 0) (s : KState P) (round : ℕ) (temp : Map Bytes P) (w : World P)
      → Untouched s w.state
      → s.voting.vote_summary.available_power < 2 ^ 64
      → ((p : P)
          → lookup header.hash temp ≡ some p
          → 2 * s.voting.vote_summary.available_power
            < 3 * power_of header.validator_set.validators (proofs_of.bits p)
          → A)
      → Judged A s (replay_header proofs_of scheme env replay header round temp w)
  unfolding replay_header
  header-Judged A s round temp w u small k =
      if-Judged A s
        (contains_func (λ ph. bytes_eq ph.header.hash header.hash) w.state.voting.proposed_headers)
        _ _ (λ q. votes-Judged A s round temp w u small k)
        (λ q.
          if-Judged A s replay.save_round_replayed_header_fails _ _ (λ q. tt)
            (λ q.
              votes-Judged A s round temp
                (with_voting_headers (w.state.voting.proposed_headers ++ fake_ph header round ∷ [])
                  (call (save_round_replayed_header header) w))
                (ground (arith, u)) small k))

  merged-Judged :
      (s : KState P) (proof : CommitProof) (m : Merged P) (w : World P)
      → w.state ≡ s
      → s.voting.vote_summary.available_power < 2 ^ 64
      → replay.hash_block header ≡ some header.hash
      → merge_replayed proofs_of scheme env replay s header proof.round proof.proofs ≡ m
      → Judged
          (Approved s proof)
          s
          (replay_merged proofs_of scheme env replay header proof.round m w)
  unfolding replay_merged
  merged-Judged s proof (merged temp) w same small h q =
      header-Judged (Approved s proof) s proof.round temp w
        (subst (Untouched s) (sym same) (Untouched-refl s)) small
        (λ p found power. (
          h,
          temp,
          merge_replayed_lem proofs_of scheme env replay s header proof.round proof.proofs temp q,
          p,
          found,
          power,
        ))
  merged-Judged s proof (refused validation) w same small h q =
      subst (Untouched s) (sym same) (Untouched-refl s)
  merged-Judged s proof (refused internal) w same small h q = tt
  merged-Judged s proof (refused (out_of_sync a b)) w same small h q = tt
  merged-Judged s proof no_validators w same small h q = tt

  in_round-Judged :
      (s : KState P) (proof : CommitProof) (w : World P)
      → w.state ≡ s
      → s.voting.vote_summary.available_power < 2 ^ 64
      → Judged (Approved s proof) s (replay_in_round proofs_of scheme env replay header proof w)
  unfolding replay_in_round
  in_round-Judged s proof w same small =
      let kept = subst (Untouched s) (sym same) (Untouched-refl s) in
      option-Judged (Approved s proof) s (replay.hash_block header) (rejected validation w) _ kept
        (λ hash q.
          if-Judged (Approved s proof) s (not (bytes_eq hash header.hash)) _ _ (λ q. kept)
            (λ equal.
              merged-Judged s proof _ w same small
                (q ∙ ap some ((bytes_eq_iff hash header.hash).0 (ground (arith, equal))))
                (ap
                  (λ t.
                    merge_replayed proofs_of scheme env replay t header proof.round proof.proofs)
                  (sym same))))

  after-Judged :
      (s : KState P) (proof : CommitProof) (o : Outcome P)
      → ((w : World P) → o ≡ done w → w.state ≡ s)
      → s.voting.vote_summary.available_power < 2 ^ 64
      → Judged (Approved s proof) s (replay_after proofs_of scheme env replay header proof o)
  unfolding replay_after
  after-Judged s proof (done w) same small = in_round-Judged s proof w (same w refl) small
  after-Judged s proof (failed w) same small = tt
  after-Judged s proof panic same small = tt

  entered :
      (round : ℕ) (w v : World P)
      → (if ltb w.state.voting.round round then jump env w else done w) ≡ done v
      → v.state ≡ examined round w.state
  unfolding jump update_observers
  entered round w v e = ground (arith, e)

  -- With less than 2^64 power available in the state in which a replayed header is examined, which
  -- is the state itself or, for a later round, the state after one jump. If the header is accepted,
  -- it hashes to its own hash, every signature of its commit proof was valid for the voting view's
  -- proof of its hash, or for a fresh one where the view has none, and the proof that these
  -- signatures extend for the header's hash holds more than two thirds of the available power. If
  -- it is refused as invalid, the committing view, the next round's view, the height, the round,
  -- the precommits and the summary of the voting view are those of the examined state.
  pub handle_replayed_header-Judged :
      (proof : CommitProof) (w : World P)
      → (examined proof.round w.state).voting.vote_summary.available_power < 2 ^ 64
      → Judged
          (Approved (examined proof.round w.state) proof)
          (examined proof.round w.state)
          (handle_replayed_header proofs_of scheme env replay header proof w)
  unfolding handle_replayed_header
  handle_replayed_header-Judged proof w small =
      let s = examined proof.round w.state in
      if-Judged (Approved s proof) s (not (header.height == w.state.voting.height)) _ _ (λ q. tt)
        (λ q.
          if-Judged (Approved s proof) s (ltb proof.round w.state.voting.round) _ _ (λ q. tt)
            (λ q. after-Judged s proof _ (entered proof.round w) small))
